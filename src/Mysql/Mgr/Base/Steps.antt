-- ===== src/Mysql/Mgr/Base/Steps.antt =====
-- MysqlMgr.cpp and MysqlBase.cpp: the steps of a job from its creation to its release.
use seed_core.Prelude.{
  ℕ, ◌≡◌, ◌⊎◌, Bool, true, false, List, [], ◌∷◌, ◌++◌, Option, Bytes, length, done,
}
use seed_core.Prelude.Int.{ℤ}
use seed_core.Mysql.{Client}
use seed_core.Mysql.Mgr.{Mgr, push_mysql_handler}
use seed_core.Mysql.Mgr.Base.{Handlers, on_execute, on_success, on_failed, on_release}

-- How far a job is: it waits for its thread, or was executed, or its handler was told how it ended.
pub data Phase : Type 0 where
  waiting : Phase
  executed : Bool → Phase
  told : Phase

-- The module and the jobs that are not yet released, each with its base.
pub record System (H : Type 0) (W : Type 0) (R : Type 0) : Type 0 where
  pub mgr : Mgr H W R
  pub live : List (ℕ × Phase)

module _ {H W R : Type 0} (client : Client H W R) (handlers : Handlers W R) where
  -- A call of the program, or of the kernel's queue for one of the jobs: each job is executed, or is
  -- not; then its handler is told; then it is released. The order of the jobs is free.
  pub data Step : System H W R → System H W R → Type 0 where
    push :
        (id : ℤ) (handler : Option ℕ) (name : Option Bytes) (m m' : Mgr H W R)
        (live : List (ℕ × Phase))
        → push_mysql_handler id handler name m ≡ done (true, m')
        → Step
            (record { mgr = m; live = live })
            (record { mgr = m'; live = live ++ (length m.bases, waiting) ∷ [] })
    refuse :
        (id : ℤ) (handler : Option ℕ) (name : Option Bytes) (m m' : Mgr H W R)
        (live : List (ℕ × Phase))
        → push_mysql_handler id handler name m ≡ done (false, m')
        → Step (record { mgr = m; live = live }) (record { mgr = m'; live = live })
    execute :
        (fuel a : ℕ) (ok : Bool) (m m' : Mgr H W R) (pre post : List (ℕ × Phase))
        → on_execute client handlers fuel a m ≡ done (ok, m')
        → Step
            (record { mgr = m; live = pre ++ (a, waiting) ∷ post })
            (record { mgr = m'; live = pre ++ (a, executed ok) ∷ post })
    succeed :
        (a : ℕ) (m m' : Mgr H W R) (pre post : List (ℕ × Phase))
        → on_success client handlers a m ≡ done m'
        → Step
            (record { mgr = m; live = pre ++ (a, executed true) ∷ post })
            (record { mgr = m'; live = pre ++ (a, told) ∷ post })
    fail :
        (a : ℕ) (phase : Phase) (m m' : Mgr H W R) (pre post : List (ℕ × Phase))
        → ((phase ≡ waiting) ⊎ (phase ≡ executed false))
        → on_failed client handlers a m ≡ done m'
        → Step
            (record { mgr = m; live = pre ++ (a, phase) ∷ post })
            (record { mgr = m'; live = pre ++ (a, told) ∷ post })
    release :
        (a : ℕ) (m m' : Mgr H W R) (pre post : List (ℕ × Phase))
        → on_release client handlers a m ≡ done m'
        → Step
            (record { mgr = m; live = pre ++ (a, told) ∷ post })
            (record { mgr = m'; live = pre ++ post })

  pub data Reach : System H W R → System H W R → Type 0 where
    start : (s : System H W R) → Reach s s
    later : (s t u : System H W R) → Reach s t → Step t u → Reach s u
