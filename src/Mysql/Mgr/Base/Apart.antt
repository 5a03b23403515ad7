-- ===== src/Mysql/Mgr/Base/Apart.antt =====
-- MysqlMgr.cpp and MysqlBase.cpp: jobs of different threads work on different connections.
use seed_core.Prelude.{
  ℕ, zero, suc, ◌+◌, ◌≡◌, ◌≢◌, refl, sym, ap, ◌∙◌, subst, Bool, true, false, List, [], ◌∷◌, Option,
  none, some, Bytes, length-set, get_elem?, set, done, done_injective, >>=-done,
}
use seed_core.Prelude.Int.{ℤ}
use seed_core.Mysql.{Client}
use seed_core.Mysql.Connection.{DbConnection}
use seed_core.Mysql.Result.{init}
use seed_core.Mysql.Mgr.{MysqlBase, Mgr, push_mysql_handler, on_base_release}
use seed_core.Mysql.Mgr.Loaded.{Entries}
use seed_core.Mysql.Mgr.Safety.{Jobs, IsSafe, push_mysql_handler-IsSafe}
use seed_core.Mysql.Mgr.Access.{deref}
use seed_core.Mysql.Mgr.Base.{
  Handlers, run_script, keep_result, with_base, on_execute, on_success, on_failed, on_release,
}
use seed_core.Mysql.Mgr.Base.Steps.{
  System, Step, push, refuse, execute, succeed, fail, release, Reach, start, later,
}

deref_lem : {A : Type 0} (o : Option A) (a : A) → deref o ≡ done a → o ≡ some a
unfolding deref
deref_lem none a e = cc
deref_lem (some b) a e = ap some (done_injective e)

-- A base that is written over by one with the same connection.
connection-set :
    {R : Type 0} (bases : List (MysqlBase R)) (a i : ℕ) (old new b : MysqlBase R)
    → get_elem? bases a ≡ some old
    → new.connection ≡ old.connection
    → get_elem? bases i ≡ some b
    → (c : MysqlBase R) × (get_elem? (set bases a new) i ≡ some c) × (c.connection ≡ b.connection)
connection-set [] a i old new b h same e = cc
connection-set (x ∷ xs) zero zero old new b h same e =
    let of : Option (MysqlBase _) → MysqlBase _ = λ o. elim o [ none ↦ x | some y ↦ y ] in
    (new, refl, same ∙ ap (λ (y : MysqlBase _). y.connection) (sym (ap of h) ∙ ap of e))
connection-set (x ∷ xs) zero (suc i) old new b h same e = (b, e, refl)
connection-set (x ∷ xs) (suc a) zero old new b h same e = (b, e, refl)
connection-set (x ∷ xs) (suc a) (suc i) old new b h same e =
    connection-set xs a i old new b h same e

Jobs-set :
    {R : Type 0} (owner : ℕ → ℕ) (workers : ℕ) (bases : List (MysqlBase R)) (jobs : List (ℕ × ℕ))
    (a : ℕ) (old new : MysqlBase R)
    → get_elem? bases a ≡ some old
    → new.connection ≡ old.connection
    → Jobs owner workers bases jobs
    → Jobs owner workers (set bases a new) jobs
Jobs-set owner workers bases [] a old new h same j = tt
Jobs-set owner workers bases ((t, i) ∷ jobs) a old new h same ((b, at, own, some_, le), j) =
    let (c, e, f) = connection-set bases a i old new b h same at in
    ((c, e, ap owner f ∙ own, some_, le), Jobs-set owner workers bases jobs a old new h same j)

module _ {H W R : Type 0} (client : Client H W R) where
  keep_result-connection :
      (fuel : ℕ) (b b' : MysqlBase R) (r : Bool × DbConnection H × W) (ret : Bool)
      (c : DbConnection H) (w : W)
      → keep_result client fuel b r ≡ done (ret, b', c, w)
      → b'.connection ≡ b.connection
  unfolding keep_result
  keep_result-connection fuel b b' (true, c0, w0) ret c w e =
      let (res, f, g) = >>=-done (init client fuel c0.handler b.result) _ (ret, b', c, w) e in
      ap (λ (p : Bool × MysqlBase R × DbConnection H × W). p.1.connection) (sym (done_injective g))
  keep_result-connection fuel b b' (false, c0, w0) ret c w e =
      ap (λ (p : Bool × MysqlBase R × DbConnection H × W). p.1.connection) (sym (done_injective e))

module _ {H W R : Type 0} where
  -- Only the world is another.
  world-IsSafe : (m : Mgr H W R) (w : W) → IsSafe m → IsSafe (record m { world = w })
  world-IsSafe m w s = record {
    loaded = record {
      workers = s.loaded.workers;
      counted = s.loaded.counted;
      owner = s.loaded.owner;
      entries = s.loaded.entries;
      main = s.loaded.main;
    };
    some_worker = s.some_worker;
    small = s.small;
    jobs = s.jobs;
  }

  on_base_release-IsSafe : (m : Mgr H W R) → IsSafe m → IsSafe (on_base_release m)
  unfolding on_base_release
  on_base_release-IsSafe m s = record {
    loaded = record {
      workers = s.loaded.workers;
      counted = s.loaded.counted;
      owner = s.loaded.owner;
      entries = s.loaded.entries;
      main = s.loaded.main;
    };
    some_worker = s.some_worker;
    small = s.small;
    jobs = s.jobs;
  }

  set-IsSafe :
      (m : Mgr H W R) (a p : ℕ) (old new : MysqlBase R) (c : DbConnection H) (w : W)
      → get_elem? m.bases a ≡ some old
      → new.connection ≡ old.connection
      → IsSafe m
      → IsSafe
          (record m { bases = set m.bases a new; connections = set m.connections p c; world = w })
  set-IsSafe m a p old new c w at same s = record {
    loaded = record {
      workers = s.loaded.workers;
      counted = s.loaded.counted;
      owner = s.loaded.owner;
      entries =
          subst (λ n. Entries s.loaded.owner n (s.loaded.workers + 1) m.connection_map)
            (sym (length-set m.connections p c)) s.loaded.entries;
      main = s.loaded.main;
    };
    some_worker = s.some_worker;
    small = s.small;
    jobs = Jobs-set s.loaded.owner s.loaded.workers m.bases m.started a old new at same s.jobs;
  }

module _ {H W R : Type 0} (client : Client H W R) (handlers : Handlers W R) where
  on_execute-IsSafe :
      (m m' : Mgr H W R) (fuel a : ℕ) (ok : Bool)
      → on_execute client handlers fuel a m ≡ done (ok, m')
      → IsSafe m
      → IsSafe m'
  unfolding on_execute with_base
  on_execute-IsSafe m m' fuel a ok e s =
      let (b, e1, f1) = >>=-done (deref (get_elem? m.bases a)) _ (ok, m') e in
      let (c, e2, f2) = >>=-done (deref (get_elem? m.connections b.connection)) _ (ok, m') f1 in
      let (r, e3, f3) =
        >>=-done
          (run_script client fuel (handlers.exec_sql b.mysql_handler m.world) false c m.world) _
          (ok, m') f2 in
      let ((ret, b', c', w), e4, f4) = >>=-done (keep_result client fuel b r) _ (ok, m') f3 in
      subst (λ (p : Bool × Mgr H W R). IsSafe p.1) (done_injective f4)
        (set-IsSafe m a b.connection b b' c' w (deref_lem (get_elem? m.bases a) b e1)
          (keep_result-connection client fuel b b' r ret c' w e4) s)

  on_success-IsSafe :
      (m m' : Mgr H W R) (a : ℕ) → on_success client handlers a m ≡ done m' → IsSafe m → IsSafe m'
  unfolding on_success
  on_success-IsSafe m m' a e s =
      let (b, e1, f1) = >>=-done (deref (get_elem? m.bases a)) _ m' e in
      subst IsSafe (done_injective f1) (world-IsSafe m _ s)

  on_failed-IsSafe :
      (m m' : Mgr H W R) (a : ℕ) → on_failed client handlers a m ≡ done m' → IsSafe m → IsSafe m'
  unfolding on_failed
  on_failed-IsSafe m m' a e s =
      let (b, e1, f1) = >>=-done (deref (get_elem? m.bases a)) _ m' e in
      subst IsSafe (done_injective f1) (world-IsSafe m _ s)

  on_release-IsSafe :
      (m m' : Mgr H W R) (a : ℕ) → on_release client handlers a m ≡ done m' → IsSafe m → IsSafe m'
  unfolding on_release
  on_release-IsSafe m m' a e s =
      let (b, e1, f1) = >>=-done (deref (get_elem? m.bases a)) _ m' e in
      subst IsSafe (done_injective f1)
        (world-IsSafe (on_base_release m) _ (on_base_release-IsSafe m s))

  pushed-IsSafe :
      (id : ℤ) (handler : Option ℕ) (name : Option Bytes) (m m' : Mgr H W R) (ok : Bool)
      → push_mysql_handler id handler name m ≡ done (ok, m')
      → IsSafe m
      → IsSafe m'
  pushed-IsSafe id handler name m m' ok e s =
      let (ok', m'', ran, safe) = push_mysql_handler-IsSafe m s id handler name in
      subst (λ (p : Bool × Mgr H W R). IsSafe p.1) (done_injective (sym ran ∙ e)) safe

  Step-IsSafe : (s t : System H W R) → Step client handlers s t → IsSafe s.mgr → IsSafe t.mgr
  Step-IsSafe s t (push id handler name m m' live e) h = pushed-IsSafe id handler name m m' true e h
  Step-IsSafe s t (refuse id handler name m m' live e) h =
      pushed-IsSafe id handler name m m' false e h
  Step-IsSafe s t (execute fuel a ok m m' pre post e) h = on_execute-IsSafe m m' fuel a ok e h
  Step-IsSafe s t (succeed a m m' pre post e) h = on_success-IsSafe m m' a e h
  Step-IsSafe s t (fail a phase m m' pre post how e) h = on_failed-IsSafe m m' a e h
  Step-IsSafe s t (release a m m' pre post e) h = on_release-IsSafe m m' a e h

  reached-IsSafe : (s t : System H W R) → Reach client handlers s t → IsSafe s.mgr → IsSafe t.mgr
  reached-IsSafe s t (start r) h = h
  reached-IsSafe s t (later r u v before last) h =
      Step-IsSafe u v last (reached-IsSafe r u before h)

Jobs-at :
    {R : Type 0} (owner : ℕ → ℕ) (workers : ℕ) (bases : List (MysqlBase R)) (jobs : List (ℕ × ℕ))
    (i t a : ℕ) (b : MysqlBase R)
    → Jobs owner workers bases jobs
    → get_elem? jobs i ≡ some (t, a)
    → get_elem? bases a ≡ some b
    → owner b.connection ≡ t
Jobs-at owner workers bases [] i t a b j e f = cc
Jobs-at owner workers bases ((u, c) ∷ jobs) zero t a b ((x, at, own, some_, le), j) e f =
    let same : (u, c) ≡ (t, a) = ap (λ o. elim o [ none ↦ (u, c) | some p ↦ p ]) e in
    let at' : get_elem? bases a ≡ some x =
      ap (λ (p : ℕ × ℕ). get_elem? bases p.1) (sym same) ∙ at in
    let x≡b = ap (λ (o : Option (MysqlBase _)). elim o [ none ↦ x | some y ↦ y ]) (sym at' ∙ f) in
    ap (λ (y : MysqlBase _). owner y.connection) (sym x≡b) ∙ own ∙ ap (λ (p : ℕ × ℕ). p.0) same
Jobs-at owner workers bases ((u, c) ∷ jobs) (suc i) t a b (first, j) e f =
    Jobs-at owner workers bases jobs i t a b j e f

module _ {H W R : Type 0} (client : Client H W R) (handlers : Handlers W R) where
  -- Every state that the module reaches from one that is loaded with at least one worker and fewer
  -- than 2^31, each of whose jobs works on a connection that the job's thread owns, by any order of
  -- calls of PushMysqlHandler and of the queue's calls for its jobs: two jobs that were started in
  -- different threads have different connections.
  pub reached_apart :
      (s t : System H W R)
      → IsSafe s.mgr
      → Reach client handlers s t
      → (i j u v a b : ℕ) (x y : MysqlBase R) → get_elem? t.mgr.started i ≡ some (u, a)
      → get_elem? t.mgr.started j ≡ some (v, b)
      → get_elem? t.mgr.bases a ≡ some x
      → get_elem? t.mgr.bases b ≡ some y
      → u ≢ v
      → x.connection ≢ y.connection
  reached_apart s t safe reach i j u v a b x y ei ej ea eb differ e =
      let h = reached-IsSafe client handlers s t reach safe in
      let owns = Jobs-at h.loaded.owner h.loaded.workers t.mgr.bases t.mgr.started in
      differ (sym (owns i u a x h.jobs ei ea) ∙ ap h.loaded.owner e ∙ owns j v b y h.jobs ej eb)
