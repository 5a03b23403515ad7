-- ===== src/Mysql/Mgr/Base/Counts.antt =====
-- MysqlMgr.cpp and MysqlBase.cpp: the jobs of the module from their creation to their release.
use seed_core.Prelude.{
  ℕ, ◌+◌, ◌≡◌, refl, sym, ap, ◌∙◌, subst, Bool, true, false, List, [], ◌∷◌, ◌++◌, Option, none,
  some, Bytes, arith, length, length-append, length-set, get_elem?, done, done_injective, ◌>>=◌,
  >>=-done,
}
use seed_core.Prelude.Int.{ℤ, pos, to_s32, to_s32-inc, to_s32-pos, inc}
use seed_core.Mysql.{Client}
use seed_core.Mysql.Mgr.{
  MysqlBase, Mgr, connection_thread_idx, get_db_connection, new_base, push_base, push_unused,
  push_mysql_handler, on_base_release,
}
use seed_core.Mysql.Mgr.Access.{deref}
use seed_core.Mysql.Mgr.Base.Steps.{
  Phase, waiting, told, System, Step, push, refuse, execute, succeed, fail, release, Reach, start,
  later,
}
use seed_core.Mysql.Mgr.Base.{
  Handlers, run_script, keep_result, with_base, on_execute, on_success, on_failed, on_release,
}

-- The counters follow the jobs: those that were created, and those that were released.
pub record Counted {H W R : Type 0} (s : System H W R) : Type 0 where
  pub released : ℕ
  pub all : length s.mgr.bases ≡ released + length s.live
  pub creates : s.mgr.create_base_count ≡ to_s32 (pos (length s.mgr.bases))
  pub releases : s.mgr.release_base_count ≡ to_s32 (pos released)

-- The counters and the number of bases are those of `m`, with `c` and `r` more.
record Adds {H W R : Type 0} (m m' : Mgr H W R) (c r : ℕ) : Type 0 where
  bases : length m'.bases ≡ length m.bases + c
  creates :
      (k : ℕ) → m.create_base_count ≡ to_s32 (pos k) → m'.create_base_count ≡ to_s32 (pos (k + c))
  releases :
      (k : ℕ) → m.release_base_count ≡ to_s32 (pos k) → m'.release_base_count ≡ to_s32 (pos (k + r))

Adds-Counted :
    {H W R : Type 0} (m m' : Mgr H W R) (live live' : List (ℕ × Phase)) (c r : ℕ)
    → Adds m m' c r
    → length live + c ≡ length live' + r
    → Counted (record { mgr = m; live = live })
    → Counted (record { mgr = m'; live = live' })
Adds-Counted m m' live live' c r adds e h = record {
  released = h.released + r;
  all = omega (arith, adds.bases, h.all, e);
  creates =
      subst (λ k. m'.create_base_count ≡ to_s32 (pos k)) (sym adds.bases)
        (adds.creates (length m.bases) h.creates);
  releases = adds.releases h.released h.releases;
}

Adds-none :
    {H W R : Type 0} (m m' : Mgr H W R)
    → length m'.bases ≡ length m.bases
    → m'.create_base_count ≡ m.create_base_count
    → m'.release_base_count ≡ m.release_base_count
    → Adds m m' 0 0
Adds-none m m' b c r = record {
  bases = omega (arith, b);
  creates = λ k e. c ∙ e ∙ ap (λ n. to_s32 (pos n)) (omega arith);
  releases = λ k e. r ∙ e ∙ ap (λ n. to_s32 (pos n)) (omega arith);
}

created : Bool → ℕ
created true = 1
created false = 0

module _ {H W R : Type 0} (m : Mgr H W R) where
  push_base-Adds :
      (h t : ℕ) (o : Option ℕ) (ok : Bool) (m' : Mgr H W R)
      → push_base h t m o ≡ done (ok, m')
      → Adds m m' (created ok) 0
  unfolding push_base created
  push_base-Adds h t none ok m' e =
      let f = done_injective e in
      subst (λ (p : Bool × Mgr H W R). Adds m p.1 (created p.0) 0) f (Adds-none m m refl refl refl)
  push_base-Adds h t (some p) ok m' e =
      let f = done_injective e in
      subst (λ (p : Bool × Mgr H W R). Adds m p.1 (created p.0) 0) f
        (record {
          bases = length-append m.bases (new_base p h ∷ []);
          creates = λ k g. ap (λ v. to_s32 (inc v)) g ∙ to_s32-inc k;
          releases = λ k g. g ∙ ap (λ n. to_s32 (pos n)) (omega arith);
        })

  push_mysql_handler-Adds :
      (id : ℤ) (handler : Option ℕ) (name : Option Bytes) (ok : Bool) (m' : Mgr H W R)
      → push_mysql_handler id handler name m ≡ done (ok, m')
      → Adds m m' (created ok) 0
  unfolding push_mysql_handler
  push_mysql_handler-Adds id none name ok m' e =
      subst (λ (p : Bool × Mgr H W R). Adds m p.1 (created p.0) 0) (done_injective e)
        (unfold created in Adds-none m m refl refl refl)
  push_mysql_handler-Adds id (some h) name ok m' e = used (m.get_base h) e
    where
      used : (b : Option ℕ) → push_unused id h name m b ≡ done (ok, m') → Adds m m' (created ok) 0
      used (some b) f =
          subst (λ (p : Bool × Mgr H W R). Adds m p.1 (created p.0) 0)
            (done_injective (unfold push_unused in f))
            (unfold created in Adds-none m m refl refl refl)
      used none f =
          let (t, at, g) =
            >>=-done (connection_thread_idx id m.async_connection_num)
              (λ t. get_db_connection t name m >>= push_base h t m) (ok, m')
              (unfold push_unused in f) in
          let (o, at', g') = >>=-done (get_db_connection t name m) (push_base h t m) (ok, m') g in
          push_base-Adds h t o ok m' g'

module _ {H W R : Type 0} (client : Client H W R) (handlers : Handlers W R) (m : Mgr H W R) where
  on_execute-Adds :
      (fuel a : ℕ) (ok : Bool) (m' : Mgr H W R)
      → on_execute client handlers fuel a m ≡ done (ok, m')
      → Adds m m' 0 0
  unfolding on_execute with_base
  on_execute-Adds fuel a ok m' e =
      let (b, e1, f1) = >>=-done (deref (get_elem? m.bases a)) _ (ok, m') e in
      let (c, e2, f2) = >>=-done (deref (get_elem? m.connections b.connection)) _ (ok, m') f1 in
      let (r, e3, f3) =
        >>=-done
          (run_script client fuel (handlers.exec_sql b.mysql_handler m.world) false c m.world) _
          (ok, m') f2 in
      let ((ret, b', c', w), e4, f4) = >>=-done (keep_result client fuel b r) _ (ok, m') f3 in
      subst (λ (p : Bool × Mgr H W R). Adds m p.1 0 0) (done_injective f4)
        (Adds-none m _ (length-set m.bases a b') refl refl)

  on_success-Adds :
      (a : ℕ) (m' : Mgr H W R) → on_success client handlers a m ≡ done m' → Adds m m' 0 0
  unfolding on_success
  on_success-Adds a m' e =
      let (b, e1, f1) = >>=-done (deref (get_elem? m.bases a)) _ m' e in
      subst (λ v. Adds m v 0 0) (done_injective f1) (Adds-none m _ refl refl refl)

  on_failed-Adds :
      (a : ℕ) (m' : Mgr H W R) → on_failed client handlers a m ≡ done m' → Adds m m' 0 0
  unfolding on_failed
  on_failed-Adds a m' e =
      let (b, e1, f1) = >>=-done (deref (get_elem? m.bases a)) _ m' e in
      subst (λ v. Adds m v 0 0) (done_injective f1) (Adds-none m _ refl refl refl)

  on_release-Adds :
      (a : ℕ) (m' : Mgr H W R) → on_release client handlers a m ≡ done m' → Adds m m' 0 1
  unfolding on_release on_base_release
  on_release-Adds a m' e =
      let (b, e1, f1) = >>=-done (deref (get_elem? m.bases a)) _ m' e in
      subst (λ v. Adds m v 0 1) (done_injective f1)
        (record {
          bases = omega arith;
          creates = λ k g. g ∙ ap (λ n. to_s32 (pos n)) (omega arith);
          releases = λ k g. ap (λ v. to_s32 (inc v)) g ∙ to_s32-inc k;
        })

replaced :
    (pre post : List (ℕ × Phase)) (x y : ℕ × Phase)
    → length (pre ++ x ∷ post) + 0 ≡ length (pre ++ y ∷ post) + 0
replaced pre post x y = omega (arith, length-append pre (x ∷ post), length-append pre (y ∷ post))

module _ {H W R : Type 0} (client : Client H W R) (handlers : Handlers W R) where
  Step-Counted : (s t : System H W R) → Step client handlers s t → Counted s → Counted t
  Step-Counted s t (push id handler name m m' live e) h =
      Adds-Counted m m' live (live ++ (length m.bases, waiting) ∷ []) 1 0
        (unfold created in push_mysql_handler-Adds m id handler name true m' e)
        (omega (arith, length-append live ((length m.bases, waiting) ∷ []))) h
  Step-Counted s t (refuse id handler name m m' live e) h =
      Adds-Counted m m' live live 0 0
        (unfold created in push_mysql_handler-Adds m id handler name false m' e) (omega arith) h
  Step-Counted s t (execute fuel a ok m m' pre post e) h =
      Adds-Counted m m' _ _ 0 0 (on_execute-Adds client handlers m fuel a ok m' e)
        (replaced pre post _ _) h
  Step-Counted s t (succeed a m m' pre post e) h =
      Adds-Counted m m' _ _ 0 0 (on_success-Adds client handlers m a m' e) (replaced pre post _ _) h
  Step-Counted s t (fail a phase m m' pre post how e) h =
      Adds-Counted m m' _ _ 0 0 (on_failed-Adds client handlers m a m' e) (replaced pre post _ _) h
  Step-Counted s t (release a m m' pre post e) h =
      Adds-Counted m m' _ (pre ++ post) 0 1 (on_release-Adds client handlers m a m' e)
        (omega (arith, length-append pre ((a, told) ∷ post), length-append pre post)) h

  Reach-Counted : (s t : System H W R) → Reach client handlers s t → Counted s → Counted t
  Reach-Counted s t (start r) h = h
  Reach-Counted s t (later r u v before last) h = Step-Counted u v last (Reach-Counted r u before h)

  -- Every state that the module reaches from one without jobs, in which both counters are zero, by any
  -- order of calls of PushMysqlHandler and of the queue's calls for its jobs: the counter of creations
  -- is the number of all bases, the counter of releases is the number of the released ones, both as
  -- 32 bits hold them, and the two numbers differ by the jobs that are still live.
  pub reached-Counted :
      (m : Mgr H W R) (t : System H W R)
      → m.bases ≡ []
      → m.create_base_count ≡ pos 0
      → m.release_base_count ≡ pos 0
      → Reach client handlers (record { mgr = m; live = [] }) t
      → Counted t
  reached-Counted m t none_yet creates releases r =
      let zero_ : to_s32 (pos 0) ≡ pos 0 = to_s32-pos 0 (omega arith) in
      Reach-Counted _ t r (record {
        released = 0;
        all = ap length none_yet;
        creates =
            creates
            ∙ sym zero_
            ∙ ap (λ (bs : List (MysqlBase R)). to_s32 (pos (length bs))) (sym none_yet);
        releases = releases ∙ sym zero_;
      })
