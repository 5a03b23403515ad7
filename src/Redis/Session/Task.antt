-- ===== src/Redis/Session/Task.antt =====
-- RedisMgr.cpp, OnExecRedisTask over a server that keeps data.
use seed_core.Prelude.{
  ℕ, zero, suc, ◌≤◌, ◌≡◌, refl, sym, ap, ◌∙◌, subst, false, List, [], ◌∷◌, ◌++◌, some, Bytes,
  length, Run, done, ◌>>=◌, get_elem?, set, arith, get_elem?_in_range, length-set,
}
use seed_core.Prelude.Int.{ℤ}
use seed_core.Redis.Builder.{Builder}
use seed_core.Redis.Transport.{Context}
use seed_core.Redis.Transport.Write.{Accepts}
use seed_core.Redis.Mgr.{Connection, Mgr, Host, Cmds, set_ctx, with_ctx}
use seed_core.Redis.Mgr.Resend.{at_some}
use seed_core.Redis.Async.{exec_batch, set_post_task, on_exec_redis_task}
use seed_core.Redis.Async.Batches.{flatten, run_all, Bounded}
use seed_core.Redis.Reply.{Reply}
use seed_core.Redis.Async.Task.{taken, on_exec_redis_task_lem}
use seed_core.Redis.Session.{Answer, Session}
use seed_core.Redis.Session.Served.{Connected}
use seed_core.Redis.Session.Batches.{Carry, answer_all, replies_all, AllShort, batch_session}

Carry-append :
    (fuel : ℕ) (bs cs : List Builder) (argss : List (List Bytes))
    → Carry fuel (bs ++ cs) argss
    → (xs : List (List Bytes)) × (ys : List (List Bytes)) × (argss ≡ xs ++ ys)
      × Carry fuel bs xs
      × Carry fuel cs ys
Carry-append fuel [] cs argss h = ([], argss, refl, tt, h)
Carry-append fuel (b ∷ bs) cs [] h = absurd h
Carry-append fuel (b ∷ bs) cs (args ∷ argss) (h, small, enough, hs) =
    let (xs, ys, e, hx, hy) = Carry-append fuel bs cs argss hs in
    (args ∷ xs, ys, ap (◌∷◌ args) e, (h, small, enough, hx), hy)

answer_all-append :
    {D : Type 0} (answer : Answer D) (xs ys : List (List Bytes)) (d : D)
    → answer_all answer (xs ++ ys) d ≡ answer_all answer ys (answer_all answer xs d)
answer_all-append answer [] ys d = refl
answer_all-append answer (args ∷ xs) ys d = answer_all-append answer xs ys (answer args d).1

AllShort-append :
    {D : Type 0} (size : Reply → ℕ) (n : ℕ) (answer : Answer D) (xs ys : List (List Bytes)) (d : D)
    → AllShort size n (replies_all answer (xs ++ ys) d)
    → AllShort size n (replies_all answer xs d)
      × AllShort size n (replies_all answer ys (answer_all answer xs d))
AllShort-append size n answer [] ys d h = (tt, h)
AllShort-append size n answer (args ∷ xs) ys d (h, hs) =
    let (hx, hy) = AllShort-append size n answer xs ys (answer args d).1 hs in ((h, hx), hy)

module _ {S Q : Type 0} where
  length-set_ctx :
      (xs : List (Connection S Q)) (i : ℕ) (c : Context S) → length (set_ctx xs i c) ≡ length xs
  unfolding set_ctx
  length-set_ctx [] i c = refl
  length-set_ctx (x ∷ xs) zero c = refl
  length-set_ctx (x ∷ xs) (suc i) c = ap suc (length-set_ctx xs i c)

  in_range :
      (xs : List (Connection S Q)) (k : ℕ) (y : Connection S Q)
      → get_elem? xs k ≡ some y
      → suc k ≤ length xs
  in_range [] k y h = cc
  in_range (x ∷ xs) zero y h = omega arith
  in_range (x ∷ xs) (suc k) y h = omega (arith, in_range xs k y h)

  -- A write that keeps the context at its place keeps it at every place.
  get_elem?-set_same :
      (xs : List (Connection S Q)) (i k : ℕ) (x y z : Connection S Q)
      → get_elem? xs i ≡ some x
      → get_elem? xs k ≡ some y
      → z.ctx ≡ y.ctx
      → (x' : Connection S Q) × (get_elem? (set xs k z) i ≡ some x') × (x'.ctx ≡ x.ctx)
  get_elem?-set_same [] i k x y z h g e = cc
  get_elem?-set_same (w ∷ xs) zero zero x y z h g e = (z, refl, ground (arith, e))
  get_elem?-set_same (w ∷ xs) zero (suc k) x y z h g e = (w, refl, ground arith)
  get_elem?-set_same (w ∷ xs) (suc i) zero x y z h g e = (x, h, refl)
  get_elem?-set_same (w ∷ xs) (suc i) (suc k) x y z h g e = get_elem?-set_same xs i k x y z h g e

module _ {S E Q : Type 0} (host : Host S E Q) {live : S → Type 0} {D : Type 0} {answer : Answer D}
    (p : Session host.net live answer) (a : Accepts host.net live) where
  Connected-set :
      (m : Mgr S E Q) (t : ℤ) (i k : ℕ) (d : D) (y z : Connection S Q)
      → Connected p m t i d
      → get_elem? m.connections k ≡ some y
      → z.ctx ≡ y.ctx
      → Connected p (record m { connections = set m.connections k z }) t i d
  Connected-set m t i k d y z at there same =
      let (x, found, ctx) =
        get_elem?-set_same m.connections i k at.reached.conn y z at.reached.there there same in
      record {
        ct = at.ct;
        reached = record {
          chosen = at.reached.chosen;
          conn = x;
          there = found;
          at = ctx ∙ at.reached.at;
        };
        idle = at.idle;
      }

  -- The batches of a task, one after the other.
  run_all_session :
      (batches : List (List Builder)) (argss : List (List Bytes)) (fuel i : ℕ) (m : Mgr S E Q)
      (log : List Cmds) (t : ℤ) (d : D)
      → Connected p m t i d
      → Carry fuel (flatten batches) argss
      → Bounded batches
      → AllShort p.size (suc fuel) (replies_all answer argss d)
      → (m' : Mgr S E Q) × (log' : List Cmds) × (run_all
            (exec_batch host (suc fuel) t)
            batches
            (m, log)
          ≡ done (m', log'))
        × Connected p m' t i (answer_all answer argss d)
        × (length m'.connections ≡ length m.connections)
  unfolding exec_batch
  run_all_session [] [] fuel i m log t d at h few shorts = (m, log, refl, at, refl)
  run_all_session [] (args ∷ argss) fuel i m log t d at h few shorts = absurd h
  run_all_session (bs ∷ batches) argss fuel i m log t d at h (some_, few, bounded) shorts =
      let (xs, ys, e, hx, hy) = Carry-append fuel bs (flatten batches) argss h in
      let (short_x, short_y) = AllShort-append p.size (suc fuel) answer xs ys d (
        subst (λ (l : List (List Bytes)). AllShort p.size (suc fuel) (replies_all answer l d)) e
          shorts) in
      let (c, x, runs, replies, sent, at') =
        batch_session host p a fuel i m t bs xs d at hx (omega arith) short_x in
      let (m', log', rest, at'', len) =
        run_all_session batches ys fuel i (with_ctx m i c) (log ++ x ∷ []) t
          (answer_all answer xs d) at' hy bounded short_y in
      (
        m',
        log',
        rw runs rest,
        subst (Connected p m' t i)
            (sym (
              ap (λ (l : List (List Bytes)). answer_all answer l d) e
              ∙ answer_all-append answer xs ys d))
            at'',
        len ∙ length-set_ctx m.connections i c,
      )

  set_there :
      (xs : List (Connection S Q)) (k : ℕ) (y z : Connection S Q)
      → get_elem? xs k ≡ some y
      → get_elem? (set xs k z) k ≡ some z
  set_there [] k y z h = cc
  set_there (x ∷ xs) zero y z h = refl
  set_there (x ∷ xs) (suc k) y z h = set_there xs k y z h

  -- The task of a connection whose queue holds committed requests with the operands `argss`, each
  -- shorter than 2^31 and within the fuel, as are the replies to them, when the connection that its
  -- `_threadIdx` selects works and the server is idle: the task returns, the server has executed
  -- exactly these requests, in order and each once, and is idle again, and the connection of the task
  -- is marked as having none.
  pub on_exec_redis_task_served :
      (fuel i k : ℕ) (m : Mgr S E Q) (c : Connection S Q) (argss : List (List Bytes)) (d : D)
      → get_elem? m.connections k ≡ some c
      → Connected p m c.thread_idx i d
      → Carry fuel (host.cut_list c.thread_cmd_list).0 argss
      → AllShort p.size (suc fuel) (replies_all answer argss d)
      → (m' : Mgr S E Q) × (log : List Cmds) × (on_exec_redis_task host (suc fuel) k m
          ≡ done (m', log))
        × Connected p m' c.thread_idx i (answer_all answer argss d)
        × ((z : Connection S Q) × (get_elem? m'.connections k ≡ some z) × (z.post_task ≡ false))
  unfolding set_post_task
  on_exec_redis_task_served fuel i k m c argss d there at h shorts =
      let (batches, whole, bounded, runs) = on_exec_redis_task_lem host (suc fuel) k m c there in
      let (m', log, ran, at', len) =
        run_all_session batches argss fuel i (taken host k m c) [] c.thread_idx d
          (Connected-set m c.thread_idx i k d c _ at there refl)
          (subst (λ (bs : List Builder). Carry fuel bs argss) (sym whole) h) bounded shorts in
      let (y, stays) = get_elem?_in_range m'.connections k (
        subst (λ (n : ℕ). suc k ≤ n) (sym (len ∙ length-set m.connections k _))
          (in_range m.connections k c there)) in
      (
        record m' { connections = set m'.connections k (record y { post_task = false }) },
        log,
        runs
            ∙ ap (λ (r : Run (Mgr S E Q × List Cmds)). r >>= set_post_task host k false) ran
            ∙ ap
                (λ (r : Run (Connection S Q)). r >>= λ x. done (
                  record m' { connections = set m'.connections k (record x { post_task = false }) },
                  log,
                ))
                (at_some m'.connections k y stays),
        Connected-set m' c.thread_idx i k _ y _ at' stays refl,
        (record y { post_task = false }, set_there m'.connections k y _ stays, refl),
      )
