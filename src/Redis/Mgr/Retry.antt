-- ===== src/Redis/Mgr/Retry.antt =====
-- RedisMgr.cpp, execTaskByTimeOut: the loop that reconnects comes to an end.
use seed_core.Prelude.{
  ℕ, zero, suc, ◌+◌, ◌*◌, ◌≤◌, ◌<◌, ◌≡◌, refl, ap, ◌∙◌, Bool, true, false, none, some, arith,
  if◌then◌else◌, Run, done, ◌>>=◌,
}
use seed_core.Prelude.Int.{pos_part}
use seed_core.Redis.Transport.{Status, Context}
use seed_core.Redis.Mgr.{Config, Mgr, Host, Attempt, reattempt_sleep_time, with_ctx}
use seed_core.Redis.Mgr.Execute.{
  create_redis_context, retry_round, after_round, retry_loop, exec_task_by_time_out, stops,
  timed_out,
}

-- Time as the host's clock reads it: it does not run backwards, and a sleep of `n` takes at least
-- `n`.
pub record IsClock {S E Q : Type 0} (host : Host S E Q) : Type 0 where
  pub time : E → ℕ
  pub reads : (e : E) → (host.now e).0 ≡ time e
  pub reading : (e : E) → time e ≤ time (host.now e).1
  pub sleeping : (n : ℕ) (e : E) → time e + n ≤ time (host.sleep n e)
  pub connecting : (config : Config) (e : E) → time e ≤ time (host.connect_with_timeout config e).1

-- An attempt that always comes back.
abbrev pub Returns : {S X : Type 0} → Attempt S X → Type 0
Returns {S = S} {X = X} attempt =
    (c : Context S) (x : X) → (r : Status × Context S × X) × (attempt c x ≡ done r)

module _ {S E Q : Type 0} (host : Host S E Q) (clock : IsClock host) {X : Type 0}
    (attempt : Attempt S X) (back : Returns attempt) where
  later_lem :
      (m : Mgr S E Q) → clock.time m.env ≤ clock.time (create_redis_context host m.config m.env).1
  unfolding create_redis_context
  later_lem m = clock.connecting m.config m.env

  -- One round comes back, with the same configuration and no earlier.
  round_lem :
      (i : ℕ) (m : Mgr S E Q) (x : X)
      → (stop : Bool) × (m' : Mgr S E Q) × (x' : X) × (retry_round host attempt i m x
          ≡ done (stop, m', x'))
        × (m'.config ≡ m.config)
        × (clock.time m.env ≤ clock.time m'.env)
  unfolding retry_round
  round_lem i m x =
      let env = (create_redis_context host m.config m.env).1 in
      elim (create_redis_context host m.config m.env).0
        as (λ ct.
          (stop : Bool) × (m' : Mgr S E Q) × (x' : X) × ◌≡◌ {A = Run (Bool × Mgr S E Q × X)}
            (elim ct [
              | none ↦ done (false, record m { env = env }, x)
              | some c ↦ attempt c x >>= λ (st, c', x').
                  done (stops host st, with_ctx (record m { env = env }) i c', x')
            ])
            (done (stop, m', x'))
          × (m'.config ≡ m.config)
          × (clock.time m.env ≤ clock.time m'.env)) [
            | none ↦ (false, record m { env = env }, x, refl, refl, later_lem m)
            | some c ↦
                let ((st, c', x'), e) = back c x in
                (
                  stops host st,
                  with_ctx (record m { env = env }) i c',
                  x',
                  rw e refl,
                  refl,
                  later_lem m,
                )
          ]

  -- What follows a round that was not the last, if the rest comes back once the time is not up.
  wait_lem :
      (rest : Mgr S E Q → X → Run (Mgr S E Q × X)) (enter : ℕ) (m : Mgr S E Q) (x : X)
      → ((w : Mgr S E Q)
          → w.config ≡ m.config
          → clock.time m.env ≤ enter + pos_part m.config.reattempt_time
          → clock.time m.env + reattempt_sleep_time ≤ clock.time w.env
          → (r : Mgr S E Q × X) × (rest w x ≡ done r))
      → (r : Mgr S E Q × X) × (after_round host rest enter (false, m, x) ≡ done r)
  unfolding after_round
  wait_lem rest enter m x h =
      let env = (host.now m.env).1 in
      elim (timed_out host enter (host.now m.env).0 m.config.reattempt_time)
          as (λ late.
            timed_out host enter (host.now m.env).0 m.config.reattempt_time ≡ late
            → (r : Mgr S E Q × X) × ((if late
                  then done (record m { env = env }, x)
                  else rest (record m { env = host.sleep reattempt_sleep_time env }) x)
                ≡ done r)) [
                  | true ↦ λ e. ((record m { env = env }, x), refl)
                  | false ↦ λ e.
                      h (record m { env = host.sleep reattempt_sleep_time env }) refl
                        (ground (arith, clock.reads m.env, e))
                        (omega
                          (arith, clock.reading m.env, clock.sleeping reattempt_sleep_time env))
                ]
        refl

  -- The loop comes back if it does after every wait.
  retry_step :
      (fuel enter i : ℕ) (m : Mgr S E Q) (x : X)
      → ((w : Mgr S E Q) (y : X)
          → w.config ≡ m.config
          → clock.time m.env ≤ enter + pos_part m.config.reattempt_time
          → clock.time m.env + reattempt_sleep_time ≤ clock.time w.env
          → (r : Mgr S E Q × X) × (retry_loop host attempt fuel enter i w y ≡ done r))
      → (r : Mgr S E Q × X) × (retry_loop host attempt (suc fuel) enter i m x ≡ done r)
  unfolding retry_loop
  retry_step fuel enter i m x rest_ =
      let (stop, m', x', ran, same, later) = round_lem i m x in
      let (r, e) = after stop m' x' same later in
      (
        r,
        ap
              (λ (q : Run (Bool × Mgr S E Q × X)).
                q >>= after_round host (retry_loop host attempt fuel enter i) enter)
              ran
            ∙ e,
      )
    where
      after :
          (stop : Bool) (m' : Mgr S E Q) (x' : X)
          → m'.config ≡ m.config
          → clock.time m.env ≤ clock.time m'.env
          → (r : Mgr S E Q × X) × (after_round host
                (retry_loop host attempt fuel enter i)
                enter
                (stop, m', x')
              ≡ done r)
      after true m' x' same later = ((m', x'), unfold after_round in refl)
      after false m' x' same later =
          let limit = ap (λ (c : Config). pos_part c.reattempt_time) same in
          wait_lem (retry_loop host attempt fuel enter i) enter m' x' (λ w config early waited.
            rest_ w _ (config ∙ same) (omega (arith, limit)) (omega (arith)))

  retry_lem :
      (fuel enter i : ℕ) (m : Mgr S E Q) (x : X)
      → enter + pos_part m.config.reattempt_time < clock.time m.env + fuel * reattempt_sleep_time
      → (r : Mgr S E Q × X) × (retry_loop host attempt (suc fuel) enter i m x ≡ done r)
  retry_lem zero enter i m x room =
      retry_step zero enter i m x (λ w y same early waited. absurd (omega arith))
  retry_lem (suc fuel) enter i m x room =
      retry_step (suc fuel) enter i m x (λ w y same early waited.
        retry_lem fuel enter i w y
          (omega (arith, ap (λ (c : Config). pos_part c.reattempt_time) same)))

  -- The loop that reconnects always comes back, after at most `fuel + 1` rounds, if the limit in
  -- milliseconds is below 1000 times `fuel`, the clock does not run backwards, a sleep lasts as long
  -- as it should, and every single attempt comes back.
  pub exec_task_by_time_out_returns :
      (fuel i : ℕ) (m : Mgr S E Q) (x : X)
      → pos_part m.config.reattempt_time < fuel * reattempt_sleep_time
      → (r : Mgr S E Q × X) × (exec_task_by_time_out host attempt (suc fuel) i m x ≡ done r)
  unfolding exec_task_by_time_out
  exec_task_by_time_out_returns fuel i m x room =
      retry_lem fuel (host.now m.env).0 i (record m { env = (host.now m.env).1 }) x
        (omega (arith, clock.reads m.env, clock.reading m.env))
