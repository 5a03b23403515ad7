-- ===== src/Redis/Sync/Interface.antt =====
-- RedisSyncCall.cpp and IRedisMgr.h: what holds for all the commands of the interface.
use seed_core.Prelude.{
  ℕ, ◌≡◌, ◌≢◌, sym, ◌∙◌, ap, [], Run, done, ◌>>=◌, ◌⊎◌, subst, OnDone, OnDone->>=,
}
use seed_core.Prelude.Int.{ℤ, pos}
use seed_core.Redis.Transport.{Context}
use seed_core.Redis.Mgr.{Mgr, Host, with_ctx}
use seed_core.Redis.Sync.{Outcome, result_ok, result_nodata, err_other}
use seed_core.Redis.Sync.Results.{Reaches, call_dead}
use seed_core.Redis.Sync.Codes.{IsCode, call-IsCode}
use seed_core.Redis.Sync.Commands.{Command, run, forget}
use seed_core.Redis.Sync.Forms.{form}
use seed_core.Redis.Sync.Shapes.{shape}

module _ {S E Q : Type 0} (host : Host S E Q) (fuel : ℕ) where
  run-IsCode :
      (command : Command) (m : Mgr S E Q) (t : ℤ)
      → OnDone (λ (o : Outcome (Unit {0}) (Mgr S E Q)). IsCode o.code) (run host fuel command m t)
  run-IsCode command m t =
      let s = shape host fuel command in
      subst (OnDone (λ (o : Outcome (Unit {0}) (Mgr S E Q)). IsCode o.code)) (sym (s.runs m t)) (
        OnDone->>= (λ (o : Outcome (form command).A (Mgr S E Q)). IsCode o.code) _ _ _
          (call-IsCode host fuel (form command).finish s.coded (form command).args
            (form command).re_send m t)
          (λ o h. h))

  -- Whatever the server answers and whatever happens on the way, a command of the interface that
  -- returns returns REDIS_RESULT_OK, REDIS_RESULT_NODATA or REDIS_ERR_OTHER: never
  -- REDIS_RESULT_TIMEOUT.
  pub run_codes :
      (command : Command) (m : Mgr S E Q) (t : ℤ) (o : Outcome (Unit {0}) (Mgr S E Q))
      → run host fuel command m t ≡ done o
      → (o.code ≡ result_ok) ⊎ (o.code ≡ result_nodata) ⊎ (o.code ≡ err_other)
  run_codes command m t o e =
      subst (OnDone (λ (p : Outcome (Unit {0}) (Mgr S E Q)). IsCode p.code)) e
        (run-IsCode command m t)

  -- Over a connection that has failed, every command of the interface returns REDIS_RESULT_OK though
  -- nothing has been sent, and the connection stays failed.
  pub run_dead :
      (command : Command) (i : ℕ) (m : Mgr S E Q) (t : ℤ) (ct : Context S)
      → Reaches m t i ct
      → ct.err ≢ 0
      → (c : Context S) × (c.err ≡ ct.err)
        × (run host fuel command m t
            ≡ done (record { code = result_ok; out = tt; sent = []; mgr = with_ctx m i c }))
  run_dead command i m t ct reached failed =
      let s = shape host fuel command in
      let (out, silent) = s.coded.silent in
      let (c, same, ran) =
        call_dead host (form command).finish (form command).args (form command).re_send fuel i m t
          ct (pos 0) out reached failed silent in
      (
        c,
        same,
        s.runs m t ∙ ap (λ (r : Run (Outcome (form command).A (Mgr S E Q))). r >>= forget) ran,
      )
