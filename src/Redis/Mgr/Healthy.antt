-- ===== src/Redis/Mgr/Healthy.antt =====
-- RedisMgr.cpp, execCmd over a connection that works.
use seed_core.Prelude.{ℕ, ◌≡◌, refl, Bool, true, false, some, Bytes, done, ◌>>=◌}
use seed_core.Redis.Builder.{Builder}
use seed_core.Redis.Reply.{Reply}
use seed_core.Redis.Transport.{redis_ok, Context, send_and_get_reply}
use seed_core.Redis.Mgr.{Mgr, Host, with_ctx}
use seed_core.Redis.Mgr.Execute.{after_attempt, try_cmd}
use seed_core.Redis.Mgr.Resend.{bare}

module _ {S E Q : Type 0} (host : Host S E Q) where
  -- An attempt that got a reply is the last one.
  pub try_served :
      (fuel i : ℕ) (m : Mgr S E Q) (ct c : Context S) (b b' : Builder) (payload : Bytes) (r : Reply)
      (again : Bool)
      → send_and_get_reply host.net fuel ct b ≡ done (redis_ok, some r, c, b', payload)
      → (try_cmd host fuel ct (bare b) >>= after_attempt host (try_cmd host fuel) fuel i m again)
        ≡ done (with_ctx m i c, record { builder = b'; reply = some r; sent = payload })
  unfolding try_cmd after_attempt
  try_served fuel i m ct c b b' payload r true sends = rw sends refl
  try_served fuel i m ct c b b' payload r false sends = rw sends refl
