-- ===== src/Redis/Sync/Keys.antt =====
-- RedisSyncCall.cpp: Del, GetTTL, SetExpire and Exists.
use seed_core.Prelude.{ℕ, Bool, true, [], ◌∷◌, Bytes, Run}
use seed_core.Prelude.Int.{ℤ}
use seed_core.Redis.Builder.{string}
use seed_core.Redis.Mgr.{Mgr, Host}
use seed_core.Redis.Sync.{Outcome, word, call, plain_result, flag_result, ttl_result}

module _ {S E Q : Type 0} (host : Host S E Q) (fuel : ℕ) where
  unfoldable pub del : Bytes → Mgr S E Q → ℤ → Run (Outcome Bool (Mgr S E Q))
  del key m thread_idx = call host fuel flag_result (word "DEL" ∷ string key ∷ []) true m thread_idx

  unfoldable pub get_ttl : Bytes → ℤ → Mgr S E Q → ℤ → Run (Outcome ℤ (Mgr S E Q))
  get_ttl key seconds m thread_idx =
      call host fuel (ttl_result seconds) (word "TTL" ∷ string key ∷ []) true m thread_idx

  -- The seconds are not part of the request.
  unfoldable pub set_expire : Bytes → ℤ → Mgr S E Q → ℤ → Run (Outcome (Unit {0}) (Mgr S E Q))
  set_expire key seconds m thread_idx =
      call host fuel plain_result (word "EXPIRE" ∷ string key ∷ []) true m thread_idx

  unfoldable pub exists : Bytes → Mgr S E Q → ℤ → Run (Outcome Bool (Mgr S E Q))
  exists key m thread_idx =
      call host fuel flag_result (word "EXISTS" ∷ string key ∷ []) true m thread_idx
