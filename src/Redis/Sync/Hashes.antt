-- ===== src/Redis/Sync/Hashes.antt =====
-- RedisSyncCall.cpp: the commands on hashes.
use seed_core.Prelude.{ℕ, Bool, true, List, [], ◌∷◌, Bytes, Run}
use seed_core.Prelude.Int.{ℤ, pos, ◌==ℤ◌, ltb_ℤ}
use seed_core.Redis.StringMap.{StringMap}
use seed_core.Redis.Builder.{string, number}
use seed_core.Redis.Mgr.{Mgr, Host}
use seed_core.Redis.Sync.{
  Outcome, word, strings, pairs, call, result_ok, hget_result, integer_result, strings_result,
  ok_result, count_result, code_result, exists_result, map_result,
}

module _ {S E Q : Type 0} (host : Host S E Q) (fuel : ℕ) where
  unfoldable pub hset : Bytes → Bytes → Bytes → Mgr S E Q → ℤ → Run (Outcome (Unit {0}) (Mgr S E Q))
  hset key field val m thread_idx =
      call host fuel (code_result λ n. result_ok)
        (word "HSET" ∷ string key ∷ string field ∷ string val ∷ []) true m thread_idx

  unfoldable pub hset_nx :
      Bytes → Bytes → Bytes → Mgr S E Q → ℤ → Run (Outcome (Unit {0}) (Mgr S E Q))
  hset_nx key field val m thread_idx =
      call host fuel (count_result λ n. n ==ℤ pos 1)
        (word "HSETNX" ∷ string key ∷ string field ∷ string val ∷ []) true m thread_idx

  unfoldable pub hmset : Bytes → StringMap → Mgr S E Q → ℤ → Run (Outcome (Unit {0}) (Mgr S E Q))
  hmset key field_vals m thread_idx =
      call host fuel ok_result (word "HMSET" ∷ string key ∷ pairs field_vals) true m thread_idx

  unfoldable pub hget : Bytes → Bytes → Bytes → Mgr S E Q → ℤ → Run (Outcome Bytes (Mgr S E Q))
  hget key field out_val m thread_idx =
      call host fuel (hget_result out_val) (word "HGET" ∷ string key ∷ string field ∷ []) true m
        thread_idx

  unfoldable pub hmget : Bytes → List Bytes → Mgr S E Q → ℤ → Run (Outcome (List Bytes) (Mgr S E Q))
  hmget key fields m thread_idx =
      call host fuel strings_result (word "HMGET" ∷ string key ∷ strings fields) true m thread_idx

  unfoldable pub hget_all : Bytes → Mgr S E Q → ℤ → Run (Outcome StringMap (Mgr S E Q))
  hget_all key m thread_idx =
      call host fuel map_result (word "HGETALL" ∷ string key ∷ []) true m thread_idx

  unfoldable pub hdel : Bytes → Bytes → Mgr S E Q → ℤ → Run (Outcome (Unit {0}) (Mgr S E Q))
  hdel key field m thread_idx =
      call host fuel (count_result λ n. n ==ℤ pos 1) (word "HDEL" ∷ string key ∷ string field ∷ [])
        true m thread_idx

  -- HDel of a vector
  unfoldable pub hdel_all :
      Bytes → List Bytes → Mgr S E Q → ℤ → Run (Outcome (Unit {0}) (Mgr S E Q))
  hdel_all key fields m thread_idx =
      call host fuel (count_result λ n. ltb_ℤ (pos 0) n) (word "HDEL" ∷ string key ∷ strings fields)
        true m thread_idx

  unfoldable pub hlen : Bytes → ℤ → Mgr S E Q → ℤ → Run (Outcome ℤ (Mgr S E Q))
  hlen key out_val m thread_idx =
      call host fuel (integer_result out_val) (word "HLEN" ∷ string key ∷ []) true m thread_idx

  unfoldable pub hexists : Bytes → Bytes → Bool → Mgr S E Q → ℤ → Run (Outcome Bool (Mgr S E Q))
  hexists key field exists m thread_idx =
      call host fuel (exists_result exists) (word "HEXISTS" ∷ string key ∷ string field ∷ []) true m
        thread_idx

  unfoldable pub hincrby : Bytes → Bytes → ℤ → ℤ → Mgr S E Q → ℤ → Run (Outcome ℤ (Mgr S E Q))
  hincrby key field val out_val m thread_idx =
      call host fuel (integer_result out_val)
        (word "HINCRBY" ∷ string key ∷ string field ∷ number val ∷ []) true m thread_idx

  unfoldable pub hkeys : Bytes → Mgr S E Q → ℤ → Run (Outcome (List Bytes) (Mgr S E Q))
  hkeys key m thread_idx =
      call host fuel strings_result (word "HKEYS" ∷ string key ∷ []) true m thread_idx

  unfoldable pub hvals : Bytes → Mgr S E Q → ℤ → Run (Outcome (List Bytes) (Mgr S E Q))
  hvals key m thread_idx =
      call host fuel strings_result (word "HVALS" ∷ string key ∷ []) true m thread_idx
