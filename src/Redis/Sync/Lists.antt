-- ===== src/Redis/Sync/Lists.antt =====
-- RedisSyncCall.cpp: the commands on lists. The operations `*_all` are those on a vector.
use seed_core.Prelude.{ℕ, true, List, [], ◌∷◌, Bytes, Run}
use seed_core.Prelude.Int.{ℤ}
use seed_core.Redis.Builder.{string, number}
use seed_core.Redis.Mgr.{Mgr, Host}
use seed_core.Redis.Sync.{Outcome, word, strings, call, strings_result, ok_result, length_result}

module _ {S E Q : Type 0} (host : Host S E Q) (fuel : ℕ) where
  unfoldable pub lpush : Bytes → Bytes → ℕ → Mgr S E Q → ℤ → Run (Outcome ℕ (Mgr S E Q))
  lpush key val len m thread_idx =
      call host fuel (length_result len) (word "LPUSH" ∷ string key ∷ string val ∷ []) true m
        thread_idx

  unfoldable pub lpush_all : Bytes → List Bytes → ℕ → Mgr S E Q → ℤ → Run (Outcome ℕ (Mgr S E Q))
  lpush_all key vals len m thread_idx =
      call host fuel (length_result len) (word "LPUSH" ∷ string key ∷ strings vals) true m
        thread_idx

  unfoldable pub lpush_x : Bytes → Bytes → ℕ → Mgr S E Q → ℤ → Run (Outcome ℕ (Mgr S E Q))
  lpush_x key val len m thread_idx =
      call host fuel (length_result len) (word "LPUSHX" ∷ string key ∷ string val ∷ []) true m
        thread_idx

  unfoldable pub lpush_x_all : Bytes → List Bytes → ℕ → Mgr S E Q → ℤ → Run (Outcome ℕ (Mgr S E Q))
  lpush_x_all key vals len m thread_idx =
      call host fuel (length_result len) (word "LPUSHX" ∷ string key ∷ strings vals) true m
        thread_idx

  unfoldable pub rpush : Bytes → Bytes → ℕ → Mgr S E Q → ℤ → Run (Outcome ℕ (Mgr S E Q))
  rpush key val len m thread_idx =
      call host fuel (length_result len) (word "RPUSH" ∷ string key ∷ string val ∷ []) true m
        thread_idx

  unfoldable pub rpush_all : Bytes → List Bytes → ℕ → Mgr S E Q → ℤ → Run (Outcome ℕ (Mgr S E Q))
  rpush_all key vals len m thread_idx =
      call host fuel (length_result len) (word "RPUSH" ∷ string key ∷ strings vals) true m
        thread_idx

  unfoldable pub rpush_x : Bytes → Bytes → ℕ → Mgr S E Q → ℤ → Run (Outcome ℕ (Mgr S E Q))
  rpush_x key val len m thread_idx =
      call host fuel (length_result len) (word "RPUSHX" ∷ string key ∷ string val ∷ []) true m
        thread_idx

  -- The request is that of LPUSHX.
  unfoldable pub rpush_x_all : Bytes → List Bytes → ℕ → Mgr S E Q → ℤ → Run (Outcome ℕ (Mgr S E Q))
  rpush_x_all key vals len m thread_idx =
      call host fuel (length_result len) (word "LPUSHX" ∷ string key ∷ strings vals) true m
        thread_idx

  unfoldable pub push_list_tail : Bytes → Bytes → ℕ → Mgr S E Q → ℤ → Run (Outcome ℕ (Mgr S E Q))
  unfolding rpush
  push_list_tail key val len m thread_idx = rpush key val len m thread_idx

  unfoldable pub push_list_tail_batch :
      Bytes → List Bytes → ℕ → Mgr S E Q → ℤ → Run (Outcome ℕ (Mgr S E Q))
  unfolding rpush_all
  push_list_tail_batch key vals len m thread_idx = rpush_all key vals len m thread_idx

  unfoldable pub get_list_by_range :
      Bytes → ℤ → ℤ → Mgr S E Q → ℤ → Run (Outcome (List Bytes) (Mgr S E Q))
  get_list_by_range key start stop m thread_idx =
      call host fuel strings_result (word "LRANGE" ∷ string key ∷ number start ∷ number stop ∷ [])
        true m thread_idx

  unfoldable pub trim_list : Bytes → ℤ → ℤ → Mgr S E Q → ℤ → Run (Outcome (Unit {0}) (Mgr S E Q))
  trim_list key start stop m thread_idx =
      call host fuel ok_result (word "LTRIM" ∷ string key ∷ number start ∷ number stop ∷ []) true m
        thread_idx
