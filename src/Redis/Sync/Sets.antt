-- ===== src/Redis/Sync/Sets.antt =====
-- RedisSyncCall.cpp: the commands on sets. The operations `*_all` are those on a vector.
use seed_core.Prelude.{ℕ, true, List, [], ◌∷◌, Bytes, Run, if◌then◌else◌}
use seed_core.Prelude.Int.{ℤ, pos, ◌==ℤ◌}
use seed_core.Redis.Builder.{string}
use seed_core.Redis.Mgr.{Mgr, Host}
use seed_core.Redis.Sync.{
  Outcome, word, strings, call, result_ok, result_nodata, err_other, strings_result, code_result,
}

abbrev pub added : ℤ → ℤ
added count = if count ==ℤ pos 0 then err_other else result_ok

abbrev pub removed : ℤ → ℤ
removed count = if count ==ℤ pos 0 then result_nodata else result_ok

module _ {S E Q : Type 0} (host : Host S E Q) (fuel : ℕ) where
  unfoldable pub sadd : Bytes → Bytes → Mgr S E Q → ℤ → Run (Outcome (Unit {0}) (Mgr S E Q))
  sadd key member m thread_idx =
      call host fuel (code_result added) (word "SADD" ∷ string key ∷ string member ∷ []) true m
        thread_idx

  unfoldable pub sadd_all :
      Bytes → List Bytes → Mgr S E Q → ℤ → Run (Outcome (Unit {0}) (Mgr S E Q))
  sadd_all key members m thread_idx =
      call host fuel (code_result added) (word "SADD" ∷ string key ∷ strings members) true m
        thread_idx

  unfoldable pub smembers : Bytes → Mgr S E Q → ℤ → Run (Outcome (List Bytes) (Mgr S E Q))
  smembers key m thread_idx =
      call host fuel strings_result (word "SMEMBERS" ∷ string key ∷ []) true m thread_idx

  unfoldable pub srem : Bytes → Bytes → Mgr S E Q → ℤ → Run (Outcome (Unit {0}) (Mgr S E Q))
  srem key member m thread_idx =
      call host fuel (code_result removed) (word "SREM" ∷ string key ∷ string member ∷ []) true m
        thread_idx

  unfoldable pub srem_all :
      Bytes → List Bytes → Mgr S E Q → ℤ → Run (Outcome (Unit {0}) (Mgr S E Q))
  srem_all key members m thread_idx =
      call host fuel (code_result λ n. result_ok) (word "SREM" ∷ string key ∷ strings members) true
        m thread_idx
