-- ===== src/Redis/Sync/Strings.antt =====
-- RedisSyncCall.cpp: the commands on strings.
use seed_core.Prelude.{ℕ, Bool, true, false, List, [], ◌∷◌, ◌++◌, Bytes, ◌==◌, Run, if◌then◌else◌}
use seed_core.Prelude.Int.{ℤ, pos}
use seed_core.Redis.StringMap.{StringMap}
use seed_core.Redis.Builder.{Arg, string, number}
use seed_core.Redis.Mgr.{Mgr, Host}
use seed_core.Redis.Sync.{
  Outcome, word, strings, pairs, call, plain_result, option_result, string_result, integer_result,
  strings_result, ok_result,
}

pub data SetCmdOptionType : Type 0 where
  option_none option_xx option_nx : SetCmdOptionType

abbrev pub expire_words : ℕ → List Arg
expire_words expire_ms = if expire_ms == 0 then [] else word "PX" ∷ number (pos expire_ms) ∷ []

abbrev pub option_words : SetCmdOptionType → List Arg
option_words option_none = []
option_words option_xx = word "XX" ∷ []
option_words option_nx = word "NX" ∷ []

module _ {S E Q : Type 0} (host : Host S E Q) (fuel : ℕ) where
  -- Set
  unfoldable pub set_string : Bytes → Bytes → Mgr S E Q → ℤ → Run (Outcome (Unit {0}) (Mgr S E Q))
  set_string key val m thread_idx =
      call host fuel plain_result (word "SET" ∷ string key ∷ string val ∷ []) true m thread_idx

  unfoldable pub set_string_with_option :
      Bytes → Bytes → SetCmdOptionType → ℕ → Mgr S E Q → ℤ → Run (Outcome Bool (Mgr S E Q))
  set_string_with_option key val option expire_ms m thread_idx =
      call host fuel option_result
        (word "SET" ∷ string key ∷ string val ∷ (expire_words expire_ms ++ option_words option))
        true m thread_idx

  unfoldable pub get : Bytes → Bytes → Mgr S E Q → ℤ → Run (Outcome Bytes (Mgr S E Q))
  get key out_val m thread_idx =
      call host fuel (string_result out_val) (word "GET" ∷ string key ∷ []) true m thread_idx

  -- The new value is not part of the request.
  unfoldable pub get_set : Bytes → Bytes → Bytes → Mgr S E Q → ℤ → Run (Outcome Bytes (Mgr S E Q))
  get_set key val out_val m thread_idx =
      call host fuel (string_result out_val) (word "GETSET" ∷ string key ∷ []) true m thread_idx

  unfoldable pub incr : Bytes → ℤ → Mgr S E Q → ℤ → Run (Outcome ℤ (Mgr S E Q))
  incr key out_val m thread_idx =
      call host fuel (integer_result out_val) (word "INCR" ∷ string key ∷ []) false m thread_idx

  unfoldable pub incrby : Bytes → ℤ → ℤ → Mgr S E Q → ℤ → Run (Outcome ℤ (Mgr S E Q))
  incrby key val out_val m thread_idx =
      call host fuel (integer_result out_val) (word "INCRBY" ∷ string key ∷ number val ∷ []) false m
        thread_idx

  unfoldable pub decr : Bytes → ℤ → Mgr S E Q → ℤ → Run (Outcome ℤ (Mgr S E Q))
  decr key out_val m thread_idx =
      call host fuel (integer_result out_val) (word "DECR" ∷ string key ∷ []) false m thread_idx

  unfoldable pub decrby : Bytes → ℤ → ℤ → Mgr S E Q → ℤ → Run (Outcome ℤ (Mgr S E Q))
  decrby key val out_val m thread_idx =
      call host fuel (integer_result out_val) (word "DECRBy" ∷ string key ∷ number val ∷ []) false m
        thread_idx

  unfoldable pub append : Bytes → Bytes → ℤ → Mgr S E Q → ℤ → Run (Outcome ℤ (Mgr S E Q))
  append key val out_val m thread_idx =
      call host fuel (integer_result out_val) (word "APPEND" ∷ string key ∷ string val ∷ []) false m
        thread_idx

  unfoldable pub mget : List Bytes → Mgr S E Q → ℤ → Run (Outcome (List Bytes) (Mgr S E Q))
  mget fields m thread_idx =
      call host fuel strings_result (word "MGET" ∷ strings fields) true m thread_idx

  unfoldable pub mset : StringMap → Mgr S E Q → ℤ → Run (Outcome (Unit {0}) (Mgr S E Q))
  mset fields m thread_idx = call host fuel ok_result (word "MSET" ∷ pairs fields) true m thread_idx
