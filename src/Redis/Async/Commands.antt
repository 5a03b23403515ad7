-- ===== src/Redis/Async/Commands.antt =====
-- RedisAsyncCall.cpp: the commands whose answers are not waited for. Each builds a request, queues it
-- with addAsyncTask, and returns REDIS_RESULT_OK; an out parameter is left as it was.
use seed_core.Prelude.{ℕ, List, [], ◌∷◌, ◌++◌, Bytes, Run, done, ◌>>=◌}
use seed_core.Prelude.Int.{ℤ}
use seed_core.Redis.StringMap.{StringMap}
use seed_core.Redis.Builder.{Arg, string, number, request}
use seed_core.Redis.Mgr.{Mgr, Host}
use seed_core.Redis.Async.{add_async_task}
use seed_core.Redis.Sync.{word, strings, pairs, result_ok}
use seed_core.Redis.Sync.Strings.{SetCmdOptionType, option_none, option_xx, option_nx, expire_words}

-- For `SetCmdOptionType_XX` the word is `EX`.
abbrev pub async_option_words : SetCmdOptionType → List Arg
async_option_words option_none = []
async_option_words option_xx = word "EX" ∷ []
async_option_words option_nx = word "NX" ∷ []

module _ {S E Q : Type 0} (host : Host S E Q) where
  unfoldable pub queue_request : ℤ → List Arg → Mgr S E Q → Run (ℤ × Mgr S E Q)
  queue_request task_id args m =
      add_async_task host m task_id (request host.sprintf args) >>= λ m'. done (result_ok, m')

  unfoldable pub async_del : ℤ → Bytes → Mgr S E Q → Run (ℤ × Mgr S E Q)
  unfolding queue_request
  async_del task_id key m = queue_request task_id (word "DEL" ∷ string key ∷ []) m

  unfoldable pub async_set : ℤ → Bytes → Bytes → Mgr S E Q → Run (ℤ × Mgr S E Q)
  unfolding queue_request
  async_set task_id key val m = queue_request task_id (word "SET" ∷ string key ∷ string val ∷ []) m

  -- The value is not part of the request.
  unfoldable pub async_set_string_with_option :
      ℤ → Bytes → Bytes → SetCmdOptionType → ℕ → Mgr S E Q → Run (ℤ × Mgr S E Q)
  unfolding queue_request
  async_set_string_with_option task_id key val option expire_ms m =
      queue_request task_id
        (word "SET" ∷ string key ∷ (expire_words expire_ms ++ async_option_words option)) m

  unfoldable pub async_incr : ℤ → Bytes → ℤ → Mgr S E Q → Run (ℤ × Mgr S E Q)
  unfolding queue_request
  async_incr task_id key out_val m = queue_request task_id (word "INCR" ∷ string key ∷ []) m

  unfoldable pub async_incrby : ℤ → Bytes → ℤ → ℤ → Mgr S E Q → Run (ℤ × Mgr S E Q)
  unfolding queue_request
  async_incrby task_id key val out_val m =
      queue_request task_id (word "INCRBY" ∷ string key ∷ number val ∷ []) m

  unfoldable pub async_decr : ℤ → Bytes → ℤ → Mgr S E Q → Run (ℤ × Mgr S E Q)
  unfolding queue_request
  async_decr task_id key out_val m = queue_request task_id (word "DECR" ∷ string key ∷ []) m

  unfoldable pub async_decrby : ℤ → Bytes → ℤ → ℤ → Mgr S E Q → Run (ℤ × Mgr S E Q)
  unfolding queue_request
  async_decrby task_id key val out_val m =
      queue_request task_id (word "DECRBy" ∷ string key ∷ number val ∷ []) m

  unfoldable pub async_hset : ℤ → Bytes → Bytes → Bytes → Mgr S E Q → Run (ℤ × Mgr S E Q)
  unfolding queue_request
  async_hset task_id key field val m =
      queue_request task_id (word "HSET" ∷ string key ∷ string field ∷ string val ∷ []) m

  unfoldable pub async_hset_nx : ℤ → Bytes → Bytes → Bytes → Mgr S E Q → Run (ℤ × Mgr S E Q)
  unfolding queue_request
  async_hset_nx task_id key field val m =
      queue_request task_id (word "HSETNX" ∷ string key ∷ string field ∷ string val ∷ []) m

  unfoldable pub async_hmset : ℤ → Bytes → StringMap → Mgr S E Q → Run (ℤ × Mgr S E Q)
  unfolding queue_request
  async_hmset task_id key field_vals m =
      queue_request task_id (word "HMSET" ∷ string key ∷ pairs field_vals) m

  unfoldable pub async_push_list_back : ℤ → Bytes → Bytes → ℕ → Mgr S E Q → Run (ℤ × Mgr S E Q)
  unfolding queue_request
  async_push_list_back task_id key val len m =
      queue_request task_id (word "RPUSH" ∷ string key ∷ string val ∷ []) m

  unfoldable pub async_push_list_back_batch :
      ℤ → Bytes → List Bytes → ℕ → Mgr S E Q → Run (ℤ × Mgr S E Q)
  unfolding queue_request
  async_push_list_back_batch task_id key vals len m =
      queue_request task_id (word "RPUSH" ∷ string key ∷ strings vals) m

  -- The request is that of LPUSH.
  unfoldable pub async_trim_list : ℤ → Bytes → ℤ → ℤ → Mgr S E Q → Run (ℤ × Mgr S E Q)
  unfolding queue_request
  async_trim_list task_id key start stop m =
      queue_request task_id (word "LPUSH" ∷ string key ∷ number start ∷ number stop ∷ []) m

  unfoldable pub async_sadd : ℤ → Bytes → Bytes → Mgr S E Q → Run (ℤ × Mgr S E Q)
  unfolding queue_request
  async_sadd task_id key member m =
      queue_request task_id (word "SADD" ∷ string key ∷ string member ∷ []) m

  unfoldable pub async_sadd_all : ℤ → Bytes → List Bytes → Mgr S E Q → Run (ℤ × Mgr S E Q)
  unfolding queue_request
  async_sadd_all task_id key members m =
      queue_request task_id (word "SADD" ∷ string key ∷ strings members) m

  unfoldable pub async_srem : ℤ → Bytes → Bytes → Mgr S E Q → Run (ℤ × Mgr S E Q)
  unfolding queue_request
  async_srem task_id key member m =
      queue_request task_id (word "SREM" ∷ string key ∷ string member ∷ []) m
