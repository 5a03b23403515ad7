-- ===== src/Redis/Sync/Forms.antt =====
-- RedisSyncCall.cpp: the request that each command sends, and how it reads the reply.
use seed_core.Prelude.{Bool, true, false, List, [], ◌∷◌, ◌++◌}
use seed_core.Prelude.Int.{pos, ◌==ℤ◌, ltb_ℤ}
use seed_core.Redis.Builder.{Arg, string, number}
use seed_core.Redis.Sync.{
  Finish, word, strings, pairs, result_ok, plain_result, flag_result, ttl_result, option_result,
  string_result, hget_result, integer_result, strings_result, ok_result, count_result, code_result,
  exists_result, map_result, length_result,
}
use seed_core.Redis.Sync.Commands.{
  Command, del_cmd, get_ttl_cmd, set_expire_cmd, exists_cmd, set_string_cmd,
  set_string_with_option_cmd, get_cmd, get_set_cmd, incr_cmd, incrby_cmd, decr_cmd, decrby_cmd,
  append_cmd, mget_cmd, mset_cmd, hset_cmd, hset_nx_cmd, hmset_cmd, hget_cmd, hmget_cmd,
  hget_all_cmd, hdel_cmd, hdel_all_cmd, hlen_cmd, hexists_cmd, hincrby_cmd, hkeys_cmd, hvals_cmd,
  lpush_cmd, lpush_all_cmd, lpush_x_cmd, lpush_x_all_cmd, rpush_cmd, rpush_all_cmd, rpush_x_cmd,
  rpush_x_all_cmd, push_list_tail_cmd, push_list_tail_batch_cmd, get_list_by_range_cmd,
  trim_list_cmd, sadd_cmd, sadd_all_cmd, smembers_cmd, srem_cmd, srem_all_cmd,
}
use seed_core.Redis.Sync.Strings.{expire_words, option_words}
use seed_core.Redis.Sync.Sets.{added, removed}

-- What a command asks, and what it makes of the answer.
pub record Form : Type 1 where
  pub A : Type 0
  pub finish : Finish A
  pub args : List Arg
  pub re_send : Bool

abbrev form_of : {A : Type 0} → Finish A → List Arg → Bool → Form
form_of finish args re_send = record { A = _; finish = finish; args = args; re_send = re_send }

abbrev pub form : Command → Form
form (del_cmd key) = form_of flag_result (word "DEL" ∷ string key ∷ []) true
form (get_ttl_cmd key seconds) = form_of (ttl_result seconds) (word "TTL" ∷ string key ∷ []) true
form (set_expire_cmd key seconds) = form_of plain_result (word "EXPIRE" ∷ string key ∷ []) true
form (exists_cmd key) = form_of flag_result (word "EXISTS" ∷ string key ∷ []) true
form (set_string_cmd key val) =
    form_of plain_result (word "SET" ∷ string key ∷ string val ∷ []) true
form (set_string_with_option_cmd key val option expire_ms) =
    form_of option_result
      (word "SET" ∷ string key ∷ string val ∷ (expire_words expire_ms ++ option_words option)) true
form (get_cmd key out_val) = form_of (string_result out_val) (word "GET" ∷ string key ∷ []) true
form (get_set_cmd key val out_val) =
    form_of (string_result out_val) (word "GETSET" ∷ string key ∷ []) true
form (incr_cmd key out_val) = form_of (integer_result out_val) (word "INCR" ∷ string key ∷ []) false
form (incrby_cmd key val out_val) =
    form_of (integer_result out_val) (word "INCRBY" ∷ string key ∷ number val ∷ []) false
form (decr_cmd key out_val) = form_of (integer_result out_val) (word "DECR" ∷ string key ∷ []) false
form (decrby_cmd key val out_val) =
    form_of (integer_result out_val) (word "DECRBy" ∷ string key ∷ number val ∷ []) false
form (append_cmd key val out_val) =
    form_of (integer_result out_val) (word "APPEND" ∷ string key ∷ string val ∷ []) false
form (mget_cmd fields) = form_of strings_result (word "MGET" ∷ strings fields) true
form (mset_cmd fields) = form_of ok_result (word "MSET" ∷ pairs fields) true
form (hset_cmd key field val) =
    form_of (code_result λ n. result_ok) (word "HSET" ∷ string key ∷ string field ∷ string val ∷ [])
      true
form (hset_nx_cmd key field val) =
    form_of (count_result λ n. n ==ℤ pos 1)
      (word "HSETNX" ∷ string key ∷ string field ∷ string val ∷ []) true
form (hmset_cmd key field_vals) =
    form_of ok_result (word "HMSET" ∷ string key ∷ pairs field_vals) true
form (hget_cmd key field out_val) =
    form_of (hget_result out_val) (word "HGET" ∷ string key ∷ string field ∷ []) true
form (hmget_cmd key fields) =
    form_of strings_result (word "HMGET" ∷ string key ∷ strings fields) true
form (hget_all_cmd key) = form_of map_result (word "HGETALL" ∷ string key ∷ []) true
form (hdel_cmd key field) =
    form_of (count_result λ n. n ==ℤ pos 1) (word "HDEL" ∷ string key ∷ string field ∷ []) true
form (hdel_all_cmd key fields) =
    form_of (count_result λ n. ltb_ℤ (pos 0) n) (word "HDEL" ∷ string key ∷ strings fields) true
form (hlen_cmd key out_val) = form_of (integer_result out_val) (word "HLEN" ∷ string key ∷ []) true
form (hexists_cmd key field exists) =
    form_of (exists_result exists) (word "HEXISTS" ∷ string key ∷ string field ∷ []) true
form (hincrby_cmd key field val out_val) =
    form_of (integer_result out_val) (word "HINCRBY" ∷ string key ∷ string field ∷ number val ∷ [])
      true
form (hkeys_cmd key) = form_of strings_result (word "HKEYS" ∷ string key ∷ []) true
form (hvals_cmd key) = form_of strings_result (word "HVALS" ∷ string key ∷ []) true
form (lpush_cmd key val len) =
    form_of (length_result len) (word "LPUSH" ∷ string key ∷ string val ∷ []) true
form (lpush_all_cmd key vals len) =
    form_of (length_result len) (word "LPUSH" ∷ string key ∷ strings vals) true
form (lpush_x_cmd key val len) =
    form_of (length_result len) (word "LPUSHX" ∷ string key ∷ string val ∷ []) true
form (lpush_x_all_cmd key vals len) =
    form_of (length_result len) (word "LPUSHX" ∷ string key ∷ strings vals) true
form (rpush_cmd key val len) =
    form_of (length_result len) (word "RPUSH" ∷ string key ∷ string val ∷ []) true
form (rpush_all_cmd key vals len) =
    form_of (length_result len) (word "RPUSH" ∷ string key ∷ strings vals) true
form (rpush_x_cmd key val len) =
    form_of (length_result len) (word "RPUSHX" ∷ string key ∷ string val ∷ []) true
form (rpush_x_all_cmd key vals len) =
    form_of (length_result len) (word "LPUSHX" ∷ string key ∷ strings vals) true
form (push_list_tail_cmd key val len) =
    form_of (length_result len) (word "RPUSH" ∷ string key ∷ string val ∷ []) true
form (push_list_tail_batch_cmd key vals len) =
    form_of (length_result len) (word "RPUSH" ∷ string key ∷ strings vals) true
form (get_list_by_range_cmd key start stop) =
    form_of strings_result (word "LRANGE" ∷ string key ∷ number start ∷ number stop ∷ []) true
form (trim_list_cmd key start stop) =
    form_of ok_result (word "LTRIM" ∷ string key ∷ number start ∷ number stop ∷ []) true
form (sadd_cmd key member) =
    form_of (code_result added) (word "SADD" ∷ string key ∷ string member ∷ []) true
form (sadd_all_cmd key members) =
    form_of (code_result added) (word "SADD" ∷ string key ∷ strings members) true
form (smembers_cmd key) = form_of strings_result (word "SMEMBERS" ∷ string key ∷ []) true
form (srem_cmd key member) =
    form_of (code_result removed) (word "SREM" ∷ string key ∷ string member ∷ []) true
form (srem_all_cmd key members) =
    form_of (code_result λ n. result_ok) (word "SREM" ∷ string key ∷ strings members) true
