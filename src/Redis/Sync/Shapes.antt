-- ===== src/Redis/Sync/Shapes.antt =====
-- RedisSyncCall.cpp: every command is one execution and a reading of its reply.
use seed_core.Prelude.{ℕ, ◌≡◌, refl, ◌>>=◌}
use seed_core.Prelude.Int.{ℤ, pos, ◌==ℤ◌, ltb_ℤ}
use seed_core.Redis.Mgr.{Mgr, Host}
use seed_core.Redis.Sync.{call, result_ok}
use seed_core.Redis.Sync.Codes.{
  Coded, is_ok_code, plain-Coded, flag-Coded, ttl-Coded, option-Coded, string-Coded, hget-Coded,
  integer-Coded, strings-Coded, ok-Coded, count-Coded, code-Coded, exists-Coded, map-Coded,
  length-Coded, added_IsCode, removed_IsCode,
}
use seed_core.Redis.Sync.Forms.{form}
use seed_core.Redis.Sync.Commands.{
  Command, run, forget, del_cmd, get_ttl_cmd, set_expire_cmd, exists_cmd, set_string_cmd,
  set_string_with_option_cmd, get_cmd, get_set_cmd, incr_cmd, incrby_cmd, decr_cmd, decrby_cmd,
  append_cmd, mget_cmd, mset_cmd, hset_cmd, hset_nx_cmd, hmset_cmd, hget_cmd, hmget_cmd,
  hget_all_cmd, hdel_cmd, hdel_all_cmd, hlen_cmd, hexists_cmd, hincrby_cmd, hkeys_cmd, hvals_cmd,
  lpush_cmd, lpush_all_cmd, lpush_x_cmd, lpush_x_all_cmd, rpush_cmd, rpush_all_cmd, rpush_x_cmd,
  rpush_x_all_cmd, push_list_tail_cmd, push_list_tail_batch_cmd, get_list_by_range_cmd,
  trim_list_cmd, sadd_cmd, sadd_all_cmd, smembers_cmd, srem_cmd, srem_all_cmd,
}
use seed_core.Redis.Sync.Keys.{del, get_ttl, set_expire, exists}
use seed_core.Redis.Sync.Strings.{
  set_string, set_string_with_option, get, get_set, incr, incrby, decr, decrby, append, mget, mset,
}
use seed_core.Redis.Sync.Hashes.{
  hset, hset_nx, hmset, hget, hmget, hget_all, hdel, hdel_all, hlen, hexists, hincrby, hkeys, hvals,
}
use seed_core.Redis.Sync.Lists.{
  lpush, lpush_all, lpush_x, lpush_x_all, rpush, rpush_all, rpush_x, rpush_x_all, push_list_tail,
  push_list_tail_batch, get_list_by_range, trim_list,
}
use seed_core.Redis.Sync.Sets.{added, removed, sadd, sadd_all, smembers, srem, srem_all}

module _ {S E Q : Type 0} (host : Host S E Q) (fuel : ℕ) where
  -- A command is `call` at the reading of the reply that its form names.
  pub record Shape (command : Command) : Type 0 where
    pub coded : Coded (form command).finish
    pub runs :
        (m : Mgr S E Q) (t : ℤ)
        → run host fuel command m t ≡ (
            call host fuel (form command).finish (form command).args (form command).re_send m t
            >>= forget)

  pub shape : (command : Command) → Shape command
  shape (del_cmd key) = record { coded = flag-Coded; runs = λ m t. unfold run del in refl }
  shape (get_ttl_cmd key seconds) = record {
    coded = ttl-Coded seconds;
    runs = λ m t. unfold run get_ttl in refl;
  }
  shape (set_expire_cmd key seconds) = record {
    coded = plain-Coded;
    runs = λ m t. unfold run set_expire in refl;
  }
  shape (exists_cmd key) = record { coded = flag-Coded; runs = λ m t. unfold run exists in refl }
  shape (set_string_cmd key val) = record {
    coded = plain-Coded;
    runs = λ m t. unfold run set_string in refl;
  }
  shape (set_string_with_option_cmd key val option expire_ms) = record {
    coded = option-Coded;
    runs = λ m t. unfold run set_string_with_option in refl;
  }
  shape (get_cmd key out_val) = record {
    coded = string-Coded out_val;
    runs = λ m t. unfold run get in refl;
  }
  shape (get_set_cmd key val out_val) = record {
    coded = string-Coded out_val;
    runs = λ m t. unfold run get_set in refl;
  }
  shape (incr_cmd key out_val) = record {
    coded = integer-Coded out_val;
    runs = λ m t. unfold run incr in refl;
  }
  shape (incrby_cmd key val out_val) = record {
    coded = integer-Coded out_val;
    runs = λ m t. unfold run incrby in refl;
  }
  shape (decr_cmd key out_val) = record {
    coded = integer-Coded out_val;
    runs = λ m t. unfold run decr in refl;
  }
  shape (decrby_cmd key val out_val) = record {
    coded = integer-Coded out_val;
    runs = λ m t. unfold run decrby in refl;
  }
  shape (append_cmd key val out_val) = record {
    coded = integer-Coded out_val;
    runs = λ m t. unfold run append in refl;
  }
  shape (mget_cmd fields) = record { coded = strings-Coded; runs = λ m t. unfold run mget in refl }
  shape (mset_cmd fields) = record { coded = ok-Coded; runs = λ m t. unfold run mset in refl }
  shape (hset_cmd key field val) = record {
    coded = code-Coded (λ n. result_ok) λ n. is_ok_code;
    runs = λ m t. unfold run hset in refl;
  }
  shape (hset_nx_cmd key field val) = record {
    coded = count-Coded (λ n. n ==ℤ pos 1);
    runs = λ m t. unfold run hset_nx in refl;
  }
  shape (hmset_cmd key field_vals) = record {
    coded = ok-Coded;
    runs = λ m t. unfold run hmset in refl;
  }
  shape (hget_cmd key field out_val) = record {
    coded = hget-Coded out_val;
    runs = λ m t. unfold run hget in refl;
  }
  shape (hmget_cmd key fields) = record {
    coded = strings-Coded;
    runs = λ m t. unfold run hmget in refl;
  }
  shape (hget_all_cmd key) = record { coded = map-Coded; runs = λ m t. unfold run hget_all in refl }
  shape (hdel_cmd key field) = record {
    coded = count-Coded (λ n. n ==ℤ pos 1);
    runs = λ m t. unfold run hdel in refl;
  }
  shape (hdel_all_cmd key fields) = record {
    coded = count-Coded (λ n. ltb_ℤ (pos 0) n);
    runs = λ m t. unfold run hdel_all in refl;
  }
  shape (hlen_cmd key out_val) = record {
    coded = integer-Coded out_val;
    runs = λ m t. unfold run hlen in refl;
  }
  shape (hexists_cmd key field exists) = record {
    coded = exists-Coded exists;
    runs = λ m t. unfold run hexists in refl;
  }
  shape (hincrby_cmd key field val out_val) = record {
    coded = integer-Coded out_val;
    runs = λ m t. unfold run hincrby in refl;
  }
  shape (hkeys_cmd key) = record { coded = strings-Coded; runs = λ m t. unfold run hkeys in refl }
  shape (hvals_cmd key) = record { coded = strings-Coded; runs = λ m t. unfold run hvals in refl }
  shape (lpush_cmd key val len) = record {
    coded = length-Coded len;
    runs = λ m t. unfold run lpush in refl;
  }
  shape (lpush_all_cmd key vals len) = record {
    coded = length-Coded len;
    runs = λ m t. unfold run lpush_all in refl;
  }
  shape (lpush_x_cmd key val len) = record {
    coded = length-Coded len;
    runs = λ m t. unfold run lpush_x in refl;
  }
  shape (lpush_x_all_cmd key vals len) = record {
    coded = length-Coded len;
    runs = λ m t. unfold run lpush_x_all in refl;
  }
  shape (rpush_cmd key val len) = record {
    coded = length-Coded len;
    runs = λ m t. unfold run rpush in refl;
  }
  shape (rpush_all_cmd key vals len) = record {
    coded = length-Coded len;
    runs = λ m t. unfold run rpush_all in refl;
  }
  shape (rpush_x_cmd key val len) = record {
    coded = length-Coded len;
    runs = λ m t. unfold run rpush_x in refl;
  }
  shape (rpush_x_all_cmd key vals len) = record {
    coded = length-Coded len;
    runs = λ m t. unfold run rpush_x_all in refl;
  }
  shape (push_list_tail_cmd key val len) = record {
    coded = length-Coded len;
    runs = λ m t. unfold run push_list_tail rpush in refl;
  }
  shape (push_list_tail_batch_cmd key vals len) = record {
    coded = length-Coded len;
    runs = λ m t. unfold run push_list_tail_batch rpush_all in refl;
  }
  shape (get_list_by_range_cmd key start stop) = record {
    coded = strings-Coded;
    runs = λ m t. unfold run get_list_by_range in refl;
  }
  shape (trim_list_cmd key start stop) = record {
    coded = ok-Coded;
    runs = λ m t. unfold run trim_list in refl;
  }
  shape (sadd_cmd key member) = record {
    coded = code-Coded added added_IsCode;
    runs = λ m t. unfold run sadd in refl;
  }
  shape (sadd_all_cmd key members) = record {
    coded = code-Coded added added_IsCode;
    runs = λ m t. unfold run sadd_all in refl;
  }
  shape (smembers_cmd key) = record {
    coded = strings-Coded;
    runs = λ m t. unfold run smembers in refl;
  }
  shape (srem_cmd key member) = record {
    coded = code-Coded removed removed_IsCode;
    runs = λ m t. unfold run srem in refl;
  }
  shape (srem_all_cmd key members) = record {
    coded = code-Coded (λ n. result_ok) λ n. is_ok_code;
    runs = λ m t. unfold run srem_all in refl;
  }
