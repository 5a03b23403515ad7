-- ===== src/Redis/Sync/Commands.antt =====
-- IRedisMgr.h, class IRedisSyncCall: the interface, a constructor for each of its functions with the
-- arguments of a call, an out parameter's old value among them.
use seed_core.Prelude.{ℕ, Bool, List, Bytes, Run, done, ◌>>=◌}
use seed_core.Prelude.Int.{ℤ}
use seed_core.Redis.StringMap.{StringMap}
use seed_core.Redis.Mgr.{Mgr, Host}
use seed_core.Redis.Sync.{Outcome}
use seed_core.Redis.Sync.Keys.{del, get_ttl, set_expire, exists}
use seed_core.Redis.Sync.Strings.{
  SetCmdOptionType, set_string, set_string_with_option, get, get_set, incr, incrby, decr, decrby,
  append, mget, mset,
}
use seed_core.Redis.Sync.Hashes.{
  hset, hset_nx, hmset, hget, hmget, hget_all, hdel, hdel_all, hlen, hexists, hincrby, hkeys, hvals,
}
use seed_core.Redis.Sync.Lists.{
  lpush, lpush_all, lpush_x, lpush_x_all, rpush, rpush_all, rpush_x, rpush_x_all, push_list_tail,
  push_list_tail_batch, get_list_by_range, trim_list,
}
use seed_core.Redis.Sync.Sets.{sadd, sadd_all, smembers, srem, srem_all}

pub data Command : Type 0 where
  del_cmd : Bytes → Command
  get_ttl_cmd : Bytes → ℤ → Command
  set_expire_cmd : Bytes → ℤ → Command
  exists_cmd : Bytes → Command
  set_string_cmd : Bytes → Bytes → Command
  set_string_with_option_cmd : Bytes → Bytes → SetCmdOptionType → ℕ → Command
  get_cmd : Bytes → Bytes → Command
  get_set_cmd : Bytes → Bytes → Bytes → Command
  incr_cmd : Bytes → ℤ → Command
  incrby_cmd : Bytes → ℤ → ℤ → Command
  decr_cmd : Bytes → ℤ → Command
  decrby_cmd : Bytes → ℤ → ℤ → Command
  append_cmd : Bytes → Bytes → ℤ → Command
  mget_cmd : List Bytes → Command
  mset_cmd : StringMap → Command
  hset_cmd : Bytes → Bytes → Bytes → Command
  hset_nx_cmd : Bytes → Bytes → Bytes → Command
  hmset_cmd : Bytes → StringMap → Command
  hget_cmd : Bytes → Bytes → Bytes → Command
  hmget_cmd : Bytes → List Bytes → Command
  hget_all_cmd : Bytes → Command
  hdel_cmd : Bytes → Bytes → Command
  hdel_all_cmd : Bytes → List Bytes → Command
  hlen_cmd : Bytes → ℤ → Command
  hexists_cmd : Bytes → Bytes → Bool → Command
  hincrby_cmd : Bytes → Bytes → ℤ → ℤ → Command
  hkeys_cmd : Bytes → Command
  hvals_cmd : Bytes → Command
  lpush_cmd : Bytes → Bytes → ℕ → Command
  lpush_all_cmd : Bytes → List Bytes → ℕ → Command
  lpush_x_cmd : Bytes → Bytes → ℕ → Command
  lpush_x_all_cmd : Bytes → List Bytes → ℕ → Command
  rpush_cmd : Bytes → Bytes → ℕ → Command
  rpush_all_cmd : Bytes → List Bytes → ℕ → Command
  rpush_x_cmd : Bytes → Bytes → ℕ → Command
  rpush_x_all_cmd : Bytes → List Bytes → ℕ → Command
  push_list_tail_cmd : Bytes → Bytes → ℕ → Command
  push_list_tail_batch_cmd : Bytes → List Bytes → ℕ → Command
  get_list_by_range_cmd : Bytes → ℤ → ℤ → Command
  trim_list_cmd : Bytes → ℤ → ℤ → Command
  sadd_cmd : Bytes → Bytes → Command
  sadd_all_cmd : Bytes → List Bytes → Command
  smembers_cmd : Bytes → Command
  srem_cmd : Bytes → Bytes → Command
  srem_all_cmd : Bytes → List Bytes → Command

-- An outcome but for its out parameter.
abbrev pub forget : {A M : Type 0} → Outcome A M → Run (Outcome (Unit {0}) M)
forget o = done (record { code = o.code; out = tt; sent = o.sent; mgr = o.mgr })

module _ {S E Q : Type 0} (host : Host S E Q) (fuel : ℕ) where
  -- The dispatch of a call of the interface.
  unfoldable pub run : Command → Mgr S E Q → ℤ → Run (Outcome (Unit {0}) (Mgr S E Q))
  run (del_cmd key) m t = del host fuel key m t >>= forget
  run (get_ttl_cmd key seconds) m t = get_ttl host fuel key seconds m t >>= forget
  run (set_expire_cmd key seconds) m t = set_expire host fuel key seconds m t >>= forget
  run (exists_cmd key) m t = exists host fuel key m t >>= forget
  run (set_string_cmd key val) m t = set_string host fuel key val m t >>= forget
  run (set_string_with_option_cmd key val option expire_ms) m t =
      set_string_with_option host fuel key val option expire_ms m t >>= forget
  run (get_cmd key out_val) m t = get host fuel key out_val m t >>= forget
  run (get_set_cmd key val out_val) m t = get_set host fuel key val out_val m t >>= forget
  run (incr_cmd key out_val) m t = incr host fuel key out_val m t >>= forget
  run (incrby_cmd key val out_val) m t = incrby host fuel key val out_val m t >>= forget
  run (decr_cmd key out_val) m t = decr host fuel key out_val m t >>= forget
  run (decrby_cmd key val out_val) m t = decrby host fuel key val out_val m t >>= forget
  run (append_cmd key val out_val) m t = append host fuel key val out_val m t >>= forget
  run (mget_cmd fields) m t = mget host fuel fields m t >>= forget
  run (mset_cmd fields) m t = mset host fuel fields m t >>= forget
  run (hset_cmd key field val) m t = hset host fuel key field val m t >>= forget
  run (hset_nx_cmd key field val) m t = hset_nx host fuel key field val m t >>= forget
  run (hmset_cmd key field_vals) m t = hmset host fuel key field_vals m t >>= forget
  run (hget_cmd key field out_val) m t = hget host fuel key field out_val m t >>= forget
  run (hmget_cmd key fields) m t = hmget host fuel key fields m t >>= forget
  run (hget_all_cmd key) m t = hget_all host fuel key m t >>= forget
  run (hdel_cmd key field) m t = hdel host fuel key field m t >>= forget
  run (hdel_all_cmd key fields) m t = hdel_all host fuel key fields m t >>= forget
  run (hlen_cmd key out_val) m t = hlen host fuel key out_val m t >>= forget
  run (hexists_cmd key field exists) m t = hexists host fuel key field exists m t >>= forget
  run (hincrby_cmd key field val out_val) m t =
      hincrby host fuel key field val out_val m t >>= forget
  run (hkeys_cmd key) m t = hkeys host fuel key m t >>= forget
  run (hvals_cmd key) m t = hvals host fuel key m t >>= forget
  run (lpush_cmd key val len) m t = lpush host fuel key val len m t >>= forget
  run (lpush_all_cmd key vals len) m t = lpush_all host fuel key vals len m t >>= forget
  run (lpush_x_cmd key val len) m t = lpush_x host fuel key val len m t >>= forget
  run (lpush_x_all_cmd key vals len) m t = lpush_x_all host fuel key vals len m t >>= forget
  run (rpush_cmd key val len) m t = rpush host fuel key val len m t >>= forget
  run (rpush_all_cmd key vals len) m t = rpush_all host fuel key vals len m t >>= forget
  run (rpush_x_cmd key val len) m t = rpush_x host fuel key val len m t >>= forget
  run (rpush_x_all_cmd key vals len) m t = rpush_x_all host fuel key vals len m t >>= forget
  run (push_list_tail_cmd key val len) m t = push_list_tail host fuel key val len m t >>= forget
  run (push_list_tail_batch_cmd key vals len) m t =
      push_list_tail_batch host fuel key vals len m t >>= forget
  run (get_list_by_range_cmd key start stop) m t =
      get_list_by_range host fuel key start stop m t >>= forget
  run (trim_list_cmd key start stop) m t = trim_list host fuel key start stop m t >>= forget
  run (sadd_cmd key member) m t = sadd host fuel key member m t >>= forget
  run (sadd_all_cmd key members) m t = sadd_all host fuel key members m t >>= forget
  run (smembers_cmd key) m t = smembers host fuel key m t >>= forget
  run (srem_cmd key member) m t = srem host fuel key member m t >>= forget
  run (srem_all_cmd key members) m t = srem_all host fuel key members m t >>= forget
