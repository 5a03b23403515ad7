-- ===== src/Redis/Mgr/Initialize.antt =====
-- RedisMgr.cpp: Initialize and LoadConfigFile, which make the module ready.
use seed_core.Prelude.{
  ℕ, zero, suc, ◌+◌, Bool, true, false, [], ◌∷◌, ◌++◌, Option, none, some, Bytes, codes,
  if◌then◌else◌,
}
use seed_core.Prelude.Int.{ℤ, pos, negsuc, pos_part, ltb_ℤ, to_s32}
use seed_core.Xml.{Xml}
use seed_core.Redis.Transport.{Context}
use seed_core.Redis.Mgr.{Config, Connection, Mgr, Host}
use seed_core.Redis.Mgr.Execute.{create_redis_context}

-- The attributes of the element `redis`; `reattemptTime` is not among them.
config_of : {N : Type 0} → Xml N → N → Config → Config
config_of xml redis config =
    let tv_sec = xml.get_attribute_s32 redis (codes "connecttime") in
    record config {
      ip = xml.get_attribute_str redis (codes "ip");
      port = xml.get_attribute_s32 redis (codes "port");
      connect_num = xml.get_attribute_s32 redis (codes "connectnum");
      connect_tv_sec = if ltb_ℤ tv_sec (pos 0) then pos 5 else tv_sec;
      pass_word = xml.get_attribute_str redis (codes "password");
    }

-- LoadConfigFile
unfoldable pub load_config_file : {N : Type 0} → Xml N → Bytes → Config → Bool × Config
unfolding config_of
load_config_file xml path config = elim (xml.load_file path) [
  | none ↦ (false, config)
  | some root ↦ elim (xml.get_first_chrild root (codes "redis")) [
    | none ↦ (false, config)
    | some redis ↦ (true, config_of xml redis config)
  ]
]

-- The rounds of `for (i = 0; i < connectNum + 1; i++)`.
unfoldable pub rounds : ℤ → ℕ
rounds (pos n) = pos_part (to_s32 (pos (n + 1)))
rounds (negsuc n) = 0

module _ {S E Q : Type 0} (host : Host S E Q) where
  -- A RedisConnection with its default members, a context and an empty list.
  abbrev pub new_connection : Context S → Connection S Q
  new_connection c = record {
    ctx = c;
    thread_cmd_list = host.empty_list;
    thread_idx = pos 1;
    has_task_handler = false;
    post_task = false;
  }

  -- What a round makes of CreateRedisContext's answer, before the `rest` of them.
  unfoldable pub after_create :
      (Mgr S E Q → Bool × Mgr S E Q) → Mgr S E Q → Option (Context S) × E → Bool × Mgr S E Q
  after_create rest m (none, env) = (false, record m { env = env })
  after_create rest m (some c, env) =
      rest (record m { env = env; connections = m.connections ++ new_connection c ∷ [] })

  unfoldable pub connect_loop : ℕ → Mgr S E Q → Bool × Mgr S E Q
  unfolding after_create
  connect_loop zero m = (true, m)
  connect_loop (suc n) m =
      after_create (connect_loop n) m (create_redis_context host m.config m.env)

  -- `s_connectNum = s_connectionConfig.connectNum`, once all connections are there.
  unfoldable pub after_connect : Bool × Mgr S E Q → Bool × Mgr S E Q
  after_connect (true, m) = (true, record m { connect_num = m.config.connect_num })
  after_connect (false, m) = (false, m)

  unfoldable pub after_load : Mgr S E Q → Bool × Config → Bool × Mgr S E Q
  unfolding connect_loop rounds after_connect
  after_load m (true, config) =
      after_connect (connect_loop (rounds config.connect_num) (record m { config = config }))
  after_load m (false, config) = (false, record m { config = config })

  -- Initialize
  unfoldable pub initialize : {N : Type 0} → Xml N → Bytes → Mgr S E Q → Bool × Mgr S E Q
  unfolding load_config_file after_load
  initialize xml path m = after_load m (load_config_file xml path m.config)
