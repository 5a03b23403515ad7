-- ===== src/Mysql/Mgr/Load.antt =====
-- MysqlMgr.cpp: Initialize and LoadConfigFile, which open the connections.
use seed_core.Prelude.{
  ℕ, zero, suc, Bool, true, false, List, [], ◌∷◌, ◌++◌, Option, none, some, Bytes, codes, length,
  if◌then◌else◌, Run, done, starved, ◌>>=◌,
}
use seed_core.Prelude.Int.{ℤ, pos, pos_part, ltb_ℤ, to_s32, to_u32, inc, dec}
use seed_core.Xml.{Xml}
use seed_core.Redis.Reply.{bytes_eq}
use seed_core.Mysql.{ConnectionInfo, Client}
use seed_core.Mysql.Connection.{open_, new_connection}
use seed_core.Mysql.Mgr.{Mgr, find_connections}

-- The settings of an element `connection`.
unfoldable pub connection_info : {N : Type 0} → Xml N → N → ConnectionInfo
connection_info xml node = record {
  host_des = xml.get_attribute_str node (codes "hostip");
  port = to_u32 (xml.get_attribute_s32 node (codes "port"));
  client_flag = 0;
  charset = xml.get_attribute_str node (codes "characterset");
  username = xml.get_attribute_str node (codes "username");
  password = xml.get_attribute_str node (codes "password");
  database_name = xml.get_attribute_str node (codes "databasename");
}

-- `iter->second.push_back(connection)`, for the entry of `name`.
unfoldable pub add_address : Bytes → ℕ → List (Bytes × List ℕ) → List (Bytes × List ℕ)
unfolding bytes_eq
add_address name p [] = []
add_address name p ((n, v) ∷ m) =
    if bytes_eq name n then (n, v ++ p ∷ []) ∷ m else (n, v) ∷ add_address name p m

-- `connectionNum`, from the configuration and the number of threads.
unfoldable pub connection_num : ℤ → ℤ → ℤ
connection_num num thread_count =
    let n = if ltb_ℤ num (pos 0) then pos 1 else num in
    to_s32 (inc (if ltb_ℤ thread_count n then thread_count else n))

-- The number of threads is zero without an element `async`.
unfoldable pub thread_count : {N : Type 0} → Xml N → Option N → ℤ
thread_count xml none = pos 0
thread_count xml (some async) = xml.get_attribute_s32 async (codes "threadcount")

module _ {H W R : Type 0} (client : Client H W R) where
  -- What follows the attempt to open a new connection, before the `rest` of the loop. One that has
  -- failed is deleted, which closes its handle.
  unfoldable pub after_open :
      (Mgr H W R → Bool × Mgr H W R)
      → Bytes
      → ConnectionInfo
      → Mgr H W R
      → Bool × (H × W)
      → Bool × Mgr H W R
  unfolding add_address
  after_open rest name info m (false, (h, w)) = (false, record m { world = client.close (h, w) })
  after_open rest name info m (true, (h, w)) = rest (record m {
    connections = m.connections ++ record (new_connection client info) { handler = h } ∷ [];
    connection_map = add_address name (length m.connections) m.connection_map;
    world = w;
  })

  -- The ticks of `for (s32 i = 0; i < connectionNum; i++)`.
  unfoldable pub open_loop : ℕ → Bytes → ConnectionInfo → Mgr H W R → Bool × Mgr H W R
  unfolding after_open
  open_loop zero name info m = (true, m)
  open_loop (suc n) name info m =
      after_open (open_loop n name info) name info m (open_ client info (client.init, m.world))

  -- The end of a round of `while (connection)`, before the `rest` of it.
  unfoldable pub after_entry :
      (Mgr H W R → Run (Bool × Mgr H W R)) → ℤ → Bool × Mgr H W R → Run (Bool × Mgr H W R)
  after_entry rest num (false, m) = done (false, m)
  after_entry rest num (true, m) = rest (record m { async_connection_num = to_s32 (dec num) })

  -- A round for the name that the map has, or has not.
  unfoldable pub load_entry :
      (Mgr H W R → Run (Bool × Mgr H W R))
      → ℤ
      → Bytes
      → ConnectionInfo
      → Mgr H W R
      → Option (List ℕ)
      → Run (Bool × Mgr H W R)
  unfolding open_loop after_entry
  load_entry rest num name info m (some v) = done (false, m)
  load_entry rest num name info m none = after_entry rest num (
      open_loop (pos_part num) name info
        (record m { connection_map = (name, []) ∷ m.connection_map }))

  -- `while (connection)`, with fuel for the elements.
  unfoldable pub entry_loop :
      {N : Type 0} → Xml N → ℕ → ℤ → Option N → Mgr H W R → Run (Bool × Mgr H W R)
  unfolding load_entry find_connections connection_info
  entry_loop xml zero num element m = starved
  entry_loop xml (suc fuel) num none m = done (true, m)
  entry_loop xml (suc fuel) num (some element) m =
      let name = xml.get_attribute_str element (codes "name") in
      load_entry (entry_loop xml fuel num (xml.get_next_sibling element)) num name
        (connection_info xml element) m (find_connections name m.connection_map)

  unfoldable pub choose_main : Bytes → Mgr H W R → Option (List ℕ) → Bool × Mgr H W R
  choose_main name m none = (false, m)
  choose_main name m (some v) = (true, record m { main_connection = some name })

  -- The default connection has to be among those that were loaded.
  unfoldable pub find_main : Bytes → Bool × Mgr H W R → Bool × Mgr H W R
  unfolding choose_main find_connections
  find_main name (false, m) = (false, m)
  find_main name (true, m) = choose_main name m (find_connections name m.connection_map)

  unfoldable pub load_mysql :
      {N : Type 0} → Xml N → ℕ → ℤ → Option N → Mgr H W R → Run (Bool × Mgr H W R)
  unfolding find_main entry_loop connection_num
  load_mysql xml fuel threads none m = done (false, m)
  load_mysql xml fuel threads (some mysql) m =
      let num = connection_num (xml.get_attribute_s32 mysql (codes "connectionnum")) threads in
      let m' = record m {
        perfile_time = client.milliseconds (xml.get_attribute_s32 mysql (codes "perfiletime"));
      } in
      entry_loop xml fuel num (xml.get_first_chrild mysql (codes "connection")) m' >>= λ r.
      done (find_main (xml.get_attribute_str mysql (codes "defultconnection")) r)

  unfoldable pub load_root :
      {N : Type 0} → Xml N → ℕ → Option N → Mgr H W R → Run (Bool × Mgr H W R)
  unfolding load_mysql thread_count
  load_root xml fuel none m = done (false, m)
  load_root xml fuel (some root) m =
      load_mysql xml fuel (thread_count xml (xml.get_first_chrild root (codes "async")))
        (xml.get_first_chrild root (codes "mysql")) m

  -- LoadConfigFile, which decides what Initialize returns.
  unfoldable pub load_config_file :
      {N : Type 0} → Xml N → ℕ → Bytes → Mgr H W R → Run (Bool × Mgr H W R)
  unfolding load_root
  load_config_file xml fuel path m = load_root xml fuel (xml.load_file path) m
