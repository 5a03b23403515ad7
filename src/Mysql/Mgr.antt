-- ===== src/Mysql/Mgr.antt =====
-- MysqlMgr.h and MysqlMgr.cpp: the module's state, and the connection that an operation uses.
pub mod Load
pub mod Loaded
pub mod Access
pub mod Base
pub mod Safety
use seed_core.Prelude.{
  ℕ, zero, suc, ◌+◌, ◌%◌, Bool, true, false, List, [], ◌∷◌, ◌++◌, Option, none, some, Bytes, length,
  get_elem?, if◌then◌else◌, ◌==◌, ◌&&◌, leb, ltb, Run, done, fault, ◌>>=◌,
}
use seed_core.Prelude.Int.{ℤ, pos, negsuc, ltb_ℤ, to_s32, to_u32, to_u64, inc, ◌==ℤ◌}
use seed_core.Redis.Reply.{bytes_eq}
use seed_core.Mysql.{Client}
use seed_core.Mysql.Connection.{DbConnection}
use seed_core.Mysql.Result.{MysqlResult}

-- MysqlBase. The connection and the handler are addresses; the error's number is not set at first.
pub record MysqlBase (R : Type 0) : Type 0 where
  pub connection : ℕ
  pub mysql_handler : ℕ
  pub result : MysqlResult R
  pub eror_code : Option ℕ
  pub error_info : Bytes

-- `connections` and `bases` are the store: an address is a place in them. The map has for each name
-- the addresses of its connections; `main_connection` is the name of the entry it points to. `get_base`
-- gives a handler's base; `started` are the calls of StartAsync.
pub record Mgr (H : Type 0) (W : Type 0) (R : Type 0) : Type 0 where
  pub connections : List (DbConnection H)
  pub connection_map : List (Bytes × List ℕ)
  pub main_connection : Option Bytes
  pub async_connection_num : ℤ
  pub perfile_time : ℤ
  pub create_base_count : ℤ
  pub release_base_count : ℤ
  pub bases : List (MysqlBase R)
  pub get_base : ℕ → Option ℕ
  pub started : List (ℕ × ℕ)
  pub world : W

-- `_connctionMap.find`
unfoldable pub find_connections : Bytes → List (Bytes × List ℕ) → Option (List ℕ)
unfolding bytes_eq
find_connections name [] = none
find_connections name ((n, v) ∷ m) = if bytes_eq name n then some v else find_connections name m

-- GetConnectionThreadIdx. A modulus of zero is a fault.
unfoldable pub connection_thread_idx : ℤ → ℤ → Run ℕ
connection_thread_idx id num =
    if to_u64 num == 0 then fault else done (to_u32 (pos (to_u64 id % to_u64 num + 1)))

-- GetConnectionMainThreadIdx
abbrev pub connection_main_thread_idx : ℕ
connection_main_thread_idx = 0

-- CheckThreadIdx
unfoldable pub check_thread_idx : ℤ → ℤ → Bool
check_thread_idx (pos t) (pos n) = ltb 0 t && leb t n
check_thread_idx (pos t) (negsuc n) = false
check_thread_idx (negsuc t) n = false

-- A place past the end of a vector is a fault.
unfoldable pub slot : ℕ → Option (List ℕ) → Run ℕ
slot i none = fault
slot i (some v) = elim (get_elem? v i) [ none ↦ fault | some p ↦ done p ]

unfoldable pub named_slot : ℕ → Option (List ℕ) → Run (Option ℕ)
unfolding slot
named_slot i none = done none
named_slot i (some v) = slot i (some v) >>= λ p. done (some p)

-- The entry that `_mainConnection` points to.
unfoldable pub main_entry : List (Bytes × List ℕ) → Option Bytes → Option (List ℕ)
unfolding find_connections
main_entry m none = none
main_entry m (some name) = find_connections name m

-- The handler at an address gets a base.
unfoldable pub set_base : ℕ → ℕ → (ℕ → Option ℕ) → ℕ → Option ℕ
set_base h b bases k = if k == h then some b else bases k

-- `NEW MysqlBase`, with a result that is not yet filled.
unfoldable pub new_base : {R : Type 0} → ℕ → ℕ → MysqlBase R
new_base connection h = record {
  connection = connection;
  mysql_handler = h;
  result = record { result = none; rows = [] };
  eror_code = none;
  error_info = [];
}

module _ {H W R : Type 0} where
  -- GetDBConnection
  unfoldable pub get_db_connection : ℕ → Option Bytes → Mgr H W R → Run (Option ℕ)
  unfolding main_entry named_slot
  get_db_connection thread_idx none m =
      slot thread_idx (main_entry m.connection_map m.main_connection) >>= λ p. done (some p)
  get_db_connection thread_idx (some name) m =
      named_slot thread_idx (find_connections name m.connection_map)

  -- The state before Initialize; the members without an initialiser are given.
  abbrev pub new_mgr : ℤ → ℤ → W → Mgr H W R
  new_mgr num perfile w = record {
    connections = [];
    connection_map = [];
    main_connection = none;
    async_connection_num = num;
    perfile_time = perfile;
    create_base_count = pos 0;
    release_base_count = pos 0;
    bases = [];
    get_base = λ h. none;
    started = [];
    world = w;
  }

  -- PushMysqlHandler behind the choice of a connection.
  unfoldable pub push_base : ℕ → ℕ → Mgr H W R → Option ℕ → Run (Bool × Mgr H W R)
  unfolding set_base new_base
  push_base h thread_idx m none = done (false, m)
  push_base h thread_idx m (some c) =
      let b = length m.bases in
      done (
        true,
        record m {
          bases = m.bases ++ new_base c h ∷ [];
          get_base = set_base h b m.get_base;
          create_base_count = to_s32 (inc m.create_base_count);
          started = m.started ++ (thread_idx, b) ∷ [];
        },
      )

  -- PushMysqlHandler for a handler whose base is `base`.
  unfoldable pub push_unused : ℤ → ℕ → Option Bytes → Mgr H W R → Option ℕ → Run (Bool × Mgr H W R)
  unfolding push_base get_db_connection
  push_unused id h name m (some base) = done (false, m)
  push_unused id h name m none = connection_thread_idx id m.async_connection_num >>= λ t.
      get_db_connection t name m >>= push_base h t m

  -- PushMysqlHandler. A null handler is `none`.
  unfoldable pub push_mysql_handler :
      ℤ → Option ℕ → Option Bytes → Mgr H W R → Run (Bool × Mgr H W R)
  unfolding push_unused
  push_mysql_handler id none name m = done (false, m)
  push_mysql_handler id (some h) name m = push_unused id h name m (m.get_base h)

  -- OnBaseRelease
  unfoldable pub on_base_release : Mgr H W R → Mgr H W R
  on_base_release m = record m { release_base_count = to_s32 (inc m.release_base_count) }

-- Launched: how often the timer of the profile runs, and forever.
unfoldable pub launched : {H W R : Type 0} → Client H W R → Mgr H W R → ℤ × Mgr H W R
launched client m =
    let time = if m.perfile_time ==ℤ pos 0 then pos client.minute else m.perfile_time in
    (time, record m { perfile_time = time })
