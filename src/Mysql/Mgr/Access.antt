-- ===== src/Mysql/Mgr/Access.antt =====
-- MysqlMgr.cpp: the synchronous operations, which work on the connection of a thread at once.
use seed_core.Prelude.{
  ℕ, Bool, true, false, [], Option, none, some, Bytes, get_elem?, set, if◌then◌else◌, Run, done,
  fault, ◌>>=◌,
}
use seed_core.Prelude.Int.{ℤ, to_u32}
use seed_core.Mysql.{Client}
use seed_core.Mysql.Connection.{DbConnection, execute, escape_string_ex}
use seed_core.Mysql.Result.{MysqlResult, no_result, init}
use seed_core.Mysql.Mgr.{Mgr, check_thread_idx, connection_main_thread_idx, get_db_connection}

-- The connection at an address is there.
unfoldable pub deref : {A : Type 0} → Option A → Run A
deref none = fault
deref (some a) = done a

module _ {H W R : Type 0} (client : Client H W R) where
  -- The module with another state of a connection, of its clock and of its handlers.
  abbrev pub with_state : ℕ → Mgr H W R → DbConnection H → W → Mgr H W R
  with_state p m c w = record m { connections = set m.connections p c; world = w }

  -- EscapeStringEx on the connection that GetDBConnection answers. Nothing is written without one.
  unfoldable pub escape_on : ℕ → Bytes → Mgr H W R → Option ℕ → Run (Bytes × Mgr H W R)
  unfolding deref
  escape_on fuel src m none = done ([], m)
  escape_on fuel src m (some p) = deref (get_elem? m.connections p) >>= λ c.
      escape_string_ex client fuel src c m.world >>= λ (out, c', w). done (out, with_state p m c' w)

  -- EscapeStringExInMainThread
  unfoldable pub escape_string_ex_in_main_thread :
      ℕ → Bytes → Option Bytes → Mgr H W R → Run (Bytes × Mgr H W R)
  unfolding escape_on
  escape_string_ex_in_main_thread fuel src name m =
      get_db_connection connection_main_thread_idx name m >>= escape_on fuel src m

  -- EscapeStringExInAsyncThread
  unfoldable pub escape_string_ex_in_async_thread :
      ℕ → ℤ → Bytes → Option Bytes → Mgr H W R → Run (Bytes × Mgr H W R)
  unfolding escape_on
  escape_string_ex_in_async_thread fuel thread_idx src name m =
      if check_thread_idx thread_idx m.async_connection_num
      then (get_db_connection (to_u32 thread_idx) name m >>= escape_on fuel src m)
      else done ([], m)

  -- GetEscapeStringHandlerInMainThread: the address of the connection.
  unfoldable pub escape_string_handler_in_main_thread : Option Bytes → Mgr H W R → Run (Option ℕ)
  escape_string_handler_in_main_thread name m = get_db_connection connection_main_thread_idx name m

  -- GetEscapeStringHandlerInAsyncThread
  unfoldable pub escape_string_handler_in_async_thread :
      ℤ → Option Bytes → Mgr H W R → Run (Option ℕ)
  escape_string_handler_in_async_thread thread_idx name m =
      if check_thread_idx thread_idx m.async_connection_num
      then get_db_connection (to_u32 thread_idx) name m
      else done none

  unfoldable pub exec_on : ℕ → Bytes → Mgr H W R → Option ℕ → Run (Bool × Mgr H W R)
  unfolding deref
  exec_on fuel sql m none = done (false, m)
  exec_on fuel sql m (some p) = deref (get_elem? m.connections p) >>= λ c.
      execute client fuel sql c m.world >>= λ (ret, c', w). done (ret, with_state p m c' w)

  -- ExecSqlInAsyncThread without a function to call back.
  unfoldable pub exec_sql_in_async_thread :
      ℕ → ℤ → Bytes → Option Bytes → Mgr H W R → Run (Bool × Mgr H W R)
  unfolding exec_on
  exec_sql_in_async_thread fuel thread_idx sql name m =
      if check_thread_idx thread_idx m.async_connection_num
      then (get_db_connection (to_u32 thread_idx) name m >>= exec_on fuel sql m)
      else done (false, m)

  -- The result of a statement that has succeeded, for `cbFun`.
  unfoldable pub call_back :
      ℕ
      → Option (MysqlResult R → W → W)
      → ℕ
      → Mgr H W R
      → Bool × DbConnection H × W
      → Run (Bool × Mgr H W R)
  call_back fuel cb p m (false, c, w) = done (false, with_state p m c w)
  call_back fuel none p m (true, c, w) = done (true, with_state p m c w)
  call_back fuel (some cb) p m (true, c, w) =
      init client fuel c.handler (no_result client) >>= λ (res, h).
      done (true, with_state p m (record c { handler = h }) (cb res w))

  unfoldable pub exec_on_with :
      ℕ → Bytes → Option (MysqlResult R → W → W) → Mgr H W R → Option ℕ → Run (Bool × Mgr H W R)
  unfolding deref call_back
  exec_on_with fuel sql cb m none = done (false, m)
  exec_on_with fuel sql cb m (some p) = deref (get_elem? m.connections p) >>= λ c.
      execute client fuel sql c m.world >>= call_back fuel cb p m

  -- ExecSqlInAsyncThread with a function, which may be empty.
  unfoldable pub exec_sql_in_async_thread_with :
      ℕ
      → ℤ
      → Bytes
      → Option (MysqlResult R → W → W)
      → Option Bytes
      → Mgr H W R
      → Run (Bool × Mgr H W R)
  unfolding exec_on_with
  exec_sql_in_async_thread_with fuel thread_idx sql cb name m =
      if check_thread_idx thread_idx m.async_connection_num
      then (get_db_connection (to_u32 thread_idx) name m >>= exec_on_with fuel sql cb m)
      else done (false, m)
