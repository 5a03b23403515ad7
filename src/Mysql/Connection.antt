-- ===== src/Mysql/Connection.antt =====
-- DBConnection.h and DBConnection.cpp.
pub mod Trace
pub mod Active
use seed_core.Prelude.{
  ℕ, zero, suc, ◌+◌, ◌*◌, Bool, true, false, List, [], ◌∷◌, Bytes, length, take, ltb, ◌==◌,
  if◌then◌else◌, Run, done, starved, ◌>>=◌,
}
use seed_core.Prelude.Int.{ℤ, pos, ltb_ℤ, to_s32, to_s64, inc}
use seed_core.Redis.Builder.{c_str}
use seed_core.Mysql.{ConnectionInfo, Client, Api}

-- RECONNECT_TIME_OUT, in minutes
abbrev pub reconnect_time_out : ℕ
reconnect_time_out = 30

pub record ConnectionTraceInfo : Type 0 where
  pub exec_count : ℤ
  pub fail_count : ℤ
  pub max_exec_time : ℤ
  pub min_exec_time : ℤ

pub record DbConnection (H : Type 0) : Type 0 where
  pub handler : H
  pub info : ConnectionInfo
  pub trace_info : ConnectionTraceInfo

-- `tools::Zero(_traceInfo)`
abbrev pub no_trace : ConnectionTraceInfo
no_trace = record {
  exec_count = pos 0;
  fail_count = pos 0;
  max_exec_time = pos 0;
  min_exec_time = pos 0;
}

-- The part of execute behind the statement, which took `time`.
unfoldable pub traced : ℤ → Bool → ConnectionTraceInfo → ConnectionTraceInfo
traced time ret t = record t {
  max_exec_time = if ltb_ℤ t.max_exec_time time then to_s32 time else t.max_exec_time;
  min_exec_time = if ltb_ℤ time t.min_exec_time then to_s32 time else t.min_exec_time;
  fail_count = if ret then t.fail_count else to_s64 (inc t.fail_count);
}

module _ {H W R : Type 0} (client : Client H W R) where
  -- DBConnection::DBConnection
  unfoldable pub new_connection : ConnectionInfo → DbConnection H
  new_connection info = record { handler = client.init; info = info; trace_info = no_trace }

  unfoldable pub after_real_connect : ConnectionInfo → Bool × (H × W) → Bool × (H × W)
  after_real_connect info (false, s) = (false, s)
  after_real_connect info (true, s) = elim info.charset [
    | [] ↦ (true, s)
    | c ∷ cs ↦ client.set_character_set (c ∷ cs) s
  ]

  unfoldable pub open_ : ConnectionInfo → Api H W Bool
  unfolding after_real_connect
  open_ info (h, w) = after_real_connect info (client.real_connect info (client.set_reconnect h, w))

  unfoldable pub reopen : ConnectionInfo → Api H W Bool
  unfolding open_
  reopen info s = open_ info (client.init, client.close s)

  -- What a ping in the loop says, and the rest of the loop.
  unfoldable pub after_ping :
      (H × W → Run (Bool × (H × W))) → ConnectionInfo → ℕ → Bool × (H × W) → Run (Bool × (H × W))
  unfolding reopen
  after_ping rest info start (true, s) = done (true, s)
  after_ping rest info start (false, (h, w)) =
      let (t, w') = client.now w in
      if ltb (start + client.minute * reconnect_time_out) t
      then done (reopen info (h, w'))
      else rest (h, w')

  -- `while (true)`, with fuel for the pings. The loop does not sleep.
  unfoldable pub ping_loop : ℕ → ConnectionInfo → ℕ → H × W → Run (Bool × (H × W))
  unfolding after_ping
  ping_loop zero info start s = starved
  ping_loop (suc fuel) info start s =
      after_ping (ping_loop fuel info start) info start (client.ping s)

  unfoldable pub after_first_ping : ℕ → ConnectionInfo → Bool × (H × W) → Run (Bool × (H × W))
  unfolding ping_loop
  after_first_ping fuel info (true, s) = done (true, s)
  after_first_ping fuel info (false, (h, w)) =
      let (start, w') = client.now w in ping_loop fuel info start (h, w')

  unfoldable pub is_active : ℕ → ConnectionInfo → H × W → Run (Bool × (H × W))
  unfolding after_first_ping
  is_active fuel info s = after_first_ping fuel info (client.ping s)

  unfoldable pub try_again : Bytes → Bool × (H × W) → Bool × (H × W)
  try_again sql (false, s) = (false, s)
  try_again sql (true, s) = client.real_query (c_str sql) s

  unfoldable pub after_query : ℕ → ConnectionInfo → Bytes → Bool × (H × W) → Run (Bool × (H × W))
  unfolding is_active try_again
  after_query fuel info sql (true, s) = done (true, s)
  after_query fuel info sql (false, s) = is_active fuel info s >>= λ r. done (try_again sql r)

  unfoldable pub inner_execute : ℕ → ConnectionInfo → Bytes → H × W → Run (Bool × (H × W))
  unfolding after_query
  inner_execute fuel info sql s = after_query fuel info sql (client.real_query (c_str sql) s)

  unfoldable pub after_execute :
      DbConnection H → ℕ → Bool × (H × W) → Run (Bool × DbConnection H × W)
  unfolding traced
  after_execute c start (ret, (h, w)) =
      let (time, w') = client.interval start w in
      done (ret, record c { handler = h; trace_info = traced time ret c.trace_info }, w')

  unfoldable pub execute : ℕ → Bytes → DbConnection H → W → Run (Bool × DbConnection H × W)
  unfolding inner_execute after_execute
  execute fuel sql c w =
      let t = c.trace_info in
      let c' = record c { trace_info = record t { exec_count = to_s64 (inc t.exec_count) } } in
      let (start, w') = client.start_watch w in
      inner_execute fuel c.info sql (c.handler, w') >>= after_execute c' start

  unfoldable pub after_escape : ℕ → ConnectionInfo → Bytes → Bytes × (H × W) → Run (Bytes × (H × W))
  after_escape fuel info src ([], s) = is_active fuel info s >>= λ (ok, s').
      done (if ok then client.real_escape_string src s' else ([], s'))
  after_escape fuel info src (c ∷ cs, s) = done (c ∷ cs, s)

  -- EscapeStringEx: the text that it writes, whose length it returns.
  unfoldable pub escape_string_ex :
      ℕ → Bytes → DbConnection H → W → Run (Bytes × DbConnection H × W)
  unfolding after_escape
  escape_string_ex fuel src c w =
      after_escape fuel c.info src (client.real_escape_string src (c.handler, w))
      >>= λ (out, (h, w')). done (out, record c { handler = h }, w')
