-- ===== src/Mysql/Tests.antt =====
-- Examples: a server that rejects short statements and never answers a ping, two workers, and the
-- theorems at them.
use seed_core.Prelude.{
  ◌≤◌, ℕ, ◌+◌, ◌-◌, ◌≡◌, refl, ap, subst, ◌≢◌, ◌<◌, inl, Bool, true, false, List, [], ◌∷◌, Option,
  none, some, Bytes, codes, arith, length, ltb, done,
}
use seed_core.Prelude.Int.{pos, to_s32, to_u32, to_u64}
use seed_core.Xml.Example.{settings}
use seed_core.Redis.Reply.{bytes_eq}
use seed_core.Mysql.{ConnectionInfo, Row, Client}
use seed_core.Mysql.Connection.{DbConnection, is_active, new_connection, open_, after_real_connect}
use seed_core.Mysql.Connection.Active.{IsClock, ticks, is_active_returns}
use seed_core.Mysql.Connection.Trace.{IsCounted, fails, execute_all, execute_all_lem}
use seed_core.Mysql.Result.{MysqlResult, no_result, init}
use seed_core.Mysql.Result.Rows.{IsCursor, Holds, init_lem}
use seed_core.Mysql.Mgr.{
  Mgr, new_mgr, new_base, set_base, push_mysql_handler, push_unused, push_base,
  connection_thread_idx, get_db_connection, slot, main_entry, find_connections,
}
use seed_core.Mysql.Mgr.Load.{load_config_file, thread_count}
use seed_core.Mysql.Mgr.Loaded.Success.{load_config_file_succeeds}
use seed_core.Mysql.Mgr.Loaded.Start.{IsLoaded, load_config_file_lem}
use seed_core.Mysql.Mgr.Safety.{IsSafe, push_mysql_handler-IsSafe}
use seed_core.Mysql.Mgr.Base.{on_execute, Handlers, finish, call_back}
use seed_core.Mysql.Mgr.Base.Steps.{push, Reach, start, later, waiting}
use seed_core.Mysql.Mgr.Base.Returns.{on_execute_returns}
use seed_core.Mysql.Mgr.Base.Apart.{reached_apart}
use seed_core.Mysql.Mgr.Base.Counts.{Counted, reached-Counted}

abbrev fetch : List Row → Option Row × List Row
fetch [] = (none, [])
fetch (row ∷ rows) = (some row, rows)

abbrev two_rows : List Row
two_rows = (some (codes "7") ∷ none ∷ []) ∷ (some (codes "8") ∷ some (codes "x") ∷ []) ∷ []

abbrev client : Client ℕ ℕ (List Row)
client = record {
  init = 0;
  set_reconnect = λ h. h;
  real_connect = λ info s. (true, s);
  set_character_set = λ name s. (true, s);
  close = λ (h, w). w;
  real_query = λ sql s. (ltb 1 (length sql), s);
  ping = λ (h, w). (false, (h, w + 1));
  errno = λ h. 2006;
  error = λ h. [];
  real_escape_string = λ src s. (src, s);
  store_result = λ h. (some two_rows, h);
  num_fields = λ r. 2;
  fetch_row = fetch;
  fetch_lengths = λ r. some 0;
  lengths_at = λ r p. [];
  now = λ w. (w, w);
  start_watch = λ w. (w, w);
  interval = λ start w. (pos (w - start), w);
  minute = 60_000;
  milliseconds = λ v. v;
}

client-IsClock : IsClock client
client-IsClock = record {
  pace = 1;
  instant = λ w. w;
  not_ahead = λ w. omega arith;
  not_behind = λ w. omega arith;
  reading = λ w. omega arith;
  pinging = λ h w e. omega arith;
}

within : ticks client client-IsClock ≤ 1_800_001
unfolding client-IsClock
within = omega arith

abbrev info : ConnectionInfo
info = record {
  host_des = codes "127.0.0.1";
  port = 3306;
  client_flag = 0;
  charset = [];
  username = codes "root";
  password = [];
  database_name = codes "game";
}

is_active_returns_example : (r : Bool × (ℕ × ℕ)) × (is_active client 1_800_002 info (0, 5) ≡ done r)
is_active_returns_example = is_active_returns client client-IsClock 1_800_001 info (0, 5) within

-- The second statement is rejected, twice.
abbrev statements : List Bytes
statements = codes "select 1" ∷ codes "x" ∷ codes "select 2" ∷ []

execute_all_lem_example :
    (rets : List Bool) × (c : DbConnection ℕ) × (w : ℕ) × (execute_all client 1_800_002 statements
        (new_connection client info)
        5
      ≡ done (rets, c, w))
    × (length rets ≡ 3)
    × IsCounted 3 (fails rets) c.trace_info
execute_all_lem_example =
    execute_all_lem client client-IsClock (λ start w. (w - start, refl)) 1_800_001 statements info 5
      within (omega arith)

client-IsCursor : IsCursor client
client-IsCursor = record { left = λ rows. rows; at_end = at_end; at_row = at_row }
  where
    at_end : (rows : List Row) → rows ≡ [] → (fetch rows).0 ≡ none
    at_end [] e = refl
    at_end (row ∷ rows) e = cc

    at_row :
        (l : List Row) (row : Row) (rows : List Row)
        → l ≡ row ∷ rows
        → ((fetch l).0 ≡ some row) × ((fetch l).1 ≡ rows)
    at_row l row rows e = rw e (refl, refl)

init_lem_example :
    (res : MysqlResult (List Row)) × (init client 3 7 (no_result client) ≡ done (res, 7))
    × Holds res two_rows
unfolding client-IsCursor new_base
init_lem_example = init_lem client client-IsCursor 3 7 7 two_rows refl (omega arith) (omega arith)

abbrev unloaded : Mgr ℕ ℕ (List Row)
unloaded = new_mgr (pos 0) (pos 0) 5

load_config_file_lem_example :
    (ok : Bool) × (m : Mgr ℕ ℕ (List Row)) × (load_config_file client settings 3 [] unloaded
      ≡ done (ok, m))
    × (ok ≡ true → IsLoaded m)
unfolding thread_count
load_config_file_lem_example =
    load_config_file_lem client settings [] 3 2 0 2 (3 ∷ 4 ∷ []) unloaded refl refl (omega arith)
      refl (refl, (refl, refl)) (omega arith) refl

load_config_file_succeeds_example :
    (m : Mgr ℕ ℕ (List Row)) × (load_config_file client settings 3 [] unloaded ≡ done (true, m))
unfolding thread_count bytes_eq open_ after_real_connect
load_config_file_succeeds_example =
    load_config_file_succeeds client opens settings [] 3 2 0 2 (3 ∷ 4 ∷ []) unloaded refl refl
      (omega arith) refl (refl, (refl, refl)) (omega arith) refl ((refl, tt), (tt, tt)) (inl refl)
  where
    opens : (i : ConnectionInfo) (s : ℕ × ℕ) → (open_ client i s).0 ≡ true
    opens i s =
        elim i.charset
          as (λ cs.
            (elim cs as (λ (x : Bytes). Bool × (ℕ × ℕ)) [ [] ↦ (true, s) | c ∷ ds ↦ (true, s) ]).0
            ≡ true) [ [] ↦ refl | c ∷ cs ↦ refl ]

-- A module with one name and two workers.
abbrev two_workers : Mgr ℕ ℕ (List Row)
two_workers = record unloaded {
  connections =
      new_connection client info ∷ new_connection client info ∷ new_connection client info ∷ [];
  connection_map = (codes "main", 0 ∷ 1 ∷ 2 ∷ []) ∷ [];
  main_connection = some (codes "main");
  async_connection_num = pos 2;
}

two_workers-IsSafe : IsSafe two_workers
unfolding main_entry find_connections bytes_eq
two_workers-IsSafe = record {
  loaded = record {
    workers = 2;
    counted = refl;
    owner = λ p. p;
    entries = (refl, (refl, omega arith, (refl, omega arith, (refl, omega arith, tt))), tt);
    main = (0 ∷ 1 ∷ 2 ∷ [], refl);
  };
  some_worker = omega arith;
  small = omega arith;
  jobs = tt;
}

push_mysql_handler-IsSafe_example :
    (ok : Bool) × (m : Mgr ℕ ℕ (List Row)) × (push_mysql_handler (pos 9) (some 1) none two_workers
      ≡ done (ok, m))
    × IsSafe m
push_mysql_handler-IsSafe_example =
    push_mysql_handler-IsSafe two_workers two_workers-IsSafe (pos 9) (some 1) none

-- A handler that executes one statement.
abbrev handlers : Handlers ℕ (List Row)
handlers = record {
  exec_sql = λ h w. call_back (codes "select 1") finish;
  on_success = λ h res w. w + 1;
  on_fail = λ h code text w. w;
  on_release = λ h w. w;
}

abbrev pushed : Mgr ℕ ℕ (List Row)
pushed = record two_workers {
  bases = new_base 2 1 ∷ [];
  get_base = set_base 1 0 two_workers.get_base;
  create_base_count = pos 1;
  started = (2, 0) ∷ [];
}

one_push :
    Reach client handlers
      (record { mgr = two_workers; live = [] })
      (record { mgr = pushed; live = (0, waiting) ∷ [] })
one_push = later _ _ _ (start _) (push (pos 9) (some 1) none two_workers pushed [] is_pushed)
  where
    is_pushed : push_mysql_handler (pos 9) (some 1) none two_workers ≡ done (true, pushed)
    is_pushed =
        unfold push_mysql_handler push_unused connection_thread_idx get_db_connection slot
          main_entry find_connections bytes_eq push_base to_s32 to_u32 to_u64 in
        refl

reached-Counted_example : Counted (record { mgr = pushed; live = (0, waiting) ∷ [] })
reached-Counted_example =
    reached-Counted client handlers two_workers (record { mgr = pushed; live = (0, waiting) ∷ [] })
      refl refl refl one_push

abbrev pushed_twice : Mgr ℕ ℕ (List Row)
pushed_twice = record pushed {
  bases = new_base 2 1 ∷ new_base 1 2 ∷ [];
  get_base = set_base 2 1 pushed.get_base;
  create_base_count = pos 2;
  started = (2, 0) ∷ (1, 1) ∷ [];
}

two_pushes :
    Reach client handlers
      (record { mgr = two_workers; live = [] })
      (record { mgr = pushed_twice; live = (0, waiting) ∷ (1, waiting) ∷ [] })
two_pushes =
    later _ _ _ one_push
      (push (pos 4) (some 2) none pushed pushed_twice ((0, waiting) ∷ []) is_pushed)
  where
    is_pushed : push_mysql_handler (pos 4) (some 2) none pushed ≡ done (true, pushed_twice)
    is_pushed =
        unfold push_mysql_handler push_unused connection_thread_idx get_db_connection slot
          main_entry find_connections bytes_eq push_base set_base to_s32 to_u32 to_u64 in
        refl

-- The jobs of the threads 2 and 1.
reached_apart_example :
    (new_base {R = List Row} 2 1).connection ≢ (new_base {R = List Row} 1 2).connection
reached_apart_example =
    reached_apart client handlers (record { mgr = two_workers; live = [] })
      (record { mgr = pushed_twice; live = (0, waiting) ∷ (1, waiting) ∷ [] }) two_workers-IsSafe
      two_pushes 0 1 2 1 0 1 (new_base 2 1) (new_base 1 2) refl refl refl refl
      (λ e. absurd (omega arith))

-- The job of the thread 2, at its execution.
on_execute_returns_example :
    (r : Bool × Mgr ℕ ℕ (List Row)) × (on_execute client handlers 1_800_002 0 pushed ≡ done r)
unfolding client-IsCursor new_base
on_execute_returns_example =
    on_execute_returns client client-IsClock client-IsCursor 1_800_001 within few handlers 0 pushed
      (new_base 2 1) (new_connection client info) refl refl
  where
    few : (h : ℕ) (r : List Row) → (client.store_result h).0 ≡ some r → length r < 1_800_002
    few h r e =
        let f : two_rows ≡ r = ap (λ o. elim o [ none ↦ two_rows | some y ↦ y ]) e in
        subst (λ (l : List Row). length l < 1_800_002) f (omega arith)
