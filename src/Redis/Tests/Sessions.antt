-- ===== src/Redis/Tests/Sessions.antt =====
-- Callers of the synchronous interface, against a server that keeps data.
use seed_core.Prelude.{
  get_elem?, ◌≤◌, false, subst, sym, ℕ, ◌≡◌, refl, List, [], ◌∷◌, some, Bytes, codes, arith, done,
  true, false, if◌then◌else◌,
}
use seed_core.Prelude.Int.{pos, to_u32, to_s32}
use seed_core.Prelude.Decimal.{decimal, digits}
use seed_core.Redis.Resp.{encode, bulks}
use seed_core.Redis.Builder.{Builder, c_str, string, request}
use seed_core.Redis.Builder.Encoding.{request-Holds}
use seed_core.Redis.Reply.{Reply, bytes_eq, get_string}
use seed_core.Redis.Mgr.{Mgr}
use seed_core.Redis.Sync.{word, result_ok, plain_result, string_result}
use seed_core.Redis.Sync.Results.{Sendable}
use seed_core.Redis.Mgr.{Connection, Cmds, connection_idx}
use seed_core.Redis.Async.{on_exec_redis_task}
use seed_core.Redis.Session.Task.{on_exec_redis_task_served}
use seed_core.Redis.Session.Batches.{answer_all}
use seed_core.Redis.Session.Served.{Connected}
use seed_core.Redis.Session.Program.{run_program, over_data, reply_bytes, run_program-over_data}
use seed_core.Redis.Session.Threads.{interleave, interleave-over_data}
use seed_core.Redis.Session.Strings.{get_outcome, set_and_get, set_then_get, set_string-get}
use seed_core.Redis.Session.Example.{
  Peer, Data, no_data, small_redis, small_redis-IsStrings, peer-Session, peer-Accepts,
  print-IsSprintf, peer_size, fresh, fresh-IsIdle, to_server, machine, one_worker, main_thread,
}

abbrev name : Bytes
name = codes "name"

abbrev seed : Bytes
seed = codes "seed"

set_name-Sendable : Sendable 100 (word "SET" ∷ string name ∷ string seed ∷ [])
unfolding c_str encode bulks decimal digits
set_name-Sendable = record {
  few = omega arith;
  fits = (omega arith, (omega arith, (omega arith, tt)));
  small = omega arith;
  enough = omega arith;
}

get_name-Sendable : Sendable 100 (word "GET" ∷ string name ∷ [])
unfolding c_str encode bulks decimal digits
get_name-Sendable = record {
  few = omega arith;
  fits = (omega arith, (omega arith, tt));
  small = omega arith;
  enough = omega arith;
}

-- The key is set, and the value comes back.
abbrev after_set : Data
after_set = record no_data {
  strings = λ j. if bytes_eq name j then some seed else no_data.strings j;
}

ends_on_data :
    over_data small_redis (set_and_get name seed name []) no_data
    ≡ done ((result_ok, (result_ok, seed)), after_set)
unfolding over_data small_redis plain_result string_result get_string c_str bytes_eq
ends_on_data = refl

-- Two replies of two bytes each.
two_bytes_each : reply_bytes small_redis (λ r. 2) (set_and_get name seed name []) no_data ≤ 100
unfolding reply_bytes over_data small_redis plain_result string_result get_string c_str bytes_eq
two_bytes_each = omega arith

replies_fit :
    reply_bytes small_redis (peer-Session small_redis).size (set_and_get name seed name []) no_data
    ≤ 100
replies_fit =
    subst
      (λ (size : Reply → ℕ).
        reply_bytes small_redis size (set_and_get name seed name []) no_data ≤ 100)
      (sym (peer_size small_redis)) two_bytes_each

run_program-over_data_example :
    (m : Mgr (Peer Data) ℕ (List Builder)) × (run_program machine 101
        (set_and_get name seed name [])
        one_worker
        (pos 0)
      ≡ done ((result_ok, (result_ok, seed)), m))
    × Connected (peer-Session small_redis) m (pos 0) 0 after_set
run_program-over_data_example =
    run_program-over_data machine print-IsSprintf (peer-Session small_redis)
      (peer-Accepts small_redis) (set_and_get name seed name []) 100 0 one_worker (pos 0) no_data
      after_set (result_ok, (result_ok, seed)) main_thread
      (set_name-Sendable, λ c o. (get_name-Sendable, λ c' o'. tt)) replies_fit ends_on_data

set_string-get_example :
    (m : Mgr (Peer Data) ℕ (List Builder)) × (d : Data) × (set_then_get machine 101 name seed name
        [] one_worker
        (pos 0)
      ≡ done (
        (
          result_ok,
          get_outcome [] (
              if bytes_eq name name then some seed else (small_redis-IsStrings.value no_data name)),
        ),
        m,
      ))
    × Connected (peer-Session small_redis) m (pos 0) 0 d
    × ((l : Bytes)
        → small_redis-IsStrings.value d l
          ≡ (if bytes_eq name l then some seed else small_redis-IsStrings.value no_data l))
set_string-get_example =
    set_string-get machine print-IsSprintf (peer-Session small_redis) (peer-Accepts small_redis)
      small_redis-IsStrings name seed name [] 100 0 one_worker (pos 0) no_data main_thread
      set_name-Sendable get_name-Sendable replies_fit

abbrev set_name : Builder
set_name = request machine.sprintf (word "SET" ∷ string name ∷ string seed ∷ [])

-- The worker has the request in its queue.
abbrev busy_worker : Mgr (Peer Data) ℕ (List Builder)
busy_worker = record one_worker {
  connections = to_server ∷ record to_server { thread_cmd_list = set_name ∷ [] } ∷ [];
}

worker_thread : Connected (peer-Session small_redis) busy_worker (pos 1) 1 no_data
unfolding connection_idx to_u32 to_s32
worker_thread = record {
  ct = fresh;
  reached = record {
    chosen = refl;
    conn = record to_server { thread_cmd_list = set_name ∷ [] };
    there = refl;
    at = refl;
  };
  idle = fresh-IsIdle small_redis no_data;
}

on_exec_redis_task_served_example :
    (m : Mgr (Peer Data) ℕ (List Builder)) × (log : List Cmds) × (on_exec_redis_task machine 101 1
        busy_worker
      ≡ done (m, log))
    × Connected
        (peer-Session small_redis)
        m
        (pos 1)
        1
        (answer_all small_redis ((codes "SET" ∷ name ∷ seed ∷ []) ∷ []) no_data)
    × ((z : Connection (Peer Data) (List Builder)) × (get_elem? m.connections 1 ≡ some z)
        × (z.post_task ≡ false))
on_exec_redis_task_served_example =
    on_exec_redis_task_served machine (peer-Session small_redis) (peer-Accepts small_redis) 100 1 1
      busy_worker (record to_server { thread_cmd_list = set_name ∷ [] })
      ((codes "SET" ∷ name ∷ seed ∷ []) ∷ []) no_data refl worker_thread
      (
        unfold c_str in
            request-Holds print-IsSprintf (word "SET" ∷ string name ∷ string seed ∷ [])
              set_name-Sendable.few set_name-Sendable.fits,
        unfold c_str in set_name-Sendable.small,
        unfold c_str in set_name-Sendable.enough,
        tt,
      )
      (
        subst
            (λ (size : Reply → ℕ).
              size (small_redis (codes "SET" ∷ name ∷ seed ∷ []) no_data).0 ≤ 101)
            (sym (peer_size small_redis)) (omega arith),
        tt,
      )

second_thread : Connected (peer-Session small_redis) one_worker (pos 1) 1 no_data
unfolding connection_idx to_u32 to_s32
second_thread = record {
  ct = fresh;
  reached = record { chosen = refl; conn = to_server; there = refl; at = refl };
  idle = fresh-IsIdle small_redis no_data;
}

-- Both threads set the key and get it, each on its own server.
interleave-over_data_example :
    (m : Mgr (Peer Data) ℕ (List Builder)) × (interleave machine 101
        (false ∷ true ∷ true ∷ [])
        (set_and_get name seed name [])
        (set_and_get name seed name [])
        one_worker
        (pos 0)
        (pos 1)
      ≡ done (((result_ok, (result_ok, seed)), (result_ok, (result_ok, seed))), m))
    × Connected (peer-Session small_redis) m (pos 0) 0 after_set
    × Connected (peer-Session small_redis) m (pos 1) 1 after_set
interleave-over_data_example =
    interleave-over_data machine print-IsSprintf (peer-Session small_redis)
      (peer-Accepts small_redis) 1 0 1 100 0 1 (false ∷ true ∷ true ∷ [])
      (set_and_get name seed name []) (set_and_get name seed name []) one_worker
      (result_ok, (result_ok, seed)) (result_ok, (result_ok, seed)) no_data after_set no_data
      after_set (omega arith) (omega arith) (omega arith) (omega arith) (omega arith) refl
      main_thread second_thread (set_name-Sendable, λ c o. (get_name-Sendable, λ c' o'. tt))
      (set_name-Sendable, λ c o. (get_name-Sendable, λ c' o'. tt)) replies_fit replies_fit
      ends_on_data ends_on_data
