-- ===== src/Redis/Tests/Connections.antt =====
-- Connections: which one a thread gets, and what it executes there.
use seed_core.Prelude.{
  ℕ, ◌+◌, ◌≡◌, ◌<◌, ◌≢◌, refl, true, false, List, [], ◌∷◌, ◌++◌, some, arith, length, Run, done,
  get_elem?, set,
}
use seed_core.Prelude.Int.{pos, to_u32, to_s32}
use seed_core.Redis.Resp.{decode}
use seed_core.Redis.Builder.{Builder, get_send_buff}
use seed_core.Redis.Builder.Encoding.{texts}
use seed_core.Redis.Reply.{nil}
use seed_core.Redis.Mgr.{Connection, connection_idx, with_ctx}
use seed_core.Redis.Mgr.Execute.{exec_cmd, batch_exec_cmd}
use seed_core.Redis.Mgr.Select.{connection_idx_apart}
use seed_core.Redis.Mgr.Resend.{bare, exec_cmd_re_send, exec_cmd_dead}
use seed_core.Redis.Async.{task_loop, add_async_task}
use seed_core.Redis.Async.Queue.{add_async_task_lem}
use seed_core.Redis.Async.Batches.{flatten, run_all, Bounded, task_loop_lem}
use seed_core.Redis.Async.Queued.{queue_request_lem}
use seed_core.Redis.Async.Commands.{queue_request}
use seed_core.Redis.Sync.{result_ok}
use seed_core.Redis.Mgr.Retry.{IsClock, exec_task_by_time_out_returns}
use seed_core.Redis.Mgr.{Attempt, Mgr}
use seed_core.Redis.Mgr.Execute.{exec_task_by_time_out}
use seed_core.Redis.Transport.{redis_err}
use seed_core.Redis.Tests.{
  print-IsSprintf, machine, fresh_context, failed_context, connected, two_workers,
  two_workers-IsReady, get_words, get_words-Fits, get_name, get_name-Holds,
}

connection_idx_apart_example : connection_idx (pos 1) (pos 2) ≢ connection_idx (pos 2) (pos 2)
connection_idx_apart_example =
    connection_idx_apart 2 (omega arith) (omega arith) 1 2 (omega arith) (omega arith)
      (λ e. absurd (omega arith))

exec_cmd_re_send_example :
    (exec_cmd (machine nil) 100 two_workers (pos 0) get_name true
      ≡ exec_cmd (machine nil) 100 two_workers (pos 0) get_name false)
    × (batch_exec_cmd (machine nil) 100 two_workers (pos 0) (get_name ∷ []) true
        ≡ batch_exec_cmd (machine nil) 100 two_workers (pos 0) (get_name ∷ []) false)
exec_cmd_re_send_example =
    exec_cmd_re_send (machine nil) 100 two_workers (pos 0) get_name (get_name ∷ [])

exec_cmd_dead_example :
    exec_cmd (machine nil) 100 two_workers (pos 1) get_name true
    ≡ done (
      pos 0,
      bare get_name,
      with_ctx two_workers 2 (record failed_context { obuf = get_name.seek }),
    )
exec_cmd_dead_example =
    exec_cmd_dead (machine nil) 100 2 two_workers (pos 1) (connected failed_context) get_name true
      (unfold connection_idx to_u32 to_s32 in refl) refl (λ e. absurd (omega arith))
      (get_name-Holds.is_committed)

add_async_task_lem_example :
    (i : ℕ) × (c : Connection ℕ (List Builder)) × (0 < i)
    × (get_elem? two_workers.connections i ≡ some c)
    × (add_async_task (machine nil) two_workers (pos 7) get_name
        ≡ done (record two_workers {
          connections = set two_workers.connections i (record c {
            thread_cmd_list = get_name ∷ c.thread_cmd_list;
            has_task_handler = true;
            post_task = false;
          });
        }))
add_async_task_lem_example =
    add_async_task_lem (machine nil) two_workers (pos 7) get_name two_workers-IsReady

queue_request_lem_example :
    (i : ℕ) × (c : Connection ℕ (List Builder)) × (b : Builder) × (0 < i)
    × (get_elem? two_workers.connections i ≡ some c)
    × (b.committed ≡ true)
    × (decode (get_send_buff b) ≡ some (texts get_words, []))
    × (queue_request (machine nil) (pos 7) get_words two_workers
        ≡ done (
          result_ok,
          record two_workers {
            connections = set two_workers.connections i (record c {
              thread_cmd_list = b ∷ c.thread_cmd_list;
              has_task_handler = true;
              post_task = false;
            });
          },
        ))
queue_request_lem_example =
    queue_request_lem (machine nil) print-IsSprintf two_workers (pos 7) get_words
      two_workers-IsReady (omega arith) get_words-Fits

-- Executing a batch notes its length.
abbrev note : List Builder → List ℕ → Run (List ℕ)
note bs log = done (log ++ length bs ∷ [])

task_loop_lem_example :
    (batches : List (List Builder)) × (flatten batches ≡ get_name ∷ get_name ∷ [])
    × Bounded batches
    × ((m : List ℕ) → task_loop note [] (get_name ∷ get_name ∷ []) m ≡ run_all note batches m)
task_loop_lem_example = task_loop_lem note (get_name ∷ get_name ∷ [])

machine-IsClock : IsClock (machine nil)
machine-IsClock = record {
  time = λ e. e;
  reads = λ e. refl;
  reading = λ e. omega arith;
  sleeping = λ n e. omega arith;
  connecting = λ config e. omega arith;
}

-- An attempt that counts itself.
abbrev counted : Attempt ℕ ℕ
counted c x = done (redis_err, c, x + 1)

exec_task_by_time_out_returns_example :
    (r : Mgr ℕ ℕ (List Builder) × ℕ) × (exec_task_by_time_out
        (machine nil)
        counted
        2
        0
        two_workers
        0
      ≡ done r)
exec_task_by_time_out_returns_example =
    exec_task_by_time_out_returns (machine nil) machine-IsClock counted
      (λ c x. ((redis_err, c, x + 1), refl)) 1 0 two_workers 0 (omega arith)

-- The second connection has two commands in its list.
abbrev busy : Connection ℕ (List Builder)
busy = record (connected fresh_context) { thread_cmd_list = get_name ∷ get_name ∷ [] }

abbrev busy_workers : Mgr ℕ ℕ (List Builder)
busy_workers = record two_workers { connections = connected fresh_context ∷ busy ∷ [] }
