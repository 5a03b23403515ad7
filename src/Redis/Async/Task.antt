-- ===== src/Redis/Async/Task.antt =====
-- RedisMgr.cpp, OnExecRedisTask: the whole task for one connection.
use seed_core.Prelude.{◌≡◌, ap, ◌∙◌, ℕ, false, List, [], some, Run, ◌>>=◌, get_elem?, set}
use seed_core.Redis.Builder.{Builder}
use seed_core.Redis.Mgr.{Connection, Mgr, Host, Cmds}
use seed_core.Redis.Mgr.Resend.{at_some}
use seed_core.Redis.Async.{task_loop, exec_batch, set_post_task, on_exec_redis_task}
use seed_core.Redis.Async.Batches.{flatten, run_all, Bounded, task_loop_lem}

module _ {S E Q : Type 0} (host : Host S E Q) where
  -- The module once the queued commands of a connection have been taken.
  abbrev pub taken : ℕ → Mgr S E Q → Connection S Q → Mgr S E Q
  taken i m c = record m {
    connections =
        set m.connections i (record c { thread_cmd_list = (host.cut_list c.thread_cmd_list).1 });
  }

  -- The task for a connection takes all commands of its list, executes them in the list's order and
  -- each once, in batches of one to sixteen, on the connection that `_threadIdx` selects, and at the
  -- end marks its own connection as having no task.
  pub on_exec_redis_task_lem :
      (fuel i : ℕ) (m : Mgr S E Q) (c : Connection S Q)
      → get_elem? m.connections i ≡ some c
      → (batches : List (List Builder)) × (flatten batches ≡ (host.cut_list c.thread_cmd_list).0)
        × Bounded batches
        × (on_exec_redis_task host fuel i m ≡ (
            run_all (exec_batch host fuel c.thread_idx) batches (taken i m c, [])
            >>= set_post_task host i false))
  unfolding on_exec_redis_task
  on_exec_redis_task_lem fuel i m c there =
      let (batches, whole, bounded, runs) =
        task_loop_lem (exec_batch host fuel c.thread_idx) (host.cut_list c.thread_cmd_list).0 in
      (
        batches,
        whole,
        bounded,
        ap
              (λ (r : Run (Connection S Q)). r >>= λ d.
                task_loop (exec_batch host fuel d.thread_idx) [] (host.cut_list d.thread_cmd_list).0
                  (taken i m d, [])
                >>= set_post_task host i false)
              (at_some m.connections i c there)
            ∙ ap (λ (r : Run (Mgr S E Q × List Cmds)). r >>= set_post_task host i false)
                (runs (taken i m c, [])),
      )
