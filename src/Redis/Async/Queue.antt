-- ===== src/Redis/Async/Queue.antt =====
-- RedisMgr.cpp, addAsyncTask: what becomes of a command that is queued.
use seed_core.Prelude.{
  ℕ, ◌+◌, ◌<◌, ◌≡◌, refl, true, false, length, get_elem?, set, some, done, arith,
  get_elem?_in_range,
}
use seed_core.Prelude.Int.{ℤ, pos, two31}
use seed_core.Redis.Builder.{Builder}
use seed_core.Redis.Mgr.{Connection, Mgr, Host, async_idx}
use seed_core.Redis.Mgr.Select.{async_idx_bounds}
use seed_core.Redis.Mgr.Resend.{at_some}
use seed_core.Redis.Async.{add_async_task}

-- The vector has a connection for the main thread and one for each of `connect_num` workers.
pub record IsReady {S E Q : Type 0} (m : Mgr S E Q) : Type 0 where
  pub workers : ℕ
  pub some_worker : 0 < workers
  pub small : workers < two31
  pub counted : m.connect_num ≡ pos workers
  pub connected : length m.connections ≡ workers + 1

module _ {S E Q : Type 0} (host : Host S E Q) where
  -- In a module that is ready, a queued command goes to the head of the list of one worker's
  -- connection, and that is all: the async queue is not told, and the connection is not marked as
  -- having a task.
  pub add_async_task_lem :
      (m : Mgr S E Q) (task_id : ℤ) (b : Builder)
      → IsReady m
      → (i : ℕ) × (c : Connection S Q) × (0 < i)
        × (get_elem? m.connections i ≡ some c)
        × (add_async_task host m task_id b
            ≡ done (record m {
              connections = set m.connections i (record c {
                thread_cmd_list = host.insert_head b c.thread_cmd_list;
                has_task_handler = true;
                post_task = false;
              });
            }))
  add_async_task_lem m task_id b r =
      let (i, idx, above, below) = async_idx_bounds r.workers r.some_worker r.small task_id in
      let (c, there) = get_elem?_in_range m.connections i (omega (arith, r.connected)) in
      (i, c, above, there, added i c idx there)
    where
      added :
          (i : ℕ) (c : Connection S Q)
          → async_idx task_id (pos r.workers) ≡ done i
          → get_elem? m.connections i ≡ some c
          → add_async_task host m task_id b
            ≡ done (record m {
              connections = set m.connections i (record c {
                thread_cmd_list = host.insert_head b c.thread_cmd_list;
                has_task_handler = true;
                post_task = false;
              });
            })
      added i c idx there =
          unfold add_async_task in rw (r.counted, idx, at_some m.connections i c there) refl
