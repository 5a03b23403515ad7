-- ===== src/Redis/Async.antt =====
-- RedisMgr.cpp, addAsyncTask and OnExecRedisTask: commands are queued on a connection, and a task of
-- the async queue is to send them in batches.
pub mod Commands
pub mod Queued
pub mod Task
pub mod Queue
pub mod Batches
use seed_core.Prelude.{
  ℕ, suc, ◌+◌, ◌≡◌, Bool, true, false, List, [], ◌∷◌, ◌++◌, Option, none, some, length, ◌==◌, ◌||◌,
  ltb, if◌then◌else◌, set, Run, done, fault, starved, ◌>>=◌,
}
use seed_core.Prelude.Int.{ℤ, pos}
use seed_core.Redis.Builder.{Builder}
use seed_core.Redis.Mgr.{Connection, Mgr, Host, Cmds, async_idx, at}
use seed_core.Redis.Mgr.Execute.{batch_exec_cmd}

-- REDIS_ASYNC_BATCH_CMD_COUNT
abbrev pub redis_async_batch_cmd_count : ℕ
redis_async_batch_cmd_count = 16

abbrev is_empty {ℓ} : {A : Type ℓ} → List A → Bool
is_empty [] = true
is_empty (x ∷ xs) = false

-- The loop over the nodes of a queue: a command joins the vector `vec`, and the vector is executed
-- when it is full or the nodes are used up. Executing leaves a state `M`.
unfoldable pub task_loop {ℓ} :
    {M : Type ℓ} → (List Builder → M → Run M) → List Builder → List Builder → M → Run M
task_loop exec vec [] m = done m
task_loop exec vec (b ∷ head) m =
    let vec' = vec ++ b ∷ [] in
    if (length vec' == redis_async_batch_cmd_count) || is_empty head
    then ((if ltb 0 (length vec') then exec vec' m else done m) >>= task_loop exec [] head)
    else task_loop exec vec' head m

module _ {S E Q : Type 0} (host : Host S E Q) where
  -- `_redisTaskHandler`, created on first use, and the new node at the head of the list.
  queued : Builder → Connection S Q → Connection S Q
  queued b c = record c {
    thread_cmd_list = host.insert_head b c.thread_cmd_list;
    has_task_handler = true;
  }

  -- `if (connection._postTask = false)`: an assignment, whose value is the test.
  post_if : Connection S Q → Connection S Q × Bool
  post_if c = (record c { post_task = false }, false)

  posted : ℕ → Mgr S E Q → Connection S Q × Bool → Mgr S E Q
  posted i m (c, true) = record m {
    connections = set m.connections i (record c { post_task = true });
    env = host.start_async c.thread_idx m.env;
  }
  posted i m (c, false) = record m { connections = set m.connections i c }

  unfoldable pub add_async_task : Mgr S E Q → ℤ → Builder → Run (Mgr S E Q)
  unfolding queued post_if posted
  add_async_task m task_id builder = async_idx task_id m.connect_num >>= λ i.
      at m.connections i >>= λ c. done (posted i m (post_if (queued builder c)))

  -- The vector is executed on the connection of `_threadIdx`, and its outcome noted.
  unfoldable pub exec_batch :
      ℕ → ℤ → List Builder → Mgr S E Q × List Cmds → Run (Mgr S E Q × List Cmds)
  exec_batch fuel thread_idx vec (m, log) =
      batch_exec_cmd host fuel m thread_idx vec true >>= λ (ret, x, m'). done (m', log ++ x ∷ [])

  unfoldable pub set_post_task : ℕ → Bool → Mgr S E Q × List Cmds → Run (Mgr S E Q × List Cmds)
  set_post_task i flag (m, log) = at m.connections i >>= λ c.
      done (record m { connections = set m.connections i (record c { post_task = flag }) }, log)

  -- OnExecRedisTask for the connection at `i`.
  unfoldable pub on_exec_redis_task : ℕ → ℕ → Mgr S E Q → Run (Mgr S E Q × List Cmds)
  unfolding task_loop exec_batch set_post_task
  on_exec_redis_task fuel i m = at m.connections i >>= λ c.
      let (head, rest) = host.cut_list c.thread_cmd_list in
      let m' = record m {
        connections = set m.connections i (record c { thread_cmd_list = rest });
      } in
      task_loop (exec_batch fuel c.thread_idx) [] head (m', []) >>= set_post_task i false
