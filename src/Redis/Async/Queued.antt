-- ===== src/Redis/Async/Queued.antt =====
-- RedisAsyncCall.cpp: what a command whose answer is not waited for leaves in the queue.
use seed_core.Prelude.{
  ℕ, ◌<◌, ◌≡◌, ap, sym, ◌∙◌, true, false, List, [], length, get_elem?, set, some, Run, done, ◌>>=◌,
  append-nil,
}
use seed_core.Prelude.Int.{ℤ, two31}
use seed_core.Redis.Resp.{decode}
use seed_core.Redis.Builder.{Builder, Arg, IsSprintf, request, get_send_buff}
use seed_core.Redis.Builder.Encoding.{texts, Fits, decode-get_send_buff-request}
use seed_core.Redis.Builder.Committed.{request_committed}
use seed_core.Redis.Mgr.{Connection, Mgr, Host}
use seed_core.Redis.Async.Queue.{IsReady, add_async_task_lem}
use seed_core.Redis.Async.Commands.{queue_request}
use seed_core.Redis.Sync.{result_ok}

module _ {S E Q : Type 0} (host : Host S E Q) (law : IsSprintf host.sprintf) where
  -- In a module that is ready and for operands that fit, a command that is not waited for returns
  -- REDIS_RESULT_OK. It puts a committed request in which a server reads exactly its operands at
  -- the head of the list of one worker's connection, and starts nothing: all but that connection
  -- is as before.
  pub queue_request_lem :
      (m : Mgr S E Q) (task_id : ℤ) (args : List Arg)
      → IsReady m
      → length args < two31
      → Fits args
      → (i : ℕ) × (c : Connection S Q) × (b : Builder) × (0 < i)
        × (get_elem? m.connections i ≡ some c)
        × (b.committed ≡ true)
        × (decode (get_send_buff b) ≡ some (texts args, []))
        × (queue_request host task_id args m
            ≡ done (
              result_ok,
              record m {
                connections = set m.connections i (record c {
                  thread_cmd_list = host.insert_head b c.thread_cmd_list;
                  has_task_handler = true;
                  post_task = false;
                });
              },
            ))
  unfolding queue_request
  queue_request_lem m task_id args ready few fits =
      let b = request host.sprintf args in
      let (i, c, above, there, added) = add_async_task_lem host m task_id b ready in
      (
        i,
        c,
        b,
        above,
        there,
        request_committed host.sprintf args,
        ap decode (sym (append-nil (get_send_buff b)))
            ∙ decode-get_send_buff-request law args [] few fits,
        ap (λ (r : Run (Mgr S E Q)). r >>= λ m'. done (result_ok, m')) added,
      )
