-- ===== src/Redis/Mgr/Execute.antt =====
-- RedisMgr.cpp: CreateRedisContext, execTaskByTimeOut, execCmd and batchExecCmd.
use seed_core.Prelude.{
  ℕ, zero, suc, ◌+◌, Bool, true, false, not, List, [], ◌∷◌, ◌++◌, Option, none, some, ltb, ◌==◌,
  if◌then◌else◌, Run, done, starved, ◌>>=◌, ◌&&◌,
}
use seed_core.Prelude.Int.{ℤ, pos, pos_part, neg_part, ◌==ℤ◌}
use seed_core.Redis.Builder.{Builder}
use seed_core.Redis.Reply.{Reply, error}
use seed_core.Redis.Transport.{Status, status_code, err_io, Context, send_and_get_reply}
use seed_core.Redis.Transport.Pipeline.{pipeline_send_and_get_reply}
use seed_core.Redis.Mgr.{
  Config, Mgr, Host, reattempt_sleep_time, connection_idx, at, Attempt, Cmd, Cmds, or_else, set_ctx,
  with_ctx,
}

module _ {S E Q : Type 0} (host : Host S E Q) where
  -- What AUTH answers: the module takes an error reply for success.
  auth_result : Option Reply × Context S → Option (Context S)
  auth_result (some (error s), c) = some c
  auth_result _ = none

  abbrev authenticate : Config → Context S → Option (Context S)
  authenticate config ct = elim config.pass_word [
    | [] ↦ some ct
    | c ∷ cs ↦ auth_result (host.command_auth ct (c ∷ cs))
  ]

  -- CreateRedisContext
  unfoldable pub create_redis_context : Config → E → Option (Context S) × E
  unfolding auth_result
  create_redis_context config env =
      let (ct, env') = host.connect_with_timeout config env in
      (
        elim ct [ none ↦ none | some c ↦ if not (c.err == 0) then none else authenticate config c ],
        env',
      )

  -- sendAndGetReply on a command, and pipelineSendAndGetReply on a batch.
  unfoldable pub try_cmd : ℕ → Attempt S Cmd
  try_cmd fuel ct x = send_and_get_reply host.net fuel ct x.builder >>= λ (st, r, c, b, sent).
      done (st, c, record { builder = b; reply = or_else r x.reply; sent = x.sent ++ sent })

  unfoldable pub try_cmds : ℕ → Attempt S Cmds
  try_cmds fuel ct x = pipeline_send_and_get_reply host.net fuel ct x.builders x.replies >>= λ r.
      done (
        r.status,
        r.context,
        record { builders = r.builders; replies = r.replies; sent = x.sent ++ r.sent },
      )

  abbrev pub stops : Status → Bool
  stops st = not (status_code st ==ℤ pos err_io)

  -- `now - enterTime > reattemptTime`
  abbrev pub timed_out : ℕ → ℕ → ℤ → Bool
  timed_out enter now limit = ltb (enter + pos_part limit) (now + neg_part limit)

  -- One round of the loop that reconnects: whether it is over, and what it leaves.
  unfoldable pub retry_round :
      {X : Type 0} → Attempt S X → ℕ → Mgr S E Q → X → Run (Bool × Mgr S E Q × X)
  unfolding create_redis_context
  retry_round attempt i m x =
      let (ct, env) = create_redis_context m.config m.env in
      elim ct [
        | none ↦ done (false, record m { env = env }, x)
        | some c ↦ attempt c x >>= λ (st, c', x').
            done (stops st, with_ctx (record m { env = env }) i c', x')
      ]

  unfoldable pub after_round :
      {X : Type 0}
      → (Mgr S E Q → X → Run (Mgr S E Q × X))
      → ℕ
      → Bool × Mgr S E Q × X
      → Run (Mgr S E Q × X)
  after_round rest enter (true, m, x) = done (m, x)
  after_round rest enter (false, m, x) =
      let (t, env) = host.now m.env in
      if timed_out enter t m.config.reattempt_time
      then done (record m { env = env }, x)
      else rest (record m { env = host.sleep reattempt_sleep_time env }) x

  unfoldable pub retry_loop :
      {X : Type 0} → Attempt S X → ℕ → ℕ → ℕ → Mgr S E Q → X → Run (Mgr S E Q × X)
  unfolding retry_round after_round
  retry_loop attempt zero enter i m x = starved
  retry_loop attempt (suc fuel) enter i m x =
      retry_round attempt i m x >>= after_round (retry_loop attempt fuel enter i) enter

  -- execTaskByTimeOut: reconnect and try again until something other than an i/o error comes back,
  -- or the time is up.
  unfoldable pub exec_task_by_time_out :
      {X : Type 0} → Attempt S X → ℕ → ℕ → Mgr S E Q → X → Run (Mgr S E Q × X)
  unfolding retry_loop
  exec_task_by_time_out attempt fuel i m x =
      let (enter, env) = host.now m.env in
      retry_loop attempt fuel enter i (record m { env = env }) x

  -- What an attempt that came back with `ret` is followed by: if the caller asks for it, an i/o
  -- error by the loop above.
  unfoldable pub after_attempt :
      {X : Type 0}
      → Attempt S X
      → ℕ
      → ℕ
      → Mgr S E Q
      → Bool
      → Status × Context S × X
      → Run (Mgr S E Q × X)
  unfolding exec_task_by_time_out set_ctx
  after_attempt attempt fuel i m re_send (st, c, x) =
      if re_send && (status_code st ==ℤ pos err_io)
      then exec_task_by_time_out attempt fuel i (with_ctx m i c) x
      else done (with_ctx m i c, x)

  -- The common body of execCmd and batchExecCmd.
  unfoldable pub exec_on :
      {X : Type 0} → Attempt S X → ℕ → ℕ → Mgr S E Q → Bool → X → Run (Mgr S E Q × X)
  exec_on attempt fuel i m re_send x = at m.connections i >>= λ connection.
      attempt connection.ctx x >>= after_attempt attempt fuel i m re_send

  -- execCmd: the return value, the reply, and the bytes that were sent on the way.
  unfoldable pub exec_cmd : ℕ → Mgr S E Q → ℤ → Builder → Bool → Run (ℤ × Cmd × Mgr S E Q)
  exec_cmd fuel m thread_idx builder re_send = connection_idx thread_idx m.connect_num >>= λ i.
      exec_on (try_cmd fuel) fuel i m re_send
        (record { builder = builder; reply = none; sent = [] })
      >>= λ (m', x). done (pos 0, x, m')

  -- batchExecCmd
  unfoldable pub batch_exec_cmd :
      ℕ → Mgr S E Q → ℤ → List Builder → Bool → Run (ℤ × Cmds × Mgr S E Q)
  batch_exec_cmd fuel m thread_idx builders re_send =
      connection_idx thread_idx m.connect_num >>= λ i.
      exec_on (try_cmds fuel) fuel i m re_send
        (record { builders = builders; replies = []; sent = [] })
      >>= λ (m', x). done (pos 0, x, m')
