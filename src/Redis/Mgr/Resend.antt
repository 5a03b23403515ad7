-- ===== src/Redis/Mgr/Resend.antt =====
-- RedisMgr.cpp: the resending that execCmd and batchExecCmd ask for, and a connection that has
-- failed.
use seed_core.Prelude.{
  ℕ, ◌≡◌, ◌≢◌, refl, ap, Bool, true, false, not, List, [], none, some, Run, done, ◌>>=◌, >>=-ext,
  arith, get_elem?, ◌==◌,
}
use seed_core.Prelude.Int.{ℤ, pos}
use seed_core.Redis.Builder.{Builder}
use seed_core.Redis.Transport.{Status, redis_ok, redis_err, Context, Net, send_and_get_reply}
use seed_core.Redis.Mgr.{Connection, Mgr, Host, Cmd, Cmds, Attempt, connection_idx, at, with_ctx}
use seed_core.Redis.Mgr.Execute.{
  after_attempt, exec_on, exec_cmd, batch_exec_cmd, try_cmd, try_cmds,
}

abbrev pub bare : Builder → Cmd
bare b = record { builder = b; reply = none; sent = [] }

abbrev pub bares : List Builder → Cmds
bares bs = record { builders = bs; replies = []; sent = [] }

pub at_some :
    {A : Type 0} (xs : List A) (i : ℕ) (a : A) → get_elem? xs i ≡ some a → at xs i ≡ done a
at_some xs i a e = ground arith

module _ {S E Q : Type 0} (host : Host S E Q) where
  -- Neither `REDIS_OK` nor `REDIS_ERR` is `REDIS_ERR_IO`.
  after_attempt_re_send :
      {X : Type 0} (attempt : Attempt S X) (fuel i : ℕ) (m : Mgr S E Q) (r : Status × Context S × X)
      → after_attempt host attempt fuel i m true r ≡ after_attempt host attempt fuel i m false r
  unfolding after_attempt
  after_attempt_re_send attempt fuel i m (redis_ok, c, x) = refl
  after_attempt_re_send attempt fuel i m (redis_err, c, x) = refl

  exec_on_re_send :
      {X : Type 0} (attempt : Attempt S X) (fuel i : ℕ) (m : Mgr S E Q) (x : X)
      → exec_on host attempt fuel i m true x ≡ exec_on host attempt fuel i m false x
  exec_on_re_send attempt fuel i m x =
      unfold exec_on in
      >>=-ext (at m.connections i) _ _ λ connection.
        >>=-ext (attempt connection.ctx x) _ _ (after_attempt_re_send attempt fuel i m)

  -- The flag that asks for a resend makes no difference: whatever happens to a command or a batch,
  -- the outcome is that with resending turned off.
  pub exec_cmd_re_send :
      (fuel : ℕ) (m : Mgr S E Q) (thread_idx : ℤ) (b : Builder) (bs : List Builder)
      → (exec_cmd host fuel m thread_idx b true ≡ exec_cmd host fuel m thread_idx b false)
        × (batch_exec_cmd host fuel m thread_idx bs true
            ≡ batch_exec_cmd host fuel m thread_idx bs false)
  unfolding exec_cmd batch_exec_cmd
  exec_cmd_re_send fuel m thread_idx b bs = (
    >>=-ext (connection_idx thread_idx m.connect_num) _ _ (λ i.
        ap (λ (r : Run (Mgr S E Q × Cmd)). r >>= λ (m', x). done (pos 0, x, m'))
          (exec_on_re_send (try_cmd host fuel) fuel i m (bare b))),
    >>=-ext (connection_idx thread_idx m.connect_num) _ _ (λ i.
        ap (λ (r : Run (Mgr S E Q × Cmds)). r >>= λ (m', x). done (pos 0, x, m'))
          (exec_on_re_send (try_cmds host fuel) fuel i m (bares bs))),
  )

is_err : (n : ℕ) → n ≢ 0 → not (n == 0) ≡ true
is_err n h = ground arith

module _ {S : Type 0} (net : Net S) where
  -- A context with an error fails at once, and keeps its error.
  send_dead :
      (fuel : ℕ) (ct : Context S) (b : Builder)
      → ct.err ≢ 0
      → b.committed ≡ true
      → send_and_get_reply net fuel ct b
        ≡ done (redis_err, none, record ct { obuf = b.seek }, b, [])
  unfolding send_and_get_reply
  send_dead fuel ct b h c = rw (c, is_err ct.err h) refl

module _ {S E Q : Type 0} (host : Host S E Q) where
  try_dead :
      (fuel i : ℕ) (m : Mgr S E Q) (ct : Context S) (b : Builder) (re_send : Bool)
      → ct.err ≢ 0
      → b.committed ≡ true
      → (try_cmd host fuel ct (bare b) >>= after_attempt host (try_cmd host fuel) fuel i m re_send)
        ≡ done (with_ctx m i (record ct { obuf = b.seek }), bare b)
  unfolding after_attempt try_cmd
  try_dead fuel i m ct b true h c = rw (send_dead host.net fuel ct b h c) refl
  try_dead fuel i m ct b false h c = rw (send_dead host.net fuel ct b h c) refl

  exec_on_lem :
      {X : Type 0} (attempt : Attempt S X) (fuel i : ℕ) (m : Mgr S E Q) (conn : Connection S Q)
      (re_send : Bool) (x : X)
      → get_elem? m.connections i ≡ some conn
      → exec_on host attempt fuel i m re_send x
        ≡ (attempt conn.ctx x >>= after_attempt host attempt fuel i m re_send)
  unfolding exec_on
  exec_on_lem attempt fuel i m conn re_send x there =
      ap
        (λ (r : Run (Connection S Q)).
          r >>= λ c. attempt c.ctx x >>= after_attempt host attempt fuel i m re_send)
        (at_some m.connections i conn there)

  -- How an execution ends, if its connection is there and its first attempt is the last.
  pub exec_cmd_lem :
      (fuel i : ℕ) (m m' : Mgr S E Q) (thread_idx : ℤ) (conn : Connection S Q) (b : Builder)
      (re_send : Bool) (x : Cmd)
      → connection_idx thread_idx m.connect_num ≡ done i
      → get_elem? m.connections i ≡ some conn
      → (try_cmd host fuel conn.ctx (bare b)
          >>= after_attempt host (try_cmd host fuel) fuel i m re_send)
        ≡ done (m', x)
      → exec_cmd host fuel m thread_idx b re_send ≡ done (pos 0, x, m')
  unfolding exec_cmd
  exec_cmd_lem fuel i m m' thread_idx conn b re_send x idx there e =
      rw (idx, exec_on_lem (try_cmd host fuel) fuel i m conn re_send (bare b) there, e) refl

  -- Once the connection of a thread has failed, every later committed command over it sends
  -- nothing, gets no reply, and still returns 0, which is `REDIS_RESULT_OK`; the error stays, so
  -- that the connection never recovers. Resending, on or off, does not help.
  pub exec_cmd_dead :
      (fuel i : ℕ) (m : Mgr S E Q) (thread_idx : ℤ) (conn : Connection S Q) (b : Builder)
      (re_send : Bool)
      → connection_idx thread_idx m.connect_num ≡ done i
      → get_elem? m.connections i ≡ some conn
      → conn.ctx.err ≢ 0
      → b.committed ≡ true
      → exec_cmd host fuel m thread_idx b re_send
        ≡ done (pos 0, bare b, with_ctx m i (record conn.ctx { obuf = b.seek }))
  exec_cmd_dead fuel i m thread_idx conn b re_send idx there h c =
      exec_cmd_lem fuel i m _ thread_idx conn b re_send (bare b) idx there
        (try_dead fuel i m conn.ctx b re_send h c)
