-- ===== src/Redis/Sync/Results.antt =====
-- RedisSyncCall.cpp: how a command ends over a connection that works, and over one that has failed.
use seed_core.Prelude.{
  ℕ, suc, ◌<◌, ◌≡◌, ◌≢◌, refl, ap, sym, ◌∙◌, Bool, true, List, [], Option, none, some, Bytes,
  length, done, get_elem?,
}
use seed_core.Prelude.Int.{ℤ, pos, two31}
use seed_core.Redis.Resp.{encode}
use seed_core.Redis.Builder.{Builder, Arg, request}
use seed_core.Redis.Builder.Committed.{request_committed}
use seed_core.Redis.Builder.Encoding.{texts, Fits}
use seed_core.Redis.Reply.{Reply}
use seed_core.Redis.Transport.{Context}
use seed_core.Redis.Mgr.{Connection, Mgr, Host, connection_idx, with_ctx}
use seed_core.Redis.Mgr.Resend.{exec_cmd_dead}
use seed_core.Redis.Mgr.Execute.{exec_cmd}
use seed_core.Redis.Sync.{Finish, call, finish_with}

-- The connection of a thread is there, and `ct` is its context.
pub record Reaches {S E Q : Type 0} (m : Mgr S E Q) (thread_idx : ℤ) (i : ℕ) (ct : Context S)
    : Type 0 where
  pub chosen : connection_idx thread_idx m.connect_num ≡ done i
  pub conn : Connection S Q
  pub there : get_elem? m.connections i ≡ some conn
  pub at : conn.ctx ≡ ct

-- The sizes of a request are those of its fields, and the fuel is enough to send it byte by byte.
pub record Sendable (fuel : ℕ) (args : List Arg) : Type 0 where
  pub few : length args < two31
  pub fits : Fits args
  pub small : length (encode (texts args)) < two31
  pub enough : length (encode (texts args)) < suc fuel

module _ {S E Q : Type 0} (host : Host S E Q) where
  pub call_lem :
      {A : Type 0} (fuel : ℕ) (m m' : Mgr S E Q) (thread_idx : ℤ) (finish : Finish A)
      (args : List Arg) (re_send : Bool) (reply : Option Reply) (b : _) (sent : Bytes) (code : ℤ)
      (out : A)
      → exec_cmd host fuel m thread_idx (request host.sprintf args) re_send
        ≡ done (pos 0, record { builder = b; reply = reply; sent = sent }, m')
      → finish (pos 0) reply ≡ done (code, out)
      → call host fuel finish args re_send m thread_idx
        ≡ done (record { code = code; out = out; sent = sent; mgr = m' })
  unfolding call finish_with
  call_lem fuel m m' thread_idx finish args re_send reply b sent code out ran ends =
      rw (ran, ends) refl

module _ {S E Q : Type 0} (host : Host S E Q) where
  -- Once a connection has failed, every command over it sends nothing and ends as its reading of no
  -- reply with the return value 0 says.
  pub call_dead :
      {A : Type 0} (finish : Finish A) (args : List Arg) (re_send : Bool) (fuel i : ℕ)
      (m : Mgr S E Q) (thread_idx : ℤ) (ct : Context S) (code : ℤ) (out : A)
      → Reaches m thread_idx i ct
      → ct.err ≢ 0
      → finish (pos 0) none ≡ done (code, out)
      → (c : Context S) × (c.err ≡ ct.err)
        × (call host fuel finish args re_send m thread_idx
            ≡ done (record { code = code; out = out; sent = []; mgr = with_ctx m i c }))
  call_dead finish args re_send fuel i m thread_idx ct code out reached failed ends = (
    record reached.conn.ctx { obuf = b.seek },
    ap (λ (x : Context S). x.err) reached.at,
    call_lem host fuel m _ thread_idx finish args re_send none b [] code out
        (exec_cmd_dead host fuel i m thread_idx reached.conn b re_send reached.chosen reached.there
          (λ e. failed (ap (λ (x : Context S). x.err) (sym reached.at) ∙ e)) committed)
        ends,
  )
    where
      b : Builder
      b = request host.sprintf args

      committed : b.committed ≡ true
      committed = request_committed host.sprintf args
