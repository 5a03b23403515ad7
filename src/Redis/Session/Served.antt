-- ===== src/Redis/Session/Served.antt =====
-- RedisMgr.cpp, sendAndGetReply and execCmd, and the commands of RedisSyncCall.cpp, over a server
-- that keeps data.
use seed_core.Prelude.{
  ℕ, zero, suc, ◌++◌, [], ◌∷◌, ◌<◌, ◌≡◌, refl, sym, ap, ◌∙◌, subst, Bool, List, none, some, inl,
  inr, Bytes, ◌≤◌, ◌+◌, append-nil, length, arith, done, get_elem?, OnDone, lt_or_le,
}
use seed_core.Prelude.Int.{ℤ, pos, two31}
use seed_core.Redis.Resp.{encode, decode, decode-encode}
use seed_core.Redis.Builder.{Builder, Arg, IsSprintf, request}
use seed_core.Redis.Builder.Encoding.{texts, Holds, request-Holds}
use seed_core.Redis.Transport.{
  redis_ok, Context, Net, Wire, buffer_write, send_and_get_reply, get_reply, reply_after_write,
  read_loop, aim, after_reader,
}
use seed_core.Redis.Transport.Heard.{Hears, Later, buffer_write-Hears}
use seed_core.Redis.Transport.Write.{Accepts}
use seed_core.Redis.Transport.Request.{buffer_write-Holds}
use seed_core.Redis.Mgr.{Connection, Mgr, Host, set_ctx, with_ctx}
use seed_core.Redis.Mgr.Healthy.{try_served}
use seed_core.Redis.Mgr.Resend.{exec_cmd_lem}
use seed_core.Redis.Sync.{Finish, call}
use seed_core.Redis.Sync.Results.{Reaches, Sendable, call_lem}
use seed_core.Redis.Session.{Answer, Session, Awaits, IsIdle}

-- On the connection of a thread the server is idle, with the data `d`.
pub record Connected {S E Q D : Type 0} {net : Net S} {live : S → Type 0} {answer : Answer D}
    (p : Session net live answer) (m : Mgr S E Q) (thread_idx : ℤ) (i : ℕ) (d : D) : Type 0 where
  pub ct : Context S
  pub reached : Reaches m thread_idx i ct
  pub idle : IsIdle p ct d

get_elem?-set_ctx :
    {S Q : Type 0} (xs : List (Connection S Q)) (i : ℕ) (c : Context S) (x : Connection S Q)
    → get_elem? xs i ≡ some x
    → get_elem? (set_ctx xs i c) i ≡ some (record x { ctx = c })
unfolding set_ctx
get_elem?-set_ctx [] i c x h = cc
get_elem?-set_ctx (y ∷ xs) zero c x h = ground (arith, h)
get_elem?-set_ctx (y ∷ xs) (suc i) c x h = get_elem?-set_ctx xs i c x h

module _ {S : Type 0} {net : Net S} {live : S → Type 0} {D : Type 0} {answer : Answer D}
    (p : Session net live answer) (a : Accepts net live) where
  -- The reply to the next whole request.
  abbrev pub next_size : List Bytes → D → ℕ
  next_size args d = p.size (answer args d).0

  -- The reader has all of the reply.
  pub parse_session :
      (c : Context S) (args : List Bytes) (rest bs : Bytes) (d : D)
      → Awaits p c bs d
      → decode bs ≡ some (args, rest)
      → next_size args d ≤ p.got c.socket
      → (c' : Context S) × (net.reply_from_reader c ≡ (some (some (answer args d).0), c'))
        × Awaits p c' rest (answer args d).1
  parse_session c args rest bs d w whole enough =
      let (c', reads, alive, fine, waiting, stored) =
        p.parses c args rest w.alive w.fine (ap decode w.waiting ∙ whole)
          (subst (λ (e : D). next_size args e ≤ p.got c.socket) (sym w.stored) enough) in
      (
        c',
        reads ∙ ap (λ (e : D). (some (some (answer args e).0), c')) w.stored,
        record {
          alive = alive;
          fine = fine;
          waiting = waiting;
          stored = stored ∙ ap (λ (e : D). (answer args e).1) w.stored;
        },
      )

  -- It has not.
  pub wait_session :
      (c : Context S) (args : List Bytes) (rest bs : Bytes) (d : D)
      → Awaits p c bs d
      → decode bs ≡ some (args, rest)
      → p.got c.socket < next_size args d
      → (c' : Context S) × (net.reply_from_reader c ≡ (some none, c'))
        × Awaits p c' bs d
        × (p.got c'.socket ≡ p.got c.socket)
  wait_session c args rest bs d w whole less =
      let (c', reads, alive, fine, waiting, stored, got) =
        p.waits c args rest w.alive w.fine (ap decode w.waiting ∙ whole)
          (subst (λ (e : D). p.got c.socket < next_size args e) (sym w.stored) less) in
      (
        c',
        reads,
        record {
          alive = alive;
          fine = fine;
          waiting = waiting ∙ w.waiting;
          stored = stored ∙ w.stored;
        },
        got,
      )

  arrive_session :
      (c : Context S) (args : List Bytes) (rest bs : Bytes) (d : D)
      → Awaits p c bs d
      → decode bs ≡ some (args, rest)
      → p.got c.socket < next_size args d
      → (c' : Context S) × (net.buffer_read c ≡ (redis_ok, c'))
        × Awaits p c' bs d
        × (p.got c.socket < p.got c'.socket)
  arrive_session c args rest bs d w whole less =
      let (c', reads, alive, fine, waiting, stored, got) =
        p.arrives c args rest w.alive w.fine (ap decode w.waiting ∙ whole)
          (subst (λ (e : D). p.got c.socket < next_size args e) (sym w.stored) less) in
      (
        c',
        reads,
        record {
          alive = alive;
          fine = fine;
          waiting = waiting ∙ w.waiting;
          stored = stored ∙ w.stored;
        },
        got,
      )

  -- A request that the peer has heard is answered, in as many reads as its reply has bytes that the
  -- reader misses, or fewer.
  pub read_session :
      (fuel : ℕ) (c : Context S) (args : List Bytes) (rest : Bytes) (bs : Bytes) (d : D)
      → Awaits p c bs d
      → decode bs ≡ some (args, rest)
      → p.got c.socket < next_size args d
      → next_size args d ≤ p.got c.socket + fuel
      → (c' : Context S) × (read_loop net fuel c ≡ done (some (answer args d).0, c'))
        × Awaits p c' rest (answer args d).1
  unfolding read_loop after_reader
  read_session zero c args rest bs d w whole less enough = absurd (omega arith)
  read_session (suc fuel) c args rest bs d w whole less enough =
      let (c1, reads, w1, more) = arrive_session c args rest bs d w whole less in
      elim (lt_or_le (p.got c1.socket) (next_size args d)) [
        | inl still ↦
            let (c2, none_yet, w2, same) = wait_session c1 args rest bs d w1 whole still in
            let (c3, runs, w3) =
              read_session fuel c2 args rest bs d w2 whole (omega arith) (omega arith) in
            (c3, rw (reads, none_yet) runs, w3)
        | inr whole_reply ↦
            let (c2, there, w2) = parse_session c1 args rest bs d w1 whole whole_reply in
            (c2, rw (reads, there) refl, w2)
      ]

  -- Over a working connection a request goes out whole, behind what the peer has heard before.
  pub write_session :
      (fuel : ℕ) (ct : Context S) (b : Builder) (payload bs : Bytes) (d : D)
      → Awaits p ct bs d
      → Holds b payload
      → length payload < two31
      → length payload < suc fuel
      → (v : Wire S) × (buffer_write net (suc fuel) (aim ct b) ≡ done (redis_ok, v))
        × (v.sent ≡ payload)
        × Awaits p v.context (bs ++ payload) d
        × (p.got v.context.socket ≡ p.got ct.socket)
  write_session fuel ct b payload bs d w h small enough =
      let (v, runs, sends, fine, drained, alive) =
        buffer_write-Holds net a (suc fuel) ct b payload w.alive w.fine h small enough in
      let kept : S → D × ℕ = λ (t : S). (p.store t, p.got t) in
      let before : D × ℕ = (d, p.got ct.socket) in
      let ends : Hears p.heard kept bs before v =
        subst (OnDone (Later p.heard kept bs before)) runs (
          buffer_write-Hears p.heard kept bs before net p.sends (suc fuel) (aim ct b) (record {
            bytes = w.waiting ∙ sym (append-nil bs);
            kept = ap (λ (e : D). (e, p.got ct.socket)) w.stored;
          })) in
      (
        v,
        runs,
        sends,
        record {
          alive = alive;
          fine = fine;
          waiting = ends.bytes ∙ ap (◌++◌ bs) sends;
          stored = ap (λ (q : D × ℕ). q.0) ends.kept;
        },
        ap (λ (q : D × ℕ). q.1) ends.kept,
      )

  send_session :
      (fuel : ℕ) (ct : Context S) (b : Builder) (payload : Bytes) (args : List Bytes) (d : D)
      → IsIdle p ct d
      → Holds b payload
      → decode payload ≡ some (args, [])
      → length payload < two31
      → length payload < suc fuel
      → next_size args d ≤ suc fuel
      → (c : Context S) × (b' : Builder) × (send_and_get_reply net (suc fuel) ct b
          ≡ done (redis_ok, some (answer args d).0, c, b', payload))
        × IsIdle p c (answer args d).1
  unfolding send_and_get_reply get_reply reply_after_write
  send_session fuel ct b payload args d idle h whole small enough short =
      let (v, runs, sends, w, kept) = write_session fuel ct b payload [] d idle h small enough in
      let none_held = p.quiet ct.socket idle.alive idle.waiting in
      let some_ = p.some_size (answer args d).0 in
      let (c, reads, idle') =
        read_session (suc fuel) v.context args [] payload d w whole (omega arith) (omega arith) in
      (c, record b { cmd = v.mem }, rw (h.is_committed, runs, reads, sends) refl, idle')

-- The connection of a thread gets a context over which the server is idle again.
pub Connected-with_ctx :
    {S E Q D : Type 0} {net : Net S} {live : S → Type 0} {answer : Answer D}
    (p : Session net live answer) (m : Mgr S E Q) (thread_idx : ℤ) (i : ℕ) (d : D)
    (at : Connected p m thread_idx i d) (c : Context S) (d' : D)
    → IsIdle p c d'
    → Connected p (with_ctx m i c) thread_idx i d'
Connected-with_ctx p m thread_idx i d at c d' idle = record {
  ct = c;
  reached = record {
    chosen = at.reached.chosen;
    conn = record at.reached.conn { ctx = c };
    there = get_elem?-set_ctx m.connections i c at.reached.conn at.reached.there;
    at = refl;
  };
  idle = idle;
}

module _ {S E Q : Type 0} (host : Host S E Q) (law : IsSprintf host.sprintf) {live : S → Type 0}
    {D : Type 0} {answer : Answer D} (p : Session host.net live answer)
    (a : Accepts host.net live) where
  -- A command of the interface over a working connection to an idle server that keeps data, for a
  -- request within the sizes and the fuel of `Sendable`, when the server's reply has no more bytes
  -- than the fuel and comes in whatever pieces: the operands are sent as the protocol encodes them,
  -- the server does to its data what it does for exactly these operands, the command ends as its
  -- reading of the server's reply to them says, and the server is idle again.
  pub call_session :
      {A : Type 0} (finish : Finish A) (args : List Arg) (re_send : Bool) (fuel i : ℕ)
      (m : Mgr S E Q) (thread_idx : ℤ) (d : D) (code : ℤ) (out : A)
      → Connected p m thread_idx i d
      → Sendable fuel args
      → p.size (answer (texts args) d).0 ≤ suc fuel
      → finish (pos 0) (some (answer (texts args) d).0) ≡ done (code, out)
      → (m' : Mgr S E Q) × (call host (suc fuel) finish args re_send m thread_idx
          ≡ done (record { code = code; out = out; sent = encode (texts args); mgr = m' }))
        × Connected p m' thread_idx i (answer (texts args) d).1
  call_session finish args re_send fuel i m thread_idx d code out at s short ends =
      let b : Builder = request host.sprintf args in
      let payload : Bytes = encode (texts args) in
      let (c, b', sends, idle) =
        send_session p a fuel at.reached.conn.ctx b payload (texts args) d
          (subst (λ (x : Context S). IsIdle p x d) (sym at.reached.at) at.idle)
          (request-Holds law args s.few s.fits)
          (ap decode (sym (append-nil payload)) ∙ decode-encode (texts args) []) s.small s.enough
          short in
      (
        with_ctx m i c,
        call_lem host (suc fuel) m (with_ctx m i c) thread_idx finish args re_send _ b' payload code
            out
            (exec_cmd_lem host (suc fuel) i m (with_ctx m i c) thread_idx at.reached.conn b re_send
              _ at.reached.chosen at.reached.there
              (try_served host (suc fuel) i m at.reached.conn.ctx c b b' payload _ re_send sends))
            ends,
        Connected-with_ctx p m thread_idx i d at c _ idle,
      )
