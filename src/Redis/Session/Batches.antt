-- ===== src/Redis/Session/Batches.antt =====
-- RedisMgr.cpp, pipelineSendAndGetReply and batchExecCmd over a server that keeps data.
use seed_core.Prelude.{
  ℕ, suc, ◌<◌, ◌≤◌, arith, lt_or_le, ◌≡◌, refl, sym, ap, ◌∙◌, subst, true, inl, inr, List, [], ◌∷◌,
  ◌++◌, some, Bytes, append-nil, append_assoc, length, Run, done, ◌>>=◌,
}
use seed_core.Prelude.Int.{ℤ, pos, two31}
use seed_core.Redis.Resp.{encode, decode, decode-encode}
use seed_core.Redis.Builder.{Builder}
use seed_core.Redis.Builder.Encoding.{Holds}
use seed_core.Redis.Reply.{Reply}
use seed_core.Redis.Transport.{Status, redis_ok, Context, Net, read_loop, after_reader}
use seed_core.Redis.Transport.Write.{Accepts}
use seed_core.Redis.Transport.Pipeline.{
  Batch, behind, write_all, after_write, after_reply, collect, collect_after,
  pipeline_send_and_get_reply, reply_count,
}
use seed_core.Redis.Transport.Batches.{reply_count_lem}
use seed_core.Redis.Mgr.{Mgr, Host, Cmds, at, with_ctx}
use seed_core.Redis.Mgr.Execute.{after_attempt, exec_on, batch_exec_cmd, try_cmds}
use seed_core.Redis.Mgr.Resend.{bares, at_some}
use seed_core.Redis.Session.{Answer, Session, Awaits, IsIdle}
use seed_core.Redis.Session.Served.{
  Connected, Connected-with_ctx, read_session, write_session, wait_session, parse_session,
}

-- The builders hold the requests with the given operands, each of a length below 2^31 and at most
-- the fuel.
abbrev pub Carry : ℕ → List Builder → List (List Bytes) → Type 0
Carry fuel [] [] = Unit {0}
Carry fuel (b ∷ bs) (args ∷ argss) =
    Holds b (encode args)
    × (length (encode args) < two31)
    × (length (encode args) < suc fuel)
    × Carry fuel bs argss
Carry fuel [] (args ∷ argss) = ⊥
Carry fuel (b ∷ bs) [] = ⊥

abbrev pub encode_all : List (List Bytes) → Bytes
encode_all [] = []
encode_all (args ∷ argss) = encode args ++ encode_all argss

-- The requests one after the other, on the data alone.
module _ {D : Type 0} (answer : Answer D) where
  abbrev pub answer_all : List (List Bytes) → D → D
  answer_all [] d = d
  answer_all (args ∷ argss) d = answer_all argss (answer args d).1

  abbrev pub replies_all : List (List Bytes) → D → List Reply
  replies_all [] d = []
  replies_all (args ∷ argss) d = (answer args d).0 ∷ replies_all argss (answer args d).1

-- Each reply has at most `n` bytes.
abbrev pub AllShort : (Reply → ℕ) → ℕ → List Reply → Type 0
AllShort size n [] = Unit {0}
AllShort size n (r ∷ rs) = (size r ≤ n) × AllShort size n rs

module _ {S : Type 0} {net : Net S} {live : S → Type 0} {D : Type 0} {answer : Answer D}
    (p : Session net live answer) (a : Accepts net live) where
  write_all_session :
      (fuel : ℕ) (bs : List Builder) (argss : List (List Bytes)) (ct : Context S) (heard : Bytes)
      (d : D)
      → Awaits p ct heard d
      → Carry fuel bs argss
      → (r : Batch S) × (write_all net (suc fuel) bs ct ≡ done r)
        × (r.status ≡ redis_ok)
        × (r.sent ≡ encode_all argss)
        × Awaits p r.context (heard ++ encode_all argss) d
  unfolding write_all after_write
  write_all_session fuel [] [] ct heard d w h =
      (_, refl, refl, refl, subst (λ (t : Bytes). Awaits p ct t d) (sym (append-nil heard)) w)
  write_all_session fuel [] (args ∷ argss) ct heard d w h = absurd h
  write_all_session fuel (b ∷ bs) [] ct heard d w h = absurd h
  write_all_session fuel (b ∷ bs) (args ∷ argss) ct heard d w (h, small, enough, hs) =
      let (v, runs, sends, w', _) =
        write_session p a fuel ct b (encode args) heard d w h small enough in
      let (r, rest, ok_, sent, w'') =
        write_all_session fuel bs argss v.context (heard ++ encode args) d w' hs in
      (
        behind (record b { cmd = v.mem }) v.sent r,
        rw (h.is_committed, runs, rest) refl,
        ok_,
        ap (λ (x : Bytes). x ++ r.sent) sends ∙ ap (◌++◌ (encode args)) sent,
        subst (λ (t : Bytes). Awaits p r.context t d)
            (append_assoc heard (encode args) (encode_all argss)) w'',
      )

  -- A reply is there, or comes with the reads.
  next_reply :
      (fuel : ℕ) (c : Context S) (args : List Bytes) (rest bs : Bytes) (d : D)
      → Awaits p c bs d
      → decode bs ≡ some (args, rest)
      → p.size (answer args d).0 ≤ fuel
      → (c' : Context S) × (after_reader (read_loop net fuel) (net.reply_from_reader c)
          ≡ done (some (answer args d).0, c'))
        × Awaits p c' rest (answer args d).1
  unfolding after_reader
  next_reply fuel c args rest bs d w whole short =
      elim (lt_or_le (p.got c.socket) (p.size (answer args d).0)) [
        | inl less ↦
            let (c1, none_yet, w1, same) = wait_session p a c args rest bs d w whole less in
            let (c2, reads, w2) =
              read_session p a fuel c1 args rest bs d w1 whole (omega arith) (omega arith) in
            (c2, rw none_yet reads, w2)
        | inr enough ↦
            let (c1, there, w1) = parse_session p a c args rest bs d w whole enough in
            (c1, rw there refl, w1)
      ]

  collect_session :
      (fuel : ℕ) (argss : List (List Bytes)) (r : Batch S) (d : D)
      → Awaits p r.context (encode_all argss) d
      → AllShort p.size fuel (replies_all answer argss d)
      → (c : Context S) × (collect net fuel (length argss) r
          ≡ done (record r { context = c; replies = r.replies ++ replies_all answer argss d }))
        × IsIdle p c (answer_all answer argss d)
  unfolding collect after_reply
  collect_session fuel [] r d w short = (
    r.context,
    ap (λ (l : List Reply). done (record r { replies = l })) (sym (append-nil r.replies)),
    w,
  )
  collect_session fuel (args ∷ argss) r d w (short, shorts) =
      let (c1, reads, w1) =
        next_reply fuel r.context args (encode_all argss) _ d w
          (decode-encode args (encode_all argss)) short in
      let r' : Batch S = record r { context = c1; replies = r.replies ++ (answer args d).0 ∷ [] } in
      let (c, rest, idle) = collect_session fuel argss r' (answer args d).1 w1 shorts in
      (
        c,
        rw reads (
            rest
            ∙ ap (λ (l : List Reply). done (record r { context = c; replies = l }))
                (append_assoc r.replies ((answer args d).0 ∷ [])
                  (replies_all answer argss (answer args d).1))),
        idle,
      )

  length-Carry :
      (fuel : ℕ) (bs : List Builder) (argss : List (List Bytes))
      → Carry fuel bs argss
      → length bs ≡ length argss
  length-Carry fuel [] [] h = refl
  length-Carry fuel [] (args ∷ argss) h = absurd h
  length-Carry fuel (b ∷ bs) [] h = absurd h
  length-Carry fuel (b ∷ bs) (args ∷ argss) (h, small, enough, hs) =
      ap suc (length-Carry fuel bs argss hs)

  -- A batch over an idle server: the server executes its requests in order, and the batch has their
  -- replies.
  pub pipeline_session :
      (fuel : ℕ) (bs : List Builder) (argss : List (List Bytes)) (ct : Context S) (d : D)
      → IsIdle p ct d
      → Carry fuel bs argss
      → length bs < two31
      → AllShort p.size (suc fuel) (replies_all answer argss d)
      → (r : Batch S) × (pipeline_send_and_get_reply net (suc fuel) ct bs [] ≡ done r)
        × (r.status ≡ redis_ok)
        × (r.replies ≡ replies_all answer argss d)
        × (r.sent ≡ encode_all argss)
        × IsIdle p r.context (answer_all answer argss d)
  unfolding pipeline_send_and_get_reply collect_after
  pipeline_session fuel bs argss ct d idle h few shorts =
      let (r, written, ok_, sent, w) = write_all_session fuel bs argss ct [] d idle h in
      let (c, collected, idle') =
        collect_session (suc fuel) argss (record r { replies = [] }) d w shorts in
      (
        record r { context = c; replies = replies_all answer argss d },
        ap
              (λ (x : Run (Batch S)).
                x >>= λ q. collect_after net (suc fuel) (reply_count (length bs)) [] q.status q)
              written
            ∙ ap (λ (st : Status). collect_after net (suc fuel) (reply_count (length bs)) [] st r)
                ok_
            ∙ ap (λ (n : ℕ). collect net (suc fuel) n (record r { replies = [] }))
                (reply_count_lem (length bs) few ∙ length-Carry fuel bs argss h)
            ∙ collected,
        ok_,
        refl,
        sent,
        idle',
      )

module _ {S E Q : Type 0} (host : Host S E Q) {live : S → Type 0} {D : Type 0} {answer : Answer D}
    (p : Session host.net live answer) (a : Accepts host.net live) where
  tries :
      (fuel i : ℕ) (m : Mgr S E Q) (ct : Context S) (bs : List Builder) (r : Batch S)
      → pipeline_send_and_get_reply host.net fuel ct bs [] ≡ done r
      → r.status ≡ redis_ok
      → (try_cmds host fuel ct (bares bs) >>= after_attempt host (try_cmds host fuel) fuel i m true)
        ≡ done (
          with_ctx m i r.context,
          record { builders = r.builders; replies = r.replies; sent = r.sent },
        )
  unfolding try_cmds after_attempt
  tries fuel i m ct bs r runs ok_ = rw runs (rw ok_ refl)

  -- batchExecCmd on a thread whose connection works.
  pub batch_session :
      (fuel i : ℕ) (m : Mgr S E Q) (thread_idx : ℤ) (bs : List Builder) (argss : List (List Bytes))
      (d : D)
      → Connected p m thread_idx i d
      → Carry fuel bs argss
      → length bs < two31
      → AllShort p.size (suc fuel) (replies_all answer argss d)
      → (c : Context S) × (x : Cmds) × (batch_exec_cmd host (suc fuel) m thread_idx bs true
          ≡ done (pos 0, x, with_ctx m i c))
        × (x.replies ≡ replies_all answer argss d)
        × (x.sent ≡ encode_all argss)
        × Connected p (with_ctx m i c) thread_idx i (answer_all answer argss d)
  unfolding batch_exec_cmd exec_on
  batch_session fuel i m thread_idx bs argss d at h few shorts =
      let (r, runs, ok_, replies, sent, idle) =
        pipeline_session p a fuel bs argss at.reached.conn.ctx d
          (subst (λ (x : Context S). IsIdle p x d) (sym at.reached.at) at.idle) h few shorts in
      (
        r.context,
        record { builders = r.builders; replies = r.replies; sent = r.sent },
        rw
            (
              at.reached.chosen,
              at_some m.connections i at.reached.conn at.reached.there,
              tries (suc fuel) i m at.reached.conn.ctx bs r runs ok_,
            )
            refl,
        replies,
        sent,
        Connected-with_ctx p m thread_idx i d at r.context _ idle,
      )
