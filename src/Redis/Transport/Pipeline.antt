-- ===== src/Redis/Transport/Pipeline.antt =====
-- RedisMgr.cpp, pipelineSendAndGetReply of the debug build: all requests go out first, then one
-- reply is read for each.
use seed_core.Prelude.{
  ℕ, zero, suc, not, List, [], ◌∷◌, ◌++◌, Option, none, some, Bytes, length, if◌then◌else◌, Run,
  done, ◌>>=◌,
}
use seed_core.Prelude.Int.{pos, pos_part, to_s32}
use seed_core.Redis.Builder.{Builder}
use seed_core.Redis.Reply.{Reply}
use seed_core.Redis.Transport.{
  Status, redis_ok, redis_err, Context, Net, Wire, buffer_write, aim, after_reader, read_loop,
}

-- The rounds of the loop over the replies, whose bound is the vector's size as an `int32_t`.
unfoldable pub reply_count : ℕ → ℕ
reply_count n = pos_part (to_s32 (pos n))

-- How far a batch has come. `builders` are those of the batch as the sender has left them, `sent`
-- the bytes that went out.
pub record Batch (S : Type 0) : Type 0 where
  pub status : Status
  pub context : Context S
  pub builders : List Builder
  pub replies : List Reply
  pub sent : Bytes

module _ {S : Type 0} where
  -- A builder that has been written, in front of the batch of those behind it.
  abbrev pub behind : Builder → Bytes → Batch S → Batch S
  behind b sent r = record r { builders = b ∷ r.builders; sent = sent ++ r.sent }

  abbrev pub stopped : Status → Context S → List Builder → Batch S
  stopped st c bs = record { status = st; context = c; builders = bs; replies = []; sent = [] }

module _ {S : Type 0} (net : Net S) where
  unfoldable pub after_write :
      (Context S → Run (Batch S)) → Builder → List Builder → Status × Wire S → Run (Batch S)
  after_write rest b bs (redis_err, w) =
      done (behind (record b { cmd = w.mem }) w.sent (stopped redis_err w.context bs))
  after_write rest b bs (redis_ok, w) =
      rest w.context >>= λ r. done (behind (record b { cmd = w.mem }) w.sent r)

  unfoldable pub write_all : ℕ → List Builder → Context S → Run (Batch S)
  unfolding after_write
  write_all fuel [] ct = done (stopped redis_ok ct [])
  write_all fuel (b ∷ bs) ct =
      if not b.committed
      then done (stopped redis_err ct (b ∷ bs))
      else (buffer_write net fuel (aim ct b) >>= after_write (write_all fuel bs) b bs)

  unfoldable pub after_reply :
      (Batch S → Run (Batch S)) → Batch S → Option Reply × Context S → Run (Batch S)
  after_reply rest r (none, c) = done (record r { status = redis_err; context = c })
  after_reply rest r (some reply, c) =
      rest (record r { context = c; replies = r.replies ++ reply ∷ [] })

  -- One reply for each of `n` requests; a reply may be in the reader already.
  unfoldable pub collect : ℕ → ℕ → Batch S → Run (Batch S)
  unfolding after_reply
  collect fuel zero r = done r
  collect fuel (suc n) r =
      after_reader (read_loop net fuel) (net.reply_from_reader r.context)
      >>= after_reply (collect fuel n) r

  unfoldable pub collect_after : ℕ → ℕ → List Reply → Status → Batch S → Run (Batch S)
  unfolding collect
  collect_after fuel n replies redis_err r = done (record r { replies = replies })
  collect_after fuel n replies redis_ok r = collect fuel n (record r { replies = replies })

  -- `replies` is the caller's vector, to which the replies are appended.
  unfoldable pub pipeline_send_and_get_reply :
      ℕ → Context S → List Builder → List Reply → Run (Batch S)
  unfolding write_all collect_after
  pipeline_send_and_get_reply fuel ct builders replies = write_all fuel builders ct >>= λ r.
      collect_after fuel (reply_count (length builders)) replies r.status r
