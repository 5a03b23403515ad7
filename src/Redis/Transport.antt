-- ===== src/Redis/Transport.antt =====
-- RedisHelper.cpp, class RedisWraaper, and the two functions of RedisMgr.cpp that send requests and
-- collect replies. The sender walks the builder's own buffer: `obuf` is an offset into it, and the
-- length in front of the request counts down there, in the builder.
-- hiredis and the socket are not in the repository: they are the parameter `net`, functions on a
-- state `S` of the connection.
pub mod Write
pub mod Heard
pub mod Request
pub mod Interrupt
pub mod Pipeline
pub mod Batches
use seed_core.Prelude.{
  ℕ, zero, suc, ◌+◌, ◌-◌, ◌%◌, ◌≡◌, Bool, true, false, ◌&&◌, ◌||◌, not, List, [], ◌∷◌, ◌++◌, Option,
  none, some, Bytes, length, ltb, ◌==◌, if◌then◌else◌, Run, done, starved, fault, ◌>>=◌,
}
use seed_core.Prelude.Int.{ℤ, pos, negsuc, two31, two32}
use seed_core.Redis.Memory.{load32, store32, slice}
use seed_core.Redis.Builder.{Builder}
use seed_core.Redis.Reply.{Reply}

-- What `send` answers: how many bytes it took, or -1 with an `errno`.
pub data Sent : Type 0 where
  wrote : ℕ → Sent
  would_block interrupted broken : Sent

pub data Status : Type 0 where
  redis_ok redis_err : Status

-- `REDIS_OK` and `REDIS_ERR` as numbers.
abbrev pub status_code : Status → ℤ
status_code redis_ok = pos 0
status_code redis_err = negsuc 0

-- The numbers of `REDIS_ERR_IO` and of `REDIS_ERR_OTHER`.
abbrev pub err_io : ℕ
err_io = 1

abbrev pub err_other : ℕ
err_other = 2

-- The fields of a `redisContext` that the module touches, and the state of its connection.
pub record Context (S : Type 0) : Type 0 where
  pub err : ℕ
  pub blocking : Bool
  pub obuf : ℕ
  pub socket : S

-- send(2), redisBufferRead and redisGetReplyFromReader; `none` is REDIS_ERR from the reader, and
-- `some none` that it has no whole reply yet.
pub record Net (S : Type 0) : Type 0 where
  pub send : S → Bytes → Sent × S
  pub buffer_read : Context S → Status × Context S
  pub reply_from_reader : Context S → Option (Option Reply) × Context S

-- `*len > 0` on an `int32_t`
abbrev pub positive : ℕ → Bool
positive n = ltb 0 n && ltb n two31

-- The status that goes with a reply, or with none.
abbrev pub status_of : Option Reply → Status
status_of none = redis_err
status_of (some r) = redis_ok

-- A context, the buffer that it sends from, and the bytes that went to the socket.
pub record Wire (S : Type 0) : Type 0 where
  pub context : Context S
  pub mem : Bytes
  pub sent : Bytes

module _ {S : Type 0} where
  -- `*len -= nwritten; c->obuf = c->obuf + nwritten`
  unfoldable pub advance : ℕ → Wire S → ℕ → S → Wire S
  advance len w n socket = record {
    context = record w.context { obuf = w.context.obuf + n; socket = socket };
    mem = store32 len ((load32 len w.mem + two32 - n) % two32) w.mem;
    sent = w.sent ++ slice w.context.obuf n w.mem;
  }

  -- The same with `nwritten` -1, after a send that is to be tried again. A pointer in front of the
  -- buffer is a fault.
  unfoldable pub step_back : ℕ → Wire S → S → Run (Wire S)
  step_back len w socket = elim w.context.obuf [
    | zero ↦ fault
    | suc p ↦ done (record w {
      context = record w.context { obuf = p; socket = socket };
      mem = store32 len ((load32 len w.mem + 1) % two32) w.mem;
    })
  ]

  unfoldable pub fail_io : Wire S → S → Wire S
  fail_io w socket = record w { context = record w.context { err = err_io; socket = socket } }

  -- One turn of the write loop, and the rest of it.
  unfoldable pub after_send :
      (Wire S → Run (Status × Wire S)) → ℕ → Wire S → Sent × S → Run (Status × Wire S)
  unfolding advance step_back fail_io
  after_send rest len w (wrote n, s) = rest (advance len w n s)
  after_send rest len w (would_block, s) =
      if w.context.blocking then done (redis_err, fail_io w s) else step_back len w s >>= rest
  after_send rest len w (interrupted, s) = step_back len w s >>= rest
  after_send rest len w (broken, s) = done (redis_err, fail_io w s)

  -- What redisGetReplyFromReader said, and the rest of the read loop; `none` is a failure.
  unfoldable pub after_reader :
      (Context S → Run (Option Reply × Context S))
      → Option (Option Reply) × Context S
      → Run (Option Reply × Context S)
  after_reader rest (none, c) = done (none, c)
  after_reader rest (some none, c) = rest c
  after_reader rest (some (some r), c) = done (some r, c)

  -- `ct->obuf = cmdBuilder.GetSendBuff()`
  abbrev pub aim : Context S → Builder → Wire S
  aim ct b = record { context = record ct { obuf = b.seek }; mem = b.cmd; sent = [] }

module _ {S : Type 0} (net : Net S) where
  -- `while (*len > 0)`, with fuel for the sends. `len` is the address of the length.
  unfoldable pub write_loop : ℕ → ℕ → Wire S → Run (Status × Wire S)
  unfolding after_send
  write_loop zero len w = starved
  write_loop (suc fuel) len w = elim (positive (load32 len w.mem)) [
    | true ↦
        after_send (write_loop fuel len) len w
          (net.send w.context.socket (slice w.context.obuf (load32 len w.mem) w.mem))
    | false ↦ done (redis_ok, w)
  ]

  -- redisBufferWriteInner
  unfoldable pub buffer_write : ℕ → Wire S → Run (Status × Wire S)
  unfolding write_loop
  buffer_write fuel w =
      if not (w.context.err == 0)
      then done (redis_err, w)
      else write_loop fuel (w.context.obuf - 4) w

  after_read :
      (Context S → Run (Option Reply × Context S))
      → Status × Context S
      → Run (Option Reply × Context S)
  unfolding after_reader
  after_read rest (redis_err, c) = done (none, c)
  after_read rest (redis_ok, c) = after_reader rest (net.reply_from_reader c)

  -- `do { … } while (aux == NULL)`, with fuel for the rounds.
  unfoldable pub read_loop : ℕ → Context S → Run (Option Reply × Context S)
  unfolding after_read
  read_loop zero c = starved
  read_loop (suc fuel) c = after_read (read_loop fuel) (net.buffer_read c)

  unfoldable pub reply_after_write : ℕ → Status × Wire S → Run (Status × Option Reply × Wire S)
  unfolding read_loop
  reply_after_write fuel (redis_err, w) = done (redis_err, none, w)
  reply_after_write fuel (redis_ok, w) =
      read_loop fuel w.context >>= λ (r, c). done (status_of r, r, record w { context = c })

  -- redisGetReplyInner
  unfoldable pub get_reply : ℕ → Wire S → Run (Status × Option Reply × Wire S)
  unfolding buffer_write reply_after_write
  get_reply fuel w = buffer_write fuel w >>= reply_after_write fuel

  -- RedisMgr::sendAndGetReply of the debug build. With the status and the reply it returns the
  -- context, the builder, and the bytes that were sent.
  unfoldable pub send_and_get_reply :
      ℕ → Context S → Builder → Run (Status × Option Reply × Context S × Builder × Bytes)
  unfolding get_reply
  send_and_get_reply fuel ct b =
      if not b.committed
      then done (redis_err, none, ct, b, [])
      else (get_reply fuel (aim ct b) >>= λ (st, r, w).
          done (st, r, w.context, record b { cmd = w.mem }, w.sent))
