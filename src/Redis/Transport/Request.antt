-- ===== src/Redis/Transport/Request.antt =====
-- RedisHelper.cpp, redisBufferWriteInner on a builder: the first write of a request, and the next.
use seed_core.Prelude.{
  ℕ, ◌+◌, ◌-◌, ◌<◌, ◌≡◌, ap, append-nil, ◌∙◌, true, [], ◌++◌, Bytes, arith, length, done,
}
use seed_core.Prelude.Int.{two31}
use seed_core.Redis.Memory.{le32}
use seed_core.Redis.Builder.{Builder}
use seed_core.Redis.Builder.Encoding.{Holds}
use seed_core.Redis.Transport.{redis_ok, Context, Net, Wire, buffer_write, aim}
use seed_core.Redis.Transport.Write.{Accepts, Midway, write_loop-Flushed, buffer_write_loop}

-- A builder whose request has been sent: the request is there, and its length is spent.
pub record Drained (b : Builder) (payload : Bytes) : Type 0 where
  pub free : Bytes
  pub laid_out : b.cmd ≡ free ++ (le32 0 ++ payload)
  pub starts : b.seek ≡ length free + 4
  pub is_committed : b.committed ≡ true

module _ {S : Type 0} (net : Net S) {live : S → Type 0} where
  -- Over a context without an error and a socket that works, a committed request shorter than 2^31
  -- goes out whole, in order and once, however the socket cuts it up, if the fuel is above its
  -- length. Afterwards the length in front of it is zero, in the builder itself.
  pub buffer_write-Holds :
      (a : Accepts net live) (fuel : ℕ) (ct : Context S) (b : Builder) (payload : Bytes)
      → live ct.socket
      → ct.err ≡ 0
      → Holds b payload
      → length payload < two31
      → length payload < fuel
      → (v : Wire S) × (buffer_write net fuel (aim ct b) ≡ done (redis_ok, v))
        × (v.sent ≡ payload)
        × (v.context.err ≡ 0)
        × Drained (record b { cmd = v.mem }) payload
        × live v.context.socket
  buffer_write-Holds a fuel ct b payload alive fine h small enough =
      let (v, runs, f, l) =
        write_loop-Flushed net a fuel h.free [] payload (aim ct b) alive start small enough in
      (
        v,
        buffer_write_loop net fuel (length h.free) (aim ct b) fine address ∙ runs,
        f.sent_all,
        f.same_err ∙ fine,
        record {
          free = h.free;
          laid_out =
              f.emptied.holds ∙ ap (λ (t : Bytes). h.free ++ (le32 0 ++ t)) (append-nil payload);
          starts = h.starts;
          is_committed = h.is_committed;
        },
        l,
      )
    where
      start : Midway h.free [] payload (aim ct b)
      start = record { holds = h.laid_out; at = omega (arith, h.starts) }

      address : b.seek - 4 ≡ length h.free
      address = omega (arith, h.starts)
