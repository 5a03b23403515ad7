-- ===== src/Redis/Transport/Interrupt.antt =====
-- RedisHelper.cpp, redisBufferWriteInner: what a send that a signal interrupts does to a request.
use seed_core.Prelude.{
  ℕ, suc, ◌+◌, ◌-◌, ◌/◌, ◌%◌, ◌≤◌, ◌<◌, ◌≡◌, refl, sym, ap, ◌∙◌, [], ◌∷◌, ◌++◌, Bytes, arith,
  length, take, drop, Run, done, ◌>>=◌, append_assoc, take_all, drop-append, take-append-drop,
  length-take, length-drop, drop_add, ap₂,
}
use seed_core.Prelude.Int.{two31, two32}
use seed_core.Redis.Memory.{le32, load32, store32, slice, load32_lem, store32_lem}
use seed_core.Redis.Builder.{Builder}
use seed_core.Redis.Builder.Encoding.{Holds}
use seed_core.Redis.Transport.{
  wrote, interrupted, redis_ok, Context, Net, Wire, advance, after_send, write_loop, buffer_write,
  aim, step_back,
}
use seed_core.Redis.Transport.Write.{
  Accepts, Midway, write_loop-Flushed, buffer_write_loop, positive_lem, write_loop_more,
  load_Midway, slice-Midway,
}

-- The top byte of the `int32_t` `n`.
abbrev pub top_byte : ℕ → ℕ
top_byte n = n / 16_777_216 % 256

module _ {S : Type 0} where
  step_back_lem :
      (len p : ℕ) (w : Wire S) (s : S)
      → w.context.obuf ≡ suc p
      → step_back len w s
        ≡ done (record w {
          context = record w.context { obuf = p; socket = s };
          mem = store32 len ((load32 len w.mem + 1) % two32) w.mem;
        })
  unfolding step_back
  step_back_lem len p w s e = rw (e, step_back) refl

  -- A wire that points at the last byte of the length word, which counts that byte as well.
  record OneBack (pre payload : Bytes) (w : Wire S) : Type 0 where
    holds : w.mem ≡ pre ++ (le32 (length payload + 1) ++ payload)
    at : w.context.obuf ≡ length pre + 3

  slice-OneBack :
      (pre payload : Bytes) (w : Wire S) (n : ℕ)
      → OneBack pre payload w
      → slice w.context.obuf n w.mem ≡ take n (top_byte (length payload + 1) ∷ payload)
  unfolding slice
  slice-OneBack pre payload w n o =
      rw (o.holds, o.at)
        (ap (take n) (
          sym (drop_add (length pre) 3 (pre ++ (le32 (length payload + 1) ++ payload)))
          ∙ ap (drop 3) (drop-append pre (le32 (length payload + 1) ++ payload) (length pre) refl)))

  load_OneBack :
      (pre payload : Bytes) (w : Wire S)
      → OneBack pre payload w
      → length payload + 1 < two31
      → load32 (length pre) w.mem ≡ length payload + 1
  load_OneBack pre payload w o small =
      rw (o.holds) (load32_lem pre refl (length payload + 1) payload (omega arith))

  -- The first bytes that go out from there are that byte and the start of the request.
  advance-OneBack :
      (pre payload : Bytes) (w : Wire S) (k : ℕ) (s : S)
      → OneBack pre payload w
      → length payload + 1 < two31
      → k ≤ length payload
      → Midway pre (take k payload) (drop k payload) (advance (length pre) w (suc k) s)
  unfolding advance
  advance-OneBack pre payload w k s o small fits = record {
    holds =
        rw
          (
            load_OneBack pre payload w o small,
            o.holds,
            store32_lem pre refl (length payload + 1) payload _,
          )
          (ap₂ (λ (n : ℕ) (body : Bytes). pre ++ (le32 n ++ body)) left
            (sym (take-append-drop k payload)));
    at = omega (arith, o.at, length-take k payload fits);
  }
    where
      left : (length payload + 1 + two32 - suc k) % two32 ≡ length (drop k payload)
      left = omega (arith, length-drop k payload)

module _ {S : Type 0} (net : Net S) {live : S → Type 0} (a : Accepts net live) where
  from_OneBack :
      (fuel : ℕ) (pre payload : Bytes) (w : Wire S)
      → live w.context.socket
      → OneBack pre payload w
      → length payload + 1 < two31
      → length payload + 1 < fuel
      → (v : Wire S) × (write_loop net (suc fuel) (length pre) w ≡ done (redis_ok, v))
        × (v.sent ≡ w.sent ++ top_byte (length payload + 1) ∷ payload)
  unfolding advance after_send
  from_OneBack fuel pre payload w alive o small enough =
      let (v, runs, f, l) =
        write_loop-Flushed net a fuel pre (take k payload) (drop k payload) w'
          (a.stays s offer alive (omega arith)) m (omega (arith, length-drop k payload))
          (omega (arith, length-drop k payload)) in
      (v, turn ∙ runs, f.sent_all ∙ sent_lem)
    where
      s : S
      s = w.context.socket

      offer : Bytes
      offer = top_byte (length payload + 1) ∷ payload

      k : ℕ
      k = a.taken s offer - 1

      takes : a.taken s offer ≡ suc k
      takes = omega (arith, a.some_bytes s offer alive (omega arith))

      fits : k ≤ length payload
      fits = omega (arith, a.no_more s offer alive (omega arith))

      w' : Wire S
      w' = advance (length pre) w (suc k) (a.next s offer)

      m : Midway pre (take k payload) (drop k payload) w'
      m = advance-OneBack pre payload w k (a.next s offer) o small fits

      offered : slice w.context.obuf (load32 (length pre) w.mem) w.mem ≡ offer
      offered =
          slice-OneBack pre payload w (load32 (length pre) w.mem) o
          ∙ take_all offer _ (omega (arith, load_OneBack pre payload w o small))

      answer : net.send s offer ≡ (wrote (suc k), a.next s offer)
      answer =
          a.answers s offer alive (omega arith) ∙ ap (λ (n : ℕ). (wrote n, a.next s offer)) takes

      turn : write_loop net (suc fuel) (length pre) w ≡ write_loop net fuel (length pre) w'
      turn =
          write_loop_more net fuel (length pre) w (
            rw (load_OneBack pre payload w o small)
              (positive_lem (length payload + 1) (omega arith) small))
          ∙ ap
              (λ (r : Bytes).
                after_send (write_loop net fuel (length pre)) (length pre) w (net.send s r))
              offered
          ∙ ap (after_send (write_loop net fuel (length pre)) (length pre) w) answer

      sent_lem : w'.sent ++ drop k payload ≡ w.sent ++ offer
      sent_lem =
          ap (λ (t : Bytes). (w.sent ++ t) ++ drop k payload)
            (slice-OneBack pre payload w (suc k) o)
          ∙ append_assoc w.sent (take (suc k) offer) (drop k payload)
          ∙ ap (λ (t : Bytes). w.sent ++ top_byte (length payload + 1) ∷ t)
              (take-append-drop k payload)

  -- If a signal interrupts the first send of a committed request over a context without an error
  -- and the socket works from then on, then what goes out is the top byte of the request's length
  -- plus one, and behind it the request, and the write reports success; the request is not empty,
  -- shorter than 2^31 - 1, and below the fuel by more than one.
  pub buffer_write_interrupted :
      (fuel : ℕ) (ct : Context S) (b : Builder) (payload : Bytes) (s' : S)
      → net.send ct.socket payload ≡ (interrupted, s')
      → live s'
      → ct.err ≡ 0
      → Holds b payload
      → 0 < length payload
      → length payload + 1 < two31
      → length payload + 1 < fuel
      → (v : Wire S) × (buffer_write net (suc (suc fuel)) (aim ct b) ≡ done (redis_ok, v))
        × (v.sent ≡ top_byte (length payload + 1) ∷ payload)
  unfolding after_send
  buffer_write_interrupted fuel ct b payload s' signal alive fine h filled small enough =
      let (v, runs, sends) = from_OneBack fuel h.free payload back alive one small enough in
      (
        v,
        buffer_write_loop net (suc (suc fuel)) (length h.free) (aim ct b) fine
              (omega (arith, h.starts))
            ∙ turn
            ∙ runs,
        sends,
      )
    where
      w : Wire S
      w = aim ct b

      mid : Midway h.free [] payload w
      mid = record { holds = h.laid_out; at = omega (arith, h.starts) }

      loaded : load32 (length h.free) b.cmd ≡ length payload
      loaded = load_Midway h.free [] payload w mid (omega arith)

      back : Wire S
      back = record w {
        context = record w.context { obuf = length h.free + 3; socket = s' };
        mem = store32 (length h.free) ((load32 (length h.free) b.cmd + 1) % two32) b.cmd;
      }

      one : OneBack h.free payload back
      one = record {
        holds =
            rw (loaded, h.laid_out, store32_lem h.free refl (length payload) payload _)
              (ap (λ (n : ℕ). h.free ++ (le32 n ++ payload)) plus);
        at = refl;
      }
        where
          plus : (length payload + 1) % two32 ≡ length payload + 1
          plus = omega arith

      offered : slice b.seek (load32 (length h.free) b.cmd) b.cmd ≡ payload
      offered =
          slice-Midway h.free [] payload w (load32 (length h.free) b.cmd) mid
          ∙ take_all payload _ (omega (arith, loaded))

      turn :
          write_loop net (suc (suc fuel)) (length h.free) w
          ≡ write_loop net (suc fuel) (length h.free) back
      turn =
          write_loop_more net (suc fuel) (length h.free) w
            (rw loaded (positive_lem (length payload) filled (omega arith)))
          ∙ ap
              (λ (r : Bytes).
                after_send (write_loop net (suc fuel) (length h.free)) (length h.free) w
                  (net.send ct.socket r))
              offered
          ∙ ap (after_send (write_loop net (suc fuel) (length h.free)) (length h.free) w) signal
          ∙ ap (λ (r : Run (Wire S)). r >>= write_loop net (suc fuel) (length h.free))
              (step_back_lem (length h.free) (length h.free + 3) w s' (omega (arith, h.starts)))
