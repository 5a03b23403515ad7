-- ===== src/Redis/Transport/Heard.antt =====
-- RedisHelper.cpp, redisBufferWriteInner: what the peer has heard when the write is over, and what
-- it keeps while it listens.
use seed_core.Prelude.{
  ℕ, zero, suc, ◌+◌, ◌≤◌, ◌≡◌, refl, ap, ◌∙◌, Bool, true, false, [], ◌∷◌, ◌++◌, Bytes, arith, ◌%◌,
  not, ◌==◌, if◌then◌else◌, length, take, drop, append_assoc, Run, done, fault, OnDone, OnDone->>=,
}
use seed_core.Redis.Memory.{load32, store32, slice}
use seed_core.Prelude.Int.{two32}
use seed_core.Redis.Transport.{
  Sent, wrote, would_block, interrupted, broken, Status, redis_ok, Net, Wire, advance, step_back,
  fail_io, after_send, write_loop, buffer_write, positive,
}

module _ {S D : Type 0} (heard : S → Bytes) (store : S → D) where
  -- What a send of `bs` from the state `s` does at the other end: the peer hears the bytes that the
  -- send took, which are among those that it was offered, and keeps its data.
  abbrev pub Took : S → Bytes → Sent × S → Type 0
  Took s bs (wrote n, s') =
      (n ≤ length bs) × (heard s' ≡ heard s ++ take n bs) × (store s' ≡ store s)
  Took s bs (_, s') = (heard s' ≡ heard s) × (store s' ≡ store s)

  -- Behind `base`, the peer has heard what has gone out so far; its data are `d`.
  pub record Hears (base : Bytes) (d : D) (w : Wire S) : Type 0 where
    pub bytes : heard w.context.socket ≡ base ++ w.sent
    pub kept : store w.context.socket ≡ d

take-take : (n len : ℕ) (xs : Bytes) → n ≤ length (take len xs) → take n (take len xs) ≡ take n xs
take-take zero len xs h = refl
take-take (suc n) zero xs h = absurd (omega arith)
take-take (suc n) (suc len) [] h = refl
take-take (suc n) (suc len) (x ∷ xs) h = ap (◌∷◌ x) (take-take n len xs (omega arith))

OnDone_either {ℓ} :
    {A : Type ℓ} (P : A → Type 0) (t : Bool) (r q : Run A)
    → OnDone P r
    → OnDone P q
    → OnDone P (if t then r else q)
OnDone_either P true r q h k = h
OnDone_either P false r q h k = k

module _ {S D : Type 0} (heard : S → Bytes) (store : S → D) (base : Bytes) (d : D) where
  abbrev pub Later : Status × Wire S → Type 0
  Later (st, v) = Hears heard store base d v

  step_back-Hears :
      (len : ℕ) (w : Wire S) (s : S)
      → Hears heard store base d w
      → heard s ≡ heard w.context.socket
      → store s ≡ store w.context.socket
      → OnDone (Hears heard store base d) (step_back len w s)
  unfolding step_back
  step_back-Hears len w s h e k =
      elim w.context.obuf
        as (λ o. OnDone (Hears heard store base d) (elim o [
          | zero ↦ fault
          | suc p ↦ done (record w {
            context = record w.context { obuf = p; socket = s };
            mem = store32 len ((load32 len w.mem + 1) % two32) w.mem;
          })
        ])) [ zero ↦ tt | suc p ↦ record { bytes = e ∙ h.bytes; kept = k ∙ h.kept } ]

  after_send-Hears :
      (rest : Wire S → Run (Status × Wire S)) (len : ℕ) (w : Wire S) (n : ℕ)
      → ((v : Wire S) → Hears heard store base d v → OnDone Later (rest v))
      → Hears heard store base d w
      → (a : Sent × S) → Took heard store w.context.socket (slice w.context.obuf n w.mem) a
      → OnDone Later (after_send rest len w a)
  unfolding after_send advance fail_io slice
  after_send-Hears rest len w n next h (wrote k, s) (few, e, kept) = next _ (record {
    bytes =
        e
        ∙ ap (λ (t : Bytes). t ++ take k (take n (drop w.context.obuf w.mem))) h.bytes
        ∙ append_assoc base w.sent _
        ∙ ap (λ (t : Bytes). base ++ (w.sent ++ t)) (take-take k n (drop w.context.obuf w.mem) few);
    kept = kept ∙ h.kept;
  })
  after_send-Hears rest len w n next h (would_block, s) (e, kept) =
      OnDone_either Later w.context.blocking _ _
        (record { bytes = e ∙ h.bytes; kept = kept ∙ h.kept })
        (OnDone->>= (Hears heard store base d) Later (step_back len w s) rest
          (step_back-Hears len w s h e kept) next)
  after_send-Hears rest len w n next h (interrupted, s) (e, kept) =
      OnDone->>= (Hears heard store base d) Later (step_back len w s) rest
        (step_back-Hears len w s h e kept) next
  after_send-Hears rest len w n next h (broken, s) (e, kept) = record {
    bytes = e ∙ h.bytes;
    kept = kept ∙ h.kept;
  }

  module _ (net : Net S)
      (sends : (s : S) (bs : Bytes) → Took heard store s bs (net.send s bs)) where
    write_loop-Hears :
        (fuel len : ℕ) (w : Wire S)
        → Hears heard store base d w
        → OnDone Later (write_loop net fuel len w)
    unfolding write_loop
    write_loop-Hears zero len w h = tt
    write_loop-Hears (suc fuel) len w h =
        elim (positive (load32 len w.mem))
          as (λ t. OnDone Later (elim t [
            | true ↦
                after_send (write_loop net fuel len) len w
                  (net.send w.context.socket (slice w.context.obuf (load32 len w.mem) w.mem))
            | false ↦ done (redis_ok, w)
          ])) [
            | true ↦
                after_send-Hears (write_loop net fuel len) len w (load32 len w.mem)
                  (write_loop-Hears fuel len) h _ (sends _ _)
            | false ↦ h
          ]

    -- Whatever the socket does, when the write is over the peer has heard what was sent.
    pub buffer_write-Hears :
        (fuel : ℕ) (w : Wire S)
        → Hears heard store base d w
        → OnDone Later (buffer_write net fuel w)
    unfolding buffer_write
    buffer_write-Hears fuel w h =
        OnDone_either Later (not (w.context.err == 0)) _ _ h (write_loop-Hears fuel _ w h)
