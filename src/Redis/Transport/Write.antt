-- ===== src/Redis/Transport/Write.antt =====
-- RedisHelper.cpp: what redisBufferWriteInner puts on the wire.
use seed_core.Prelude.{
  ℕ, zero, suc, ◌+◌, ◌-◌, ◌%◌, ◌≤◌, ◌<◌, ◌≡◌, refl, sym, ap, ap₂, append-nil, ◌∙◌, subst, true,
  false, not, [], ◌∷◌, ◌++◌, Bytes, arith, length, take, drop, ◌==◌, done, append_assoc,
  length-append, take_all, drop-append, take-append-drop, length-take, length-drop,
}
use seed_core.Prelude.Int.{two31, two32}
use seed_core.Redis.Memory.{le32, load32, slice, load32_lem, store32_lem, slice_lem}
use seed_core.Redis.Transport.{
  wrote, redis_ok, Net, Wire, advance, after_send, write_loop, buffer_write, positive,
}

module _ {S : Type 0} (net : Net S) where
  -- A socket that from the states `live` on takes at least one byte of what it is offered, and no
  -- more than that.
  pub record Accepts (live : S → Type 0) : Type 0 where
    pub taken : S → Bytes → ℕ
    pub next : S → Bytes → S
    pub answers :
        (s : S) (bs : Bytes)
        → live s
        → 0 < length bs
        → net.send s bs ≡ (wrote (taken s bs), next s bs)
    pub some_bytes : (s : S) (bs : Bytes) → live s → 0 < length bs → 0 < taken s bs
    pub no_more : (s : S) (bs : Bytes) → live s → 0 < length bs → taken s bs ≤ length bs
    pub stays : (s : S) (bs : Bytes) → live s → 0 < length bs → live (next s bs)

module _ {S : Type 0} where
  -- A wire in the middle of a request: `rest` is what is left of it behind `over`.
  pub record Midway (pre over rest : Bytes) (w : Wire S) : Type 0 where
    pub holds : w.mem ≡ pre ++ (le32 (length rest) ++ (over ++ rest))
    pub at : w.context.obuf ≡ length pre + 4 + length over

  pub load_Midway :
      (pre over rest : Bytes) (w : Wire S)
      → Midway pre over rest w
      → length rest < two31
      → load32 (length pre) w.mem ≡ length rest
  load_Midway pre over rest w m small =
      rw (m.holds) (load32_lem pre refl (length rest) (over ++ rest) (omega arith))

  pub slice-Midway :
      (pre over rest : Bytes) (w : Wire S) (n : ℕ)
      → Midway pre over rest w
      → slice w.context.obuf n w.mem ≡ take n rest
  slice-Midway pre over rest w n m = rw (m.holds) (
      slice_lem pre refl (length rest) (over ++ rest) (length over) n w.context.obuf m.at
      ∙ ap (take n) (drop-append over rest (length over) refl))

  advance-Midway :
      (pre over rest : Bytes) (w : Wire S) (n : ℕ) (s : S)
      → Midway pre over rest w
      → length rest < two31
      → n ≤ length rest
      → Midway pre (over ++ take n rest) (drop n rest) (advance (length pre) w n s)
  unfolding advance
  advance-Midway pre over rest w n s m small fits = record {
    holds =
        rw
          (
            load_Midway pre over rest w m small,
            m.holds,
            store32_lem pre refl (length rest) (over ++ rest) _,
          )
          (ap₂ (λ (k : ℕ) (body : Bytes). pre ++ (le32 k ++ body)) left whole);
    at = omega (arith, m.at, length-append over (take n rest), length-take n rest fits);
  }
    where
      left : (length rest + two32 - n) % two32 ≡ length (drop n rest)
      left = omega (arith, length-drop n rest)

      whole : over ++ rest ≡ (over ++ take n rest) ++ drop n rest
      whole =
          sym (
            append_assoc over (take n rest) (drop n rest)
            ∙ ap (◌++◌ over) (take-append-drop n rest))

pub positive_lem : (n : ℕ) → 0 < n → n < two31 → positive n ≡ true
positive_lem n h k = ground arith

module _ {S : Type 0} (net : Net S) where
  -- What the loop does while something is left.
  pub write_loop_more :
      (fuel len : ℕ) (w : Wire S)
      → positive (load32 len w.mem) ≡ true
      → write_loop net (suc fuel) len w
        ≡ after_send
            (write_loop net fuel len)
            len
            w
            (net.send w.context.socket (slice w.context.obuf (load32 len w.mem) w.mem))
  unfolding write_loop
  write_loop_more fuel len w h = rw (h, write_loop)

  pub write_loop_done :
      (fuel len : ℕ) (w : Wire S)
      → load32 len w.mem ≡ 0
      → write_loop net (suc fuel) len w ≡ done (redis_ok, w)
  unfolding write_loop
  write_loop_done fuel len w h = rw (h, write_loop)

module _ {S : Type 0} where
  -- The wire after the whole request has gone out from the state `w`.
  pub record Flushed (pre over rest : Bytes) (w v : Wire S) : Type 0 where
    pub emptied : Midway pre (over ++ rest) [] v
    pub sent_all : v.sent ≡ w.sent ++ rest
    pub same_err : v.context.err ≡ w.context.err

module _ {S : Type 0} (net : Net S) {live : S → Type 0} where
  pub write_loop-Flushed :
      (a : Accepts net live) (fuel : ℕ) (pre over rest : Bytes) (w : Wire S)
      → live w.context.socket
      → Midway pre over rest w
      → length rest < two31
      → length rest < fuel
      → (v : Wire S) × (write_loop net fuel (length pre) w ≡ done (redis_ok, v))
        × Flushed pre over rest w v
        × live v.context.socket
  unfolding advance after_send
  write_loop-Flushed a zero pre over rest w alive m small enough = absurd (omega arith)
  write_loop-Flushed a (suc fuel) pre over [] w alive m small enough = (
    w,
    write_loop_done net fuel (length pre) w (load_Midway pre over [] w m small),
    record {
      emptied = subst (λ (o : Bytes). Midway pre o [] w) (sym (append-nil over)) m;
      sent_all = sym (append-nil w.sent);
      same_err = refl;
    },
    alive,
  )
  write_loop-Flushed a (suc fuel) pre over (c ∷ cs) w alive m small enough =
      let (v, runs, f, l) =
        write_loop-Flushed a fuel pre (over ++ take n rest) (drop n rest) w'
          (a.stays s rest alive (omega arith)) m' (omega (arith, length-drop n rest, some_n))
          (omega (arith, length-drop n rest, some_n)) in
      (v, turn ∙ runs, flushed v f, l)
    where
      rest : Bytes
      rest = c ∷ cs

      s : S
      s = w.context.socket

      n : ℕ
      n = a.taken s rest

      some_n : 0 < n
      some_n = a.some_bytes s rest alive (omega arith)

      w' : Wire S
      w' = advance (length pre) w n (a.next s rest)

      m' : Midway pre (over ++ take n rest) (drop n rest) w'
      m' =
          advance-Midway pre over rest w n (a.next s rest) m small
            (a.no_more s rest alive (omega arith))

      offered : slice w.context.obuf (load32 (length pre) w.mem) w.mem ≡ rest
      offered =
          slice-Midway pre over rest w (load32 (length pre) w.mem) m
          ∙ take_all rest _ (omega (arith, load_Midway pre over rest w m small))

      turn : write_loop net (suc fuel) (length pre) w ≡ write_loop net fuel (length pre) w'
      turn =
          write_loop_more net fuel (length pre) w (
            rw (load_Midway pre over rest w m small)
              (positive_lem (length rest) (omega arith) small))
          ∙ ap
              (λ (r : Bytes).
                after_send (write_loop net fuel (length pre)) (length pre) w (net.send s r))
              offered
          ∙ ap (after_send (write_loop net fuel (length pre)) (length pre) w)
              (a.answers s rest alive (omega arith))

      flushed :
          (v : Wire S)
          → Flushed pre (over ++ take n rest) (drop n rest) w' v
          → Flushed pre over rest w v
      flushed v f = record {
        emptied =
            subst (λ (o : Bytes). Midway pre o [] v)
              (append_assoc over (take n rest) (drop n rest)
                ∙ ap (◌++◌ over) (take-append-drop n rest))
              f.emptied;
        sent_all =
            f.sent_all
            ∙ ap (λ (t : Bytes). (w.sent ++ t) ++ drop n rest) (slice-Midway pre over rest w n m)
            ∙ append_assoc w.sent (take n rest) (drop n rest)
            ∙ ap (◌++◌ w.sent) (take-append-drop n rest);
        same_err = f.same_err;
      }

no_err : (n : ℕ) → n ≡ 0 → not (n == 0) ≡ false
no_err n h = ground arith

module _ {S : Type 0} (net : Net S) where
  -- Without an earlier error the write is the loop.
  pub buffer_write_loop :
      (fuel len : ℕ) (w : Wire S)
      → w.context.err ≡ 0
      → w.context.obuf - 4 ≡ len
      → buffer_write net fuel w ≡ write_loop net fuel len w
  unfolding buffer_write
  buffer_write_loop fuel len w fine at = rw (no_err w.context.err fine, at) refl
