-- ===== src/Redis/Memory.antt =====
-- The bytes of a command buffer as the sender reads and writes them through pointers.
use seed_core.Prelude.{
  ℕ, ◌+◌, ◌*◌, ◌/◌, ◌%◌, ◌<◌, ◌≡◌, refl, sym, ap, ◌∙◌, [], ◌∷◌, ◌++◌, arith, Bytes, length, take,
  drop, take-append, drop-append, drop_add,
}

-- An `int32_t` in memory, low byte first as on the targets of the build.
abbrev pub le32 : ℕ → Bytes
le32 n = n % 256 ∷ n / 256 % 256 ∷ n / 65_536 % 256 ∷ n / 16_777_216 % 256 ∷ []

abbrev pub le_value : Bytes → ℕ
le_value [] = 0
le_value (b ∷ bs) = b + 256 * le_value bs

-- `*(int32_t *)p` as a bit pattern, and a store through it.
unfoldable pub load32 : ℕ → Bytes → ℕ
load32 p mem = le_value (take 4 (drop p mem))

unfoldable pub store32 : ℕ → ℕ → Bytes → Bytes
store32 p n mem = take p mem ++ (le32 n ++ drop (p + 4) mem)

-- `n` bytes from the address `p`.
unfoldable pub slice : ℕ → ℕ → Bytes → Bytes
slice p n mem = take n (drop p mem)

le_value-le32 : (n : ℕ) → n < 4_294_967_296 → le_value (le32 n) ≡ n
le_value-le32 n h = omega arith

module _ (pre : Bytes) {p : ℕ} (at : p ≡ length pre) (n : ℕ) (body : Bytes) where
  drop_at : drop p (pre ++ (le32 n ++ body)) ≡ le32 n ++ body
  drop_at = drop-append pre (le32 n ++ body) p at

  -- A load reads the word that stands at the address.
  pub load32_lem : n < 4_294_967_296 → load32 p (pre ++ (le32 n ++ body)) ≡ n
  unfolding load32
  load32_lem h = rw drop_at (le_value-le32 n h)

  drop_behind : drop (p + 4) (pre ++ (le32 n ++ body)) ≡ body
  drop_behind = sym (drop_add p 4 _) ∙ rw drop_at refl

  -- A store replaces that word and nothing else.
  pub store32_lem : (m : ℕ) → store32 p m (pre ++ (le32 n ++ body)) ≡ pre ++ (le32 m ++ body)
  unfolding store32
  store32_lem m = rw (take-append pre (le32 n ++ body) p at, drop_behind)

  -- Behind the word the bytes are those of the body.
  pub slice_lem :
      (k m q : ℕ) → q ≡ p + 4 + k → slice q m (pre ++ (le32 n ++ body)) ≡ take m (drop k body)
  unfolding slice
  slice_lem k m q e = rw e (ap (take m) (sym (drop_add (p + 4) k _) ∙ ap (drop k) drop_behind))
