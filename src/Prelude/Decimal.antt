-- ===== src/Prelude/Decimal.antt =====
-- Decimal text: what `%d` and `std::to_string` print.
use Prim.Native.Nat.{ℕ, zero, suc, ◌+◌, ◌-◌, ◌*◌, ◌/◌, ◌%◌, ◌^◌, ◌≤◌, ◌<◌}
use mathlib.Core.Path.{◌≡◌, refl, ◌∙◌}
use mathlib.Core.Bool.{Bool, true, false, ◌&&◌}
use mathlib.Core.List.{[], ◌∷◌, ◌++◌}
use native.Mathlib.Omega.{arith}
use native.Mathlib.Nat.{pow-suc}
use seed_core.Prelude.Tests.{ltb, leb, if◌then◌else◌}
use seed_core.Prelude.Lists.{Bytes, length}
use seed_core.Prelude.Int.{ℤ, pos, negsuc}

-- The digits of `n` in front of `out`; the fuel bounds their number.
unfoldable pub digits : ℕ → ℕ → Bytes → Bytes
digits zero n out = out
digits (suc f) n out =
    let rest = digits f (n / 10) ((b'0' + n % 10) ∷ out) in
    if ltb n 10 then (b'0' + n) ∷ out else rest

unfoldable pub decimal : ℕ → Bytes
unfolding digits
decimal n = digits (suc n) n []

unfoldable pub decimal_ℤ : ℤ → Bytes
unfolding decimal
decimal_ℤ (pos n) = decimal n
decimal_ℤ (negsuc n) = b'-' ∷ decimal (suc n)

abbrev pub is_digit : ℕ → Bool
is_digit c = leb b'0' c && leb c b'9'

-- A reader of digits: the number behind `v`, and the input from the first byte that is no digit.
unfoldable pub read_digits : ℕ → Bytes → ℕ × Bytes
read_digits v [] = (v, [])
read_digits v (c ∷ s) = elim (is_digit c) [
  | true ↦ read_digits (v * 10 + (c - b'0')) s
  | false ↦ (v, c ∷ s)
]

-- The text does not go on with a digit.
abbrev pub EndsNumber : Bytes → Type 0
EndsNumber [] = Unit {0}
EndsNumber (c ∷ s) = is_digit c ≡ false

read_digits-end : (v : ℕ) (s : Bytes) → EndsNumber s → read_digits v s ≡ (v, s)
unfolding read_digits
read_digits-end v [] h = refl
read_digits-end v (c ∷ s) h = ground arith

read_last : (n : ℕ) (s : Bytes) → read_digits (n / 10) ((b'0' + n % 10) ∷ s) ≡ read_digits n s
unfolding read_digits
read_last n s = ground arith

read_first : (n : ℕ) (s : Bytes) → n < 10 → read_digits 0 ((b'0' + n) ∷ s) ≡ read_digits n s
unfolding read_digits
read_first n s h = ground arith

digits-append : (f n : ℕ) (out s : Bytes) → digits f n out ++ s ≡ digits f n (out ++ s)
unfolding digits
digits-append zero n out s = refl
digits-append (suc f) n out s = ground (arith, digits-append f (n / 10) ((b'0' + n % 10) ∷ out) s)

read_digits-digits : (f n : ℕ) (s : Bytes) → n < f → read_digits 0 (digits f n s) ≡ read_digits n s
unfolding digits
read_digits-digits zero n s h = absurd (omega arith)
read_digits-digits (suc f) n s h =
    ground
      (arith, read_first n s, read_digits-digits f (n / 10) ((b'0' + n % 10) ∷ s), read_last n s)

-- What is printed is read back, and the reader stops behind it.
pub read_digits-decimal :
    (n : ℕ) (s : Bytes) → EndsNumber s → read_digits 0 (decimal n ++ s) ≡ (n, s)
unfolding decimal
read_digits-decimal n s h =
    ap_read (digits-append (suc n) n [] s)
    ∙ read_digits-digits (suc n) n s (omega arith)
    ∙ read_digits-end n s h
  where
    ap_read : {a b : Bytes} → a ≡ b → read_digits 0 a ≡ read_digits 0 b
    ap_read e = cc

length-digits :
    (f n k : ℕ) (out : Bytes) → n < 10 ^ suc k → length (digits f n out) ≤ suc k + length out
unfolding digits
length-digits zero n k out h = omega arith
length-digits (suc f) n zero out h = ground arith
length-digits (suc f) n (suc k) out h =
    ground (arith, length-digits f (n / 10) k ((b'0' + n % 10) ∷ out), pow-suc 10 (suc k))

-- A number below `10 ^ (k + 1)` has at most `k + 1` digits.
pub length-decimal : (n k : ℕ) → n < 10 ^ suc k → length (decimal n) ≤ suc k
unfolding decimal
length-decimal n k h = omega (arith, length-digits (suc n) n k [] h)
