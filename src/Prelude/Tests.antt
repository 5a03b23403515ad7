-- ===== src/Prelude/Tests.antt =====
-- Boolean tests on the native numbers, the conditional, and the results of code that can fail.
use Prim.Native.Nat.{ℕ, zero, suc, ◌<◌, ◌≤◌, compare, Ordering}
use mathlib.Core.Path.{◌≡◌, ap, refl}
use mathlib.Core.Logic.{◌↔◌, ◌⊎◌, inl, inr}
use mathlib.Core.Bool.{Bool, true, false}
use native.Mathlib.Omega.{arith}

abbrev pub ltb : ℕ → ℕ → Bool
ltb a b = elim (compare a b) [ Ordering.lt ↦ true | _ ↦ false ]

abbrev pub leb : ℕ → ℕ → Bool
leb a b = elim (compare a b) [ Ordering.gt ↦ false | _ ↦ true ]

infix 50 ◌==◌
abbrev pub ◌==◌ : ℕ → ℕ → Bool
a == b = elim (compare a b) [ Ordering.eq ↦ true | _ ↦ false ]

infix 1 if◌then◌else◌
abbrev pub if◌then◌else◌ {ℓ} : {A : Type ℓ} → Bool → A → A → A
if true then x else y = x
if false then x else y = y

pub ltb→lt : (a b : ℕ) → ltb a b ≡ true → a < b
ltb→lt a b h = ground arith

pub lt→ltb : (a b : ℕ) → a < b → ltb a b ≡ true
lt→ltb a b h = ground arith

pub ==_iff : (a b : ℕ) → ((a == b) ≡ true) ↔ (a ≡ b)
==_iff a b = ground arith

pub ==_refl : (a : ℕ) → (a == a) ≡ true
==_refl a = (==_iff a a).1 refl

pub ruleset tests = (arith, ltb→lt, lt→ltb)

-- To split on a computed value and keep the equation.
pub Bool-cases : (b : Bool) → (b ≡ true) ⊎ (b ≡ false)
Bool-cases true = inl refl
Bool-cases false = inr refl

-- A run of code with loops and raw memory: it returns, it is still in a loop when the fuel is used
-- up, or it has touched memory that it does not own.
pub data Run {ℓ} (A : Type ℓ) : Type ℓ where
  done : A → Run A
  starved : Run A
  fault : Run A

infixl 5 ◌>>=◌
abbrev pub ◌>>=◌ {ℓ κ} : {A : Type ℓ} {B : Type κ} → Run A → (A → Run B) → Run B
done a >>= f = f a
starved >>= f = starved
fault >>= f = fault

pub >>=-ext {ℓ κ} :
    {A : Type ℓ} {B : Type κ} (r : Run A) (f g : A → Run B)
    → ((a : A) → f a ≡ g a)
    → (r >>= f) ≡ (r >>= g)
>>=-ext (done a) f g h = h a
>>=-ext starved f g h = refl
>>=-ext fault f g h = refl

-- A run that returns has returned at each of its steps.
pub >>=-done {ℓ κ} :
    {A : Type ℓ} {B : Type κ} (r : Run A) (f : A → Run B) (b : B)
    → (r >>= f) ≡ done b
    → (a : A) × (r ≡ done a) × (f a ≡ done b)
>>=-done (done a) f b h = (a, refl, h)
>>=-done starved f b h = cc
>>=-done fault f b h = cc

pub done_injective {ℓ} : {A : Type ℓ} {a b : A} → done a ≡ done b → a ≡ b
done_injective {a = a} e = ap (λ r. elim r [ done x ↦ x | starved ↦ a | fault ↦ a ]) e

-- What holds of the result, if the run returns.
abbrev pub OnDone {ℓ} : {A : Type ℓ} → (A → Type 0) → Run A → Type 0
OnDone P (done a) = P a
OnDone P starved = Unit {0}
OnDone P fault = Unit {0}

pub OnDone->>= {ℓ κ} :
    {A : Type ℓ} {B : Type κ} (P : A → Type 0) (R : B → Type 0) (r : Run A) (f : A → Run B)
    → OnDone P r
    → ((a : A) → P a → OnDone R (f a))
    → OnDone R (r >>= f)
OnDone->>= P R (done a) f h k = k a h
OnDone->>= P R starved f h k = tt
OnDone->>= P R fault f h k = tt

pub lt_or_le : (a b : ℕ) → (a < b) ⊎ (b ≤ a)
lt_or_le a zero = inr (omega arith)
lt_or_le zero (suc b) = inl (omega arith)
lt_or_le (suc a) (suc b) = elim (lt_or_le a b) [
  | inl h ↦ inl (omega arith)
  | inr h ↦ inr (omega arith)
]
