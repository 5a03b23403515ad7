-- ===== src/Redis/StringMap.antt =====
-- IRedisMgr.h, StringMap: a std::map from std::string to std::string, as its pairs in key order. The
-- keys are compared byte by byte, as std::string does.
use seed_core.Prelude.{
  ◌≡◌, refl, inl, inr, Bool, true, false, List, [], ◌∷◌, Option, none, some, arith, Bytes, ltb,
  if◌then◌else◌, Bool-cases,
}

unfoldable pub less : Bytes → Bytes → Bool
less [] [] = false
less [] (y ∷ ys) = true
less (x ∷ xs) [] = false
less (x ∷ xs) (y ∷ ys) = if ltb x y then true else if ltb y x then false else less xs ys

abbrev pub StringMap : Type 0
StringMap = List (Bytes × Bytes)

-- `emplace` leaves the map alone if the key is there.
unfoldable pub emplace : Bytes → Bytes → StringMap → StringMap
emplace k v [] = (k, v) ∷ []
emplace k v ((j, w) ∷ m) =
    if less k j
    then (k, v) ∷ (j, w) ∷ m
    else if less j k
    then (j, w) ∷ emplace k v m
    else (j, w) ∷ m

unfoldable pub find : Bytes → StringMap → Option Bytes
find k [] = none
find k ((j, w) ∷ m) = if less k j then none else if less j k then find k m else some w

-- Keys rise along the map.
abbrev pub Above : Bytes → StringMap → Type 0
Above k [] = Unit {0}
Above k ((j, w) ∷ m) = less k j ≡ true

abbrev pub IsSorted : StringMap → Type 0
IsSorted [] = Unit {0}
IsSorted ((k, v) ∷ m) = Above k m × IsSorted m

pub less_irrefl : (a : Bytes) → less a a ≡ false
unfolding less
less_irrefl [] = refl
less_irrefl (x ∷ xs) = ground (arith, less_irrefl xs)

pub less_asymm : (a b : Bytes) → less a b ≡ true → less b a ≡ false
unfolding less
less_asymm [] [] h = refl
less_asymm [] (y ∷ ys) h = refl
less_asymm (x ∷ xs) [] h = cc
less_asymm (x ∷ xs) (y ∷ ys) h = ground (arith, less_asymm xs ys)

pub less_trans : (a b c : Bytes) → less a b ≡ true → less b c ≡ true → less a c ≡ true
unfolding less
less_trans [] [] c h k = cc
less_trans [] (y ∷ ys) [] h k = cc
less_trans [] (y ∷ ys) (z ∷ zs) h k = refl
less_trans (x ∷ xs) [] c h k = cc
less_trans (x ∷ xs) (y ∷ ys) [] h k = cc
less_trans (x ∷ xs) (y ∷ ys) (z ∷ zs) h k = ground (arith, less_trans xs ys zs)

pub less_antisymm : (a b : Bytes) → less a b ≡ false → less b a ≡ false → a ≡ b
unfolding less
less_antisymm [] [] h k = refl
less_antisymm [] (y ∷ ys) h k = cc
less_antisymm (x ∷ xs) [] h k = cc
less_antisymm (x ∷ xs) (y ∷ ys) h k = ground (arith, less_antisymm xs ys)

-- An entry that is there keeps its value, and a new one is found under its own key alone.
abbrev pub first_of_two : Option Bytes → Option Bytes → Option Bytes
first_of_two none later = later
first_of_two (some w) later = some w

abbrev pub entry : Bytes → Bytes → Bytes → Option Bytes
entry i k v = if less i k then none else if less k i then none else some v

pub find-emplace :
    (i k v : Bytes) (m : StringMap) → find i (emplace k v m) ≡ first_of_two (find i m) (entry i k v)
unfolding find emplace
find-emplace i k v [] = refl
find-emplace i k v ((j, w) ∷ m) = ground (
  arith,
  find-emplace i k v m,
  less_trans i k j,
  less_trans k j i,
  less_trans i j k,
  less_trans j k i,
  less_asymm i j,
  less_asymm k j,
  less_asymm i k,
  less_asymm k i,
  less_antisymm i j,
  less_antisymm j k,
)

emplace-Above :
    (a k v : Bytes) (m : StringMap) → less a k ≡ true → Above a m → Above a (emplace k v m)
unfolding emplace
emplace-Above a k v [] h s = h
emplace-Above a k v ((j, w) ∷ m) h s = ground arith

-- `emplace` keeps the keys in order, and distinct.
pub emplace-IsSorted : (k v : Bytes) (m : StringMap) → IsSorted m → IsSorted (emplace k v m)
unfolding emplace
emplace-IsSorted k v [] s = (tt, tt)
emplace-IsSorted k v ((j, w) ∷ m) s = elim (Bool-cases (less k j)) [
  | inl before ↦ rw before (before, s)
  | inr e ↦ elim (Bool-cases (less j k)) [
    | inl after ↦ rw (e, after) (emplace-Above j k v m after s.0, emplace-IsSorted k v m s.1)
    | inr same ↦ rw (e, same) s
  ]
]
