-- ===== src/UnitTest/Ids.antt =====
-- UnitTest.cpp, GetUnitTestId and CompleteTest: the ids of the tests that are under way.
use seed_core.Prelude.{
  ℕ, ◌+◌, ◌<◌, ◌≡◌, refl, ap, ap₂, ◌∙◌, Bool, true, false, List, [], ◌∷◌, ◌++◌, map, arith, ◌==◌,
  if◌then◌else◌,
}
use seed_core.Prelude.Int.{ℤ, pos, negsuc, two31, to_s32, to_s32-pos, inc, ltb_ℤ}
use seed_core.UnitTest.{UnitTest, no_tests, insert_id, erase_id, get_unit_test_id, complete_test}

-- A call of one of the two functions.
pub data Call : Type 0 where
  get : Call
  complete : ℤ → Call

abbrev pub run_calls : {T : Type 0} → List Call → UnitTest T → UnitTest T
run_calls [] u = u
run_calls (get ∷ calls) u = let (id, u') = get_unit_test_id u in run_calls calls u'
run_calls (complete id ∷ calls) u = run_calls calls (complete_test id u)

abbrev pub gets : List Call → ℕ
gets [] = 0
gets (get ∷ calls) = gets calls + 1
gets (complete id ∷ calls) = gets calls

abbrev pub remove : ℕ → List ℕ → List ℕ
remove k [] = []
remove k (x ∷ xs) = let rest = remove k xs in if k == x then xs else x ∷ rest

-- The tests under way, after `n` that were begun: the next one gets the number `n + 1`, and an id
-- that is not under way changes nothing.
abbrev pub under_way : List Call → ℕ → List ℕ → List ℕ
under_way [] n live = live
under_way (get ∷ calls) n live = under_way calls (n + 1) (live ++ (n + 1) ∷ [])
under_way (complete (pos k) ∷ calls) n live = under_way calls n (remove k live)
under_way (complete (negsuc k) ∷ calls) n live = under_way calls n live

abbrev AllBelow : ℕ → List ℕ → Type 0
AllBelow n [] = Unit {0}
AllBelow n (x ∷ xs) = (x < n) × AllBelow n xs

AllBelow-append : (n : ℕ) (xs : List ℕ) → AllBelow n xs → AllBelow (n + 1) (xs ++ n ∷ [])
AllBelow-append n [] h = (omega arith, tt)
AllBelow-append n (x ∷ xs) (lt, h) = (omega arith, AllBelow-append n xs h)

AllBelow-remove : (n k : ℕ) (xs : List ℕ) → AllBelow n xs → AllBelow n (remove k xs)
AllBelow-remove n k [] h = tt
AllBelow-remove n k (x ∷ xs) (lt, h) =
    elim (k == x) as (λ (b : Bool). AllBelow n (if b then xs else x ∷ remove k xs)) [
      | true ↦ h
      | false ↦ (lt, AllBelow-remove n k xs h)
    ]

insert_id_lem :
    (n : ℕ) (xs : List ℕ) → AllBelow n xs → insert_id (pos n) (map pos xs) ≡ map pos (xs ++ n ∷ [])
unfolding insert_id
insert_id_lem n [] h = refl
insert_id_lem n (x ∷ xs) (lt, h) =
    rw (not_less, less_) (ap (λ ys. pos x ∷ ys) (insert_id_lem n xs h))
  where
    not_less : ltb_ℤ (pos n) (pos x) ≡ false
    not_less = ground arith

    less_ : ltb_ℤ (pos x) (pos n) ≡ true
    less_ = ground arith

erase_id_lem : (k : ℕ) (xs : List ℕ) → erase_id (pos k) (map pos xs) ≡ map pos (remove k xs)
unfolding erase_id
erase_id_lem k [] = refl
erase_id_lem k (x ∷ xs) = ground (arith, erase_id_lem k xs)

erase_id_none : (k : ℕ) (xs : List ℕ) → erase_id (negsuc k) (map pos xs) ≡ map pos xs
unfolding erase_id
erase_id_none k [] = refl
erase_id_none k (x ∷ xs) = ground (arith, erase_id_none k xs)

run_calls-under_way :
    {T : Type 0} (calls : List Call) (n : ℕ) (live : List ℕ) (u : UnitTest T)
    → u.next_id ≡ pos n
    → u.test_ids ≡ map pos live
    → AllBelow (n + 1) live
    → n + gets calls < two31
    → (run_calls calls u).test_ids ≡ map pos (under_way calls n live)
unfolding get_unit_test_id complete_test
run_calls-under_way [] n live u next ids below small = ids
run_calls-under_way (get ∷ calls) n live u next ids below small =
    let id : to_s32 (inc u.next_id) ≡ pos (n + 1) =
      ap (λ v. to_s32 (inc v)) next ∙ to_s32-pos (n + 1) (omega arith) in
    run_calls-under_way calls (n + 1) (live ++ (n + 1) ∷ []) (get_unit_test_id u).1 id
      (ap₂ insert_id id ids ∙ insert_id_lem (n + 1) live below) (AllBelow-append (n + 1) live below)
      (omega arith)
run_calls-under_way (complete (pos k) ∷ calls) n live u next ids below small =
    run_calls-under_way calls n (remove k live) (complete_test (pos k) u) next
      (ap (erase_id (pos k)) ids ∙ erase_id_lem k live) (AllBelow-remove (n + 1) k live below) small
run_calls-under_way (complete (negsuc k) ∷ calls) n live u next ids below small =
    run_calls-under_way calls n live (complete_test (negsuc k) u) next
      (ap (erase_id (negsuc k)) ids ∙ erase_id_none k live) below small

-- GetUnitTestId and CompleteTest in any order from the start of the program, with fewer than 2^31
-- calls of the first: the set has exactly the ids that were given out, which are 1, 2 and so on, and
-- are not complete.
pub run_calls_lem :
    (T : Type 0) (calls : List Call)
    → gets calls < two31
    → (run_calls calls (no_tests {T = T})).test_ids ≡ map pos (under_way calls 0 [])
run_calls_lem T calls small =
    run_calls-under_way calls 0 [] (no_tests {T = T}) refl refl tt (omega arith)
