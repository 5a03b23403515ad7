-- ===== src/Redis/Reply/Laws.antt =====
-- RedisHelper.cpp: what `ParseStringArray` and `ParseStringMap` make of an array reply.
use seed_core.Prelude.{
  ℕ, zero, suc, ◌+◌, ◌<◌, ◌≤◌, ◌≡◌, refl, sym, ap, ap₂, ◌∙◌, true, List, [], ◌∷◌, ◌++◌, map, Option,
  none, some, Bytes, arith, length, get_elem?, ltb, Run, done, append_assoc, append-nil,
  length-append, lt→ltb,
}
use seed_core.Prelude.Int.{two64}
use seed_core.Redis.StringMap.{
  StringMap, emplace, find, find-emplace, emplace-IsSorted, IsSorted, first_of_two, entry,
}
use seed_core.Redis.Reply.{
  Reply, Replies, str, arr, int, nil, status, error, double, other, element, get_string,
  push_strings, parse_string_array, map_entry, map_loop, parse_string_map, with_true, map_bound,
  bytes_eq,
}

-- The text of a string reply; any other reply counts as the empty string.
abbrev pub string_of : Reply → Bytes
string_of (str s) = s
string_of _ = []

get_string-string_of : (r : Reply) → (get_string r []).1 ≡ string_of r
unfolding get_string
get_string-string_of (str []) = refl
get_string-string_of (str (c ∷ s)) = ground arith
get_string-string_of (arr rs) = refl
get_string-string_of (int n) = refl
get_string-string_of nil = refl
get_string-string_of (status s) = refl
get_string-string_of (error s) = refl
get_string-string_of (double d) = refl
get_string-string_of (other n) = refl

push_strings-map :
    (rs : List Reply) (vals : List Bytes) → push_strings rs vals ≡ vals ++ map string_of rs
unfolding push_strings
push_strings-map [] vals = sym (append-nil vals)
push_strings-map (r ∷ rs) vals =
    rw (get_string-string_of r, push_strings-map rs (vals ++ string_of r ∷ []))
      (append_assoc vals (string_of r ∷ []) (map string_of rs))

-- `ParseStringArray` on an array appends one string for each element, in order, with the empty
-- string for an element that is no string.
pub parse_string_array-map :
    (rs : Replies) (vals : List Bytes)
    → parse_string_array (arr rs) vals ≡ (true, vals ++ map string_of (element rs))
unfolding parse_string_array
parse_string_array-map rs vals =
    ap (λ (v : List Bytes). (true, v)) (push_strings-map (element rs) vals)

-- A flat list of keys and values.
abbrev pub flat : List (Reply × Reply) → List Reply
flat [] = []
flat ((k, v) ∷ ps) = k ∷ v ∷ flat ps

-- The map that the pairs make, where the first of two equal keys wins.
abbrev pub emplace_all : List (Reply × Reply) → StringMap → StringMap
emplace_all [] m = m
emplace_all ((k, v) ∷ ps) m = emplace_all ps (emplace (string_of k) (string_of v) m)

get_elem?-append :
    (pre es : List Reply) (k i : ℕ) → i ≡ length pre + k → get_elem? (pre ++ es) i ≡ get_elem? es k
get_elem?-append [] es k i e = let e' : i ≡ k = omega arith in rw e'
get_elem?-append (p ∷ pre) es k zero e = absurd (omega arith)
get_elem?-append (p ∷ pre) es k (suc i) e = get_elem?-append pre es k i (omega arith)

map_entry-some :
    (rest : StringMap → Run StringMap) (k v : Reply) (vals : StringMap)
    → map_entry rest (some k) (some v) vals ≡ rest (emplace (string_of k) (string_of v) vals)
map_entry-some rest k v vals =
    unfold_entry
    ∙ ap₂ (λ (a : Bytes) (b : Bytes). rest (emplace a b vals)) (get_string-string_of k)
        (get_string-string_of v)
  where
    unfold_entry :
        map_entry rest (some k) (some v) vals
        ≡ rest (emplace (get_string k []).1 (get_string v []).1 vals)
    unfold_entry = unfold map_entry in refl

map_loop_more :
    (fuel : ℕ) (es : List Reply) (bound i : ℕ) (vals : StringMap)
    → ltb i bound ≡ true
    → map_loop (suc fuel) es bound i vals
      ≡ map_entry (map_loop fuel es bound (i + 2)) (get_elem? es i) (get_elem? es (i + 1)) vals
unfolding map_loop
map_loop_more fuel es bound i vals h = rw (h, map_loop)

map_loop-pairs :
    (ps : List (Reply × Reply)) (rest pre es : List Reply) (fuel bound i : ℕ) (vals : StringMap)
    → es ≡ pre ++ (flat ps ++ rest)
    → i ≡ length pre
    → length rest ≤ 1
    → bound + 1 ≡ length es
    → length (flat ps ++ rest) < fuel
    → map_loop fuel es bound i vals ≡ done (emplace_all ps vals)
map_loop-pairs ps rest pre es zero bound i vals e at few b enough = absurd (omega arith)
map_loop-pairs [] rest pre es (suc fuel) bound i vals e at few b enough =
    unfold map_loop in ground (arith, ap length e, length-append pre rest)
map_loop-pairs ((k, v) ∷ ps) rest pre es (suc fuel) bound i vals e at few b enough =
    map_loop_more fuel es bound i vals
      (lt→ltb i bound (omega (arith, ap length e, length-append pre (k ∷ v ∷ (flat ps ++ rest)))))
    ∙ rw (key, val) (map_entry-some (map_loop fuel es bound (i + 2)) k v vals)
    ∙ map_loop-pairs ps rest (pre ++ k ∷ v ∷ []) es fuel bound (i + 2)
        (emplace (string_of k) (string_of v) vals)
        (e ∙ sym (append_assoc pre (k ∷ v ∷ []) (flat ps ++ rest)))
        (omega (arith, length-append pre (k ∷ v ∷ []))) few b (omega arith)
  where
    key : get_elem? es i ≡ some k
    key = rw e (get_elem?-append pre (k ∷ v ∷ (flat ps ++ rest)) 0 i (omega arith))

    val : get_elem? es (i + 1) ≡ some v
    val = rw e (get_elem?-append pre (k ∷ v ∷ (flat ps ++ rest)) 1 (i + 1) (omega arith))

-- `ParseStringMap` on a non-empty array enters its pairs in order, where the first of two equal keys
-- wins; a last element with no partner is left out.
pub parse_string_map-emplace_all :
    (rs : Replies) (ps : List (Reply × Reply)) (rest : List Reply) (vals : StringMap)
    → element rs ≡ flat ps ++ rest
    → length rest ≤ 1
    → 0 < length (element rs)
    → length (element rs) < two64
    → parse_string_map (arr rs) vals ≡ done (true, emplace_all ps vals)
unfolding parse_string_map
parse_string_map-emplace_all rs ps rest vals e few some_ small = ap with_true (
    map_loop-pairs ps rest [] (element rs) (suc (length (element rs))) (map_bound (element rs)) 0
      vals e refl few (omega arith) (omega (arith, ap length e)))

-- The value of the first pair with the key `i`.
abbrev pub first_value : Bytes → List (Reply × Reply) → Option Bytes
first_value i [] = none
first_value i ((k, v) ∷ ps) = first_of_two (entry i (string_of k) (string_of v)) (first_value i ps)

first_of_two_assoc :
    (a b c : Option Bytes) → first_of_two (first_of_two a b) c ≡ first_of_two a (first_of_two b c)
first_of_two_assoc none b c = refl
first_of_two_assoc (some x) b c = refl

-- What is looked up afterwards: an old entry, or else the first pair with that key.
pub find-emplace_all :
    (i : Bytes) (ps : List (Reply × Reply)) (vals : StringMap)
    → find i (emplace_all ps vals) ≡ first_of_two (find i vals) (first_value i ps)
find-emplace_all i [] vals = elim (find i vals) as (λ o. o ≡ first_of_two o none) [
  | none ↦ refl
  | some w ↦ refl
]
find-emplace_all i ((k, v) ∷ ps) vals =
    find-emplace_all i ps (emplace (string_of k) (string_of v) vals)
    ∙ rw (find-emplace i (string_of k) (string_of v) vals)
        (first_of_two_assoc (find i vals) (entry i (string_of k) (string_of v)) (first_value i ps))

pub emplace_all-IsSorted :
    (ps : List (Reply × Reply)) (vals : StringMap) → IsSorted vals → IsSorted (emplace_all ps vals)
emplace_all-IsSorted [] vals s = s
emplace_all-IsSorted ((k, v) ∷ ps) vals s =
    emplace_all-IsSorted ps _ (emplace-IsSorted (string_of k) (string_of v) vals s)

-- What `ParseStringMap` makes of the reply to HGETALL, an array that is not empty and shorter than
-- 2^64, into an empty map: every field is found with the value of the first pair that names it, no
-- other is found, and the keys are in order. A last element with no partner is left out.
pub parse_string_map_lem :
    (rs : Replies) (ps : List (Reply × Reply)) (rest : List Reply)
    → element rs ≡ flat ps ++ rest
    → length rest ≤ 1
    → 0 < length (element rs)
    → length (element rs) < two64
    → (m : StringMap) × (parse_string_map (arr rs) [] ≡ done (true, m))
      × IsSorted m
      × ((i : Bytes) → find i m ≡ first_value i ps)
unfolding find
parse_string_map_lem rs ps rest e few filled small = (
  emplace_all ps [],
  parse_string_map-emplace_all rs ps rest [] e few filled small,
  emplace_all-IsSorted ps [] tt,
  λ i. find-emplace_all i ps [],
)

pub bytes_eq_refl : (a : Bytes) → bytes_eq a a ≡ true
unfolding bytes_eq
bytes_eq_refl [] = refl
bytes_eq_refl (x ∷ xs) = ground (arith, bytes_eq_refl xs)
