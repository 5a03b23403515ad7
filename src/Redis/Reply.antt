-- ===== src/Redis/Reply.antt =====
-- RedisHelper.h and RedisHelper.cpp, class RedisResult: the view of a reply that the module reads.
-- A reply is hiredis's `redisReply`, by the fields that its type fills in: here a constructor for
-- each type. A double is its bit pattern. An out parameter is an argument, the caller's value, and a
-- part of the result.
pub mod Laws
use seed_core.Prelude.{
  ℕ, zero, suc, ◌+◌, ◌-◌, ◌%◌, ◌≡◌, Bool, true, false, ◌&&◌, List, [], ◌∷◌, ◌++◌, Option, none,
  some, Bytes, codes, length, get_elem?, ltb, ◌==◌, if◌then◌else◌, Run, done, starved, fault,
}
use seed_core.Prelude.Int.{ℤ, pos, to_s32, two64}
use seed_core.Redis.Builder.{c_str}
use seed_core.Redis.StringMap.{StringMap, emplace}

mutual
  pub data Reply : Type 0 where
    str : Bytes → Reply
    arr : Replies → Reply
    int : ℤ → Reply
    nil : Reply
    status : Bytes → Reply
    error : Bytes → Reply
    double : ℕ → Reply
    other : ℕ → Reply

  pub data Replies : Type 0 where
    end : Replies
    more : Reply → Replies → Replies

-- The `element` vector of an array reply.
abbrev pub element : Replies → List Reply
element end = []
element (more r rs) = r ∷ element rs

unfoldable pub get_integer : Reply → ℤ → Bool × ℤ
get_integer (int n) val = (true, n)
get_integer _ val = (false, val)

unfoldable pub get_float : Reply → ℕ → Bool × ℕ
get_float (double d) val = (true, d)
get_float _ val = (false, val)

unfoldable pub get_str : Reply → Bytes × ℤ → Bool × (Bytes × ℤ)
get_str (str s) val = (true, (s, to_s32 (pos (length s))))
get_str _ val = (false, val)

-- An empty string leaves the caller's variable as it was.
unfoldable pub get_string : Reply → Bytes → Bool × Bytes
get_string (str s) val = (true, if ltb 0 (length s) then s else val)
get_string _ val = (false, val)

for_each {ℓ} : {S : Type ℓ} → (Reply → S → S) → List Reply → S → S
for_each each [] s = s
for_each each (r ∷ rs) s = for_each each rs (each r s)

-- The callback's effects are those on a state `S`.
unfoldable pub foreach_array {ℓ} : {S : Type ℓ} → (Reply → S → S) → Reply → S → Bool × S
unfolding for_each
foreach_array each (arr rs) s = (true, for_each each (element rs) s)
foreach_array each _ s = (false, s)

unfoldable pub is_nil : Reply → Bool
is_nil nil = true
is_nil _ = false

unfoldable pub bytes_eq : Bytes → Bytes → Bool
bytes_eq [] [] = true
bytes_eq [] (y ∷ ys) = false
bytes_eq (x ∷ xs) [] = false
bytes_eq (x ∷ xs) (y ∷ ys) = (x == y) && bytes_eq xs ys

unfoldable pub is_ok : Reply → Bool
unfolding bytes_eq c_str
is_ok (status s) = bytes_eq (c_str s) (codes "OK")
is_ok _ = false

push_strings : List Reply → List Bytes → List Bytes
unfolding get_string
push_strings [] vals = vals
push_strings (r ∷ rs) vals = push_strings rs (vals ++ (get_string r []).1 ∷ [])

unfoldable pub parse_string_array : Reply → List Bytes → Bool × List Bytes
unfolding push_strings
parse_string_array (arr rs) vals = (true, push_strings (element rs) vals)
parse_string_array _ vals = (false, vals)

-- Two reads of the `element` vector, which fail past its end, and the rest of the loop.
map_entry : (StringMap → Run StringMap) → Option Reply → Option Reply → StringMap → Run StringMap
unfolding get_string
map_entry rest (some k) (some v) vals = rest (emplace (get_string k []).1 (get_string v []).1 vals)
map_entry rest _ _ vals = fault

-- `for (i = 0; i < bound; i += 2)` over the vector `es`, with fuel for the rounds.
map_loop : ℕ → List Reply → ℕ → ℕ → StringMap → Run StringMap
unfolding map_entry
map_loop zero es bound i vals = starved
map_loop (suc fuel) es bound i vals = elim (ltb i bound) [
  | true ↦ map_entry (map_loop fuel es bound (i + 2)) (get_elem? es i) (get_elem? es (i + 1)) vals
  | false ↦ done vals
]

-- `_reply->elements - 1` is computed in `size_t`.
abbrev map_bound : List Reply → ℕ
map_bound es = (length es + (two64 - 1)) % two64

abbrev with_true : Run StringMap → Run (Bool × StringMap)
with_true (done vals) = done (true, vals)
with_true starved = starved
with_true fault = fault

-- The fuel is one round for each element and one for the last test.
unfoldable pub parse_string_map : Reply → StringMap → Run (Bool × StringMap)
unfolding map_loop
parse_string_map (arr rs) vals =
    with_true (map_loop (suc (length (element rs))) (element rs) (map_bound (element rs)) 0 vals)
parse_string_map _ vals = done (false, vals)
