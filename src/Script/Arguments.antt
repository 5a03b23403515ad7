-- ===== src/Script/Arguments.antt =====
-- LuaInterchange.cpp: the values that are written to the stack of Lua.
pub mod RoundTrip
pub mod Calls
use seed_core.Prelude.{
  ℕ, suc, ◌+◌, ◌≤◌, ◌<◌, ◌≡◌, refl, ap, ◌∙◌, false, List, [], ◌∷◌, map, some, Bytes, codes, arith,
  length, get_elem?, lt→ltb, if◌then◌else◌,
}
use seed_core.Prelude.Int.{ℤ, pos, negsuc, to_s8, to_s16, to_s32, to_s64, inc}
use seed_core.Redis.Builder.{c_str}
use seed_core.Script.{Lua, IsLua}
use seed_core.Script.Streams.{
  InputStream, OutputStream, Datum, bool, int8, int16, int32, int64, str, ptr, input_stream,
  read_int8, read_int16, read_int32, read_int64, push, write, write_all,
}
use seed_core.Script.Engine.{
  CallBack, call_function, exec_global_function, pre_call, call, call_script_func,
}
use seed_core.Script.Stack.{Keeps, exec_global_function_lem}

-- An integer of the width that it is written with.
abbrev pub IsInteger : Datum → Type 0
IsInteger (bool b) = ⊥
IsInteger (int8 n) = to_s8 n ≡ n
IsInteger (int16 n) = to_s16 n ≡ n
IsInteger (int32 n) = to_s32 n ≡ n
IsInteger (int64 n) = to_s64 n ≡ n
IsInteger (str s) = ⊥
IsInteger (ptr p t) = ⊥

s8_in_s64 : (n : ℤ) → to_s8 n ≡ n → to_s64 n ≡ n
unfolding to_s8 to_s64
s8_in_s64 (pos n) h = ground (arith, h)
s8_in_s64 (negsuc n) h = ground (arith, h)

s16_in_s64 : (n : ℤ) → to_s16 n ≡ n → to_s64 n ≡ n
unfolding to_s16 to_s64
s16_in_s64 (pos n) h = ground (arith, h)
s16_in_s64 (negsuc n) h = ground (arith, h)

s32_in_s64 : (n : ℤ) → to_s32 n ≡ n → to_s64 n ≡ n
unfolding to_s32 to_s64
s32_in_s64 (pos n) h = ground (arith, h)
s32_in_s64 (negsuc n) h = ground (arith, h)

abbrev pub AllIntegers : List Datum → Type 0
AllIntegers [] = Unit {0}
AllIntegers (d ∷ ds) = IsInteger d × AllIntegers ds

abbrev pub value : Datum → ℤ
value (bool b) = pos 0
value (int8 n) = n
value (int16 n) = n
value (int32 n) = n
value (int64 n) = n
value (str s) = pos 0
value (ptr p t) = pos 0

-- Every width is at most that of Lua's integers.
pub in_s64 : (d : Datum) → IsInteger d → to_s64 (value d) ≡ value d
in_s64 (bool b) h = absurd h
in_s64 (int8 n) h = s8_in_s64 n h
in_s64 (int16 n) h = s16_in_s64 n h
in_s64 (int32 n) h = s32_in_s64 n h
in_s64 (int64 n) h = h
in_s64 (str s) h = absurd h
in_s64 (ptr p t) h = absurd h

module _ {L V : Type 0} (lua : Lua L) (laws : IsLua lua V) where
  -- Every datum is one value on the stack. A pointer takes a second place for a while.
  push_lem :
      (d : Datum) (l : L)
      → length (laws.stack l) + 1 < laws.limit
      → (v : V) × (laws.stack (push lua d l) ≡ v ∷ laws.stack l)
  unfolding push
  push_lem (bool b) l room = laws.pushing_boolean b l (omega arith)
  push_lem (int8 n) l room = (laws.integer (to_s64 n), laws.pushing_integer n l (omega arith))
  push_lem (int16 n) l room = (laws.integer (to_s64 n), laws.pushing_integer n l (omega arith))
  push_lem (int32 n) l room = (laws.integer (to_s64 n), laws.pushing_integer n l (omega arith))
  push_lem (int64 n) l room = (laws.integer (to_s64 n), laws.pushing_integer n l (omega arith))
  push_lem (str s) l room = (laws.string (c_str s), laws.pushing_string (c_str s) l (omega arith))
  push_lem (ptr p t) l room =
      let (table, e1) = laws.creating_table l (omega arith) in
      let (data_, e2) =
        laws.pushing_userdata p (lua.create_table l) (omega (arith, ap length e1)) in
      let e3 = laws.setting_field (negsuc 1) (codes "ptr") _ data_ _ e2 in
      let e4 =
        laws.pushing_string (c_str t) _ (omega (arith, ap length (e3 ∙ e1)))
        ∙ ap (λ vs. laws.string (c_str t) ∷ vs) (e3 ∙ e1) in
      (table, laws.setting_field (negsuc 1) (codes "type") _ _ _ e4)

  integer_lem :
      (d : Datum) (l : L)
      → IsInteger d
      → length (laws.stack l) < laws.limit
      → laws.stack (push lua d l) ≡ laws.integer (value d) ∷ laws.stack l
  unfolding push
  integer_lem (bool b) l h room = absurd h
  integer_lem (int8 n) l h room =
      laws.pushing_integer n l room ∙ ap (λ k. laws.integer k ∷ laws.stack l) (in_s64 (int8 n) h)
  integer_lem (int16 n) l h room =
      laws.pushing_integer n l room ∙ ap (λ k. laws.integer k ∷ laws.stack l) (in_s64 (int16 n) h)
  integer_lem (int32 n) l h room =
      laws.pushing_integer n l room ∙ ap (λ k. laws.integer k ∷ laws.stack l) (in_s64 (int32 n) h)
  integer_lem (int64 n) l h room =
      laws.pushing_integer n l room ∙ ap (λ k. laws.integer k ∷ laws.stack l) (in_s64 (int64 n) h)
  integer_lem (str s) l h room = absurd h
  integer_lem (ptr p t) l h room = absurd h

  -- What was on the stack lies below the values.
  write_all-length :
      (ds : List Datum) (s : OutputStream) (l : L)
      → length (laws.stack l) + length ds < laws.limit
      → length (laws.stack (write_all lua ds (s, l)).1) ≡ length ds + length (laws.stack l)
  unfolding write_all write
  write_all-length [] s l room = omega arith
  write_all-length (d ∷ ds) s l room =
      let (v, e) = push_lem d l (omega arith) in
      omega (
        arith,
        write_all-length ds (record { count = to_s32 (inc s.count) }) (push lua d l)
            (omega (arith, ap length e)),
        ap length e,
      )

  write_all-get_elem :
      (ds : List Datum) (s : OutputStream) (l : L) (j : ℕ)
      → length (laws.stack l) + length ds < laws.limit
      → get_elem? (laws.stack (write_all lua ds (s, l)).1) (length ds + j)
        ≡ get_elem? (laws.stack l) j
  unfolding write_all write
  write_all-get_elem [] s l j room = let e : 0 + j ≡ j = omega arith in rw e refl
  write_all-get_elem (d ∷ ds) s l j room =
      let (v, e) = push_lem d l (omega arith) in
      let i : suc (length ds) + j ≡ length ds + suc j = omega arith in
      rw i (
        write_all-get_elem ds (record { count = to_s32 (inc s.count) }) (push lua d l) (suc j)
          (omega (arith, ap length e))
        ∙ ap (λ vs. get_elem? vs (suc j)) e)
