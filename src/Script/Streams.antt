-- ===== src/Script/Streams.antt =====
-- LuaInterchange.cpp: the streams that read values from the stack of Lua and push them there.
use seed_core.Prelude.{
  ℕ, zero, suc, ◌+◌, ◌-◌, Bool, true, false, not, ◌||◌, List, [], ◌∷◌, Option, none, some, Bytes,
  codes, ltb, if◌then◌else◌, Run, done, fault,
}
use seed_core.Prelude.Int.{ℤ, pos, negsuc, to_s8, to_s16, to_s32, to_s64, inc}
use seed_core.Redis.Builder.{c_str}
use seed_core.Redis.Reply.{bytes_eq}
use seed_core.Script.{Lua}

-- LUA_RESULT_COUNT
abbrev pub lua_result_count : ℕ
lua_result_count = 8

-- LuaInputStream
pub record InputStream : Type 0 where
  pub index : ℕ
  pub start : ℕ
  pub count : ℕ

-- LuaOutputStream's count; its pushes are in the state.
pub record OutputStream : Type 0 where
  pub count : ℤ

module _ {L : Type 0} (lua : Lua L) where
  -- The results up to the first nil, of `n` that are left.
  unfoldable pub count_results : L → ℕ → ℕ
  count_results l zero = 0
  count_results l (suc n) = if lua.is_nil (negsuc n) l then 0 else count_results l n + 1

  -- The constructor. Behind lua_pcall there are as many results on the stack as it was asked for.
  unfoldable pub input_stream : L → Bool → InputStream
  unfolding count_results
  input_stream l false = record { index = 0; start = 0; count = lua.get_top l }
  input_stream l true = record {
    index = 0;
    start = lua.get_top l - lua_result_count;
    count = count_results l lua_result_count;
  }

  -- The place of the next value.
  abbrev pub next_place : InputStream → ℤ
  next_place s = pos (s.index + 1 + s.start)

  abbrev pub next : InputStream → InputStream
  next s = record s { index = s.index + 1 }

  -- A read at the end of the values leaves the variable as it was.
  unfoldable pub read_bool : L → InputStream → Bool → Bool × InputStream
  read_bool l s val =
      if ltb s.index s.count then (lua.to_boolean (next_place s) l, next s) else (val, s)

  unfoldable pub read_int8 : L → InputStream → ℤ → ℤ × InputStream
  read_int8 l s val =
      if ltb s.index s.count then (to_s8 (lua.to_integer (next_place s) l), next s) else (val, s)

  unfoldable pub read_int16 : L → InputStream → ℤ → ℤ × InputStream
  read_int16 l s val =
      if ltb s.index s.count then (to_s16 (lua.to_integer (next_place s) l), next s) else (val, s)

  unfoldable pub read_int32 : L → InputStream → ℤ → ℤ × InputStream
  read_int32 l s val =
      if ltb s.index s.count then (to_s32 (lua.to_integer (next_place s) l), next s) else (val, s)

  unfoldable pub read_int64 : L → InputStream → ℤ → ℤ × InputStream
  read_int64 l s val =
      if ltb s.index s.count then (to_s64 (lua.to_integer (next_place s) l), next s) else (val, s)

  -- The text is looked into, so that a null pointer is a fault. The length is pushed and popped.
  unfoldable pub string_read : InputStream → Option Bytes × L → Run (Option Bytes × InputStream × L)
  string_read s (none, l) = fault
  string_read s (some v, l) = done (some v, next s, lua.pop (pos 1) (lua.len (next_place s) l))

  unfoldable pub read_str : L → InputStream → Option Bytes → Run (Option Bytes × InputStream × L)
  unfolding string_read
  read_str l s val =
      if ltb s.index s.count
      then string_read s (lua.to_string (next_place s) l)
      else done (val, s, l)

  -- The type's name decides whether the pointer is taken over.
  unfoldable pub check_type :
      Bytes → ℕ → ℕ → InputStream → Option Bytes × L → Run (ℕ × InputStream × L)
  unfolding bytes_eq c_str
  check_type type ptr val s (none, l) = fault
  check_type type ptr val s (some t, l) =
      let differ = not (bytes_eq (c_str t) (c_str type)) || bytes_eq (c_str type) [] in
      done (if differ then val else ptr, next s, lua.pop (pos 1) l)

  unfoldable pub read_ptr : Bytes → L → InputStream → ℕ → Run (ℕ × InputStream × L)
  unfolding check_type
  read_ptr type l s val =
      if ltb s.index s.count
      then (let l1 = lua.get_field (next_place s) (codes "ptr") l in
          let l2 = lua.get_field (next_place s) (codes "type") (lua.pop (pos 1) l1) in
          check_type type (lua.to_userdata (negsuc 0) l1) val s (lua.to_string (negsuc 0) l2))
      else done (val, s, l)

-- `Reset` of both streams
unfoldable pub reset : InputStream → InputStream
reset s = record s { index = 0 }

unfoldable pub reset_output : OutputStream → OutputStream
reset_output s = record { count = pos 0 }

-- A call of one of the functions WriteBool to WritePtr.
pub data Datum : Type 0 where
  bool : Bool → Datum
  int8 : ℤ → Datum
  int16 : ℤ → Datum
  int32 : ℤ → Datum
  int64 : ℤ → Datum
  str : Bytes → Datum
  ptr : ℕ → Bytes → Datum

module _ {L : Type 0} (lua : Lua L) where
  unfoldable pub push : Datum → L → L
  push (bool b) l = lua.push_boolean b l
  push (int8 n) l = lua.push_integer n l
  push (int16 n) l = lua.push_integer n l
  push (int32 n) l = lua.push_integer n l
  push (int64 n) l = lua.push_integer n l
  push (str s) l = lua.push_string (c_str s) l
  push (ptr p type) l = lua.set_field (negsuc 1) (codes "type") (
      lua.push_string (c_str type)
        (lua.set_field (negsuc 1) (codes "ptr") (lua.push_light_userdata p (lua.create_table l))))

  unfoldable pub write : Datum → OutputStream × L → OutputStream × L
  unfolding push
  write d (s, l) = (record { count = to_s32 (inc s.count) }, push d l)

  -- What a function writes, one datum after another.
  unfoldable pub write_all : List Datum → OutputStream × L → OutputStream × L
  unfolding write
  write_all [] s = s
  write_all (d ∷ ds) s = write_all ds (write d s)
