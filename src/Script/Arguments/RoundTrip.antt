-- ===== src/Script/Arguments/RoundTrip.antt =====
-- LuaInterchange.cpp: integers that are written are what is read.
use seed_core.Prelude.{
  ℕ, ◌+◌, ◌<◌, ◌≡◌, refl, ap, ◌∙◌, false, List, [], ◌∷◌, map, some, arith, length, get_elem?,
  lt→ltb,
}
use seed_core.Prelude.Int.{ℤ, pos, to_s32, to_s64, inc}
use seed_core.Script.{Lua, IsLua}
use seed_core.Script.Streams.{
  InputStream, OutputStream, Datum, bool, int8, int16, int32, int64, str, ptr, input_stream,
  read_int8, read_int16, read_int32, read_int64, push, write, write_all,
}
use seed_core.Script.Arguments.{
  IsInteger, AllIntegers, value, in_s64, integer_lem, write_all-length, write_all-get_elem,
}

module _ {L : Type 0} (lua : Lua L) where
  -- The read of the width of a datum.
  abbrev pub read_value : Datum → L → InputStream → ℤ × InputStream
  read_value (bool b) l s = (pos 0, s)
  read_value (int8 n) l s = read_int8 lua l s (pos 0)
  read_value (int16 n) l s = read_int16 lua l s (pos 0)
  read_value (int32 n) l s = read_int32 lua l s (pos 0)
  read_value (int64 n) l s = read_int64 lua l s (pos 0)
  read_value (str t) l s = (pos 0, s)
  read_value (ptr p t) l s = (pos 0, s)

  abbrev pub read_values : List Datum → L → InputStream → List ℤ
  read_values [] l s = []
  read_values (d ∷ ds) l s = let (n, s') = read_value d l s in n ∷ read_values ds l s'

module _ {L V : Type 0} (lua : Lua L) (laws : IsLua lua V) where
  got_lem :
      (n : ℤ) (l : L) (i j : ℕ)
      → to_s64 n ≡ n
      → i + 1 + j ≡ length (laws.stack l)
      → get_elem? (laws.stack l) j ≡ some (laws.integer n)
      → lua.to_integer (pos (i + 1 + 0)) l ≡ n
  got_lem n l i j h at e =
      ap (λ k. lua.to_integer (pos k) l) (omega arith) ∙ laws.reading_integer i j n l h at e

  read_lem :
      (d : Datum) (l : L) (i count j : ℕ)
      → IsInteger d
      → i < count
      → i + 1 + j ≡ length (laws.stack l)
      → get_elem? (laws.stack l) j ≡ some (laws.integer (value d))
      → read_value lua d l (record { index = i; start = 0; count = count })
        ≡ (value d, record { index = i + 1; start = 0; count = count })
  unfolding read_int8 read_int16 read_int32 read_int64
  read_lem (bool b) l i count j h lt at e = absurd h
  read_lem (int8 n) l i count j h lt at e =
      let got = got_lem n l i j (in_s64 (int8 n) h) at e in rw (lt→ltb i count lt, got, h) refl
  read_lem (int16 n) l i count j h lt at e =
      let got = got_lem n l i j (in_s64 (int16 n) h) at e in rw (lt→ltb i count lt, got, h) refl
  read_lem (int32 n) l i count j h lt at e =
      let got = got_lem n l i j (in_s64 (int32 n) h) at e in rw (lt→ltb i count lt, got, h) refl
  read_lem (int64 n) l i count j h lt at e =
      let got = got_lem n l i j (in_s64 (int64 n) h) at e in rw (lt→ltb i count lt, got, h) refl
  read_lem (str s) l i count j h lt at e = absurd h
  read_lem (ptr p t) l i count j h lt at e = absurd h

  read_values_lem :
      (ds : List Datum) (s : OutputStream) (l : L) (i : ℕ)
      → AllIntegers ds
      → length (laws.stack l) ≡ i
      → i + length ds < laws.limit
      → read_values lua ds
          (write_all lua ds (s, l)).1
          (record { index = i; start = 0; count = i + length ds })
        ≡ map value ds
  unfolding write_all write
  read_values_lem [] s l i h e room = refl
  read_values_lem (d ∷ ds) s l i (fits, h) e room =
      let one = ap length (integer_lem lua laws d l fits (omega arith)) in
      let s' : OutputStream = record { count = to_s32 (inc s.count) } in
      let l' = (write_all lua ds (s', push lua d l)).1 in
      let first =
        read_lem d l' i (i + length (d ∷ ds)) (length ds) fits (omega arith)
          (omega
            (arith, e, write_all-length lua laws ds s' (push lua d l) (omega (arith, one)), one))
          (ap (get_elem? (laws.stack l')) (omega arith)
            ∙ write_all-get_elem lua laws ds s' (push lua d l) 0 (omega (arith, one))
            ∙ ap (λ vs. get_elem? vs 0) (integer_lem lua laws d l fits (omega arith))) in
      rw first (
        ap (λ ns. value d ∷ ns)
          (ap (λ c. read_values lua ds l' (record { index = i + 1; start = 0; count = c }))
              (omega arith)
            ∙ read_values_lem ds s' (push lua d l) (i + 1) h (omega (arith, e, one)) (omega arith)))

  -- With a Lua that keeps the laws of its stack: integers, fewer than the stack has places, that are
  -- written to an empty stack, each fitting the width that it is written with, are what an input
  -- stream on this stack reads with the same widths, in the same order.
  pub read_values-write_all :
      (ds : List Datum) (l : L)
      → AllIntegers ds
      → length ds < laws.limit
      → laws.stack l ≡ []
      → read_values lua ds
          (write_all lua ds (record { count = pos 0 }, l)).1
          (input_stream lua (write_all lua ds (record { count = pos 0 }, l)).1 false)
        ≡ map value ds
  unfolding input_stream
  read_values-write_all ds l h room e =
      let l' = (write_all lua ds (record { count = pos 0 }, l)).1 in
      ap (λ c. read_values lua ds l' (record { index = 0; start = 0; count = c }))
        (laws.getting_top l'
          ∙ write_all-length lua laws ds (record { count = pos 0 }) l (omega (arith, ap length e))
          ∙ omega (arith, ap length e))
      ∙ read_values_lem ds (record { count = pos 0 }) l 0 h (ap length e) (omega arith)
