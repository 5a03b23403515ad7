-- ===== src/Script/Tests.antt =====
-- Examples: a machine whose functions answer nothing but nils, and the theorems at calls to it.
use seed_core.Prelude.{
  ◌+◌, ◌-◌, ◌≡◌, refl, ap, ◌∙◌, Bool, true, false, List, [], ◌∷◌, ◌++◌, map, Option, none, some,
  Bytes, codes, arith, length, length-replicate, take, drop, replicate, get_elem?,
}
use seed_core.Prelude.Int.{ℤ, pos, negsuc, to_s8, to_s16, to_s32, to_s64}
use seed_core.Script.{Lua, IsLua}
use seed_core.Script.Streams.{Datum, int8, int16, int32, int64, write_all, input_stream}
use seed_core.Script.Arguments.{value}
use seed_core.Script.Arguments.RoundTrip.{read_values, read_values-write_all}

data Value : Type 0 where
  nil : Value
  boolean : Bool → Value
  integer : ℤ → Value
  string : Bytes → Value
  function : Value
  other : Value

abbrev is_function_value : Option Value → Bool
is_function_value (some function) = true
is_function_value _ = false

abbrev is_nil_value : Option Value → Bool
is_nil_value (some nil) = true
is_nil_value _ = false

abbrev integer_of : Option Value → ℤ
integer_of (some (integer n)) = n
integer_of _ = pos 0

-- The value at an index, where the last of the list stands at index 1.
abbrev at_place : ℤ → List Value → Option Value
at_place (pos i) l = get_elem? l (length l - i)
at_place (negsuc i) l = get_elem? l i

abbrev move : ℤ → List Value → List Value
move (negsuc n) (v ∷ vs) = take n vs ++ v ∷ drop n vs
move _ l = l

abbrev pop_values : ℤ → List Value → List Value
pop_values (pos n) l = drop n l
pop_values (negsuc n) l = l

abbrev call_value : ℤ → ℤ → List Value → Bool × List Value
call_value (pos n) (pos r) l = (true, replicate r nil ++ drop (n + 1) l)
call_value _ _ l = (false, l)

abbrev machine : Lua (List Value)
machine = record {
  new_state = [];
  open_libs = λ l. l;
  register_log = λ s l. l;
  get_top = λ l. length l;
  push_boolean = λ b l. boolean b ∷ l;
  push_integer = λ n l. integer (to_s64 n) ∷ l;
  push_string = λ s l. string s ∷ l;
  push_light_userdata = λ p l. other ∷ l;
  create_table = λ l. other ∷ l;
  new_userdata = λ l. other ∷ l;
  push_closure = λ l. function ∷ drop 1 l;
  set_field = λ i s l. drop 1 l;
  get_field = λ i s l. nil ∷ l;
  raw_get = λ i l. nil ∷ drop 1 l;
  raw_set = λ i l. drop 2 l;
  get_global = λ s l. function ∷ l;
  insert = move;
  pop = pop_values;
  len = λ i l. integer (pos 0) ∷ l;
  is_function = λ i l. is_function_value (at_place i l);
  is_nil = λ i l. is_nil_value (at_place i l);
  to_boolean = λ i l. false;
  to_integer = λ i l. integer_of (at_place i l);
  to_string = λ i l. (none, l);
  to_userdata = λ i l. 0;
  load_string = λ s l. (true, function ∷ l);
  pcall = λ n r h l. call_value n r l;
}

abbrev machine-IsLua : IsLua machine Value
machine-IsLua = record {
  stack = λ l. l;
  limit = 20;
  least = omega arith;
  integer = integer;
  string = string;
  getting_top = λ l. refl;
  pushing_integer = λ n l room. refl;
  pushing_string = λ s l room. refl;
  pushing_boolean = λ b l room. (boolean b, refl);
  pushing_userdata = λ p l room. (other, refl);
  creating_table = λ l room. (other, refl);
  setting_field = λ i s l v vs e. ap (drop 1) e;
  getting_global = λ s l room. (function, refl);
  popping = λ n l. refl;
  inserting = λ n l v vs e h. ap (move (negsuc n)) e;
  calling = λ n r h l lt ok. (replicate r nil, length-replicate r nil, refl);
  failing = λ n r h l lt bad. cc;
  reading_integer = λ i j n l fits at e.
      let place : length l - (i + 1) ≡ j = omega arith in
      ap (λ k. integer_of (get_elem? l k)) place ∙ ap integer_of e;
}

abbrev two_values : List Value
two_values = integer (pos 4) ∷ string (codes "below") ∷ []

abbrev integers : List Datum
integers = int8 (negsuc 127) ∷ int16 (pos 300) ∷ int64 (pos 5_000_000_000) ∷ int32 (negsuc 0) ∷ []

read_values-write_all_example :
    read_values machine integers
      (write_all machine integers (record { count = pos 0 }, [])).1
      (input_stream machine (write_all machine integers (record { count = pos 0 }, [])).1 false)
    ≡ map value integers
read_values-write_all_example =
    read_values-write_all machine machine-IsLua integers []
      (unfold to_s8 to_s16 to_s32 to_s64 in (refl, (refl, (refl, (refl, tt))))) (omega arith) refl
