-- ===== src/Script.antt =====
-- logic/Core/ScriptEngine: calls between the program and its Lua scripts. Lua is not in the
-- repository: its interface is the parameter `lua`, over its states `L`, with an index or a number of
-- values as the `int` that it is.
pub mod Streams
pub mod Engine
pub mod Stack
pub mod Arguments
mod Tests
use seed_core.Prelude.{
  ℕ, zero, suc, ◌+◌, ◌≤◌, ◌<◌, ◌≡◌, Bool, true, false, List, ◌∷◌, ◌++◌, Option, some, Bytes, length,
  take, drop, get_elem?,
}
use seed_core.Prelude.Int.{ℤ, pos, negsuc, to_s64}

-- lua_pcall, luaL_loadstring: `true` is LUA_OK. A pointer is a number. `register_log`
-- is lua_register with the function that logs.
pub record Lua (L : Type 0) : Type 0 where
  pub new_state : L
  pub open_libs : L → L
  pub register_log : Bytes → L → L
  pub get_top : L → ℕ
  pub push_boolean : Bool → L → L
  pub push_integer : ℤ → L → L
  pub push_string : Bytes → L → L
  pub push_light_userdata : ℕ → L → L
  pub create_table : L → L
  pub new_userdata : L → L
  pub push_closure : L → L
  pub set_field : ℤ → Bytes → L → L
  pub get_field : ℤ → Bytes → L → L
  pub raw_get : ℤ → L → L
  pub raw_set : ℤ → L → L
  pub get_global : Bytes → L → L
  pub insert : ℤ → L → L
  pub pop : ℤ → L → L
  pub len : ℤ → L → L
  pub is_function : ℤ → L → Bool
  pub is_nil : ℤ → L → Bool
  pub to_boolean : ℤ → L → Bool
  pub to_integer : ℤ → L → ℤ
  pub to_string : ℤ → L → Option Bytes × L
  pub to_userdata : ℤ → L → ℕ
  pub load_string : Bytes → L → Bool × L
  pub pcall : ℤ → ℤ → ℤ → L → Bool × L

-- What the manual says of the stack, whose values are listed from the top. It has `limit` places, of
-- which there are LUA_MINSTACK at least, and only a push into a free place is defined. An integer
-- has 64 bits.
pub record IsLua {L : Type 0} (lua : Lua L) (V : Type 0) : Type 0 where
  pub stack : L → List V
  pub limit : ℕ
  pub least : 20 ≤ limit
  pub integer : ℤ → V
  pub string : Bytes → V
  pub getting_top : (l : L) → lua.get_top l ≡ length (stack l)
  pub pushing_integer :
      (n : ℤ) (l : L)
      → length (stack l) < limit
      → stack (lua.push_integer n l) ≡ integer (to_s64 n) ∷ stack l
  pub pushing_string :
      (s : Bytes) (l : L)
      → length (stack l) < limit
      → stack (lua.push_string s l) ≡ string s ∷ stack l
  pub pushing_boolean :
      (b : Bool) (l : L)
      → length (stack l) < limit
      → (v : V) × (stack (lua.push_boolean b l) ≡ v ∷ stack l)
  pub pushing_userdata :
      (p : ℕ) (l : L)
      → length (stack l) < limit
      → (v : V) × (stack (lua.push_light_userdata p l) ≡ v ∷ stack l)
  pub creating_table :
      (l : L) → length (stack l) < limit → (v : V) × (stack (lua.create_table l) ≡ v ∷ stack l)
  pub setting_field :
      (i : ℤ) (s : Bytes) (l : L) (v : V) (vs : List V)
      → stack l ≡ v ∷ vs
      → stack (lua.set_field i s l) ≡ vs
  pub getting_global :
      (s : Bytes) (l : L)
      → length (stack l) < limit
      → (v : V) × (stack (lua.get_global s l) ≡ v ∷ stack l)
  pub popping : (n : ℕ) (l : L) → stack (lua.pop (pos n) l) ≡ drop n (stack l)
  pub inserting :
      (n : ℕ) (l : L) (v : V) (vs : List V)
      → stack l ≡ v ∷ vs
      → n ≤ length vs
      → stack (lua.insert (negsuc n) l) ≡ take n vs ++ v ∷ drop n vs
  pub calling :
      (n r : ℕ) (h : ℤ) (l : L)
      → n < length (stack l)
      → (lua.pcall (pos n) (pos r) h l).0 ≡ true
      → (rs : List V) × (length rs ≡ r)
        × (stack (lua.pcall (pos n) (pos r) h l).1 ≡ rs ++ drop (n + 1) (stack l))
  pub failing :
      (n r : ℕ) (h : ℤ) (l : L)
      → n < length (stack l)
      → (lua.pcall (pos n) (pos r) h l).0 ≡ false
      → (e : V) × (stack (lua.pcall (pos n) (pos r) h l).1 ≡ e ∷ drop (n + 1) (stack l))
  pub reading_integer :
      (i j : ℕ) (n : ℤ) (l : L)
      → to_s64 n ≡ n
      → i + 1 + j ≡ length (stack l)
      → get_elem? (stack l) j ≡ some (integer n)
      → lua.to_integer (pos (i + 1)) l ≡ n
