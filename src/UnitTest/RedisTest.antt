-- ===== src/UnitTest/RedisTest.antt =====
-- logic/Logic/UnitTest/unittest/RedisTest.cpp: the test of the synchronous interface, as callers of
-- it. A test ends with the lines of the source whose TEST_EQ prints a difference, in order. A
-- variable that the source leaves uninitialised starts as 0.
pub mod Strings
pub mod Hashes
pub mod Lists
pub mod Sets
pub mod Sends
use Prim.Native.String.{String}
use seed_core.Prelude.{
  ℕ, zero, suc, Bool, true, false, List, [], ◌∷◌, ◌++◌, Option, none, some, Bytes, codes, get_elem?,
}
use seed_core.Prelude.Int.{ℤ}
use seed_core.Redis.Sync.Commands.{Command}
use seed_core.Redis.Sync.Forms.{form}
use seed_core.Redis.Session.Program.{Program, finished, undefined, ask}

-- buildTestKey behind REDSI_TEST_PREFIX
abbrev pub build_test_key : String → Bytes
build_test_key old_key = codes "redistest:" ++ codes old_key

abbrev pub Test : Type 1
Test = Program (List ℕ)

-- The rest of a test, behind a line that has printed.
unfoldable pub printed : ℕ → Test → Test
printed line (finished lines) = finished (line ∷ lines)
printed line undefined = undefined
printed line (ask command next) = ask command (λ code out. printed line (next code out))

-- TEST_EQ on line `line`, and the rest.
abbrev pub test_eq : ℕ → Bool → Test → Test
test_eq line true rest = rest
test_eq line false rest = printed line rest

-- A call of the interface, and the rest, which gets the code and the out parameter.
abbrev pub call : (command : Command) → (ℤ × (form command).A → Test) → Test
call command rest = ask command (λ code out. rest (code, out))

-- `vals[i]`, which is undefined past the end.
abbrev pub at : List Bytes → ℕ → (Bytes → Test) → Test
at vals i rest = elim (get_elem? vals i) [ none ↦ undefined | some val ↦ rest val ]

infixl 5 ◌>>=◌ ◌>>◌
abbrev pub ◌>>=◌ : {A : Type 0} → ((A → Test) → Test) → (A → Test) → Test
m >>= rest = m rest

abbrev pub ◌>>◌ : (Test → Test) → Test → Test
m >> rest = m rest
