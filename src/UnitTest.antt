-- ===== src/UnitTest.antt =====
-- logic/Logic/UnitTest/UnitTest.h and UnitTest.cpp: the tests that the program registers, the
-- modules that the configuration names, and the ids of the tests that are under way.
pub mod Ids
pub mod Config
pub mod RedisTest
mod Tests
use seed_core.Prelude.{
  ℕ, zero, suc, Bool, true, false, List, [], ◌∷◌, ◌++◌, Option, none, some, Bytes, codes,
  if◌then◌else◌, Run, done, starved, ◌>>=◌,
}
use seed_core.Prelude.Int.{ℤ, pos, ltb_ℤ, ◌==ℤ◌, to_s32, inc}
use seed_core.Xml.{Xml}
use seed_core.Redis.Reply.{bytes_eq}

-- The static members. A test is of a type `T`; the set of ids is in rising order.
pub record UnitTest (T : Type 0) : Type 0 where
  pub test_list : List T
  pub test_map : List (Bytes × T)
  pub test_module_names : List Bytes
  pub next_id : ℤ
  pub test_ids : List ℤ

abbrev pub no_tests : {T : Type 0} → UnitTest T
no_tests = record {
  test_list = [];
  test_map = [];
  test_module_names = [];
  next_id = pos 0;
  test_ids = [];
}

unfoldable pub find_test : {T : Type 0} → Bytes → List (Bytes × T) → Option T
unfolding bytes_eq
find_test name [] = none
find_test name ((n, t) ∷ m) = if bytes_eq name n then some t else find_test name m

-- UnitTestRegister without and with a name. A name that is there keeps its test.
unfoldable pub register_test : {T : Type 0} → T → UnitTest T → UnitTest T
register_test t u = record u { test_list = u.test_list ++ t ∷ [] }

unfoldable pub add_test : {T : Type 0} → Bytes → T → List (Bytes × T) → Option T → List (Bytes × T)
add_test name t m none = (name, t) ∷ m
add_test name t m (some old) = m

unfoldable pub register_named_test : {T : Type 0} → Bytes → T → UnitTest T → UnitTest T
unfolding add_test find_test
register_named_test name t u = record u {
  test_map = add_test name t u.test_map (find_test name u.test_map);
}

-- std::set<s32>::insert
unfoldable pub insert_id : ℤ → List ℤ → List ℤ
insert_id x [] = x ∷ []
insert_id x (y ∷ ys) =
    let rest = insert_id x ys in
    if ltb_ℤ x y then x ∷ y ∷ ys else if ltb_ℤ y x then y ∷ rest else y ∷ ys

-- `find` and `erase`
unfoldable pub erase_id : ℤ → List ℤ → List ℤ
erase_id x [] = []
erase_id x (y ∷ ys) = let rest = erase_id x ys in if x ==ℤ y then ys else y ∷ rest

-- GetUnitTestId
unfoldable pub get_unit_test_id : {T : Type 0} → UnitTest T → ℤ × UnitTest T
unfolding insert_id
get_unit_test_id u =
    let id = to_s32 (inc u.next_id) in
    (id, record u { next_id = id; test_ids = insert_id id u.test_ids })

-- CompleteTest
unfoldable pub complete_test : {T : Type 0} → ℤ → UnitTest T → UnitTest T
unfolding erase_id
complete_test id u = record u { test_ids = erase_id id u.test_ids }

module _ {N : Type 0} (xml : Xml N) where
  -- `while (test)`, with fuel for the elements.
  unfoldable pub name_loop : ℕ → Option N → List Bytes → Run (List Bytes)
  name_loop zero test names = starved
  name_loop (suc fuel) none names = done names
  name_loop (suc fuel) (some test) names =
      name_loop fuel (xml.get_next_sibling test)
        (names ++ xml.get_attribute_str test (codes "name") ∷ [])

  unfoldable pub load_tests : {T : Type 0} → ℕ → Option N → UnitTest T → Run (Bool × UnitTest T)
  unfolding name_loop
  load_tests fuel none u = done (false, u)
  load_tests fuel (some unit_test) u =
      name_loop fuel (xml.get_first_chrild unit_test (codes "test")) u.test_module_names
      >>= λ names. done (true, record u { test_module_names = names })

  unfoldable pub load_root : {T : Type 0} → ℕ → Option N → UnitTest T → Run (Bool × UnitTest T)
  unfolding load_tests
  load_root fuel none u = done (false, u)
  load_root fuel (some root) u = load_tests fuel (xml.get_first_chrild root (codes "unittest")) u

  -- LoadConfig, which decides what Initialize returns.
  unfoldable pub load_config : {T : Type 0} → ℕ → Bytes → UnitTest T → Run (Bool × UnitTest T)
  unfolding load_root
  load_config fuel path u = load_root fuel (xml.load_file path) u

module _ {T : Type 0} {W : Type 0} (start_test : T → W → W) where
  unfoldable pub start_found : Option T → W → W
  start_found none w = w
  start_found (some t) w = start_test t w

  -- Launched: the modules are started in the order of the configuration.
  unfoldable pub start_all : List Bytes → List (Bytes × T) → W → W
  unfolding start_found find_test
  start_all [] m w = w
  start_all (name ∷ names) m w = start_all names m (start_found (find_test name m) w)

  unfoldable pub launched : UnitTest T → W → W
  unfolding start_all
  launched u w = start_all u.test_module_names u.test_map w

-- Destroy
unfoldable pub destroy : {T : Type 0} → UnitTest T → UnitTest T
destroy u = record u { test_list = [] }
