-- ===== src/UnitTest/Config.antt =====
-- UnitTest.cpp, LoadConfig: the names of the modules that are to be tested.
use seed_core.Prelude.{
  ℕ, zero, suc, ◌<◌, ◌≡◌, refl, sym, ap, ◌∙◌, true, List, [], ◌∷◌, ◌++◌, map, append_assoc,
  append-nil, Option, none, some, Bytes, codes, arith, length, done,
}
use seed_core.Xml.{Xml, Siblings}
use seed_core.UnitTest.{UnitTest, name_loop, load_tests, load_root, load_config}

module _ {N : Type 0} (xml : Xml N) where
  abbrev pub name_of : N → Bytes
  name_of test = xml.get_attribute_str test (codes "name")

  name_loop_lem :
      (nodes : List N) (fuel : ℕ) (test : Option N) (names : List Bytes)
      → Siblings xml test nodes
      → length nodes < fuel
      → name_loop xml fuel test names ≡ done (names ++ map name_of nodes)
  unfolding name_loop
  name_loop_lem nodes zero test names sib room = absurd (omega arith)
  name_loop_lem nodes (suc fuel) none names sib room =
      ap done (sym (append-nil names) ∙ ap (λ ns. names ++ map name_of ns) (sym sib))
  name_loop_lem [] (suc fuel) (some test) names sib room = absurd sib
  name_loop_lem (n ∷ nodes) (suc fuel) (some test) names (same, sib) room =
      name_loop_lem nodes fuel (xml.get_next_sibling test) (names ++ name_of test ∷ []) sib
        (omega arith)
      ∙ ap done (
          append_assoc names (name_of test ∷ []) (map name_of nodes)
          ∙ ap (λ t. names ++ name_of t ∷ map name_of nodes) (sym same))

  -- LoadConfig with a configuration that has an element `unittest`, and with more fuel than elements
  -- behind its first `test`: it returns true, and the names of these elements stand in their order
  -- behind the names that were there; nothing else has changed.
  pub load_config_lem :
      {T : Type 0} (path : Bytes) (fuel : ℕ) (root unit_test : N) (nodes : List N) (u : UnitTest T)
      → xml.load_file path ≡ some root
      → xml.get_first_chrild root (codes "unittest") ≡ some unit_test
      → Siblings xml (xml.get_first_chrild unit_test (codes "test")) nodes
      → length nodes < fuel
      → load_config xml fuel path u
        ≡ done (true, record u { test_module_names = u.test_module_names ++ map name_of nodes })
  unfolding load_config load_root load_tests
  load_config_lem path fuel root unit_test nodes u file child sib room =
      let loop =
        name_loop_lem nodes fuel (xml.get_first_chrild unit_test (codes "test")) u.test_module_names
          sib room in
      rw (file, child, loop) refl
