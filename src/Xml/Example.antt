-- ===== src/Xml/Example.antt =====
-- A configuration for the examples: the root 0 has the elements 1 (async) and 2, which has the
-- elements 3 and 4.
use seed_core.Prelude.{ℕ, [], ◌∷◌, none, some, Bytes, ◌==◌, if◌then◌else◌}
use seed_core.Prelude.Int.{pos}
use seed_core.Xml.{Xml}

abbrev child_of_root : Bytes → ℕ
child_of_root [] = 2
child_of_root (c ∷ cs) = if c == 97 then 1 else 2

abbrev pub settings : Xml ℕ
settings = record {
  load_file = λ path. some 0;
  get_first_chrild = λ n name. if n == 0 then some (child_of_root name) else some 3;
  get_next_sibling = λ n. if n == 3 then some 4 else none;
  get_attribute_str = λ n name. if n == 2 then 3 ∷ [] else n ∷ [];
  get_attribute_s32 = λ n name. pos 2;
}
