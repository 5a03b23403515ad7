-- ===== src/Xml.antt =====
-- XmlReader and IXmlObject, by which the modules read the configuration. They belong to the GridSeed
-- library: they are the parameter `xml`, over nodes `N`. A null pointer is `none`.
pub mod Example
use seed_core.Prelude.{Option, Bytes, List, [], ◌∷◌, ◌≡◌, none, some}
use seed_core.Prelude.Int.{ℤ}

pub record Xml (N : Type 0) : Type 0 where
  pub load_file : Bytes → Option N
  pub get_first_chrild : N → Bytes → Option N
  pub get_next_sibling : N → Option N
  pub get_attribute_str : N → Bytes → Bytes
  pub get_attribute_s32 : N → Bytes → ℤ

-- `nodes` are the node `node` and those behind it.
abbrev pub Siblings : {N : Type 0} → Xml N → Option N → List N → Type 0
Siblings xml none nodes = nodes ≡ []
Siblings xml (some n) [] = ⊥
Siblings xml (some n) (x ∷ nodes) = (x ≡ n) × Siblings xml (xml.get_next_sibling n) nodes
