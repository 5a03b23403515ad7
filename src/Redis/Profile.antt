-- ===== src/Redis/Profile.antt =====
-- RedisMgr.cpp, GetProfileAndReset: the report on the keys that were used most. The map that is passed
-- is a std::unordered_map: a list of its pairs in the order in which they are visited. A count is a
-- number of uses, which is never negative.
pub mod Order
pub mod Flush
pub mod FlushWhere
pub mod Flushed
use seed_core.Prelude.{
  ℕ, zero, suc, ◌+◌, Bool, true, false, List, [], ◌∷◌, ◌++◌, Bytes, codes, ltb, ◌==◌, if◌then◌else◌,
}
use seed_core.Prelude.Decimal.{decimal}
use seed_core.Redis.StringMap.{less}

-- REDIS_KEY_TOP_COUNT
abbrev pub redis_key_top_count : ℕ
redis_key_top_count = 20

pub record KeyProfileNode : Type 0 where
  pub count : ℕ
  pub key : Bytes

-- KeyProfileNode::operator<
unfoldable pub node_less : KeyProfileNode → KeyProfileNode → Bool
node_less a b = if a.count == b.count then less b.key a.key else ltb b.count a.count

-- `setKeyProfile.insert`
unfoldable pub insert_node : KeyProfileNode → List KeyProfileNode → List KeyProfileNode
insert_node a [] = a ∷ []
insert_node a (b ∷ set) =
    if node_less a b then a ∷ b ∷ set else if node_less b a then b ∷ insert_node a set else b ∷ set

abbrev pub KeyProfileMap : Type 0
KeyProfileMap = List (Bytes × ℕ)

unfoldable pub profile_loop : KeyProfileMap → ℕ → List KeyProfileNode → ℕ × List KeyProfileNode
profile_loop [] total set = (total, set)
profile_loop ((key, count) ∷ map_) total set =
    profile_loop map_ (total + count) (insert_node (record { count = count; key = key }) set)

-- The lines of the first `n` nodes.
unfoldable pub top_text : ℕ → List KeyProfileNode → Bytes
top_text zero set = []
top_text (suc n) [] = []
top_text (suc n) (a ∷ set) =
    codes "\n Key:" ++ (a.key ++ (codes " Use Count:" ++ (decimal a.count ++ top_text n set)))

unfoldable pub get_profile_and_reset : KeyProfileMap → Bytes
get_profile_and_reset map_ =
    let (total, set) = profile_loop map_ 0 [] in
    top_text redis_key_top_count set ++ (codes "\nTotal Key Count:" ++ decimal total)
