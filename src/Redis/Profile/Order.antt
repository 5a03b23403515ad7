-- ===== src/Redis/Profile/Order.antt =====
-- RedisMgr.cpp, GetProfileAndReset: the report does not depend on how the hash map orders its keys.
use mathlib.Core.List.{Permᴰ}
use seed_core.Prelude.{
  ℕ, ◌+◌, ◌≡◌, refl, sym, ap, ap₂, ◌∙◌, true, false, List, [], ◌∷◌, ◌++◌, Bytes, codes, arith,
}
use seed_core.Prelude.Decimal.{decimal}
use seed_core.Redis.StringMap.{less_asymm, less_trans, less_antisymm}
use seed_core.Redis.Profile.{
  KeyProfileNode, KeyProfileMap, node_less, insert_node, profile_loop, get_profile_and_reset,
  top_text, redis_key_top_count,
}

node_less_asymm : (a b : KeyProfileNode) → node_less a b ≡ true → node_less b a ≡ false
unfolding node_less
node_less_asymm a b h = ground (arith, less_asymm a.key b.key, less_asymm b.key a.key)

node_less_trans :
    (a b c : KeyProfileNode) → node_less a b ≡ true → node_less b c ≡ true → node_less a c ≡ true
unfolding node_less
node_less_trans a b c h k = ground (arith, less_trans c.key b.key a.key)

node_less_antisymm : (a b : KeyProfileNode) → node_less a b ≡ false → node_less b a ≡ false → a ≡ b
unfolding node_less
node_less_antisymm a b h k = equal (ground arith) (ground (arith, less_antisymm a.key b.key))
  where
    equal : a.count ≡ b.count → a.key ≡ b.key → a ≡ b
    equal c e = ap₂ (λ (n : ℕ) (s : Bytes). record { count = n; key = s }) c e

-- Two insertions change places.
insert_comm :
    (a b : KeyProfileNode) (set : List KeyProfileNode)
    → insert_node a (insert_node b set) ≡ insert_node b (insert_node a set)
unfolding insert_node
insert_comm a b [] =
    ground (arith, node_less_asymm a b, node_less_asymm b a, node_less_antisymm a b)
insert_comm a b (c ∷ set) = ground (
  arith,
  insert_comm a b set,
  node_less_asymm a b,
  node_less_asymm b a,
  node_less_antisymm a b,
  node_less_asymm a c,
  node_less_asymm b c,
  node_less_asymm c a,
  node_less_asymm c b,
  node_less_antisymm a c,
  node_less_antisymm b c,
  node_less_trans a b c,
  node_less_trans b a c,
  node_less_trans a c b,
  node_less_trans b c a,
  node_less_trans c a b,
  node_less_trans c b a,
)

profile_loop-cons :
    (p : Bytes × ℕ) (xs : KeyProfileMap) (total : ℕ) (set : List KeyProfileNode)
    → profile_loop (p ∷ xs) total set
      ≡ profile_loop xs (total + p.1) (insert_node (record { count = p.1; key = p.0 }) set)
unfolding profile_loop
profile_loop-cons (key, count) xs total set = refl

-- Two pairs change places.
profile_loop_swap :
    (p q : Bytes × ℕ) (xs : KeyProfileMap) (total : ℕ) (set : List KeyProfileNode)
    → profile_loop (p ∷ q ∷ xs) total set ≡ profile_loop (q ∷ p ∷ xs) total set
unfolding profile_loop
profile_loop_swap (k, m) (l, n) xs total set =
    ap₂ (profile_loop xs) (sums total m n)
      (insert_comm (record { count = n; key = l }) (record { count = m; key = k }) set)
  where
    sums : (t a b : ℕ) → t + a + b ≡ t + b + a
    sums t a b = omega arith

profile_loop_perm :
    {xs ys : KeyProfileMap}
    → Permᴰ xs ys
    → (total : ℕ) (set : List KeyProfileNode)
    → profile_loop xs total set ≡ profile_loop ys total set
profile_loop_perm Permᴰ.nil total set = refl
profile_loop_perm (Permᴰ.cons {a = p} {b = q} {l₁ = xs} {l₂ = ys} e d) total set =
    profile_loop-cons p xs total set
    ∙ profile_loop_perm d _ _
    ∙ sym (profile_loop-cons p ys total set)
    ∙ ap (λ (c : Bytes × ℕ). profile_loop (c ∷ ys) total set) e
profile_loop_perm (Permᴰ.swap {a = p} {b = q} {l = xs} e f) total set =
    profile_loop_swap p q xs total set
    ∙ ap₂ (λ (c : Bytes × ℕ) (d : Bytes × ℕ). profile_loop (c ∷ d ∷ xs) total set) f e
profile_loop_perm (Permᴰ.trans r s) total set =
    profile_loop_perm r total set ∙ profile_loop_perm s total set

-- The report is the same in whatever order the hash map visits its pairs.
pub get_profile_and_reset_perm :
    {xs ys : KeyProfileMap} → Permᴰ xs ys → get_profile_and_reset xs ≡ get_profile_and_reset ys
unfolding get_profile_and_reset
get_profile_and_reset_perm r =
    ap
      (λ (p : ℕ × List KeyProfileNode).
        top_text redis_key_top_count p.1 ++ (codes "\nTotal Key Count:" ++ decimal p.0))
      (profile_loop_perm r 0 [])
