-- ===== src/Mysql/Mgr/Loaded.antt =====
-- MysqlMgr.cpp, LoadConfigFile: the connections that a successful start leaves.
pub mod Opened
pub mod Start
pub mod Success
use seed_core.Prelude.{
  ℕ, zero, suc, ◌+◌, ◌<◌, ◌≤◌, ◌≡◌, refl, sym, ap, ◌∙◌, subst, Bool, true, false, List, [], ◌∷◌,
  ◌++◌, Option, none, some, Bytes, arith, length, length-append, get_elem?, if◌then◌else◌, ◌==◌,
}
use seed_core.Redis.Reply.{bytes_eq}
use seed_core.Redis.Reply.Laws.{bytes_eq_refl}
use seed_core.Mysql.{ConnectionInfo, Client}
use seed_core.Mysql.Connection.{DbConnection, open_, new_connection}
use seed_core.Mysql.Mgr.{Mgr, find_connections}
use seed_core.Mysql.Mgr.Load.{add_address, after_open, open_loop}

-- The addresses of `v` are below `count`, and the thread that owns the one at place `j` is `i + j`.
abbrev pub Placed : (ℕ → ℕ) → ℕ → ℕ → List ℕ → Type 0
Placed owner count i [] = Unit {0}
Placed owner count i (p ∷ v) = (owner p ≡ i) × (p < count) × Placed owner count (suc i) v

-- Each name has `size` connections, the one at a place being that of the thread with that number.
abbrev pub Entries : (ℕ → ℕ) → ℕ → ℕ → List (Bytes × List ℕ) → Type 0
Entries owner count size [] = Unit {0}
Entries owner count size ((n, v) ∷ m) =
    (length v ≡ size) × Placed owner count 0 v × Entries owner count size m

pub Entries-find :
    (owner : ℕ → ℕ) (count size : ℕ) (name : Bytes) (m : List (Bytes × List ℕ)) (v : List ℕ)
    → Entries owner count size m
    → find_connections name m ≡ some v
    → (length v ≡ size) × Placed owner count 0 v
unfolding find_connections
Entries-find owner count size name [] v h e = cc
Entries-find owner count size name ((n, u) ∷ m) v (len, placed, h) e =
    elim (bytes_eq name n)
        as (λ (same : Bool).
          ◌≡◌ {A = Option (List ℕ)} (if same then some u else find_connections name m) (some v)
          → (length v ≡ size) × Placed owner count 0 v) [
            | true ↦ λ f.
                let g : u ≡ v = ap (λ (o : Option (List ℕ)). elim o [ none ↦ u | some y ↦ y ]) f in
                subst (λ w. (length w ≡ size) × Placed owner count 0 w) g (len, placed)
            | false ↦ λ f. Entries-find owner count size name m v h f
          ]
      e

-- One address more, owned by thread `i`.
grown : (ℕ → ℕ) → ℕ → ℕ → ℕ → ℕ
grown owner count i p = if p == count then i else owner p

Placed-grown :
    (owner : ℕ → ℕ) (count i k : ℕ) (v : List ℕ)
    → Placed owner count i v
    → Placed (grown owner count k) (count + 1) i v
unfolding grown
Placed-grown owner count i k [] h = tt
Placed-grown owner count i k (p ∷ v) (own, lt, h) =
    (ground (arith, own), omega arith, Placed-grown owner count (suc i) k v h)

Entries-grown :
    (owner : ℕ → ℕ) (count size k : ℕ) (m : List (Bytes × List ℕ))
    → Entries owner count size m
    → Entries (grown owner count k) (count + 1) size m
Entries-grown owner count size k [] h = tt
Entries-grown owner count size k ((n, v) ∷ m) (len, placed, h) =
    (len, Placed-grown owner count 0 k v placed, Entries-grown owner count size k m h)

Placed-append :
    (owner : ℕ → ℕ) (count i : ℕ) (v : List ℕ)
    → Placed owner count i v
    → Placed (grown owner count (i + length v)) (count + 1) i (v ++ count ∷ [])
unfolding grown
Placed-append owner count i [] h = (ground arith, omega arith, tt)
Placed-append owner count i (p ∷ v) (own, lt, h) = (
  ground (arith, own),
  omega arith,
  subst (λ k. Placed (λ q. if q == count then k else owner q) (count + 1) (suc i) (v ++ count ∷ []))
      (omega arith) (Placed-append owner count (suc i) v h),
)
