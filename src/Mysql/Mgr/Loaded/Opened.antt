-- ===== src/Mysql/Mgr/Loaded/Opened.antt =====
-- MysqlMgr.cpp, LoadConfigFile: the connections that are opened for one name.
use seed_core.Prelude.{
  ℕ, zero, suc, ◌+◌, ◌≡◌, refl, ap, ◌∙◌, subst, Bool, true, false, List, [], ◌∷◌, ◌++◌, Bytes,
  arith, length, length-append,
}
use seed_core.Mysql.{ConnectionInfo, Client}
use seed_core.Mysql.Connection.{DbConnection, open_, new_connection}
use seed_core.Mysql.Mgr.{Mgr}
use seed_core.Mysql.Mgr.Load.{add_address, after_open, open_loop}
use seed_core.Redis.Reply.Laws.{bytes_eq_refl}
use seed_core.Mysql.Mgr.Loaded.{Placed, Entries, grown, Entries-grown, Placed-append}

add_address_head :
    (name : Bytes) (p : ℕ) (v : List ℕ) (m : List (Bytes × List ℕ))
    → add_address name p ((name, v) ∷ m) ≡ (name, v ++ p ∷ []) ∷ m
unfolding add_address
add_address_head name p v m = rw (bytes_eq_refl name) refl

module _ {H W R : Type 0} (client : Client H W R) where
  -- The entry of `name` stands at the head of the map and has `n` connections; the others have `size`.
  pub record Filled (name : Bytes) (old : List (Bytes × List ℕ)) (size n : ℕ) (m : Mgr H W R)
      : Type 0 where
    pub addresses : List ℕ
    pub owner : ℕ → ℕ
    pub at_head : m.connection_map ≡ (name, addresses) ∷ old
    pub filled : length addresses ≡ n
    pub placed : Placed owner (length m.connections) 0 addresses
    pub others : Entries owner (length m.connections) size old

  abbrev with_connection : Bytes → DbConnection H → W → Mgr H W R → Mgr H W R
  with_connection name c w m = record m {
    connections = m.connections ++ c ∷ [];
    connection_map = add_address name (length m.connections) m.connection_map;
    world = w;
  }

  opened-Filled :
      (name : Bytes) (old : List (Bytes × List ℕ)) (size n : ℕ) (m : Mgr H W R) (c : DbConnection H)
      (w : W)
      → Filled name old size n m
      → Filled name old size (n + 1) (with_connection name c w m)
  opened-Filled name old size n m c w f =
      let count = length m.connections in
      let len : count + 1 ≡ length (m.connections ++ c ∷ []) =
        omega (arith, length-append m.connections (c ∷ [])) in
      record {
        addresses = f.addresses ++ count ∷ [];
        owner = grown f.owner count (0 + length f.addresses);
        at_head =
            ap (add_address name count) f.at_head ∙ add_address_head name count f.addresses old;
        filled = omega (arith, length-append f.addresses (count ∷ []), f.filled);
        placed =
            subst
              (λ k.
                Placed (grown f.owner count (0 + length f.addresses)) k 0
                  (f.addresses ++ count ∷ []))
              len (Placed-append f.owner count 0 f.addresses f.placed);
        others =
            subst (λ k. Entries (grown f.owner count (0 + length f.addresses)) k size old) len
              (Entries-grown f.owner count size (0 + length f.addresses) old f.others);
      }

  after_open-Filled :
      (rest : Mgr H W R → Bool × Mgr H W R) (name : Bytes) (info : ConnectionInfo)
      (old : List (Bytes × List ℕ)) (size n k : ℕ) (m m' : Mgr H W R)
      → ((w : Mgr H W R)
          → Filled name old size (n + 1) w
          → rest w ≡ (true, m')
          → Filled name old size k m')
      → Filled name old size n m
      → (r : Bool × (H × W)) → after_open client rest name info m r ≡ (true, m')
      → Filled name old size k m'
  unfolding after_open
  after_open-Filled rest name info old size n k m m' ih f (false, (h, w)) e = cc
  after_open-Filled rest name info old size n k m m' ih f (true, (h, w)) e =
      let c = record (new_connection client info) { handler = h } in
      ih (with_connection name c w m) (opened-Filled name old size n m c w f) e

  pub open_loop-Filled :
      (j : ℕ) (name : Bytes) (info : ConnectionInfo) (old : List (Bytes × List ℕ)) (size n : ℕ)
      (m m' : Mgr H W R)
      → Filled name old size n m
      → open_loop client j name info m ≡ (true, m')
      → Filled name old size (n + j) m'
  unfolding open_loop
  open_loop-Filled zero name info old size n m m' f e =
      subst (λ k. Filled name old size k m') (omega arith)
        (subst (Filled name old size n) (ap (λ (p : Bool × Mgr H W R). p.1) e) f)
  open_loop-Filled (suc j) name info old size n m m' f e =
      subst (λ k. Filled name old size k m') (omega arith)
        (after_open-Filled (open_loop client j name info) name info old size n (n + 1 + j) m m'
          (λ w g. open_loop-Filled j name info old size (n + 1) w m' g) f
          (open_ client info (client.init, m.world)) e)
