-- ===== src/Mysql/Mgr/Loaded/Success.antt =====
-- MysqlMgr.cpp, LoadConfigFile: when a load succeeds.
use seed_core.Prelude.{
  ℕ, zero, suc, ◌<◌, ◌≡◌, ◌⊎◌, inl, inr, refl, sym, subst, Bool, true, false, List, [], ◌∷◌, map,
  Option, none, some, Bytes, codes, arith, length, if◌then◌else◌, Run, done,
}
use seed_core.Prelude.Int.{pos, two31}
use seed_core.Xml.{Xml, Siblings}
use seed_core.Redis.Reply.{bytes_eq}
use seed_core.Mysql.{ConnectionInfo, Client}
use seed_core.Mysql.Connection.{open_}
use seed_core.Mysql.Mgr.{Mgr, find_connections}
use seed_core.Mysql.Mgr.Load.{
  thread_count, connection_info, after_open, open_loop, after_entry, load_entry, entry_loop,
  choose_main, find_main, load_mysql, load_root, load_config_file,
}
use seed_core.Redis.Reply.Laws.{bytes_eq_refl}
use seed_core.Mysql.Mgr.Loaded.Start.{
  Partial, open_loop-Partial, fresh-Partial, connection_num_bounds,
}

abbrev pub AllDiffer : Bytes → List Bytes → Type 0
AllDiffer name [] = Unit {0}
AllDiffer name (x ∷ xs) = (bytes_eq x name ≡ false) × AllDiffer name xs

-- No two of the names are the same.
abbrev pub AllDistinct : List Bytes → Type 0
AllDistinct [] = Unit {0}
AllDistinct (x ∷ xs) = AllDiffer x xs × AllDistinct xs

abbrev pub IsAmong : Bytes → List Bytes → Type 0
IsAmong name [] = ⊥
IsAmong name (x ∷ xs) = (name ≡ x) ⊎ IsAmong name xs

abbrev AllAbsent : List (Bytes × List ℕ) → List Bytes → Type 0
AllAbsent m [] = Unit {0}
AllAbsent m (x ∷ xs) = (find_connections x m ≡ none) × AllAbsent m xs

AllAbsent-nil : (xs : List Bytes) → AllAbsent [] xs
AllAbsent-nil [] = tt
AllAbsent-nil (x ∷ xs) = (unfold find_connections in refl, AllAbsent-nil xs)

AllAbsent-head :
    (name : Bytes) (v : List ℕ) (m : List (Bytes × List ℕ)) (xs : List Bytes)
    → AllDiffer name xs
    → AllAbsent m xs
    → AllAbsent ((name, v) ∷ m) xs
unfolding find_connections
AllAbsent-head name v m [] d h = tt
AllAbsent-head name v m (x ∷ xs) (e, d) (f, h) = (rw e f, AllAbsent-head name v m xs d h)

abbrev Found : Bytes → List (Bytes × List ℕ) → Type 0
Found name m = (v : List ℕ) × (find_connections name m ≡ some v)

Found-head :
    (name x : Bytes) (v : List ℕ) (m : List (Bytes × List ℕ))
    → Found name m
    → Found name ((x, v) ∷ m)
unfolding find_connections
Found-head name x v m (u, e) =
    elim (bytes_eq name x)
      as (λ (b : Bool).
        (w : List ℕ) × ◌≡◌ {A = Option (List ℕ)} (if b then some v else find_connections name m)
          (some w)) [ true ↦ (v, refl) | false ↦ (u, e) ]

Found-new : (name : Bytes) (v : List ℕ) (m : List (Bytes × List ℕ)) → Found name ((name, v) ∷ m)
unfolding find_connections
Found-new name v m = (v, rw (bytes_eq_refl name) refl)

-- The default name is in the map, or among the names that are still to come.
abbrev Kept : Bytes → List (Bytes × List ℕ) → List Bytes → Type 0
Kept main m xs = Found main m ⊎ IsAmong main xs

Kept-head :
    (main x : Bytes) (v : List ℕ) (m : List (Bytes × List ℕ)) (xs : List Bytes)
    → Kept main m (x ∷ xs)
    → Kept main ((x, v) ∷ m) xs
Kept-head main x v m xs (inl found) = inl (Found-head main x v m found)
Kept-head main x v m xs (inr (inl e)) =
    inl (subst (λ y. Found main ((y, v) ∷ m)) e (Found-new main v m))
Kept-head main x v m xs (inr (inr among)) = inr among

abbrev pub names_of : {N : Type 0} → Xml N → List N → List Bytes
names_of xml nodes = map (λ n. xml.get_attribute_str n (codes "name")) nodes

module _ {H W R : Type 0} (client : Client H W R)
    (opens : (info : ConnectionInfo) (s : H × W) → (open_ client info s).0 ≡ true) where
  after_open-true :
      (rest : Mgr H W R → Bool × Mgr H W R) (name : Bytes) (info : ConnectionInfo) (m : Mgr H W R)
      → ((w : Mgr H W R) → (rest w).0 ≡ true)
      → (r : Bool × (H × W)) → r.0 ≡ true
      → (after_open client rest name info m r).0 ≡ true
  unfolding after_open
  after_open-true rest name info m ih (false, s) e = cc
  after_open-true rest name info m ih (true, (h, w)) e = ih _

  open_loop-true :
      (j : ℕ) (name : Bytes) (info : ConnectionInfo) (m : Mgr H W R)
      → (open_loop client j name info m).0 ≡ true
  unfolding open_loop
  open_loop-true zero name info m = refl
  open_loop-true (suc j) name info m =
      after_open-true (open_loop client j name info) name info m (open_loop-true j name info)
        (open_ client info (client.init, m.world)) (opens info (client.init, m.world))

  -- The loop over the elements ends well, and the default name is then in the map.
  abbrev Succeeds : Bytes → Run (Bool × Mgr H W R) → Type 0
  Succeeds main r = (m' : Mgr H W R) × (r ≡ done (true, m')) × Found main m'.connection_map

  load_entry-Succeeds :
      (main : Bytes) (k : ℕ) (rest : Mgr H W R → Run (Bool × Mgr H W R)) (name : Bytes)
      (info : ConnectionInfo) (m : Mgr H W R)
      → k < two31
      → Partial client k m
      → ((w : Mgr H W R) (v : List ℕ)
          → Partial client k w
          → w.connection_map ≡ (name, v) ∷ m.connection_map
          → Succeeds main (rest w))
      → Succeeds main (load_entry client rest (pos (suc k)) name info m none)
  unfolding load_entry
  load_entry-Succeeds main k rest name info m small p ih =
      opened (open_loop client (suc k) name info m0) refl (open_loop-true (suc k) name info m0)
    where
      m0 : Mgr H W R
      m0 = record m { connection_map = (name, []) ∷ m.connection_map }

      opened :
          (r : Bool × Mgr H W R)
          → open_loop client (suc k) name info m0 ≡ r
          → (open_loop client (suc k) name info m0).0 ≡ true
          → Succeeds main (after_entry client rest (pos (suc k)) r)
      opened (false, w) made ok = cc
      opened (true, w) made ok =
          let (q, (v, at_head)) = open_loop-Partial client k name info m w small p made in
          unfold after_entry in ih _ v q at_head

  entry_loop-Succeeds :
      {N : Type 0} (xml : Xml N) (main : Bytes) (k : ℕ) (nodes : List N) (fuel : ℕ)
      (node : Option N) (m : Mgr H W R)
      → Siblings xml node nodes
      → length nodes < fuel
      → k < two31
      → Partial client k m
      → AllAbsent m.connection_map (names_of xml nodes)
      → AllDistinct (names_of xml nodes)
      → Kept main m.connection_map (names_of xml nodes)
      → Succeeds main (entry_loop client xml fuel (pos (suc k)) node m)
  unfolding entry_loop
  entry_loop-Succeeds xml main k nodes zero element m sib room small p new apart kept =
      absurd (omega arith)
  entry_loop-Succeeds xml main k [] (suc fuel) none m sib room small p new apart (inl found) =
      (m, refl, found)
  entry_loop-Succeeds xml main k [] (suc fuel) none m sib room small p new apart (inr among) =
      absurd among
  entry_loop-Succeeds xml main k (n ∷ nodes) (suc fuel) none m sib room small p new apart kept = cc
  entry_loop-Succeeds xml main k [] (suc fuel) (some element) m sib room small p new apart kept =
      absurd sib
  entry_loop-Succeeds xml main k (n ∷ nodes) (suc fuel) (some element) m (same, sib) room small p
        (absent, new) (differ, apart) kept =
      let name = xml.get_attribute_str n (codes "name") in
      let rest = entry_loop client xml fuel (pos (suc k)) (xml.get_next_sibling n) in
      subst
        (λ el.
          Siblings xml (xml.get_next_sibling el) nodes
          → Succeeds main (entry_loop client xml (suc fuel) (pos (suc k)) (some el) m))
        same
        (λ sib'.
          subst
            (λ o.
              Succeeds main (load_entry client rest (pos (suc k)) name (connection_info xml n) m o))
            (sym absent)
            (load_entry-Succeeds main k rest name (connection_info xml n) m small p (λ w v q e.
              entry_loop-Succeeds xml main k nodes fuel (xml.get_next_sibling n) w sib'
                (omega arith) small q
                (subst (λ c. AllAbsent c (names_of xml nodes)) (sym e)
                  (AllAbsent-head name v m.connection_map (names_of xml nodes) differ new))
                apart
                (subst (λ c. Kept main c (names_of xml nodes)) (sym e)
                  (Kept-head main name v m.connection_map (names_of xml nodes) kept)))))
        sib

  -- LoadConfigFile with the configuration of a `mysql` element, of fewer than 2^31 - 1 threads, on a
  -- module that has no connections, with more fuel than elements behind the first `connection`: if
  -- every connection can be opened, no two elements have the same name, and the default name is
  -- among them, then it returns true.
  pub load_config_file_succeeds :
      {N : Type 0} (xml : Xml N) (path : Bytes) (fuel t : ℕ) (root mysql : N) (nodes : List N)
      (m : Mgr H W R)
      → xml.load_file path ≡ some root
      → thread_count xml (xml.get_first_chrild root (codes "async")) ≡ pos t
      → suc t < two31
      → xml.get_first_chrild root (codes "mysql") ≡ some mysql
      → Siblings xml (xml.get_first_chrild mysql (codes "connection")) nodes
      → length nodes < fuel
      → m.connection_map ≡ []
      → AllDistinct (names_of xml nodes)
      → IsAmong (xml.get_attribute_str mysql (codes "defultconnection")) (names_of xml nodes)
      → (m' : Mgr H W R) × (load_config_file client xml fuel path m ≡ done (true, m'))
  unfolding load_config_file load_root load_mysql find_main
  load_config_file_succeeds xml path fuel t root mysql nodes m file threads small child sib room
        fresh apart among =
      let (k, num, le) =
        connection_num_bounds (xml.get_attribute_s32 mysql (codes "connectionnum")) t small in
      let m0 : Mgr H W R = record m {
        perfile_time = client.milliseconds (xml.get_attribute_s32 mysql (codes "perfiletime"));
      } in
      let main = xml.get_attribute_str mysql (codes "defultconnection") in
      let (m', ran, (v, found)) =
        entry_loop-Succeeds xml main k nodes fuel (xml.get_first_chrild mysql (codes "connection"))
          m0 sib room (omega arith) (fresh-Partial client k m0 fresh)
          (subst (λ c. AllAbsent c (names_of xml nodes)) (sym fresh)
            (AllAbsent-nil (names_of xml nodes)))
          apart (inr among) in
      (
        record m' { main_connection = some main },
        rw (file, child, threads, num, ran, found) (unfold choose_main in refl),
      )
