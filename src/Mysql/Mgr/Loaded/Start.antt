-- ===== src/Mysql/Mgr/Loaded/Start.antt =====
-- MysqlMgr.cpp, LoadConfigFile: a load comes back, and what it leaves when it succeeds.
use seed_core.Prelude.{
  ℕ, zero, suc, ◌+◌, ◌<◌, ◌≤◌, ◌≡◌, ◌⊎◌, inl, inr, refl, sym, ap, ◌∙◌, subst, Bool, true, false,
  List, [], ◌∷◌, Option, none, some, Bytes, codes, arith, length, if◌then◌else◌, Bool-cases, Run,
  done,
}
use seed_core.Prelude.Int.{ℤ, pos, negsuc, two31, to_s32, to_s32-pos, inc, dec, ltb_ℤ}
use seed_core.Xml.{Xml, Siblings}
use seed_core.Mysql.{ConnectionInfo, Client}
use seed_core.Mysql.Mgr.{Mgr, find_connections, main_entry}
use seed_core.Mysql.Mgr.Load.{
  connection_num, thread_count, open_loop, after_entry, load_entry, entry_loop, choose_main,
  find_main, load_mysql, load_root, load_config_file,
}
use seed_core.Mysql.Mgr.Loaded.{Entries}
use seed_core.Mysql.Mgr.Loaded.Opened.{Filled, open_loop-Filled}

-- A module that is loaded: every name has a connection for the main thread and one for each of
-- `workers` threads, each of them owned by its thread alone, and the default name is there.
pub record IsLoaded {H W R : Type 0} (m : Mgr H W R) : Type 0 where
  pub workers : ℕ
  pub counted : m.async_connection_num ≡ pos workers
  pub owner : ℕ → ℕ
  pub entries : Entries owner (length m.connections) (workers + 1) m.connection_map
  pub main : (v : List ℕ) × (main_entry m.connection_map m.main_connection ≡ some v)

module _ {H W R : Type 0} (client : Client H W R) where
  -- What the loop over the elements keeps: all entries are filled, and the number of workers is set
  -- once there is one.
  pub record Partial (k : ℕ) (m : Mgr H W R) : Type 0 where
    pub owner : ℕ → ℕ
    pub entries : Entries owner (length m.connections) (k + 1) m.connection_map
    pub counted : (m.connection_map ≡ []) ⊎ (m.async_connection_num ≡ pos k)

  -- The code comes back, and leaves such a state if it succeeds.
  abbrev Ends : (Mgr H W R → Type 0) → Run (Bool × Mgr H W R) → Type 0
  Ends P r = (ok : Bool) × (m' : Mgr H W R) × (r ≡ done (ok, m')) × (ok ≡ true → P m')

  pub fresh-Partial : (k : ℕ) (m : Mgr H W R) → m.connection_map ≡ [] → Partial k m
  fresh-Partial k m fresh = record {
    owner = λ a. 0;
    entries = subst (Entries (λ a. 0) (length m.connections) (k + 1)) (sym fresh) tt;
    counted = inl fresh;
  }

  -- The state behind the connections of one name.
  pub open_loop-Partial :
      (k : ℕ) (name : Bytes) (info : ConnectionInfo) (m w : Mgr H W R)
      → k < two31
      → Partial k m
      → open_loop client
          (suc k)
          name
          info
          (record m { connection_map = (name, []) ∷ m.connection_map })
        ≡ (true, w)
      → Partial k (record w { async_connection_num = to_s32 (dec (pos (suc k))) })
        × ((v : List ℕ) × (w.connection_map ≡ (name, v) ∷ m.connection_map))
  open_loop-Partial k name info m w small p made =
      let m0 = record m { connection_map = (name, []) ∷ m.connection_map } in
      let fresh : Filled client name m.connection_map (k + 1) 0 m0 = record {
        addresses = [];
        owner = p.owner;
        at_head = refl;
        filled = refl;
        placed = tt;
        others = p.entries;
      } in
      let f =
        open_loop-Filled client (suc k) name info m.connection_map (k + 1) 0 m0 w fresh made in
      (
        record {
          owner = f.owner;
          entries =
              subst (Entries f.owner (length w.connections) (k + 1)) (sym f.at_head)
                (omega (arith, f.filled), f.placed, f.others);
          counted = inr (to_s32-pos k small);
        },
        (f.addresses, f.at_head),
      )

  load_entry_lem :
      (k : ℕ) (rest : Mgr H W R → Run (Bool × Mgr H W R)) (name : Bytes) (info : ConnectionInfo)
      (m : Mgr H W R)
      → k < two31
      → ((w : Mgr H W R) → Partial k w → Ends (Partial k) (rest w))
      → Partial k m
      → (o : Option (List ℕ))
      → Ends (Partial k) (load_entry client rest (pos (suc k)) name info m o)
  unfolding load_entry
  load_entry_lem k rest name info m small ih p (some v) = (false, m, refl, λ e. cc)
  load_entry_lem k rest name info m small ih p none =
      opened
        (open_loop client (suc k) name info
          (record m { connection_map = (name, []) ∷ m.connection_map }))
        refl
    where
      opened :
          (r : Bool × Mgr H W R)
          → open_loop client
              (suc k)
              name
              info
              (record m { connection_map = (name, []) ∷ m.connection_map })
            ≡ r
          → Ends (Partial k) (after_entry client rest (pos (suc k)) r)
      opened (false, w) made = (false, w, unfold after_entry in refl, λ e. cc)
      opened (true, w) made =
          unfold after_entry in ih _ (open_loop-Partial k name info m w small p made).0

  entry_loop_lem :
      {N : Type 0} (xml : Xml N) (k : ℕ) (nodes : List N) (fuel : ℕ) (node : Option N)
      (m : Mgr H W R)
      → Siblings xml node nodes
      → length nodes < fuel
      → k < two31
      → Partial k m
      → Ends (Partial k) (entry_loop client xml fuel (pos (suc k)) node m)
  unfolding entry_loop
  entry_loop_lem xml k nodes zero element m sib room small p = absurd (omega arith)
  entry_loop_lem xml k nodes (suc fuel) none m sib room small p = (true, m, refl, λ e. p)
  entry_loop_lem xml k [] (suc fuel) (some element) m sib room small p = absurd sib
  entry_loop_lem xml k (n ∷ nodes) (suc fuel) (some element) m (same, sib) room small p =
      load_entry_lem k (entry_loop client xml fuel (pos (suc k)) (xml.get_next_sibling element)) _ _
        m small
        (λ w q.
          entry_loop_lem xml k nodes fuel (xml.get_next_sibling element) w sib (omega arith) small
            q)
        p _

  find_main_lem :
      (k : ℕ) (name : Bytes) (ok : Bool) (m m' : Mgr H W R)
      → (ok ≡ true → Partial k m)
      → find_main client name (ok, m) ≡ (true, m')
      → IsLoaded m'
  unfolding find_main
  find_main_lem k name false m m' p e = cc
  find_main_lem k name true m m' p e = chosen (find_connections name m.connection_map) refl e
    where
      q : Partial k m
      q = p refl

      counted_lem :
          (v : List ℕ)
          → find_connections name m.connection_map ≡ some v
          → m.async_connection_num ≡ pos k
      counted_lem v found = elim q.counted [
        | inl e0 ↦ absurd (none_found (sym (ap (find_connections name) e0) ∙ found))
        | inr e0 ↦ e0
      ]
        where
          none_found : find_connections name [] ≡ some v → ⊥
          none_found f = unfold find_connections in cc

      chosen :
          (o : Option (List ℕ))
          → find_connections name m.connection_map ≡ o
          → choose_main client name m o ≡ (true, m')
          → IsLoaded m'
      chosen none found f = unfold choose_main in cc
      chosen (some v) found f =
          subst IsLoaded (unfold choose_main in ap (λ (x : Bool × Mgr H W R). x.1) f) (record {
            workers = k;
            counted = counted_lem v found;
            owner = q.owner;
            entries = q.entries;
            main = (v, unfold main_entry in found);
          })

connection_num_pos :
    (n t : ℕ)
    → suc t < two31
    → (k : ℕ) × (to_s32 (inc (if ltb_ℤ (pos t) (pos n) then pos t else pos n)) ≡ pos (suc k))
      × (k ≤ t)
connection_num_pos n t small = elim (Bool-cases (ltb_ℤ (pos t) (pos n))) [
  | inl e ↦ (t, rw e (to_s32-pos (t + 1) (omega arith) ∙ ap pos (omega arith)), omega arith)
  | inr e ↦
      (n, rw e (to_s32-pos (n + 1) (ground (arith, e)) ∙ ap pos (omega arith)), ground (arith, e))
]

-- There is a connection at least for the main thread, and none for a thread that does not exist.
pub connection_num_bounds :
    (num : ℤ) (t : ℕ)
    → suc t < two31
    → (k : ℕ) × (connection_num num (pos t) ≡ pos (suc k)) × (k ≤ t)
unfolding connection_num
connection_num_bounds (negsuc n) t small = rw (negative n) (connection_num_pos 1 t small)
  where
    negative : (n : ℕ) → ltb_ℤ (negsuc n) (pos 0) ≡ true
    negative n = ground arith
connection_num_bounds (pos n) t small = rw (natural n) (connection_num_pos n t small)
  where
    natural : (n : ℕ) → ltb_ℤ (pos n) (pos 0) ≡ false
    natural n = ground arith

module _ {H W R : Type 0} (client : Client H W R) {N : Type 0} (xml : Xml N) where
  -- LoadConfigFile with the configuration of a `mysql` element, of fewer than 2^31 - 1
  -- threads, on a module that has no connections, with more fuel than elements behind the first
  -- `connection`: it comes back, and when it returns true, each name has one connection
  -- for the main thread and the same number for the workers, no two threads own the same connection,
  -- and the default name is among the names.
  pub load_config_file_lem :
      (path : Bytes) (fuel t : ℕ) (root mysql : N) (nodes : List N) (m : Mgr H W R)
      → xml.load_file path ≡ some root
      → thread_count xml (xml.get_first_chrild root (codes "async")) ≡ pos t
      → suc t < two31
      → xml.get_first_chrild root (codes "mysql") ≡ some mysql
      → Siblings xml (xml.get_first_chrild mysql (codes "connection")) nodes
      → length nodes < fuel
      → m.connection_map ≡ []
      → (ok : Bool) × (m' : Mgr H W R) × (load_config_file client xml fuel path m ≡ done (ok, m'))
        × (ok ≡ true → IsLoaded m')
  unfolding load_config_file load_root load_mysql
  load_config_file_lem path fuel t root mysql nodes m file threads small child sib room fresh =
      let (k, num, le) =
        connection_num_bounds (xml.get_attribute_s32 mysql (codes "connectionnum")) t small in
      let m0 : Mgr H W R = record m {
        perfile_time = client.milliseconds (xml.get_attribute_s32 mysql (codes "perfiletime"));
      } in
      let p = fresh-Partial client k m0 fresh in
      let (ok, m', ran, part) =
        entry_loop_lem client xml k nodes fuel (xml.get_first_chrild mysql (codes "connection")) m0
          sib room (omega arith) p in
      let name = xml.get_attribute_str mysql (codes "defultconnection") in
      (
        (find_main client name (ok, m')).0,
        (find_main client name (ok, m')).1,
        rw (file, child, threads, num, ran) refl,
        λ e.
            find_main_lem client k name ok m' (find_main client name (ok, m')).1 part
              (ap (λ b. (b, (find_main client name (ok, m')).1)) e),
      )
