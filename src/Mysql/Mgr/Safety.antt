-- ===== src/Mysql/Mgr/Safety.antt =====
-- MysqlMgr.cpp, PushMysqlHandler: the thread of a job, and the connection it works on.
use seed_core.Prelude.{
  ℕ, zero, suc, ◌+◌, ◌%◌, ◌<◌, ◌≤◌, ◌≡◌, refl, ap, ◌∙◌, subst, ◌⊎◌, inl, inr, Bool, true, false,
  List, [], ◌∷◌, ◌++◌, Option, none, some, Bytes, arith, length, get_elem?, get_elem?_in_range,
  get_elem?_before, get_elem?_last, Run, done, fault, ◌>>=◌,
}
use seed_core.Prelude.Int.{ℤ, pos, to_s32, inc, to_u32, to_u64, two31, two64, word}
use seed_core.Mysql.Mgr.{
  MysqlBase, Mgr, connection_thread_idx, find_connections, slot, named_slot, main_entry,
  get_db_connection, new_base, set_base, push_base, push_unused, push_mysql_handler,
}
use seed_core.Mysql.Mgr.Loaded.{Placed, Entries-find}
use seed_core.Mysql.Mgr.Loaded.Start.{IsLoaded}

-- Each job stands in the queue of one of the workers, and this worker owns its connection.
abbrev pub Jobs : {R : Type 0} → (ℕ → ℕ) → ℕ → List (MysqlBase R) → List (ℕ × ℕ) → Type 0
Jobs owner workers bases [] = Unit {0}
Jobs {R = R} owner workers bases ((t, a) ∷ jobs) =
    ((b : MysqlBase R) × (get_elem? bases a ≡ some b)
      × (owner b.connection ≡ t)
      × (0 < t)
      × (t ≤ workers))
    × Jobs owner workers bases jobs

pub record IsSafe {H W R : Type 0} (m : Mgr H W R) : Type 0 where
  pub loaded : IsLoaded m
  pub some_worker : 0 < loaded.workers
  pub small : loaded.workers < two31
  pub jobs : Jobs loaded.owner loaded.workers m.bases m.started

connection_thread_idx_lem :
    (id : ℤ) (n : ℕ)
    → 0 < n
    → n < two31
    → (t : ℕ) × (connection_thread_idx id (pos n) ≡ done t) × (0 < t) × (t ≤ n)
unfolding connection_thread_idx to_u64 to_u32
connection_thread_idx_lem id n some_ small =
    (word two64 id % n + 1, ground (arith, below), omega arith, below)
  where
    below : word two64 id % n + 1 ≤ n
    below = omega arith

Placed-at :
    (owner : ℕ → ℕ) (count i : ℕ) (v : List ℕ) (j p : ℕ)
    → Placed owner count i v
    → get_elem? v j ≡ some p
    → (owner p ≡ i + j) × (p < count)
Placed-at owner count i [] j p h e = cc
Placed-at owner count i (q ∷ v) zero p (own, lt, h) e =
    subst (λ r. (owner r ≡ i + 0) × (r < count))
      (ap (λ (o : Option ℕ). elim o [ none ↦ q | some y ↦ y ]) e) (omega (arith, own), lt)
Placed-at owner count i (q ∷ v) (suc j) p (own, lt, h) e =
    let (o, k) = Placed-at owner count (suc i) v j p h e in (omega (arith, o), k)

-- What GetDBConnection answers: nothing, or a connection that its thread owns.
abbrev Owned : (ℕ → ℕ) → ℕ → Run (Option ℕ) → Type 0
Owned owner t r = (r ≡ done none) ⊎ ((p : ℕ) × (r ≡ done (some p)) × (owner p ≡ t))

slot_lem :
    (owner : ℕ → ℕ) (count size t : ℕ) (v : List ℕ)
    → t < size
    → (length v ≡ size) × Placed owner count 0 v
    → (p : ℕ) × (slot t (some v) ≡ done p) × (owner p ≡ t)
unfolding slot
slot_lem owner count size t v lt (len, placed) =
    let (p, e) = get_elem?_in_range v t (omega (arith, len)) in
    (
      p,
      ap (λ o. elim o as (λ (o : Option ℕ). Run ℕ) [ none ↦ fault | some q ↦ done q ]) e,
      omega (arith, (Placed-at owner count 0 v t p placed e).0),
    )

module _ {H W R : Type 0} (m : Mgr H W R) (loaded : IsLoaded m) where
  entry_of :
      (name : Bytes) (v : List ℕ)
      → find_connections name m.connection_map ≡ some v
      → (length v ≡ loaded.workers + 1) × Placed loaded.owner (length m.connections) 0 v
  entry_of name v =
      Entries-find loaded.owner (length m.connections) (loaded.workers + 1) name m.connection_map v
        loaded.entries

  get_db_connection-Owned :
      (t : ℕ) (name : Option Bytes)
      → t ≤ loaded.workers
      → Owned loaded.owner t (get_db_connection t name m)
  unfolding get_db_connection named_slot main_entry
  get_db_connection-Owned t none le = of_main m.main_connection loaded.main
    where
      of_main :
          (name : Option Bytes)
          → (v : List ℕ) × (main_entry m.connection_map name ≡ some v)
          → Owned loaded.owner t (slot t (main_entry m.connection_map name) >>= λ p. done (some p))
      of_main none (v, e) = cc
      of_main (some name) (v, e) =
          let (p, f, own) =
            slot_lem loaded.owner (length m.connections) (loaded.workers + 1) t v (omega arith)
              (entry_of name v e) in
          inr (p, rw (e, f) refl, own)
  get_db_connection-Owned t (some name) le = of_name (find_connections name m.connection_map) refl
    where
      of_name :
          (o : Option (List ℕ))
          → find_connections name m.connection_map ≡ o
          → Owned loaded.owner t (named_slot t o)
      of_name none e = inl refl
      of_name (some v) e =
          let (p, f, own) =
            slot_lem loaded.owner (length m.connections) (loaded.workers + 1) t v (omega arith)
              (entry_of name v e) in
          inr (p, rw f refl, own)

Jobs-append :
    {R : Type 0} (owner : ℕ → ℕ) (workers : ℕ) (bases : List (MysqlBase R)) (b : MysqlBase R)
    (jobs : List (ℕ × ℕ)) (t : ℕ)
    → owner b.connection ≡ t
    → 0 < t
    → t ≤ workers
    → Jobs owner workers bases jobs
    → Jobs owner workers (bases ++ b ∷ []) (jobs ++ (t, length bases) ∷ [])
Jobs-append owner workers bases b [] t own some_ le h =
    ((b, get_elem?_last bases b, own, some_, le), tt)
Jobs-append owner workers bases b ((u, a) ∷ jobs) t own some_ le ((c, at, o, s, l), h) = (
  (c, get_elem?_before bases (b ∷ []) a c at, o, s, l),
  Jobs-append owner workers bases b jobs t own some_ le h,
)

module _ {H W R : Type 0} (m : Mgr H W R) (safe : IsSafe m) where
  abbrev Pushed : Run (Bool × Mgr H W R) → Type 0
  Pushed r = (ok : Bool) × (m' : Mgr H W R) × (r ≡ done (ok, m')) × IsSafe m'

  with_job : ℕ → ℕ → ℕ → Mgr H W R
  with_job h t p = record m {
    bases = m.bases ++ new_base p h ∷ [];
    get_base = set_base h (length m.bases) m.get_base;
    create_base_count = to_s32 (inc m.create_base_count);
    started = m.started ++ (t, length m.bases) ∷ [];
  }

  push_base-IsSafe :
      (h t : ℕ) (r : Run (Option ℕ))
      → 0 < t
      → t ≤ safe.loaded.workers
      → Owned safe.loaded.owner t r
      → Pushed (r >>= push_base h t m)
  unfolding push_base new_base with_job
  push_base-IsSafe h t r some_ le (inl e) = (false, m, rw e refl, safe)
  push_base-IsSafe h t r some_ le (inr (p, e, own)) = (
    true,
    with_job h t p,
    ap (λ (q : Run (Option ℕ)). q >>= push_base h t m) e,
    record {
      loaded = record {
        workers = safe.loaded.workers;
        counted = safe.loaded.counted;
        owner = safe.loaded.owner;
        entries = safe.loaded.entries;
        main = safe.loaded.main;
      };
      some_worker = safe.some_worker;
      small = safe.small;
      jobs =
          Jobs-append safe.loaded.owner safe.loaded.workers m.bases (new_base p h) m.started t own
            some_ le safe.jobs;
    },
  )

  -- PushMysqlHandler in a module that is loaded with at least one worker and fewer than 2^31, each of
  -- whose jobs works on a connection that the job's thread owns: it comes back without a fault, for
  -- every id, handler and name, and the same holds of the state that it leaves. Two jobs of
  -- different threads thus never share a connection.
  pub push_mysql_handler-IsSafe :
      (id : ℤ) (handler : Option ℕ) (name : Option Bytes)
      → (ok : Bool) × (m' : Mgr H W R) × (push_mysql_handler id handler name m ≡ done (ok, m'))
        × IsSafe m'
  unfolding push_mysql_handler
  push_mysql_handler-IsSafe id none name = (false, m, refl, safe)
  push_mysql_handler-IsSafe id (some h) name = used (m.get_base h)
    where
      used : (b : Option ℕ) → Pushed (push_unused id h name m b)
      used (some b) = (false, m, unfold push_unused in refl, safe)
      used none =
          let (t, e, some_, le) =
            connection_thread_idx_lem id safe.loaded.workers safe.some_worker safe.small in
          let (ok, m', ran, s) =
            push_base-IsSafe h t (get_db_connection t name m) some_ le
              (get_db_connection-Owned m safe.loaded t name le) in
          (
            ok,
            m',
            unfold push_unused in
                ap (λ (q : Run ℕ). q >>= λ u. get_db_connection u name m >>= push_base h u m)
                  (ap (connection_thread_idx id) safe.loaded.counted ∙ e)
                ∙ ran,
            s,
          )
