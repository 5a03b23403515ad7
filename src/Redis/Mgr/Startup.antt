-- ===== src/Redis/Mgr/Startup.antt =====
-- RedisMgr.cpp, Initialize: the state that a start leaves when it succeeds.
use seed_core.Prelude.{
  ℕ, zero, suc, ◌+◌, ◌<◌, ◌≡◌, refl, sym, ap, subst, ◌∙◌, Bool, true, false, List, [], ◌∷◌, ◌++◌,
  Option, none, some, Bytes, arith, length, length-append,
}
use seed_core.Prelude.Int.{pos, to_s32-pos, two31}
use seed_core.Xml.{Xml}
use seed_core.Redis.Transport.{Context}
use seed_core.Redis.Mgr.{Config, Connection, Mgr, Host}
use seed_core.Redis.Mgr.Execute.{create_redis_context}
use seed_core.Redis.Async.Queue.{IsReady}
use seed_core.Redis.Mgr.Initialize.{
  load_config_file, rounds, new_connection, connect_loop, initialize, after_create, after_connect,
  after_load,
}

rounds_lem : (n : ℕ) → n + 1 < two31 → rounds (pos n) ≡ n + 1
unfolding rounds
rounds_lem n h = rw (to_s32-pos (n + 1) h) refl

module _ {S E Q : Type 0} (host : Host S E Q) where
  -- Every connection has an empty list, no task, and the thread 1.
  abbrev pub AllIdle : List (Connection S Q) → Type 0
  AllIdle [] = Unit {0}
  AllIdle (c ∷ cs) =
      (c.thread_cmd_list ≡ host.empty_list)
      × (c.post_task ≡ false)
      × (c.thread_idx ≡ pos 1)
      × AllIdle cs

  AllIdle-append : (cs ds : List (Connection S Q)) → AllIdle cs → AllIdle ds → AllIdle (cs ++ ds)
  AllIdle-append [] ds h k = k
  AllIdle-append (c ∷ cs) ds (e, f, g, h) k = (e, f, g, AllIdle-append cs ds h k)

  -- `m'` is `m` with `n` connections more, all idle.
  abbrev Grown : Mgr S E Q → ℕ → Mgr S E Q → Type 0
  Grown m n m' =
      (length m'.connections ≡ length m.connections + n)
      × (m'.config ≡ m.config)
      × AllIdle m'.connections

  after_create-Grown :
      (rest : Mgr S E Q → Bool × Mgr S E Q) (n : ℕ) (m m' : Mgr S E Q)
      → ((w : Mgr S E Q) → AllIdle w.connections → rest w ≡ (true, m') → Grown w n m')
      → AllIdle m.connections
      → (r : Option (Context S) × E) → after_create host rest m r ≡ (true, m')
      → Grown m (suc n) m'
  unfolding after_create
  after_create-Grown rest n m m' ih h (none, env) f = cc
  after_create-Grown rest n m m' ih h (some c, env) f =
      let cs = m.connections ++ new_connection host c ∷ [] in
      let (len, same, idle) =
        ih (record m { env = env; connections = cs })
          (AllIdle-append m.connections (new_connection host c ∷ []) h (refl, refl, refl, tt)) f in
      (omega (arith, len, length-append m.connections (new_connection host c ∷ [])), same, idle)

  -- The loop adds as many connections as it has rounds, or fails.
  connect_loop-Grown :
      (n : ℕ) (m m' : Mgr S E Q)
      → AllIdle m.connections
      → connect_loop host n m ≡ (true, m')
      → Grown m n m'
  unfolding connect_loop
  connect_loop-Grown zero m m' h e =
      subst (Grown m 0) (ap (λ (p : Bool × Mgr S E Q). p.1) e) (omega arith, refl, h)
  connect_loop-Grown (suc n) m m' h e =
      after_create-Grown (connect_loop host n) n m m' (λ w. connect_loop-Grown n w m') h
        (create_redis_context host m.config m.env) e

  -- A successful start of the module, from no connections, with between one and 2^31 - 2 workers in
  -- the configuration: it has a connection for the main thread and one for each worker, and
  -- every connection is idle and belongs, as far as its own task is concerned, to the thread 1.
  pub initialize_lem :
      {N : Type 0} (xml : Xml N) (path : Bytes) (m m' : Mgr S E Q) (n : ℕ)
      → m.connections ≡ []
      → (load_config_file xml path m.config).1.connect_num ≡ pos n
      → 0 < n
      → n + 1 < two31
      → initialize host xml path m ≡ (true, m')
      → IsReady m' × AllIdle m'.connections
  unfolding initialize
  initialize_lem xml path m m' n none_yet count some_ small e =
      loaded (load_config_file xml path m.config) count e
    where
      connected :
          (config : Config)
          → config.connect_num ≡ pos n
          → (r : Bool × Mgr S E Q)
          → r ≡ connect_loop host (rounds config.connect_num) (record m { config = config })
          → after_connect host r ≡ (true, m')
          → IsReady m' × AllIdle m'.connections
      connected config is_n (false, w) made f = cc
      connected config is_n (true, w) made f =
          let (len, same, idle) =
            connect_loop-Grown (rounds config.connect_num) (record m { config = config }) w
              (subst AllIdle (sym none_yet) tt) (sym made) in
          let num : w.config.connect_num ≡ pos n = ap (λ (c : Config). c.connect_num) same ∙ is_n in
          let done_ : record w { connect_num = w.config.connect_num } ≡ m' =
            ap (λ (p : Bool × Mgr S E Q). p.1) f in
          subst (λ (v : Mgr S E Q). IsReady v × AllIdle v.connections) done_
            (
              record {
                workers = n;
                some_worker = some_;
                small = omega arith;
                counted = num;
                connected =
                    len
                    ∙ ap (λ (cs : List (Connection S Q)). length cs + rounds config.connect_num)
                        none_yet
                    ∙ ap (λ (k : ℕ). 0 + k) (ap rounds is_n ∙ rounds_lem n small)
                    ∙ omega arith;
              },
              idle,
            )

      loaded :
          (r : Bool × Config)
          → r.1.connect_num ≡ pos n
          → after_load host m r ≡ (true, m')
          → IsReady m' × AllIdle m'.connections
      loaded (false, config) is_n f = cc
      loaded (true, config) is_n f =
          connected config is_n
            (connect_loop host (rounds config.connect_num) (record m { config = config })) refl f
