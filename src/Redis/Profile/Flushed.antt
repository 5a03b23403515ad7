-- ===== src/Redis/Profile/Flushed.antt =====
-- RedisMgr.cpp: what the profile shows when the jobs of the timer have been executed.
use mathlib.Core.List.{Permᴰ}
use seed_core.Prelude.{
  ℕ, zero, suc, ◌+◌, ◌%◌, ◌≤◌, ◌<◌, ◌≡◌, refl, sym, ap, ap₂, ◌∙◌, Bool, true, false, ◌||◌, List, [],
  ◌∷◌, ◌++◌, map, arith, length, ◌==◌, if◌then◌else◌, Run, done, ◌>>=◌, append_assoc, append-nil,
  get_elem?_in_range,
}
use native.Mathlib.Nat.{mod-eq_of_lt, mod_self}
use native.Mathlib.Decide.{ℕ_discrete}
use seed_core.Prelude.Int.{ℤ, pos, two31}
use seed_core.Redis.Mgr.Resend.{at_some}
use seed_core.Redis.Mgr.Select.{worker_idx}
use seed_core.Redis.Profile.FlushWhere.{
  flush_where, flush_where-ext, length-flush_where, set-flush_where, flush_where_none,
  flush_where_all,
}
use seed_core.Redis.Profile.Flush.{
  Watches, flushed, on_flush_connection, on_execute_flush, on_flush_connection_timer,
}

-- The jobs of the threads `ts`, and their execution one after another.
abbrev pub job : ℕ → ℤ × ℤ
job t = (pos t, pos t)

abbrev pub run_jobs : {V : Type 0} → ℤ → List (ℤ × ℤ) → List (Watches V) → Run (List (Watches V))
run_jobs num [] ws = done ws
run_jobs num ((t, own) ∷ jobs) ws = on_execute_flush num own t ws >>= run_jobs num jobs

-- A connection whose profile is what its thread has counted.
abbrev pub shown : {V : Type 0} → Watches V → Watches V
shown w = record {
  main_watch = w.thread_watch;
  thread_watch = w.thread_watch;
  main_key_profile_map = w.thread_key_profile_map;
  thread_key_profile_map = w.thread_key_profile_map;
}

map-flushed : {V : Type 0} (ws : List (Watches V)) → map flushed ws ≡ map shown ws
unfolding flushed
map-flushed [] = refl
map-flushed (w ∷ ws) = ap (◌∷◌ (shown w)) (map-flushed ws)

-- The numbers of the worker threads, from `i` on.
abbrev pub numbers : ℕ → ℕ → List ℕ
numbers zero i = []
numbers (suc n) i = i ∷ numbers n (suc i)

abbrev AllWorkers : ℕ → List ℕ → Type 0
AllWorkers n [] = Unit {0}
AllWorkers n (t ∷ ts) = (0 < t) × (t ≤ n) × AllWorkers n ts

-- Whether one of the threads has the place `j`.
marks : ℕ → List ℕ → ℕ → Bool
marks n [] j = false
marks n (t ∷ ts) j = (j == t % n + 1) || marks n ts j

module _ {V : Type 0} (n : ℕ) (some_ : 0 < n) (small : n < two31) where
  on_execute_flush-flush_where :
      (f : ℕ → Bool) (ws : List (Watches V)) (t : ℕ)
      → length ws ≡ suc n
      → 0 < t
      → t ≤ n
      → on_execute_flush (pos n) (pos t) (pos t) (flush_where f 0 ws)
        ≡ done (flush_where (λ j. (j == t % n + 1) || f j) 0 ws)
  unfolding on_execute_flush on_flush_connection
  on_execute_flush-flush_where f ws t len h k =
      let (w, there) =
        get_elem?_in_range (flush_where f 0 ws) (t % n + 1)
          (omega (arith, len, length-flush_where f 0 ws)) in
      rw
        (
          worker_idx n some_ small t h (omega arith),
          at_some (flush_where f 0 ws) (t % n + 1) w there,
        )
        (ap done (
          set-flush_where f 0 (t % n + 1) ws w there
          ∙ flush_where-ext _ _ 0 ws (λ j le. ground arith)))

  run_jobs-flush_where :
      (ts : List ℕ) (f : ℕ → Bool) (ws : List (Watches V))
      → length ws ≡ suc n
      → AllWorkers n ts
      → run_jobs (pos n) (map job ts) (flush_where f 0 ws)
        ≡ done (flush_where (λ j. marks n ts j || f j) 0 ws)
  unfolding marks
  run_jobs-flush_where [] f ws len all = refl
  run_jobs-flush_where (t ∷ ts) f ws len (h, k, all) =
      rw (on_execute_flush-flush_where f ws t len h k) (
        run_jobs-flush_where ts _ ws len all
        ∙ ap done (flush_where-ext _ _ 0 ws (λ j le. ground arith)))

AllWorkers-perm : (n : ℕ) {ts us : List ℕ} → Permᴰ ts us → AllWorkers n ts → AllWorkers n us
AllWorkers-perm n Permᴰ.nil all = tt
AllWorkers-perm n (Permᴰ.cons e p) (h, k, all) = (omega arith, omega arith, AllWorkers-perm n p all)
AllWorkers-perm n (Permᴰ.swap {l = l} e f) (h, k, (h', k', all)) =
    (omega arith, omega arith, (omega arith, omega arith, all))
AllWorkers-perm n (Permᴰ.trans p q) all = AllWorkers-perm n q (AllWorkers-perm n p all)

or_swap : (p q r : Bool) → p || (q || r) ≡ q || (p || r)
or_swap p q r = ground arith

marks-perm : (n : ℕ) {ts us : List ℕ} → Permᴰ ts us → (j : ℕ) → marks n ts j ≡ marks n us j
unfolding marks
marks-perm n Permᴰ.nil j = refl
marks-perm n (Permᴰ.cons e p) j =
    ap₂ (λ (t : ℕ) (b : Bool). (j == t % n + 1) || b) e (marks-perm n p j)
marks-perm n (Permᴰ.swap {a = a} {b = b} {a' = a'} {b' = b'} {l = l} e f) j =
    or_swap (j == a % n + 1) (j == b % n + 1) (marks n l j)
    ∙ ap₂ (λ (t u : ℕ). (j == t % n + 1) || ((j == u % n + 1) || marks n l j)) f e
marks-perm n (Permᴰ.trans p q) j = marks-perm n p j ∙ marks-perm n q j

numbers-AllWorkers : (n m i : ℕ) → 0 < i → i + m ≤ n + 1 → AllWorkers n (numbers m i)
numbers-AllWorkers n zero i h k = tt
numbers-AllWorkers n (suc m) i h k =
    (h, omega arith, numbers-AllWorkers n m (suc i) (omega arith) (omega arith))

-- Each of the numbers has its place marked.
marks-numbers : (n m i t : ℕ) → i ≤ t → t < i + m → marks n (numbers m i) (t % n + 1) ≡ true
unfolding marks
marks-numbers n zero i t h k = absurd (omega arith)
marks-numbers n (suc m) i t h k = elim (ℕ_discrete t i) [
  | yes e ↦ rw e (here (i % n + 1) (marks n (numbers m (suc i)) (i % n + 1)))
  | no ne ↦
      there (t % n + 1 == i % n + 1) (marks n (numbers m (suc i)) (t % n + 1))
        (marks-numbers n m (suc i) t (omega arith) (omega arith))
]
  where
    here : (j : ℕ) (b : Bool) → (j == j) || b ≡ true
    here j b = ground arith

    there : (a b : Bool) → b ≡ true → a || b ≡ true
    there a b e = ground arith

-- Every place behind the first belongs to a worker.
worker_of : (n j : ℕ) → 0 < j → j ≤ n → (t : ℕ) × (0 < t) × (t ≤ n) × (t % n + 1 ≡ j)
worker_of n zero h k = absurd (omega arith)
worker_of n (suc zero) h k =
    (n, omega arith, omega arith, let e : n % n ≡ 0 = mod_self n in omega arith)
worker_of n (suc (suc j)) h k =
    let e : suc j % n ≡ suc j = mod-eq_of_lt (omega arith) in
    (suc j, omega arith, omega arith, omega arith)

marks_main : (n : ℕ) (ts : List ℕ) → marks n ts 0 ≡ false
unfolding marks
marks_main n [] = refl
marks_main n (t ∷ ts) = ground (arith, marks_main n ts)

-- The timer's jobs.
timer_jobs :
    (ts : List ℕ) (jobs : List (ℤ × ℤ))
    → on_flush_connection_timer (λ t own js. js ++ (t, own) ∷ []) (map pos ts) jobs
      ≡ jobs ++ map job ts
unfolding on_flush_connection_timer
timer_jobs [] jobs = sym (append-nil jobs)
timer_jobs (t ∷ ts) jobs =
    timer_jobs ts (jobs ++ job t ∷ []) ∙ append_assoc jobs (job t ∷ []) (map job ts)

module _ {V : Type 0} (n : ℕ) (some_ : 0 < n) (small : n < two31) where
  flush_workers :
      (f : ℕ → Bool) (main : Watches V) (ws : List (Watches V))
      → length ws ≡ n
      → ((j : ℕ) → f j ≡ (marks n (numbers n 1) j || false))
      → flush_where f 0 (main ∷ ws) ≡ main ∷ map flushed ws
  unfolding flush_where
  flush_workers f main ws len h =
      ap₂ ◌∷◌
        (ap (λ (b : Bool). if b then flushed main else main)
          (h 0 ∙ or_false _ ∙ marks_main n (numbers n 1)))
        (flush_where_all f 1 ws λ j le lt.
          let (t, above, below, at_j) = worker_of n j (omega arith) (omega arith) in
          h j
          ∙ or_false (marks n (numbers n 1) j)
          ∙ ap (marks n (numbers n 1)) (sym at_j)
          ∙ marks-numbers n n 1 t (omega arith) (omega arith))
    where
      or_false : (b : Bool) → b || false ≡ b
      or_false true = refl
      or_false false = refl

  -- With `n` workers, at least one and fewer than 2^31, whose thread ids are the numbers from 1 to
  -- `n`: the timer starts for each worker a job on its own thread, and in whatever order the threads
  -- execute these jobs, in the end the connection of every worker shows what its thread has
  -- counted, and that of the main thread is as it was.
  pub on_flush_connection_timer_lem :
      (order : List ℕ) (main : Watches V) (ws : List (Watches V))
      → length ws ≡ n
      → Permᴰ (numbers n 1) order
      → (on_flush_connection_timer (λ t own js. js ++ (t, own) ∷ []) (map pos (numbers n 1)) []
          ≡ map job (numbers n 1))
        × (run_jobs (pos n) (map job order) (main ∷ ws) ≡ done (main ∷ map shown ws))
  on_flush_connection_timer_lem order main ws len p = (
    timer_jobs (numbers n 1) [],
    ap (run_jobs (pos n) (map job order)) (sym (flush_where_none 0 (main ∷ ws)))
        ∙ run_jobs-flush_where n some_ small order (λ j. false) (main ∷ ws) (ap suc len)
            (AllWorkers-perm n p (numbers-AllWorkers n n 1 (omega arith) (omega arith)))
        ∙ ap done (
            flush_workers _ main ws len
              (λ j. ap (λ (b : Bool). b || false) (sym (marks-perm n p j)))
            ∙ ap (◌∷◌ main) (map-flushed ws)),
  )
