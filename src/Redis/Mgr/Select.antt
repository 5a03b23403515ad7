-- ===== src/Redis/Mgr/Select.antt =====
-- RedisMgr.cpp, GetRedisConnection and GetRedisConnectionInAsync: which connection a thread uses.
-- The module takes no lock, so that two threads must not be given the same one.
use seed_core.Prelude.{
  ℕ, zero, suc, sym, ◌↔◌, ◌⊎◌, inl, inr, ◌+◌, ◌%◌, ◌≤◌, ◌<◌, ◌≡◌, ◌≢◌, refl, arith, done,
  done_injective, ◌∙◌,
}
use native.Mathlib.Nat.{mod-eq_of_lt, mod_self}
use native.Mathlib.Decide.{dec_lt}
use seed_core.Prelude.Int.{ℤ, pos, to_s32, to_u32, to_u64, two31, two32, two64, word}
use seed_core.Redis.Mgr.{connection_idx, async_idx}

module _ (n : ℕ) (some_ : 0 < n) (small : n < two31) where
  pub worker_idx : (t : ℕ) → 0 < t → t < two32 → connection_idx (pos t) (pos n) ≡ done (t % n + 1)
  unfolding connection_idx to_s32 to_u32
  worker_idx t h k = ground (arith, mod_small)
    where
      mod_small : t % n < n
      mod_small = omega arith

  place : ℕ → ℕ
  place zero = 0
  place (suc t) = suc t % n + 1

  connection_idx-place : (t : ℕ) → t < two32 → connection_idx (pos t) (pos n) ≡ done (place t)
  unfolding place
  connection_idx-place zero h = unfold connection_idx in refl
  connection_idx-place (suc t) h = worker_idx (suc t) (omega arith) h

  -- A worker's place: its own number, and 0 behind the last.
  worker_mod : (t : ℕ) → t ≤ n → ((t < n) × (t % n ≡ t)) ⊎ ((t ≡ n) × (t % n ≡ 0))
  worker_mod t h = elim (dec_lt t n) [
    | yes l ↦ inl (l, mod-eq_of_lt l)
    | no l ↦ inr (omega arith, let e : t ≡ n = omega arith in rw e (mod_self n))
  ]

  place_apart : (t u : ℕ) → t ≤ n → u ≤ n → place t ≡ place u → t ≡ u
  unfolding place
  place_apart zero zero h k e = refl
  place_apart zero (suc u) h k e = absurd (omega arith)
  place_apart (suc t) zero h k e = absurd (omega arith)
  place_apart (suc t) (suc u) h k e = omega (arith, worker_mod (suc t) h, worker_mod (suc u) k)

  -- With `n` workers, at least one and fewer than 2^31, the main thread has the connection 0 to
  -- itself: every thread from 0 to `n` gets a connection that exists, and it is the first exactly
  -- for the thread 0.
  pub connection_idx_bounds :
      (t : ℕ)
      → t ≤ n
      → (i : ℕ) × (connection_idx (pos t) (pos n) ≡ done i) × (i ≤ n) × ((i ≡ 0) ↔ (t ≡ 0))
  unfolding place
  connection_idx_bounds zero h =
      (0, connection_idx-place zero (omega arith), omega arith, (λ e. e, λ e. e))
  connection_idx_bounds (suc t) h = (
    suc t % n + 1,
    connection_idx-place (suc t) (omega arith),
    omega arith,
    (λ e. absurd (omega arith), λ e. absurd (omega arith)),
  )

  -- With `n` workers, at least one and fewer than 2^31, two different threads of 0 to `n` never
  -- get the same connection.
  pub connection_idx_apart :
      (t u : ℕ)
      → t ≤ n
      → u ≤ n
      → t ≢ u
      → connection_idx (pos t) (pos n) ≢ connection_idx (pos u) (pos n)
  connection_idx_apart t u h k differ e = differ (place_apart t u h k (done_injective same))
    where
      same : done (place t) ≡ done (place u)
      same = sym (connection_idx-place t (omega arith)) ∙ e ∙ connection_idx-place u (omega arith)

  -- With `n` workers, at least one and fewer than 2^31, every task id gets a connection that
  -- exists, and never the main thread's.
  pub async_idx_bounds :
      (task : ℤ) → (i : ℕ) × (async_idx task (pos n) ≡ done i) × (0 < i) × (i ≤ n)
  unfolding async_idx to_u64
  async_idx_bounds task = (word two64 task % n + 1, ground arith, omega arith, omega arith)
