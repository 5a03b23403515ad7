-- ===== src/Mysql/Connection/Active.antt =====
-- DBConnection.cpp, isActive: the loop that waits for the server comes to an end.
use seed_core.Prelude.{
  ℕ, zero, suc, ◌+◌, ◌*◌, ◌≤◌, ◌<◌, ◌≡◌, refl, ap, Bool, true, false, Bytes, arith, ltb,
  if◌then◌else◌, Run, done, ◌>>=◌,
}
use native.Mathlib.Nat.{mul-le-mul_right, add-mul}
use seed_core.Mysql.{ConnectionInfo, Client}
use seed_core.Mysql.Connection.{
  reconnect_time_out, reopen, after_ping, ping_loop, after_first_ping, is_active, try_again,
  after_query, inner_execute,
}

-- The clock in milliseconds is a finer one cut off, of `pace` ticks to the millisecond, which does not
-- run backwards and goes on by at least one tick over a ping that fails.
pub record IsClock {H W R : Type 0} (client : Client H W R) : Type 0 where
  pub pace : ℕ
  pub instant : W → ℕ
  pub not_ahead : (w : W) → (client.now w).0 * pace ≤ instant w
  pub not_behind : (w : W) → instant w < ((client.now w).0 + 1) * pace
  pub reading : (w : W) → instant w ≤ instant (client.now w).1
  pub pinging :
      (h : H) (w : W)
      → (client.ping (h, w)).0 ≡ false
      → instant w < instant (client.ping (h, w)).1.1

module _ {H W R : Type 0} (client : Client H W R) (clock : IsClock client) where
  abbrev limit : ℕ
  limit = client.minute * reconnect_time_out

  -- The ticks of 30 minutes and a millisecond.
  abbrev pub ticks : ℕ
  ticks = (limit + 1) * clock.pace

  -- Once the time is up, the clock has gone on by that.
  in_time :
      (start t : ℕ) (w : W)
      → (client.now w).0 ≡ t
      → ltb (start + limit) t ≡ false
      → clock.instant w < start * clock.pace + ticks
  in_time start t w e early =
      let le : t + 1 ≤ start + (limit + 1) = ground (arith, early) in
      let behind = clock.not_behind w in
      let same : ((client.now w).0 + 1) * clock.pace ≡ (t + 1) * clock.pace =
        ap (λ k. (k + 1) * clock.pace) e in
      let more : (t + 1) * clock.pace ≤ (start + (limit + 1)) * clock.pace =
        mul-le-mul_right clock.pace le in
      let split = add-mul start (limit + 1) clock.pace in omega arith

  -- What follows a ping, if the rest comes back once the time is not up.
  after_ping_lem :
      (rest : H × W → Run (Bool × (H × W))) (info : ConnectionInfo) (start before : ℕ)
      → ((s : H × W)
          → before ≤ start * clock.pace + ticks
          → before ≤ clock.instant s.1
          → (r : Bool × (H × W)) × (rest s ≡ done r))
      → (p : Bool × (H × W)) → (p.0 ≡ false → before ≤ clock.instant p.1.1)
      → (r : Bool × (H × W)) × (after_ping client rest info start p ≡ done r)
  unfolding after_ping
  after_ping_lem rest info start before back (true, s) h = ((true, s), refl)
  after_ping_lem rest info start before back (false, (hd, w)) h =
      elim (ltb (start + limit) (client.now w).0)
          as (λ late.
            ltb (start + limit) (client.now w).0 ≡ late
            → (r : Bool × (H × W)) × ((if late
                  then done (reopen client info (hd, (client.now w).1))
                  else rest (hd, (client.now w).1))
                ≡ done r)) [
                  | true ↦ λ e. (reopen client info (hd, (client.now w).1), refl)
                  | false ↦ λ e.
                      back (hd, (client.now w).1)
                        (omega (arith, in_time start (client.now w).0 w refl e, h refl))
                        (omega (arith, clock.reading w, h refl))
                ]
        refl

  ping_loop_lem :
      (fuel start : ℕ) (info : ConnectionInfo) (s : H × W)
      → start * clock.pace + ticks ≤ clock.instant s.1 + fuel
      → (r : Bool × (H × W)) × (ping_loop client (suc fuel) info start s ≡ done r)
  unfolding ping_loop
  ping_loop_lem zero start info (h, w) room =
      after_ping_lem (ping_loop client zero info start) info start (clock.instant w + 1)
        (λ s early later. absurd (omega arith)) (client.ping (h, w))
        (λ e. omega (arith, clock.pinging h w e))
  ping_loop_lem (suc fuel) start info (h, w) room =
      after_ping_lem (ping_loop client (suc fuel) info start) info start (clock.instant w + 1)
        (λ s early later. ping_loop_lem fuel start info s (omega arith)) (client.ping (h, w))
        (λ e. omega (arith, clock.pinging h w e))

  -- isActive always comes back, after at most `fuel + 1` rounds of its loop, if the clock in
  -- milliseconds is a finer one cut off, that one does not run backwards and goes on by at least one
  -- tick over a ping that fails, and `fuel` is at least its ticks in 30 minutes and a millisecond.
  pub is_active_returns :
      (fuel : ℕ) (info : ConnectionInfo) (s : H × W)
      → ticks ≤ fuel
      → (r : Bool × (H × W)) × (is_active client (suc fuel) info s ≡ done r)
  unfolding is_active after_first_ping
  is_active_returns fuel info s room = first (client.ping s)
    where
      first :
          (p : Bool × (H × W))
          → (r : Bool × (H × W)) × (after_first_ping client (suc fuel) info p ≡ done r)
      first (true, s') = ((true, s'), refl)
      first (false, (h, w)) =
          ping_loop_lem fuel (client.now w).0 info (h, (client.now w).1)
            (omega (arith, clock.not_ahead w, clock.reading w))

  -- So does the execution of a statement.
  pub inner_execute_returns :
      (fuel : ℕ) (info : ConnectionInfo) (sql : Bytes) (s : H × W)
      → ticks ≤ fuel
      → (r : Bool × (H × W)) × (inner_execute client (suc fuel) info sql s ≡ done r)
  unfolding inner_execute after_query
  inner_execute_returns fuel info sql s room = query (client.real_query _ s)
    where
      query :
          (p : Bool × (H × W))
          → (r : Bool × (H × W)) × (after_query client (suc fuel) info sql p ≡ done r)
      query (true, s') = ((true, s'), refl)
      query (false, s') =
          let (r, e) = is_active_returns fuel info s' room in
          (
            try_again client sql r,
            ap (λ (q : Run (Bool × (H × W))). q >>= λ p. done (try_again client sql p)) e,
          )
