-- ===== src/Redis/Profile/Flush.antt =====
-- RedisMgr.h and RedisMgr.cpp: what the connections keep for the profile, the timer that has it
-- flushed on the worker threads, and the text of the profile. What a watch has measured is a type `V`,
-- since PerformanceWatch is not in the repository. The members are locked by a mutex for as long as they are
-- copied: a copy is one step.
use seed_core.Prelude.{ℕ, suc, List, [], ◌∷◌, ◌++◌, Bytes, codes, set, Run, done, ◌>>=◌}
use seed_core.Prelude.Int.{ℤ}
use seed_core.Prelude.Decimal.{decimal}
use seed_core.Redis.Mgr.{connection_idx, at}
use seed_core.Redis.Profile.{KeyProfileMap, get_profile_and_reset}

-- The members of RedisConnection of the debug build.
pub record Watches (V : Type 0) : Type 0 where
  pub main_watch : V
  pub thread_watch : V
  pub main_key_profile_map : KeyProfileMap
  pub thread_key_profile_map : KeyProfileMap

-- CONNECTION_TIMER_TIME: the time to the timer's first run and between its runs, in milliseconds.
abbrev pub connection_timer_time : ℕ
connection_timer_time = 60_000

-- Launched: the timer runs forever. `add_timer` is ADD_TIMER, with the two times.
unfoldable pub launched : {K : Type 0} → (ℕ → ℕ → K → K) → K → K
launched add_timer kernel = add_timer connection_timer_time connection_timer_time kernel

module _ {V : Type 0} where
  -- The block under the lock.
  unfoldable pub flushed : Watches V → Watches V
  flushed w = record w {
    main_watch = w.thread_watch;
    main_key_profile_map = w.thread_key_profile_map;
  }

  -- OnFlushConnection
  unfoldable pub on_flush_connection : ℤ → ℤ → List (Watches V) → Run (List (Watches V))
  on_flush_connection connect_num thread_idx ws =
      connection_idx thread_idx connect_num >>= λ i. at ws i >>= λ w. done (set ws i (flushed w))

  -- FlushConnectionHandler::OnExecute on a thread, for the handler of the thread `own`: that they
  -- are the same is only asserted.
  unfoldable pub on_execute_flush : ℤ → ℤ → ℤ → List (Watches V) → Run (List (Watches V))
  on_execute_flush connect_num own thread_idx ws = on_flush_connection connect_num thread_idx ws

module _ {V : Type 0} (create_performance_info : V → Bytes) where
  -- The loop over the connections, from the place `i` on.
  unfoldable pub info_loop : ℕ → List (Watches V) → Bytes
  info_loop i [] = []
  info_loop i (w ∷ ws) =
      codes "connection "
      ++ (decimal i
          ++ (codes " info:"
              ++ (codes "\nexpends:\n"
                  ++ (create_performance_info w.main_watch
                      ++ (codes "\nkey profile:\n"
                          ++ (get_profile_and_reset w.main_key_profile_map
                              ++ (codes "\n" ++ info_loop (suc i) ws)))))))

  unfoldable pub profile_info : List (Watches V) → Bytes
  unfolding info_loop
  profile_info ws = info_loop 0 ws

-- OnFlushConnectionTimer: a job for each thread of the queue. `start_async thread own` starts a
-- FlushConnectionHandler for the thread `own` on the thread `thread`.
unfoldable pub on_flush_connection_timer : {K : Type 0} → (ℤ → ℤ → K → K) → List ℤ → K → K
on_flush_connection_timer start_async [] kernel = kernel
on_flush_connection_timer start_async (thread_id ∷ thread_ids) kernel =
    on_flush_connection_timer start_async thread_ids (start_async thread_id thread_id kernel)
