-- ===== src/Redis/Tests/Reports.antt =====
-- The report on the keys that were used most, and the timer that has it flushed.
use mathlib.Core.List.{Permᴰ}
use seed_core.Prelude.{ℕ, ◌≡◌, refl, [], ◌∷◌, ◌++◌, codes, arith, map, done}
use seed_core.Prelude.Int.{pos}
use seed_core.Redis.Profile.{get_profile_and_reset}
use seed_core.Redis.Profile.Flush.{Watches, on_flush_connection_timer}
use seed_core.Redis.Profile.Flushed.{job, run_jobs, shown, numbers, on_flush_connection_timer_lem}
use seed_core.Redis.Profile.Order.{get_profile_and_reset_perm}

get_profile_and_reset_perm_example :
    get_profile_and_reset ((codes "a", 3) ∷ (codes "b", 5) ∷ [])
    ≡ get_profile_and_reset ((codes "b", 5) ∷ (codes "a", 3) ∷ [])
get_profile_and_reset_perm_example = get_profile_and_reset_perm (Permᴰ.swap refl refl)

-- A worker that has seen `n` requests, and its key.
abbrev watched : ℕ → Watches ℕ
watched n = record {
  main_watch = 0;
  thread_watch = n;
  main_key_profile_map = [];
  thread_key_profile_map = (codes "a", n) ∷ [];
}

on_flush_connection_timer_lem_example :
    (on_flush_connection_timer (λ t own js. js ++ (t, own) ∷ []) (map pos (numbers 2 1)) []
      ≡ map job (numbers 2 1))
    × (run_jobs (pos 2) (map job (2 ∷ 1 ∷ [])) (watched 7 ∷ watched 3 ∷ watched 4 ∷ [])
        ≡ done (watched 7 ∷ map shown (watched 3 ∷ watched 4 ∷ [])))
on_flush_connection_timer_lem_example =
    on_flush_connection_timer_lem 2 (omega arith) (omega arith) (2 ∷ 1 ∷ []) (watched 7)
      (watched 3 ∷ watched 4 ∷ []) refl (Permᴰ.swap refl refl)
