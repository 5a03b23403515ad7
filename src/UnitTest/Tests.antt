-- ===== src/UnitTest/Tests.antt =====
-- Examples: ids that are given out and completed, and a run of a test.
use seed_core.Prelude.{
  ◌≤◌, subst, sym, ℕ, suc, ◌≡◌, refl, ap, List, [], ◌∷◌, arith, Bytes, length, done,
}
use seed_core.Prelude.Int.{pos, negsuc}
use seed_core.UnitTest.{no_tests}
use seed_core.UnitTest.Ids.{get, complete, run_calls, run_calls_lem}
use seed_core.Redis.Builder.{Builder}
use seed_core.Redis.Reply.{element}
use seed_core.Redis.Reply.Laws.{bytes_eq_refl}
use seed_core.Redis.Mgr.{Mgr}
use seed_core.Redis.Builder.{c_str}
use seed_core.Redis.Sync.{flag_result, code_result, strings_result}
use seed_core.Redis.Sync.Sets.{added, removed}
use seed_core.Redis.Reply.{Reply, get_integer, parse_string_array, bytes_eq, get_string}
use seed_core.UnitTest.RedisTest.{build_test_key, test_eq}
use seed_core.Redis.Session.Program.{run_program, reply_bytes}
use seed_core.Redis.Session.Example.{
  Peer, Data, no_data, listed, small_redis, peer-Session, peer-Accepts, print-IsSprintf, peer_size,
  machine, one_worker, main_thread,
}
use seed_core.UnitTest.RedisTest.Lists.{set_unit_test}
use seed_core.UnitTest.RedisTest.Sets.{IsSets, set_unit_test_passes}

-- Three ids, of which the second is completed, and an id that was never given out.
run_calls_lem_example :
    (run_calls
      (get ∷ get ∷ complete (pos 2) ∷ complete (negsuc 0) ∷ get ∷ [])
      (no_tests {T = ℕ})).test_ids
    ≡ pos 1 ∷ pos 3 ∷ []
run_calls_lem_example =
    run_calls_lem ℕ (get ∷ get ∷ complete (pos 2) ∷ complete (negsuc 0) ∷ get ∷ []) (omega arith)

small_redis-IsSets : IsSets small_redis
unfolding small_redis
small_redis-IsSets = record {
  members = λ d k. d.sets k;
  deleted = λ k d. pos 1;
  listed = λ k d. listed (d.sets k);
  del_reply = λ k d. refl;
  members-del = λ k d. rw (bytes_eq_refl k) refl;
  sadd_reply = λ k x d. refl;
  members-sadd = λ k x d. rw (bytes_eq_refl k) refl;
  srem_reply = λ k x d. refl;
  members-srem = λ k x d. rw (bytes_eq_refl k) refl;
  smembers_reply = λ k d. refl;
  length-listed = λ k d. length-listed (d.sets k);
  members-smembers = λ k d. refl;
}
  where
    length-listed : (xs : List Bytes) → length (element (listed xs)) ≡ length xs
    length-listed [] = refl
    length-listed (x ∷ xs) = ap suc (length-listed xs)

-- Nine replies of two bytes each.
two_bytes_each : reply_bytes small_redis (λ r. 2) set_unit_test no_data ≤ 100
unfolding reply_bytes set_unit_test small_redis flag_result code_result strings_result c_str
    get_integer parse_string_array bytes_eq get_string build_test_key test_eq added removed
two_bytes_each = omega arith

set_test_fits : reply_bytes small_redis (peer-Session small_redis).size set_unit_test no_data ≤ 100
set_test_fits =
    subst (λ (size : Reply → ℕ). reply_bytes small_redis size set_unit_test no_data ≤ 100)
      (sym (peer_size small_redis)) two_bytes_each

set_unit_test_passes_example :
    (m : Mgr (Peer Data) ℕ (List Builder)) × (run_program machine 101 set_unit_test one_worker
        (pos 0)
      ≡ done ([], m))
set_unit_test_passes_example =
    set_unit_test_passes machine print-IsSprintf (peer-Session small_redis)
      (peer-Accepts small_redis) small_redis-IsSets 100 0 one_worker (pos 0) no_data (omega arith)
      main_thread set_test_fits
