-- ===== src/Redis/Tests/Commands.antt =====
-- Commands of the interface, over a connection that works and over one that has failed.
use seed_core.Prelude.{
  ◌≤◌, subst, sym, ℕ, ◌≡◌, ◌⊎◌, refl, true, List, [], ◌∷◌, some, Bytes, arith, codes, done,
}
use seed_core.Prelude.Int.{pos, to_u32, to_s32}
use seed_core.Redis.StringMap.{StringMap, find, IsSorted}
use seed_core.Redis.Builder.{Builder}
use seed_core.Redis.Builder.Encoding.{texts}
use seed_core.Redis.Reply.{Replies, str, arr, nil, more, end, is_nil}
use seed_core.Redis.Reply.Laws.{first_value}
use seed_core.Redis.Transport.{Context}
use seed_core.Redis.Mgr.{Mgr, connection_idx, with_ctx}
use seed_core.Redis.Sync.{Outcome, call, hget_result, result_ok, result_nodata, err_other}
use seed_core.Redis.Sync.Hashes.{hget_all}
use seed_core.Redis.Sync.Results.{Sendable, Reaches}
use seed_core.Redis.Session.Served.{Connected, call_session}
use seed_core.Redis.Session.Replies.{hget_all_served, rpush_all_served}
use seed_core.Redis.Session.Example.{
  Peer, machine_of, worker_of, main_thread_of, always, peer_size, peer-Session, peer-Accepts,
  print-IsSprintf,
}
use seed_core.Redis.Reply.{Reply}
use seed_core.Redis.Sync.Commands.{run, del_cmd}
use seed_core.Redis.Sync.Interface.{run_codes, run_dead}
use seed_core.Redis.Sync.Lists.{rpush_all}
use seed_core.Redis.Sync.{word, strings}
use seed_core.Redis.Builder.{Arg, string, c_str}
use seed_core.Redis.Resp.{encode, bulks}
use seed_core.Prelude.Decimal.{decimal, digits}
use seed_core.Prelude.{length}
use seed_core.Redis.Reply.{int}
use seed_core.Redis.Tests.{
  machine, failed_context, connected, two_workers, get_words, get_words-Sendable,
  get_all_words-Sendable,
}

-- A reply of the server that always gives it is within the fuel.
short : (r : Reply) → (peer-Session (always r)).size r ≤ 101
short r = subst (λ (size : Reply → ℕ). size r ≤ 101) (sym (peer_size (always r))) (omega arith)

call_session_example :
    (m : Mgr (Peer (Unit {0})) ℕ (List Builder)) × (call
        (machine_of (always nil))
        101
        (hget_result (codes "old"))
        get_words
        true
        (worker_of tt)
        (pos 0)
      ≡ done (record {
        code = result_nodata;
        out = codes "old";
        sent = encode (texts get_words);
        mgr = m;
      }))
    × Connected (peer-Session (always nil)) m (pos 0) 0 tt
call_session_example =
    call_session (machine_of (always nil)) print-IsSprintf (peer-Session (always nil))
      (peer-Accepts (always nil)) (hget_result (codes "old")) get_words true 100 0 (worker_of tt)
      (pos 0) tt result_nodata (codes "old") (main_thread_of (always nil) tt) get_words-Sendable
      (short nil) nil_read
  where
    nil_read : hget_result (codes "old") (pos 0) (some nil) ≡ done (result_nodata, codes "old")
    nil_read = unfold hget_result is_nil in refl

abbrev fields : Replies
fields = more (str (codes "age")) (more (str (codes "7")) end)

hget_all_served_example :
    (m : Mgr (Peer (Unit {0})) ℕ (List Builder)) × (vals : StringMap) × (hget_all
        (machine_of (always (arr fields)))
        101
        (codes "user")
        (worker_of tt)
        (pos 0)
      ≡ done (record {
        code = result_ok;
        out = vals;
        sent = encode (codes "HGETALL" ∷ codes "user" ∷ []);
        mgr = m;
      }))
    × IsSorted vals
    × ((field : Bytes)
        → find field vals ≡ first_value field ((str (codes "age"), str (codes "7")) ∷ []))
    × Connected (peer-Session (always (arr fields))) m (pos 0) 0 tt
hget_all_served_example =
    hget_all_served (machine_of (always (arr fields))) print-IsSprintf
      (peer-Session (always (arr fields))) (peer-Accepts (always (arr fields))) fields
      ((str (codes "age"), str (codes "7")) ∷ []) [] (codes "user") 100 0 (worker_of tt) (pos 0) tt
      (main_thread_of (always (arr fields)) tt) get_all_words-Sendable refl (short (arr fields))
      refl (omega arith) (omega arith) (omega arith)

first_worker : Reaches two_workers (pos 1) 2 failed_context
unfolding connection_idx to_u32 to_s32
first_worker = record { chosen = refl; conn = connected failed_context; there = refl; at = refl }

run_dead_example :
    (c : Context ℕ) × (c.err ≡ 1)
    × (run (machine nil) 100 (del_cmd (codes "name")) two_workers (pos 1)
        ≡ done (record { code = result_ok; out = tt; sent = []; mgr = with_ctx two_workers 2 c }))
run_dead_example =
    run_dead (machine nil) 100 (del_cmd (codes "name")) 2 two_workers (pos 1) failed_context
      first_worker (λ e. absurd (omega arith))

-- What deleting a key over the failed connection leaves.
abbrev nothing_done : Outcome (Unit {0}) (Mgr ℕ ℕ (List Builder))
nothing_done = record {
  code = result_ok;
  out = tt;
  sent = [];
  mgr = with_ctx two_workers 2 run_dead_example.0;
}

run_codes_example :
    (nothing_done.code ≡ result_ok)
    ⊎ (nothing_done.code ≡ result_nodata)
    ⊎ (nothing_done.code ≡ err_other)
run_codes_example =
    run_codes (machine nil) 100 (del_cmd (codes "name")) two_workers (pos 1) nothing_done
      run_dead_example.2

abbrev push_words : List Arg
push_words = word "RPUSH" ∷ string (codes "queue") ∷ strings (codes "a" ∷ codes "b" ∷ [])

push_words-Sendable : Sendable 100 push_words
push_words-Sendable = record {
  few = omega arith;
  fits = unfold c_str in (omega arith, (omega arith, (omega arith, (omega arith, tt))));
  small = omega (arith, size);
  enough = omega (arith, size);
}
  where
    size : length (encode (texts push_words)) ≡ 40
    size = unfold encode bulks decimal digits c_str in refl

rpush_all_served_example :
    (m : Mgr (Peer (Unit {0})) ℕ (List Builder)) × (rpush_all
        (machine_of (always (int (pos 2))))
        101
        (codes "queue")
        (codes "a" ∷ codes "b" ∷ [])
        0
        (worker_of tt)
        (pos 0)
      ≡ done (record {
        code = result_ok;
        out = 2;
        sent = encode (codes "RPUSH" ∷ codes "queue" ∷ codes "a" ∷ codes "b" ∷ []);
        mgr = m;
      }))
    × Connected (peer-Session (always (int (pos 2)))) m (pos 0) 0 tt
rpush_all_served_example =
    rpush_all_served (machine_of (always (int (pos 2)))) print-IsSprintf
      (peer-Session (always (int (pos 2)))) (peer-Accepts (always (int (pos 2)))) 2 (codes "queue")
      (codes "a" ∷ codes "b" ∷ []) 0 100 0 (worker_of tt) (pos 0) tt
      (main_thread_of (always (int (pos 2))) tt) push_words-Sendable refl (short (int (pos 2)))
