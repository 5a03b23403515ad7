-- ===== src/Redis/Session/Replies.antt =====
-- RedisSyncCall.cpp: what two commands make of the replies of a server that keeps data, HGetAll of a
-- hash and RPush of the new length.
use seed_core.Prelude.{
  ℕ, suc, ◌%◌, ◌<◌, ◌≤◌, ◌≡◌, refl, sym, ap, subst, ◌∙◌, true, List, [], ◌∷◌, ◌++◌, some, Bytes,
  codes, length, done,
}
use seed_core.Prelude.Int.{ℤ, pos, to_u32, two32, two64}
use seed_core.Redis.Resp.{encode}
use seed_core.Redis.StringMap.{StringMap, find, IsSorted}
use seed_core.Redis.Builder.{string, c_str, IsSprintf}
use seed_core.Redis.Builder.Encoding.{texts}
use seed_core.Redis.Reply.{Reply, Replies, arr, int, element, is_nil, get_integer, parse_string_map}
use seed_core.Redis.Reply.Laws.{flat, first_value, parse_string_map_lem}
use seed_core.Redis.Transport.Write.{Accepts}
use seed_core.Redis.Mgr.{Mgr, Host}
use seed_core.Redis.Sync.{word, strings, result_ok, map_result, length_result}
use seed_core.Redis.Sync.Hashes.{hget_all}
use seed_core.Redis.Sync.Lists.{rpush_all}
use seed_core.Redis.Sync.Results.{Sendable}
use seed_core.Redis.Session.{Answer, Session}
use seed_core.Redis.Session.Served.{Connected, call_session}

map_result_arr :
    (rs : Replies) (vals : StringMap)
    → parse_string_map (arr rs) [] ≡ done (true, vals)
    → map_result (pos 0) (some (arr rs)) ≡ done (result_ok, vals)
unfolding map_result is_nil
map_result_arr rs vals e = rw e refl

length_result_int :
    (len n : ℕ) → length_result len (pos 0) (some (int (pos n))) ≡ done (result_ok, n % two32)
unfolding length_result get_integer to_u32
length_result_int len n = refl

texts-strings : (vals : List Bytes) → texts (strings vals) ≡ vals
texts-strings [] = refl
texts-strings (v ∷ vals) = ap (◌∷◌ v) (texts-strings vals)

module _ {S E Q : Type 0} (host : Host S E Q) (law : IsSprintf host.sprintf) {live : S → Type 0}
    {D : Type 0} {answer : Answer D} (p : Session host.net live answer)
    (a : Accepts host.net live) where
  -- `HGetAll` over a working connection to an idle server that keeps data, for a key within the
  -- sizes and the fuel of `Sendable`, when the server answers with an array within the fuel that is
  -- not empty and shorter than 2^64, of the pairs `ps` and at most one element more: `HGETALL` and the
  -- key have been sent, the caller gets 0 and a map in key order, in which every field has the value
  -- of the first pair that names it, there is no other field, and the server is idle again.
  pub hget_all_served :
      (rs : Replies) (ps : List (Reply × Reply)) (rest : List Reply) (key : Bytes) (fuel i : ℕ)
      (m : Mgr S E Q) (thread_idx : ℤ) (d : D)
      → Connected p m thread_idx i d
      → Sendable fuel (word "HGETALL" ∷ string key ∷ [])
      → (answer (codes "HGETALL" ∷ key ∷ []) d).0 ≡ arr rs
      → p.size (arr rs) ≤ suc fuel
      → element rs ≡ flat ps ++ rest
      → length rest ≤ 1
      → 0 < length (element rs)
      → length (element rs) < two64
      → (m' : Mgr S E Q) × (vals : StringMap) × (hget_all host (suc fuel) key m thread_idx
          ≡ done (record {
            code = result_ok;
            out = vals;
            sent = encode (codes "HGETALL" ∷ key ∷ []);
            mgr = m';
          }))
        × IsSorted vals
        × ((field : Bytes) → find field vals ≡ first_value field ps)
        × Connected p m' thread_idx i (answer (codes "HGETALL" ∷ key ∷ []) d).1
  unfolding hget_all c_str
  hget_all_served rs ps rest key fuel i m thread_idx d at s replies short e few filled bound =
      let (vals, parses, sorted, finds) = parse_string_map_lem rs ps rest e few filled bound in
      let (m', ran, at') =
        call_session host law p a map_result (word "HGETALL" ∷ string key ∷ []) true fuel i m
          thread_idx d result_ok vals at s
          (subst (λ (r : Reply). p.size r ≤ suc fuel) (sym replies) short)
          (ap (λ (r : Reply). map_result (pos 0) (some r)) replies
            ∙ map_result_arr rs vals parses) in
      (m', vals, ran, sorted, finds, at')

  -- `RPush` of a vector over a working connection to an idle server that keeps data, for values
  -- within the sizes and the fuel of `Sendable`, when the server answers with the length `n`: `RPUSH`,
  -- the key and every value in order have been sent, the caller gets `n` modulo 2 to the 32, and the
  -- server is idle again.
  pub rpush_all_served :
      (n : ℕ) (key : Bytes) (vals : List Bytes) (len fuel i : ℕ) (m : Mgr S E Q) (thread_idx : ℤ)
      (d : D)
      → Connected p m thread_idx i d
      → Sendable fuel (word "RPUSH" ∷ string key ∷ strings vals)
      → (answer (codes "RPUSH" ∷ key ∷ vals) d).0 ≡ int (pos n)
      → p.size (int (pos n)) ≤ suc fuel
      → (m' : Mgr S E Q) × (rpush_all host (suc fuel) key vals len m thread_idx
          ≡ done (record {
            code = result_ok;
            out = n % two32;
            sent = encode (codes "RPUSH" ∷ key ∷ vals);
            mgr = m';
          }))
        × Connected p m' thread_idx i (answer (codes "RPUSH" ∷ key ∷ vals) d).1
  unfolding rpush_all c_str
  rpush_all_served n key vals len fuel i m thread_idx d at s replies short =
      let args = word "RPUSH" ∷ string key ∷ strings vals in
      let same : texts args ≡ codes "RPUSH" ∷ key ∷ vals =
        ap (λ (t : List Bytes). codes "RPUSH" ∷ key ∷ t) (texts-strings vals) in
      let reply : (answer (texts args) d).0 ≡ int (pos n) =
        ap (λ (t : List Bytes). (answer t d).0) same ∙ replies in
      let (m', ran, at') =
        call_session host law p a (length_result len) args true fuel i m thread_idx d result_ok
          (n % two32) at s (subst (λ (r : Reply). p.size r ≤ suc fuel) (sym reply) short)
          (ap (λ (r : Reply). length_result len (pos 0) (some r)) reply
            ∙ length_result_int len n) in
      (
        m',
        ran
            ∙ ap
                (λ (t : List Bytes).
                  done (record { code = result_ok; out = n % two32; sent = encode t; mgr = m' }))
                same,
        subst (λ (t : List Bytes). Connected p m' thread_idx i (answer t d).1) same at',
      )
