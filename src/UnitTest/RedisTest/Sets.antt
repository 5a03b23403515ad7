-- ===== src/UnitTest/RedisTest/Sets.antt =====
-- RedisTest.cpp, SetUnitTest over a server that keeps sets.
use seed_core.Prelude.{
  ℕ, suc, ◌≡◌, ◌≤◌, refl, ap, sym, subst, length-map, ◌∙◌, Bool, true, false, List, [], ◌∷◌, Bytes,
  codes, arith, length, done, ◌==◌, if◌then◌else◌,
}
use seed_core.Prelude.Int.{ℤ, pos}
use seed_core.Redis.Builder.{IsSprintf, c_str}
use seed_core.Redis.Reply.{Reply, Replies, int, arr, element, bytes_eq, get_integer}
use seed_core.Redis.Reply.Laws.{string_of, parse_string_array-map}
use seed_core.Redis.Transport.Write.{Accepts}
use seed_core.Redis.Mgr.{Mgr, Host}
use seed_core.Redis.Sync.{
  result_ok, result_nodata, err_other, flag_result, code_result, strings_result,
}
use seed_core.Redis.Sync.Sets.{added, removed}
use seed_core.Redis.Sync.Commands.{del_cmd, sadd_cmd, srem_cmd, smembers_cmd}
use seed_core.Redis.Session.{Answer, Session, mem, without}
use seed_core.Redis.Session.Served.{Connected}
use seed_core.Redis.Session.Program.{
  finished, ask, run_program, over_data, reply_bytes, run_program-over_data,
}
use seed_core.UnitTest.RedisTest.{Test, test_eq, at}
use seed_core.UnitTest.RedisTest.Lists.{key, member1, member2, set_unit_test}
use seed_core.UnitTest.RedisTest.Sends.{set_unit_test-SendsAll}

-- The documented behaviour of DEL, SADD, SREM and SMEMBERS on a server whose sets are `members`, as
-- lists in any order. SMEMBERS gives as many elements as there are members.
pub record IsSets {D : Type 0} (answer : Answer D) : Type 0 where
  pub members : D → Bytes → List Bytes
  pub deleted : Bytes → D → ℤ
  pub listed : Bytes → D → Replies
  pub del_reply : (k : Bytes) (d : D) → (answer (codes "DEL" ∷ k ∷ []) d).0 ≡ int (deleted k d)
  pub members-del : (k : Bytes) (d : D) → members (answer (codes "DEL" ∷ k ∷ []) d).1 k ≡ []
  pub sadd_reply :
      (k x : Bytes) (d : D)
      → (answer (codes "SADD" ∷ k ∷ x ∷ []) d).0
        ≡ int (if mem x (members d k) then pos 0 else pos 1)
  pub members-sadd :
      (k x : Bytes) (d : D)
      → members (answer (codes "SADD" ∷ k ∷ x ∷ []) d).1 k
        ≡ (if mem x (members d k) then members d k else x ∷ members d k)
  pub srem_reply :
      (k x : Bytes) (d : D)
      → (answer (codes "SREM" ∷ k ∷ x ∷ []) d).0
        ≡ int (if mem x (members d k) then pos 1 else pos 0)
  pub members-srem :
      (k x : Bytes) (d : D)
      → members (answer (codes "SREM" ∷ k ∷ x ∷ []) d).1 k ≡ without x (members d k)
  pub smembers_reply :
      (k : Bytes) (d : D) → (answer (codes "SMEMBERS" ∷ k ∷ []) d).0 ≡ arr (listed k d)
  pub length-listed : (k : Bytes) (d : D) → length (element (listed k d)) ≡ length (members d k)
  pub members-smembers :
      (k : Bytes) (d : D) → members (answer (codes "SMEMBERS" ∷ k ∷ []) d).1 k ≡ members d k

-- What SAdd and SRem make of the two replies.
added_if : (t : Bool) → added (if t then pos 0 else pos 1) ≡ (if t then err_other else result_ok)
added_if true = refl
added_if false = refl

removed_if :
    (t : Bool) → removed (if t then pos 1 else pos 0) ≡ (if t then result_ok else result_nodata)
removed_if true = refl
removed_if false = refl

module _ {D : Type 0} (answer : Answer D) (laws : IsSets answer) where
  -- On the data `d` the test ends without a printed line.
  abbrev Passes : Test → D → Type 0
  Passes test d = (d' : D) × (over_data answer test d ≡ done ([], d'))

  after_test :
      (line : ℕ) (b : Bool) (rest : Test) (d : D)
      → b ≡ true
      → Passes rest d
      → Passes (test_eq line b rest) d
  after_test line b rest d e h = rw e h

  at_end : (d : D) → Passes (finished []) d
  unfolding over_data
  at_end d = (d, refl)

  after_del :
      (k : Bytes) (d : D) (next : ℤ → Bool → Test)
      → ((out : Bool) (d' : D) → laws.members d' k ≡ [] → Passes (next (pos 0) out) d')
      → Passes (ask (del_cmd k) next) d
  unfolding over_data flag_result c_str
  after_del k d next h = rw (laws.del_reply k d) (h _ _ (laws.members-del k d))

  after_sadd :
      (k x : Bytes) (ms : List Bytes) (d : D) (next : ℤ → Unit {0} → Test)
      → laws.members d k ≡ ms
      → ((d' : D)
          → laws.members d' k ≡ (if mem x ms then ms else x ∷ ms)
          → Passes (next (if mem x ms then err_other else result_ok) tt) d')
      → Passes (ask (sadd_cmd k x) next) d
  unfolding over_data code_result c_str get_integer
  after_sadd k x ms d next e h =
      subst (λ (c : ℤ). Passes (next c tt) (answer (codes "SADD" ∷ k ∷ x ∷ []) d).1)
        (sym (
          ap
            (λ (r : Reply).
              if (get_integer r (pos 0)).0 then added (get_integer r (pos 0)).1 else err_other)
            (laws.sadd_reply k x d
              ∙ ap (λ (l : List Bytes). int (if mem x l then pos 0 else pos 1)) e)
          ∙ added_if (mem x ms)))
        (h _ (laws.members-sadd k x d ∙ ap (λ (l : List Bytes). if mem x l then l else x ∷ l) e))

  after_srem :
      (k x : Bytes) (ms : List Bytes) (d : D) (next : ℤ → Unit {0} → Test)
      → laws.members d k ≡ ms
      → ((d' : D)
          → laws.members d' k ≡ without x ms
          → Passes (next (if mem x ms then result_ok else result_nodata) tt) d')
      → Passes (ask (srem_cmd k x) next) d
  unfolding over_data code_result c_str get_integer
  after_srem k x ms d next e h =
      subst (λ (c : ℤ). Passes (next c tt) (answer (codes "SREM" ∷ k ∷ x ∷ []) d).1)
        (sym (
          ap
            (λ (r : Reply).
              if (get_integer r (pos 0)).0 then removed (get_integer r (pos 0)).1 else err_other)
            (laws.srem_reply k x d
              ∙ ap (λ (l : List Bytes). int (if mem x l then pos 1 else pos 0)) e)
          ∙ removed_if (mem x ms)))
        (h _ (laws.members-srem k x d ∙ ap (without x) e))

  after_smembers :
      (k : Bytes) (ms : List Bytes) (d : D) (next : ℤ → List Bytes → Test)
      → laws.members d k ≡ ms
      → ((out : List Bytes) (d' : D)
          → length out ≡ length ms
          → laws.members d' k ≡ ms
          → Passes (next result_ok out) d')
      → Passes (ask (smembers_cmd k) next) d
  unfolding over_data strings_result c_str
  after_smembers k ms d next e h =
      rw (laws.smembers_reply k d, parse_string_array-map (laws.listed k d) [])
        (h _ _
          (length-map string_of (element (laws.listed k d)) ∙ laws.length-listed k d ∙ ap length e)
          (laws.members-smembers k d ∙ e))

  -- The keys of the test, and what its set holds on the way.
  set_unit_test_data : (d : D) → Passes set_unit_test d
  unfolding set_unit_test bytes_eq
  set_unit_test_data d = after_del key d _ λ del d1 m1. after_sadd key member1 [] d1 _ m1 λ d2 m2.
      after_sadd key member1 (member1 ∷ []) d2 _ m2 λ d3 m3.
        after_sadd key member2 (member1 ∷ []) d3 _ m3 λ d4 m4.
          after_smembers key (member2 ∷ member1 ∷ []) d4 _ m4 λ out d5 e5 m5.
            after_test 261 (length out == 2) _ d5 (ground (arith, e5)) (
              after_srem key member1 (member2 ∷ member1 ∷ []) d5 _ m5 λ d6 m6.
                after_srem key member1 (member2 ∷ []) d6 _ m6 λ d7 m7.
                  after_srem key member2 (member2 ∷ []) d7 _ m7 λ d8 m8.
                    after_smembers key [] d8 _ m8 λ out' d9 e9 m9.
                      after_test 270 (length out' == 0) _ d9 (ground (arith, e9)) (at_end d9))

module _ {S E Q : Type 0} (host : Host S E Q) (law : IsSprintf host.sprintf) {live : S → Type 0}
    {D : Type 0} {answer : Answer D} (p : Session host.net live answer) (a : Accepts host.net live)
    (laws : IsSets answer) where
  -- SetUnitTest, run by the module on a thread whose connection works, against an idle server that
  -- keeps sets as redis documents it and whatever it holds at first, with fuel of 100 at least and
  -- no less than the bytes of its replies, ends and prints no difference.
  pub set_unit_test_passes :
      (fuel i : ℕ) (m : Mgr S E Q) (thread_idx : ℤ) (d : D)
      → 100 ≤ fuel
      → Connected p m thread_idx i d
      → reply_bytes answer p.size set_unit_test d ≤ fuel
      → (m' : Mgr S E Q) × (run_program host (suc fuel) set_unit_test m thread_idx ≡ done ([], m'))
  set_unit_test_passes fuel i m t d enough at room =
      let (d', ends) = set_unit_test_data answer laws d in
      let (m', ran, _) =
        run_program-over_data host law p a set_unit_test fuel i m t d d' [] at
          (set_unit_test-SendsAll fuel enough).each room ends in
      (m', ran)
