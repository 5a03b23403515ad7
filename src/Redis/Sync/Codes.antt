-- ===== src/Redis/Sync/Codes.antt =====
-- RedisSyncCall.cpp: the codes that the commands return, of those that IRedisMgr.h and hiredis name.
use seed_core.Prelude.{
  ℕ, ◌≡◌, refl, sym, subst, ◌⊎◌, inl, inr, Bool, true, false, List, [], Option, none, some, Bytes,
  if◌then◌else◌, Run, done, starved, fault, OnDone, OnDone->>=,
}
use seed_core.Prelude.Int.{ℤ, pos, ◌==ℤ◌}
use seed_core.Redis.Reply.{
  Reply, get_integer, get_string, is_nil, is_ok, parse_string_array, parse_string_map,
}
use seed_core.Redis.Builder.{Arg, request, Builder}
use seed_core.Redis.Mgr.{Mgr, Host, connection_idx, Cmd}
use seed_core.Redis.Mgr.Execute.{exec_cmd, exec_on, try_cmd}
use seed_core.Redis.Mgr.Resend.{bare}
use seed_core.Redis.Sync.Sets.{added, removed}
use seed_core.Redis.Sync.{
  Outcome, Finish, call, finish_with, result_ok, result_nodata, err_other, plain_result,
  flag_result, ttl_result, option_result, string_result, hget_result, integer_result,
  strings_result, ok_result, count_result, code_result, exists_result, map_result, length_result,
}

-- OK, NODATA or REDIS_ERR_OTHER
abbrev pub IsCode : ℤ → Type 0
IsCode code = (code ≡ result_ok) ⊎ (code ≡ result_nodata) ⊎ (code ≡ err_other)

OnDone_any {ℓ} : {A : Type ℓ} (r : Run A) → OnDone (λ a. Unit {0}) r
OnDone_any (done a) = tt
OnDone_any starved = tt
OnDone_any fault = tt

pub is_ok_code : IsCode result_ok
is_ok_code = inl refl

is_nodata_code : IsCode result_nodata
is_nodata_code = inr (inl refl)

is_other_code : IsCode err_other
is_other_code = inr (inr refl)

pub either : (t : Bool) (a b : ℤ) → IsCode a → IsCode b → IsCode (if t then a else b)
either true a b h k = h
either false a b h k = k

-- Every code of `finish`, after a return value of 0, is one of the three, and without a reply it is 0.
pub record Coded {A : Type 0} (finish : Finish A) : Type 0 where
  pub codes : (reply : Option Reply) → OnDone (λ (code, out). IsCode code) (finish (pos 0) reply)
  pub silent : (out : A) × (finish (pos 0) none ≡ done (pos 0, out))

Coded-of :
    {A : Type 0} (finish : Finish A) (out : A)
    → finish (pos 0) none ≡ done (pos 0, out)
    → ((r : Reply) → OnDone (λ (code, out). IsCode code) (finish (pos 0) (some r)))
    → Coded finish
Coded-of finish out e h = record {
  codes = λ reply. elim reply as (λ o. OnDone (λ (code, out). IsCode code) (finish (pos 0) o)) [
    | none ↦ rw e is_ok_code
    | some r ↦ h r
  ];
  silent = (out, e);
}

-- Two outcomes of a test.
either_out {ℓ} :
    {A : Type ℓ} (t : Bool) (p q : ℤ × A) → IsCode p.0 → IsCode q.0 → IsCode (if t then p else q).0
either_out true p q h k = h
either_out false p q h k = k

pub plain-Coded : Coded plain_result
unfolding plain_result
plain-Coded = Coded-of plain_result tt refl λ r. is_ok_code

pub flag-Coded : Coded flag_result
unfolding flag_result
flag-Coded = Coded-of flag_result false refl λ r. is_ok_code

pub ttl-Coded : (seconds : ℤ) → Coded (ttl_result seconds)
unfolding ttl_result
ttl-Coded seconds = Coded-of (ttl_result seconds) seconds refl λ r. is_ok_code

pub option-Coded : Coded option_result
unfolding option_result
option-Coded = Coded-of option_result false refl λ r. is_ok_code

pub string-Coded : (val : Bytes) → Coded (string_result val)
unfolding string_result
string-Coded val =
    Coded-of (string_result val) val refl
      λ r. either (get_string r val).0 result_ok result_nodata is_ok_code is_nodata_code

pub integer-Coded : (val : ℤ) → Coded (integer_result val)
unfolding integer_result
integer-Coded val =
    Coded-of (integer_result val) val refl
      λ r. either (get_integer r val).0 result_ok err_other is_ok_code is_other_code

pub strings-Coded : Coded strings_result
unfolding strings_result
strings-Coded =
    Coded-of strings_result [] refl
      λ r. either (parse_string_array r []).0 result_ok err_other is_ok_code is_other_code

pub ok-Coded : Coded ok_result
unfolding ok_result
ok-Coded =
    Coded-of ok_result tt refl λ r. either (is_ok r) result_ok err_other is_ok_code is_other_code

pub count-Coded : (good : ℤ → Bool) → Coded (count_result good)
unfolding count_result
count-Coded good =
    Coded-of (count_result good) tt refl
      λ r. either (good (get_integer r (pos 0)).1) result_ok err_other is_ok_code is_other_code

pub code-Coded : (code : ℤ → ℤ) → ((n : ℤ) → IsCode (code n)) → Coded (code_result code)
unfolding code_result
code-Coded code h = Coded-of (code_result code) tt refl λ r.
    either (get_integer r (pos 0)).0 (code (get_integer r (pos 0)).1) err_other
      (h (get_integer r (pos 0)).1) is_other_code

pub exists-Coded : (exists : Bool) → Coded (exists_result exists)
unfolding exists_result
exists-Coded exists =
    Coded-of (exists_result exists) exists refl
      λ r. either_out (get_integer r (pos 0)).0 _ _ is_ok_code is_other_code

pub length-Coded : (len : ℕ) → Coded (length_result len)
unfolding length_result
length-Coded len =
    Coded-of (length_result len) len refl
      λ r. either_out (get_integer r (pos 0)).0 _ _ is_ok_code is_other_code

on_either :
    {A : Type 0} (t : Bool) (p q : Run (ℤ × A))
    → OnDone (λ (code, out). IsCode code) p
    → OnDone (λ (code, out). IsCode code) q
    → OnDone (λ (code, out). IsCode code) (if t then p else q)
on_either true p q h k = h
on_either false p q h k = k

pub hget-Coded : (val : Bytes) → Coded (hget_result val)
unfolding hget_result
hget-Coded val =
    Coded-of (hget_result val) val refl λ r. on_either (is_nil r) _ _ is_nodata_code is_ok_code

pub map-Coded : Coded map_result
unfolding map_result
map-Coded = Coded-of map_result [] refl λ r. on_either (is_nil r) _ _ is_nodata_code (
    OnDone->>= (λ a. Unit {0}) (λ (code, out). IsCode code) (parse_string_map r []) _
      (OnDone_any (parse_string_map r []))
      (λ (is_arr, vals) u. either is_arr result_ok err_other is_ok_code is_other_code))

module _ {S E Q : Type 0} (host : Host S E Q) (fuel : ℕ) where
  -- execCmd returns 0 whatever happens.
  exec_cmd_zero :
      (m : Mgr S E Q) (t : ℤ) (b : Builder) (re_send : Bool)
      → OnDone (λ (ret, x, m'). ret ≡ pos 0) (exec_cmd host fuel m t b re_send)
  unfolding exec_cmd
  exec_cmd_zero m t b re_send =
      OnDone->>= (λ i. Unit {0}) _ (connection_idx t m.connect_num) _ (OnDone_any _)
        (λ i u.
          OnDone->>= (λ p. Unit {0}) _ (exec_on host (try_cmd host fuel) fuel i m re_send (bare b))
            _ (OnDone_any _) (λ p v. refl))

  pub call-IsCode :
      {A : Type 0} (finish : Finish A)
      → Coded finish
      → (args : List Arg) (re_send : Bool) (m : Mgr S E Q) (t : ℤ)
      → OnDone (λ o. IsCode o.code) (call host fuel finish args re_send m t)
  unfolding call finish_with
  call-IsCode {A = A} finish c args re_send m t =
      OnDone->>= (λ (p : ℤ × Cmd × Mgr S E Q). p.0 ≡ pos 0) _ _ _
        (exec_cmd_zero m t (request host.sprintf args) re_send)
        (λ p e.
          OnDone->>= (λ (q : ℤ × A). IsCode q.0) (λ (o : Outcome A (Mgr S E Q)). IsCode o.code)
            (finish p.0 p.1.reply) (finish_with host fuel p.1.sent p.2)
            (subst (λ (v : ℤ). OnDone (λ (code, out). IsCode code) (finish v p.1.reply)) (sym e)
              (c.codes p.1.reply))
            (λ q h. h))

pub added_IsCode : (n : ℤ) → IsCode (added n)
added_IsCode n = either (n ==ℤ pos 0) err_other result_ok is_other_code is_ok_code

pub removed_IsCode : (n : ℤ) → IsCode (removed n)
removed_IsCode n = either (n ==ℤ pos 0) result_nodata result_ok is_nodata_code is_ok_code
