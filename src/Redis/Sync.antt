-- ===== src/Redis/Sync.antt =====
-- RedisSyncCall.cpp: the commands that block until redis has answered. All of them build a request,
-- execute it, and look at the reply; the ways they look at it are the functions `*_result` here, and
-- each command is an operation of a child. An out parameter is an argument, the caller's value, and
-- the field `out` of the outcome. `RecordExecKey` does nothing.
pub mod Keys
pub mod Strings
pub mod Hashes
pub mod Lists
pub mod Sets
pub mod Results
pub mod Commands
pub mod Codes
pub mod Forms
pub mod Shapes
pub mod Interface
use Prim.Native.String.{String}
use seed_core.Prelude.{
  ℕ, Bool, true, false, not, List, [], ◌∷◌, ◌++◌, map, Option, none, some, Bytes, ◌==◌, ltb,
  if◌then◌else◌, Run, done, ◌>>=◌, codes,
}
use seed_core.Prelude.Int.{ℤ, pos, negsuc, ◌==ℤ◌, ltb_ℤ, to_s32, to_u32}
use seed_core.Redis.StringMap.{StringMap}
use seed_core.Redis.Builder.{Arg, string, chars, request}
use seed_core.Redis.Reply.{
  Reply, get_integer, get_string, is_nil, is_ok, parse_string_array, parse_string_map,
}
use seed_core.Redis.Mgr.{Mgr, Host}
use seed_core.Redis.Mgr.Execute.{exec_cmd}

-- REDIS_OK and REDIS_RESULT_OK
abbrev pub result_ok : ℤ
result_ok = pos 0

abbrev pub result_nodata : ℤ
result_nodata = negsuc 998

abbrev pub err_other : ℤ
err_other = pos 2

pub record Outcome (A : Type 0) (M : Type 0) : Type 0 where
  pub code : ℤ
  pub out : A
  pub sent : Bytes
  pub mgr : M

-- What a command makes of the return value of execCmd and of the reply.
abbrev pub Finish : Type 0 → Type 0
Finish A = ℤ → Option Reply → Run (ℤ × A)

-- A literal, and the loops `for (iter : …) cmdBuilder << …` over a vector and over a map.
abbrev pub word : String → Arg
word s = chars (codes s)

abbrev pub strings : List Bytes → List Arg
strings = map string

abbrev pub pairs : StringMap → List Arg
pairs [] = []
pairs ((k, v) ∷ m) = string k ∷ string v ∷ pairs m

module _ {S E Q : Type 0} (host : Host S E Q) (fuel : ℕ) where
  finish_with : {A : Type 0} → Bytes → Mgr S E Q → ℤ × A → Run (Outcome A (Mgr S E Q))
  finish_with sent m (code, out) = done (record { code = code; out = out; sent = sent; mgr = m })

  -- The body that the commands share.
  unfoldable pub call :
      {A : Type 0} → Finish A → List Arg → Bool → Mgr S E Q → ℤ → Run (Outcome A (Mgr S E Q))
  unfolding finish_with
  call finish args re_send m thread_idx =
      exec_cmd host fuel m thread_idx (request host.sprintf args) re_send >>= λ (ret, x, m').
      finish ret x.reply >>= finish_with x.sent m'

-- The reply is not asked for.
unfoldable pub plain_result : Finish (Unit {0})
plain_result ret reply = done (ret, tt)

-- `flag = val != 0`, from the out parameter `false`.
unfoldable pub flag_result : Finish Bool
unfolding get_integer
flag_result ret none = done (ret, false)
flag_result ret (some r) =
    let (is_int, val) = get_integer r (pos 0) in
    done (ret, if is_int then not (val ==ℤ pos 0) else false)

-- `seconds = (s32)val`
unfoldable pub ttl_result : ℤ → Finish ℤ
ttl_result seconds ret none = done (result_ok, seconds)
ttl_result seconds ret (some r) =
    let (is_int, val) = get_integer r (pos 0) in
    done (result_ok, if is_int then to_s32 val else seconds)

unfoldable pub option_result : Finish Bool
option_result ret none = done (ret, false)
option_result ret (some r) = done (ret, is_ok r)

unfoldable pub string_result : Bytes → Finish Bytes
string_result val ret none = done (ret, val)
string_result val ret (some r) =
    let (is_str, val') = get_string r val in
    done (if is_str then result_ok else result_nodata, val')

-- HGet: only a nil reply is told from a string.
unfoldable pub hget_result : Bytes → Finish Bytes
hget_result val ret none = done (ret, val)
hget_result val ret (some r) =
    if is_nil r then done (result_nodata, val) else done (result_ok, (get_string r val).1)

unfoldable pub integer_result : ℤ → Finish ℤ
integer_result val ret none = done (ret, val)
integer_result val ret (some r) =
    let (is_int, val') = get_integer r val in done (if is_int then result_ok else err_other, val')

unfoldable pub strings_result : Finish (List Bytes)
strings_result ret none = done (ret, [])
strings_result ret (some r) =
    let (is_arr, vals) = parse_string_array r [] in
    done (if is_arr then result_ok else err_other, vals)

unfoldable pub ok_result : Finish (Unit {0})
ok_result ret none = done (ret, tt)
ok_result ret (some r) = done (if is_ok r then result_ok else err_other, tt)

-- What a count that is an integer reply says, or the value 0 that it starts with.
unfoldable pub count_result : (ℤ → Bool) → Finish (Unit {0})
count_result good ret none = done (ret, tt)
count_result good ret (some r) =
    done (if good (get_integer r (pos 0)).1 then result_ok else err_other, tt)

-- The code that an integer reply gives, and REDIS_ERR_OTHER for any other.
unfoldable pub code_result : (ℤ → ℤ) → Finish (Unit {0})
code_result code ret none = done (ret, tt)
code_result code ret (some r) =
    let (is_int, val) = get_integer r (pos 0) in done (if is_int then code val else err_other, tt)

unfoldable pub exists_result : Bool → Finish Bool
exists_result exists ret none = done (ret, exists)
exists_result exists ret (some r) =
    let (is_int, val) = get_integer r (pos 0) in
    done (if is_int then (result_ok, val ==ℤ pos 1) else (err_other, exists))

unfoldable pub map_result : Finish StringMap
map_result ret none = done (ret, [])
map_result ret (some r) =
    if is_nil r
    then done (result_nodata, [])
    else (parse_string_map r [] >>= λ (is_arr, vals).
        done (if is_arr then result_ok else err_other, vals))

-- `iLen = (u32)count`
unfoldable pub length_result : ℕ → Finish ℕ
length_result len ret none = done (ret, len)
length_result len ret (some r) =
    let (is_int, count) = get_integer r (pos 0) in
    done (if is_int then (result_ok, to_u32 count) else (err_other, len))
