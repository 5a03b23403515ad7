-- ===== src/Redis/Session/Strings.antt =====
-- RedisSyncCall.cpp, Set and Get one after the other over a server that keeps strings.
use seed_core.Prelude.{
  ℕ, suc, ◌≤◌, ◌≡◌, refl, ap, ◌∙◌, [], ◌∷◌, Option, none, some, Bytes, codes, arith, if◌then◌else◌,
  Run, done, ◌>>=◌,
}
use seed_core.Prelude.Int.{ℤ, pos}
use seed_core.Redis.Builder.{IsSprintf, string, c_str}
use seed_core.Redis.Reply.{Reply, str, nil, status, get_string, bytes_eq}
use seed_core.Redis.Transport.Write.{Accepts}
use seed_core.Redis.Mgr.{Mgr, Host}
use seed_core.Redis.Sync.{word, result_ok, result_nodata, plain_result, string_result}
use seed_core.Redis.Sync.Results.{Sendable}
use seed_core.Redis.Sync.Strings.{set_string, get}
use seed_core.Redis.Sync.Commands.{set_string_cmd, get_cmd}
use seed_core.Redis.Session.{Answer, Session}
use seed_core.Redis.Session.Served.{Connected}
use seed_core.Redis.Session.Program.{
  Program, finished, ask, run_program, over_data, reply_bytes, run_program-over_data,
}

-- What redis says of GET for a value, or for none.
abbrev pub got : Option Bytes → Reply
got none = nil
got (some v) = str v

-- The documented behaviour of SET and GET on a server whose strings are `value`.
pub record IsStrings {D : Type 0} (answer : Answer D) : Type 0 where
  pub value : D → Bytes → Option Bytes
  pub set_reply :
      (k v : Bytes) (d : D) → (answer (codes "SET" ∷ k ∷ v ∷ []) d).0 ≡ status (codes "OK")
  pub value-set :
      (k v j : Bytes) (d : D)
      → value (answer (codes "SET" ∷ k ∷ v ∷ []) d).1 j
        ≡ (if bytes_eq k j then some v else value d j)
  pub get_reply : (k : Bytes) (d : D) → (answer (codes "GET" ∷ k ∷ []) d).0 ≡ got (value d k)
  pub value-get : (k j : Bytes) (d : D) → value (answer (codes "GET" ∷ k ∷ []) d).1 j ≡ value d j

-- What Get gives for a value: its code, and the out parameter, whose old value is `old`. An empty
-- string leaves it as it was.
abbrev pub get_outcome : Bytes → Option Bytes → ℤ × Bytes
get_outcome old none = (result_nodata, old)
get_outcome old (some []) = (result_ok, old)
get_outcome old (some (x ∷ xs)) = (result_ok, x ∷ xs)

string_result-got :
    (old : Bytes) (o : Option Bytes)
    → string_result old (pos 0) (some (got o)) ≡ done (get_outcome old o)
unfolding string_result get_string
string_result-got old none = refl
string_result-got old (some []) = refl
string_result-got old (some (x ∷ xs)) = ground arith

-- Set of one key and Get of one, which may be the same.
abbrev pub set_and_get : Bytes → Bytes → Bytes → Bytes → Program (ℤ × (ℤ × Bytes))
set_and_get k v j old =
    ask (set_string_cmd k v)
      λ set_code _. ask (get_cmd j old) λ code out. finished (set_code, (code, out))

module _ {D : Type 0} (answer : Answer D) (laws : IsStrings answer) where
  set_and_get_data :
      (k v j old : Bytes) (d : D)
      → (d' : D) × (over_data answer (set_and_get k v j old) d
          ≡ done
              ((result_ok, get_outcome old (if bytes_eq k j then some v else laws.value d j)), d'))
        × ((i : Bytes) → laws.value d' i ≡ (if bytes_eq k i then some v else laws.value d i))
  unfolding over_data plain_result c_str
  set_and_get_data k v j old d =
      let d1 : D = (answer (codes "SET" ∷ k ∷ v ∷ []) d).1 in
      let d2 : D = (answer (codes "GET" ∷ j ∷ []) d1).1 in
      let pack : ℤ × Bytes → Run ((ℤ × (ℤ × Bytes)) × D) = λ q. done ((pos 0, (q.0, q.1)), d2) in
      (
        d2,
        ap (λ (r : Run (ℤ × Bytes)). r >>= pack)
            (ap (λ (r : Reply). string_result old (pos 0) (some r))
                (laws.get_reply j d1 ∙ ap got (laws.value-set k v j d))
              ∙ string_result-got old (if bytes_eq k j then some v else laws.value d j)),
        λ i. laws.value-get j i d1 ∙ laws.value-set k v i d,
      )

module _ {S E Q : Type 0} (host : Host S E Q) (fuel : ℕ) where
  -- The same as the two functions of the interface.
  abbrev pub set_then_get :
      Bytes → Bytes → Bytes → Bytes → Mgr S E Q → ℤ → Run ((ℤ × (ℤ × Bytes)) × Mgr S E Q)
  set_then_get k v j old m t = set_string host fuel k v m t >>= λ set_.
      get host fuel j old set_.mgr t >>= λ got_. done ((set_.code, (got_.code, got_.out)), got_.mgr)

  run_program-set_and_get :
      (k v j old : Bytes) (m : Mgr S E Q) (t : ℤ)
      → set_then_get k v j old m t ≡ run_program host fuel (set_and_get k v j old) m t
  unfolding run_program set_string get
  run_program-set_and_get k v j old m t = refl

module _ {S E Q : Type 0} (host : Host S E Q) (law : IsSprintf host.sprintf) {live : S → Type 0}
    {D : Type 0} {answer : Answer D} (p : Session host.net live answer) (a : Accepts host.net live)
    (laws : IsStrings answer) where
  -- Over a working connection to an idle server that keeps strings as redis documents it, `Set` and
  -- after it `Get`, of the same key or of another, for requests within the sizes and the fuel of
  -- `Sendable` and replies of together no more bytes than the fuel: both reach the server, `Get` gives the value that was set if the keys are the same
  -- and else the one that was there, or REDIS_RESULT_NODATA if there was none, and an empty string
  -- leaves the caller's variable as it was. After that the server is idle, and of its strings only
  -- that of the first key has changed.
  pub set_string-get :
      (k v j old : Bytes) (fuel i : ℕ) (m : Mgr S E Q) (thread_idx : ℤ) (d : D)
      → Connected p m thread_idx i d
      → Sendable fuel (word "SET" ∷ string k ∷ string v ∷ [])
      → Sendable fuel (word "GET" ∷ string j ∷ [])
      → reply_bytes answer p.size (set_and_get k v j old) d ≤ fuel
      → (m' : Mgr S E Q) × (d' : D) × (set_then_get host (suc fuel) k v j old m thread_idx
          ≡ done
              ((result_ok, get_outcome old (if bytes_eq k j then some v else laws.value d j)), m'))
        × Connected p m' thread_idx i d'
        × ((l : Bytes) → laws.value d' l ≡ (if bytes_eq k l then some v else laws.value d l))
  set_string-get k v j old fuel i m t d at s1 s2 room =
      let (d', ends, values) = set_and_get_data answer laws k v j old d in
      let (m', ran, at') =
        run_program-over_data host law p a (set_and_get k v j old) fuel i m t d d' _ at
          (s1, λ code out. (s2, λ code' out'. tt)) room ends in
      (m', d', run_program-set_and_get host (suc fuel) k v j old m t ∙ ran, at', values)
