-- ===== src/Redis/Session/Program.antt =====
-- IRedisMgr.h: callers of the synchronous interface. A caller calls one command after another, and
-- what it calls next depends on the codes and the out parameters that it got.
use seed_core.Prelude.{
  ℕ, suc, ◌+◌, ◌≤◌, arith, starved, ◌≡◌, ap, some, Run, done, fault, ◌>>=◌, >>=-done, subst,
  done_injective,
}
use seed_core.Prelude.Int.{ℤ, pos}
use seed_core.Redis.Builder.{IsSprintf}
use seed_core.Redis.Builder.Encoding.{texts}
use seed_core.Redis.Reply.{Reply}
use seed_core.Redis.Transport.Write.{Accepts}
use seed_core.Redis.Mgr.{Mgr, Host}
use seed_core.Redis.Sync.{call}
use seed_core.Redis.Sync.Results.{Sendable}
use seed_core.Redis.Sync.Commands.{Command}
use seed_core.Redis.Sync.Forms.{form}
use seed_core.Redis.Session.{Answer, Session}
use seed_core.Redis.Session.Served.{Connected, call_session}

-- A caller that ends with an `A`, or that does what C++ leaves undefined.
pub data Program (A : Type 0) : Type 1 where
  finished : A → Program A
  undefined : Program A
  ask : (command : Command) → (ℤ → (form command).A → Program A) → Program A

-- Every request that the caller may make is within the sizes and the fuel of `Sendable`.
abbrev pub AllSendable : {A : Type 0} → ℕ → Program A → Type 0
AllSendable fuel (finished a) = Unit {0}
AllSendable fuel undefined = Unit {0}
AllSendable fuel (ask command next) =
    Sendable fuel (form command).args
    × ((code : ℤ) (out : (form command).A) → AllSendable fuel (next code out))

module _ {S E Q : Type 0} (host : Host S E Q) (fuel : ℕ) where
  -- The caller on a thread of the module.
  unfoldable pub run_program : {A : Type 0} → Program A → Mgr S E Q → ℤ → Run (A × Mgr S E Q)
  run_program (finished a) m thread_idx = done (a, m)
  run_program undefined m thread_idx = fault
  run_program (ask command next) m thread_idx =
      call host fuel (form command).finish (form command).args (form command).re_send m thread_idx
      >>= λ o. run_program (next o.code o.out) o.mgr thread_idx

module _ {D : Type 0} (answer : Answer D) where
  -- The same caller on the data alone: every command is at once the server's answer to its operands
  -- and the reading of that answer.
  unfoldable pub over_data : {A : Type 0} → Program A → D → Run (A × D)
  over_data (finished a) d = done (a, d)
  over_data undefined d = fault
  over_data (ask command next) d =
      let (reply, d') = answer (texts (form command).args) d in
      (form command).finish (pos 0) (some reply) >>= λ (code, out). over_data (next code out) d'

-- The number that a run gives, or zero.
abbrev pub or_zero : Run ℕ → ℕ
or_zero (done n) = n
or_zero starved = 0
or_zero fault = 0

module _ {D : Type 0} (answer : Answer D) (size : Reply → ℕ) where
  -- The bytes of all the replies that the caller gets on the data `d`. Read in whatever pieces, they
  -- take no more reads than that.
  unfoldable pub reply_bytes : {A : Type 0} → Program A → D → ℕ
  reply_bytes (finished a) d = 0
  reply_bytes undefined d = 0
  reply_bytes (ask command next) d =
      let (reply, d') = answer (texts (form command).args) d in
      size reply
      + or_zero (
          (form command).finish (pos 0) (some reply) >>= λ (code, out).
          done (reply_bytes (next code out) d'))

module _ {S E Q : Type 0} (host : Host S E Q) (law : IsSprintf host.sprintf) {live : S → Type 0}
    {D : Type 0} {answer : Answer D} (p : Session host.net live answer)
    (a : Accepts host.net live) where
  -- Over a working connection to a server that keeps data and is idle, with the data `d`, a caller
  -- that makes requests within the sizes and the fuel of `Sendable`, one after another on one
  -- thread, and gets replies of no more bytes than the fuel, which come in whatever pieces, ends as it
  -- does on the data alone, if that ends: with the same result, and the server is idle again and has
  -- the same data.
  pub run_program-over_data :
      {A : Type 0} (program : Program A) (fuel i : ℕ) (m : Mgr S E Q) (thread_idx : ℤ) (d d' : D)
      (result : A)
      → Connected p m thread_idx i d
      → AllSendable fuel program
      → reply_bytes answer p.size program d ≤ fuel
      → over_data answer program d ≡ done (result, d')
      → (m' : Mgr S E Q) × (run_program host (suc fuel) program m thread_idx ≡ done (result, m'))
        × Connected p m' thread_idx i d'
  unfolding run_program over_data reply_bytes
  run_program-over_data {A} (finished b) fuel i m t d d' result at s room e =
      let same = done_injective e in
      (
        m,
        ap (λ (q : A × D). done (q.0, m)) same,
        subst (Connected p m t i) (ap (λ (q : A × D). q.1) same) at,
      )
  run_program-over_data undefined fuel i m t d d' result at s room e = cc
  run_program-over_data (ask command next) fuel i m t d d' result at (s, more) room e =
      let ((code, out), reads, ends) = >>=-done _ _ _ e in
      let after : D = (answer (texts (form command).args) d).1 in
      let size : ℕ = p.size (answer (texts (form command).args) d).0 in
      let bytes : size + reply_bytes answer p.size (next code out) after ≤ fuel =
        subst
          (λ (r : Run (ℤ × (form command).A)).
            size + or_zero (r >>= λ (k, x). done (reply_bytes answer p.size (next k x) after))
            ≤ fuel)
          reads room in
      let (m', ran, at') =
        call_session host law p a (form command).finish (form command).args (form command).re_send
          fuel i m t d code out at s (omega arith) reads in
      let (m'', ran', at'') =
        run_program-over_data (next code out) fuel i m' t _ d' result at' (more code out)
          (omega arith) ends in
      (m'', rw ran ran', at'')
