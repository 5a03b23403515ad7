-- ===== src/Redis/Session/Threads.antt =====
-- RedisSyncCall.cpp: callers on two threads of the module.
use seed_core.Prelude.{
  ℕ, ◌≡◌, ◌≢◌, ◌<◌, ◌≤◌, refl, sym, ap, ◌∙◌, Bool, true, false, List, [], ◌∷◌, Run, done, ◌>>=◌,
  >>=-done, done_injective, get_elem?, suc,
}
use seed_core.Prelude.Int.{ℤ, pos, two31}
use seed_core.Redis.Mgr.{Mgr, Host, connection_idx}
use seed_core.Redis.Mgr.Select.{connection_idx_apart}
use seed_core.Redis.Sync.{Outcome, call}
use seed_core.Redis.Sync.Commands.{Command}
use seed_core.Redis.Sync.Forms.{form}
use seed_core.Redis.Session.Program.{
  Program, finished, undefined, ask, run_program, AllSendable, over_data, reply_bytes,
  run_program-over_data,
}
use seed_core.Redis.Session.{Answer, Session}
use seed_core.Redis.Session.Served.{Connected}
use seed_core.Redis.Builder.{IsSprintf}
use seed_core.Redis.Transport.Write.{Accepts}
use seed_core.Redis.Session.Apart.{call-swap, connect_num-call, call_keeps}

module _ {S E Q : Type 0} where
  differ_still :
      (n t u : ℕ) (m : Mgr S E Q)
      → 0 < n
      → n < two31
      → t ≤ n
      → u ≤ n
      → t ≢ u
      → m.connect_num ≡ pos n
      → connection_idx (pos t) m.connect_num ≢ connection_idx (pos u) m.connect_num
  differ_still n t u m some_ small h k differ num e =
      connection_idx_apart n some_ small t u h k differ
        (ap (connection_idx (pos t)) (sym num) ∙ e ∙ ap (connection_idx (pos u)) num)

module _ {S E Q : Type 0} (host : Host S E Q) (fuel : ℕ) where
  -- A command of the interface.
  abbrev issue : (c : Command) → Mgr S E Q → ℤ → Run (Outcome (form c).A (Mgr S E Q))
  issue c m t = call host fuel (form c).finish (form c).args (form c).re_send m t

  -- Two callers on the threads `t` and `u`: the list says whose command is next, and when it is at
  -- its end the first of them goes on to its end and then the second.
  abbrev pub interleave :
      {A B : Type 0}
      → List Bool
      → Program A
      → Program B
      → Mgr S E Q
      → ℤ
      → ℤ
      → Run ((A × B) × Mgr S E Q)
  interleave [] p q m t u = run_program host fuel p m t >>= λ (a, m').
      run_program host fuel q m' u >>= λ (b, m''). done ((a, b), m'')
  interleave (true ∷ turns) (ask c next) q m t u =
      issue c m t >>= λ o. interleave turns (next o.code o.out) q o.mgr t u
  interleave (true ∷ turns) (finished a) q m t u = interleave turns (finished a) q m t u
  interleave (true ∷ turns) undefined q m t u = interleave turns undefined q m t u
  interleave (false ∷ turns) p (ask c next) m t u =
      issue c m u >>= λ o. interleave turns p (next o.code o.out) o.mgr t u
  interleave (false ∷ turns) p (finished b) m t u = interleave turns p (finished b) m t u
  interleave (false ∷ turns) p undefined m t u = interleave turns p undefined m t u

  -- A command on one connection that comes behind a caller on another may as well come before it.
  command_first :
      {A : Type 0} (p : Program A) (c : Command) (m m1 : Mgr S E Q) (t u : ℤ) (a : A)
      (o : Outcome (form c).A (Mgr S E Q))
      → connection_idx t m.connect_num ≢ connection_idx u m.connect_num
      → run_program host fuel p m t ≡ done (a, m1)
      → issue c m1 u ≡ done o
      → (m' : Mgr S E Q) × (issue c m u ≡ done (record o { mgr = m' }))
        × (run_program host fuel p m' t ≡ done (a, o.mgr))
  unfolding run_program
  command_first {A = A} (finished a') c m m1 t u a o ne ran ran' =
      let e : ◌≡◌ {A = A × Mgr S E Q} (a', m) (a, m1) = done_injective ran in
      (
        o.mgr,
        ap (λ (q : Mgr S E Q). issue c q u) (ap (λ q. q.1) e) ∙ ran',
        ap (λ (z : A). done (z, o.mgr)) (ap (λ q. q.0) e),
      )
  command_first undefined c m m1 t u a o ne ran ran' = cc
  command_first (ask d next) c m m1 t u a o ne ran ran' =
      let (o1, first, rest) = >>=-done (issue d m t) _ _ ran in
      let num = connect_num-call host fuel _ _ _ m t o1 first in
      let (m2, before, after) =
        command_first (next o1.code o1.out) c o1.mgr m1 t u a o
          (λ e. ne (ap (connection_idx t) (sym num) ∙ e ∙ ap (connection_idx u) num)) rest ran' in
      let (m', swapped, then_) =
        call-swap host fuel _ _ _ _ _ _ m t u o1 (record o { mgr = m2 }) ne first before in
      (
        m',
        swapped,
        ap (λ r. r >>= λ x. run_program host fuel (next x.code x.out) x.mgr t) then_ ∙ after,
      )

  -- Both callers, the second behind the first.
  in_turn :
      {A B : Type 0} (p : Program A) (q : Program B) (m m1 m2 : Mgr S E Q) (t u : ℤ) (a : A) (b : B)
      → run_program host fuel p m t ≡ done (a, m1)
      → run_program host fuel q m1 u ≡ done (b, m2)
      → interleave [] p q m t u ≡ done ((a, b), m2)
  in_turn p q m m1 m2 t u a b ran ran' = rw (ran, ran') refl

  apart_still :
      (m m' : Mgr S E Q) (t u : ℤ)
      → m'.connect_num ≡ m.connect_num
      → connection_idx t m.connect_num ≢ connection_idx u m.connect_num
      → connection_idx t m'.connect_num ≢ connection_idx u m'.connect_num
  apart_still m m' t u num ne e =
      ne (ap (connection_idx t) (sym num) ∙ e ∙ ap (connection_idx u) num)

  interleave_apart :
      {A B : Type 0} (turns : List Bool) (p : Program A) (q : Program B) (m m1 m2 : Mgr S E Q)
      (t u : ℤ) (a : A) (b : B)
      → connection_idx t m.connect_num ≢ connection_idx u m.connect_num
      → run_program host fuel p m t ≡ done (a, m1)
      → run_program host fuel q m1 u ≡ done (b, m2)
      → interleave turns p q m t u ≡ done ((a, b), m2)
  unfolding run_program
  interleave_apart [] p q m m1 m2 t u a b ne ran ran' = in_turn p q m m1 m2 t u a b ran ran'
  interleave_apart (true ∷ turns) (ask c next) q m m1 m2 t u a b ne ran ran' =
      let (o, first, rest) = >>=-done (issue c m t) _ _ ran in
      ap (λ r. r >>= λ x. interleave turns (next x.code x.out) q x.mgr t u) first
      ∙ interleave_apart turns (next o.code o.out) q o.mgr m1 m2 t u a b
          (apart_still m o.mgr t u (connect_num-call host fuel _ _ _ m t o first) ne) rest ran'
  interleave_apart (true ∷ turns) (finished a') q m m1 m2 t u a b ne ran ran' =
      interleave_apart turns (finished a') q m m1 m2 t u a b ne ran ran'
  interleave_apart (true ∷ turns) undefined q m m1 m2 t u a b ne ran ran' = cc
  interleave_apart (false ∷ turns) p (ask c next) m m1 m2 t u a b ne ran ran' =
      let (o, issued, rest) = >>=-done (issue c m1 u) _ _ ran' in
      let (m', first, ran2) = command_first p c m m1 t u a o ne ran issued in
      ap (λ r. r >>= λ x. interleave turns p (next x.code x.out) x.mgr t u) first
      ∙ interleave_apart turns p (next o.code o.out) m' o.mgr m2 t u a b
          (apart_still m m' t u (connect_num-call host fuel _ _ _ m u _ first) ne) ran2 rest
  interleave_apart (false ∷ turns) p (finished b') m m1 m2 t u a b ne ran ran' =
      interleave_apart turns p (finished b') m m1 m2 t u a b ne ran ran'
  interleave_apart (false ∷ turns) p undefined m m1 m2 t u a b ne ran ran' = cc

  -- What a caller leaves alone.
  run_program_keeps :
      {A : Type 0} (p : Program A) (m m' : Mgr S E Q) (t : ℤ) (a : A) (j : ℕ)
      → connection_idx t m.connect_num ≢ done j
      → run_program host fuel p m t ≡ done (a, m')
      → (m'.connect_num ≡ m.connect_num) × (get_elem? m'.connections j ≡ get_elem? m.connections j)
  unfolding run_program
  run_program_keeps {A = A} (finished a') m m' t a j ne ran =
      let e : ◌≡◌ {A = A × Mgr S E Q} (a', m) (a, m') = done_injective ran in
      (ap (λ q. q.1.connect_num) (sym e), ap (λ q. get_elem? q.1.connections j) (sym e))
  run_program_keeps undefined m m' t a j ne ran = cc
  run_program_keeps (ask c next) m m' t a j ne ran =
      let (o, first, rest) = >>=-done (issue c m t) _ _ ran in
      let num = connect_num-call host fuel _ _ _ m t o first in
      let (num', there) =
        run_program_keeps (next o.code o.out) o.mgr m' t a j
          (λ e. ne (ap (connection_idx t) (sym num) ∙ e)) rest in
      (num' ∙ num, there ∙ call_keeps host fuel _ _ _ m t o j ne first)

module _ {S E Q : Type 0} (host : Host S E Q) (law : IsSprintf host.sprintf) {live : S → Type 0}
    {D : Type 0} {answer : Answer D} (s : Session host.net live answer)
    (takes : Accepts host.net live) where
  -- A connection that works and whose server is idle is so still behind a caller on another one.
  Connected-run_program :
      {A : Type 0} (fuel : ℕ) (p : Program A) (m m' : Mgr S E Q) (t u : ℤ) (i j : ℕ) (a : A) (d : D)
      → i ≢ j
      → connection_idx t m.connect_num ≡ done i
      → run_program host fuel p m t ≡ done (a, m')
      → Connected s m u j d
      → Connected s m' u j d
  Connected-run_program fuel p m m' t u i j a d ne chosen ran at =
      let (num, there) =
        run_program_keeps host fuel p m m' t a j (λ e. ne (done_injective (sym chosen ∙ e))) ran in
      record {
        ct = at.ct;
        reached = record {
          chosen = ap (connection_idx u) num ∙ at.reached.chosen;
          conn = at.reached.conn;
          there = there ∙ at.reached.there;
          at = at.reached.at;
        };
        idle = at.idle;
      }

  -- In a module with `n` workers, at least one and fewer than 2^31, two callers on two different
  -- threads of 0 to `n`, over working connections whose servers are idle and keep the data `d` and
  -- `e`, with requests within the sizes and the fuel of `Sendable` and, for each caller, replies of
  -- together no more bytes than the fuel: if each ends on its data alone,
  -- then in every order of their commands both end, each with the result that it has on its own
  -- data, and both servers are idle again, with the data that each caller leaves alone.
  pub interleave-over_data :
      {A B : Type 0} (n t u fuel i j : ℕ) (turns : List Bool) (p : Program A) (q : Program B)
      (m : Mgr S E Q) (a : A) (b : B) (d d' e e' : D)
      → 0 < n
      → n < two31
      → t ≤ n
      → u ≤ n
      → t ≢ u
      → m.connect_num ≡ pos n
      → Connected s m (pos t) i d
      → Connected s m (pos u) j e
      → AllSendable fuel p
      → AllSendable fuel q
      → reply_bytes answer s.size p d ≤ fuel
      → reply_bytes answer s.size q e ≤ fuel
      → over_data answer p d ≡ done (a, d')
      → over_data answer q e ≡ done (b, e')
      → (m' : Mgr S E Q) × (interleave host (suc fuel) turns p q m (pos t) (pos u)
          ≡ done ((a, b), m'))
        × Connected s m' (pos t) i d'
        × Connected s m' (pos u) j e'
  interleave-over_data n t u fuel i j turns p q m a b d d' e e' some_ small h k differ num at_t at_u
        sends sends' room room' ends ends' =
      let apart = differ_still n t u m some_ small h k differ num in
      let other : i ≢ j = λ z. apart (at_t.reached.chosen ∙ ap done z ∙ sym at_u.reached.chosen) in
      let (m1, ran, after_t) =
        run_program-over_data host law s takes p fuel i m (pos t) d d' a at_t sends room ends in
      let still_u =
        Connected-run_program (suc fuel) p m m1 (pos t) (pos u) i j a e other at_t.reached.chosen
          ran at_u in
      let (m2, ran', after_u) =
        run_program-over_data host law s takes q fuel j m1 (pos u) e e' b still_u sends' room'
          ends' in
      (
        m2,
        interleave_apart host (suc fuel) turns p q m m1 m2 (pos t) (pos u) a b apart ran ran',
        Connected-run_program (suc fuel) q m1 m2 (pos u) (pos t) j i b d' (λ z. other (sym z))
            still_u.reached.chosen ran' after_t,
        after_u,
      )
