-- ===== src/Redis/Session/Apart.antt =====
-- RedisMgr.cpp and RedisSyncCall.cpp: commands of two threads whose connections are different ones.
use seed_core.Prelude.{
  ℕ, zero, suc, ◌≡◌, ◌≢◌, refl, sym, ap, ◌∙◌, subst, true, false, List, [], ◌∷◌, Option, none, some,
  Bool, get_elem?, Run, done, fault, >>=-done, done_injective,
}
use seed_core.Prelude.Int.{ℤ, pos}
use seed_core.Redis.Builder.{Builder, Arg, request}
use seed_core.Redis.Transport.{Status, redis_ok, redis_err, Context}
use seed_core.Redis.Mgr.{Connection, Mgr, Host, Cmd, Attempt, connection_idx, at, set_ctx, with_ctx}
use seed_core.Redis.Mgr.Execute.{after_attempt, exec_on, exec_cmd, try_cmd}
use seed_core.Redis.Mgr.Resend.{bare}
use seed_core.Redis.Sync.{Finish, Outcome, call}

module _ {S Q : Type 0} where
  set_ctx_comm :
      (xs : List (Connection S Q)) (i j : ℕ) (c d : Context S)
      → i ≢ j
      → set_ctx (set_ctx xs i c) j d ≡ set_ctx (set_ctx xs j d) i c
  unfolding set_ctx
  set_ctx_comm [] i j c d ne = refl
  set_ctx_comm (x ∷ xs) zero zero c d ne = absurd (ne refl)
  set_ctx_comm (x ∷ xs) zero (suc j) c d ne = refl
  set_ctx_comm (x ∷ xs) (suc i) zero c d ne = refl
  set_ctx_comm (x ∷ xs) (suc i) (suc j) c d ne =
      ap (◌∷◌ x) (set_ctx_comm xs i j c d (λ e. ne (ap suc e)))

  get_elem?-set_ctx_other :
      (xs : List (Connection S Q)) (i j : ℕ) (c : Context S)
      → i ≢ j
      → get_elem? (set_ctx xs i c) j ≡ get_elem? xs j
  unfolding set_ctx
  get_elem?-set_ctx_other [] i j c ne = refl
  get_elem?-set_ctx_other (x ∷ xs) zero zero c ne = absurd (ne refl)
  get_elem?-set_ctx_other (x ∷ xs) zero (suc j) c ne = refl
  get_elem?-set_ctx_other (x ∷ xs) (suc i) zero c ne = refl
  get_elem?-set_ctx_other (x ∷ xs) (suc i) (suc j) c ne =
      get_elem?-set_ctx_other xs i j c (λ e. ne (ap suc e))

module _ {S E Q : Type 0} (host : Host S E Q) (fuel : ℕ) where
  -- The first attempt is the last.
  after_attempt_last :
      {X : Type 0} (attempt : Attempt S X) (i : ℕ) (m : Mgr S E Q) (re_send : Bool) (st : Status)
      (c : Context S) (x : X)
      → after_attempt host attempt fuel i m re_send (st, c, x) ≡ done (with_ctx m i c, x)
  unfolding after_attempt
  after_attempt_last attempt i m true redis_ok c x = refl
  after_attempt_last attempt i m true redis_err c x = refl
  after_attempt_last attempt i m false st c x = refl

  -- A command that came back has worked on one connection, and has read and changed nothing else.
  record Did (m : Mgr S E Q) (thread_idx : ℤ) (b : Builder) (x : Cmd) (m' : Mgr S E Q)
      : Type 0 where
    place : ℕ
    conn : Connection S Q
    status : Status
    after : Context S
    chosen : connection_idx thread_idx m.connect_num ≡ done place
    there : at m.connections place ≡ done conn
    tried : try_cmd host fuel conn.ctx (bare b) ≡ done (status, after, x)
    left : with_ctx m place after ≡ m'

  found_Did :
      (m m1 m' : Mgr S E Q) (thread_idx ret : ℤ) (b : Builder) (re_send : Bool) (i : ℕ)
      (y : Connection S Q) (st : Status) (c : Context S) (x2 x1 x : Cmd)
      → connection_idx thread_idx m.connect_num ≡ done i
      → at m.connections i ≡ done y
      → try_cmd host fuel y.ctx (bare b) ≡ done (st, c, x2)
      → after_attempt host (try_cmd host fuel) fuel i m re_send (st, c, x2) ≡ done (m1, x1)
      → ◌≡◌ {A = Run (ℤ × Cmd × Mgr S E Q)} (done (pos 0, x1, m1)) (done (ret, x, m'))
      → (pos 0 ≡ ret) × Did m thread_idx b x m'
  found_Did m m1 m' t ret b re_send i y st c x2 x1 x chosen there tried left e =
      let e6 : (with_ctx m i c, x2) ≡ (m1, x1) =
        done_injective (sym (after_attempt_last (try_cmd host fuel) i m re_send st c x2) ∙ left) in
      let e7 : (pos 0, x1, m1) ≡ (ret, x, m') = done_injective e in
      (
        ap (λ q. q.0) e7,
        record {
          place = i;
          conn = y;
          status = st;
          after = c;
          chosen = chosen;
          there = there;
          tried = tried ∙ ap (λ z. done (st, c, z)) (ap (λ q. q.1) e6 ∙ ap (λ q. q.1) e7);
          left = ap (λ q. q.0) e6 ∙ ap (λ q. q.2) e7;
        },
      )

  exec_cmd-Did :
      (m m' : Mgr S E Q) (thread_idx ret : ℤ) (b : Builder) (re_send : Bool) (x : Cmd)
      → exec_cmd host fuel m thread_idx b re_send ≡ done (ret, x, m')
      → (pos 0 ≡ ret) × Did m thread_idx b x m'
  unfolding exec_cmd exec_on
  exec_cmd-Did m m' t ret b re_send x e =
      let (i, chosen, e1) = >>=-done (connection_idx t m.connect_num) _ _ e in
      let ((m1, x1), e2, e3) =
        >>=-done (exec_on host (try_cmd host fuel) fuel i m re_send (bare b)) _ _ e1 in
      let (y, there, e4) = >>=-done (at m.connections i) _ _ e2 in
      let ((st, c, x2), tried, e5) = >>=-done (try_cmd host fuel y.ctx (bare b)) _ _ e4 in
      found_Did m m1 m' t ret b re_send i y st c x2 x1 x chosen there tried e5 e3

  Did-exec_cmd :
      (m m' : Mgr S E Q) (thread_idx : ℤ) (b : Builder) (re_send : Bool) (x : Cmd)
      → Did m thread_idx b x m'
      → exec_cmd host fuel m thread_idx b re_send ≡ done (pos 0, x, m')
  unfolding exec_cmd exec_on
  Did-exec_cmd m m' t b re_send x d =
      rw
        (
          d.chosen,
          d.there,
          d.tried,
          after_attempt_last (try_cmd host fuel) d.place m re_send d.status d.after x,
        )
        (ap (λ z. done (pos 0, x, z)) d.left)

  call-Did :
      {A : Type 0} (finish : Finish A) (args : List Arg) (re_send : Bool) (m : Mgr S E Q)
      (thread_idx : ℤ) (o : Outcome A (Mgr S E Q))
      → call host fuel finish args re_send m thread_idx ≡ done o
      → (x : Cmd) × Did m thread_idx (request host.sprintf args) x o.mgr
        × (finish (pos 0) x.reply ≡ done (o.code, o.out))
        × (x.sent ≡ o.sent)
  unfolding call
  call-Did finish args re_send m t o e =
      let ((ret, x, m'), ran, e1) =
        >>=-done (exec_cmd host fuel m t (request host.sprintf args) re_send) _ _ e in
      let (zero_, d) = exec_cmd-Did m m' t ret (request host.sprintf args) re_send x ran in
      let ((code, out), ends, e2) = >>=-done (finish ret x.reply) _ _ e1 in
      let same : (record { code = code; out = out; sent = x.sent; mgr = m' }) ≡ o =
        done_injective e2 in
      (
        x,
        subst (Did m t (request host.sprintf args) x) (ap (λ q. q.mgr) same) d,
        ap (λ z. finish z x.reply) zero_ ∙ ends ∙ ap (λ q. done (q.code, q.out)) same,
        ap (λ q. q.sent) same,
      )

  Did-call :
      {A : Type 0} (finish : Finish A) (args : List Arg) (re_send : Bool) (m m' : Mgr S E Q)
      (thread_idx : ℤ) (o : Outcome A (Mgr S E Q)) (x : Cmd)
      → Did m thread_idx (request host.sprintf args) x m'
      → finish (pos 0) x.reply ≡ done (o.code, o.out)
      → x.sent ≡ o.sent
      → call host fuel finish args re_send m thread_idx ≡ done (record o { mgr = m' })
  unfolding call
  Did-call finish args re_send m m' t o x d ends sent =
      rw (Did-exec_cmd m m' t (request host.sprintf args) re_send x d, ends)
        (ap (λ z. done (record o { sent = z; mgr = m' })) sent)

  -- Two commands on different connections, in the other order.
  Did-swap :
      (m m1 m2 : Mgr S E Q) (t u : ℤ) (b c : Builder) (x y : Cmd)
      → connection_idx t m.connect_num ≢ connection_idx u m.connect_num
      → Did m t b x m1
      → Did m1 u c y m2
      → (m' : Mgr S E Q) × Did m u c y m' × Did m' t b x m2
  Did-swap m m1 m2 t u b c x y ne d f =
      let num : m1.connect_num ≡ m.connect_num = ap (λ q. q.connect_num) (sym d.left) in
      let chosen : connection_idx u m.connect_num ≡ done f.place =
        ap (connection_idx u) (sym num) ∙ f.chosen in
      let apart : d.place ≢ f.place = λ e. ne (d.chosen ∙ ap done e ∙ sym chosen) in
      (
        with_ctx m f.place f.after,
        record {
          place = f.place;
          conn = f.conn;
          status = f.status;
          after = f.after;
          chosen = chosen;
          there =
              at_other m.connections d.place f.place d.after apart
              ∙ ap (λ q. at q.connections f.place) d.left
              ∙ f.there;
          tried = f.tried;
          left = refl;
        },
        record {
          place = d.place;
          conn = d.conn;
          status = d.status;
          after = d.after;
          chosen = d.chosen;
          there =
              sym (at_other m.connections f.place d.place f.after (λ e. apart (sym e))) ∙ d.there;
          tried = d.tried;
          left =
              ap (λ q. record m { connections = q })
                (sym (set_ctx_comm m.connections d.place f.place d.after f.after apart))
              ∙ ap (λ q. with_ctx q f.place f.after) d.left
              ∙ f.left;
        },
      )
    where
      at_other :
          (xs : List (Connection S Q)) (i j : ℕ) (z : Context S)
          → i ≢ j
          → at xs j ≡ at (set_ctx xs i z) j
      at_other xs i j z ne' =
          ap (λ (o : Option (Connection S Q)). elim o [ none ↦ fault | some a ↦ done a ])
            (sym (get_elem?-set_ctx_other xs i j z ne'))

  -- The same for commands.
  pub call-swap :
      {A B : Type 0} (finish : Finish A) (args : List Arg) (re_send : Bool) (finish' : Finish B)
      (args' : List Arg) (re_send' : Bool) (m : Mgr S E Q) (t u : ℤ) (o : Outcome A (Mgr S E Q))
      (p : Outcome B (Mgr S E Q))
      → connection_idx t m.connect_num ≢ connection_idx u m.connect_num
      → call host fuel finish args re_send m t ≡ done o
      → call host fuel finish' args' re_send' o.mgr u ≡ done p
      → (m' : Mgr S E Q) × (call host fuel finish' args' re_send' m u
          ≡ done (record p { mgr = m' }))
        × (call host fuel finish args re_send m' t ≡ done (record o { mgr = p.mgr }))
  call-swap finish args re_send finish' args' re_send' m t u o p ne ran ran' =
      let (x, d, ends, sent) = call-Did finish args re_send m t o ran in
      let (y, f, ends', sent') = call-Did finish' args' re_send' o.mgr u p ran' in
      let (m', first, second) = Did-swap m o.mgr p.mgr t u _ _ x y ne d f in
      (
        m',
        Did-call finish' args' re_send' m m' u p y first ends' sent',
        Did-call finish args re_send m' p.mgr t o x second ends sent,
      )

  pub connect_num-call :
      {A : Type 0} (finish : Finish A) (args : List Arg) (re_send : Bool) (m : Mgr S E Q) (t : ℤ)
      (o : Outcome A (Mgr S E Q))
      → call host fuel finish args re_send m t ≡ done o
      → o.mgr.connect_num ≡ m.connect_num
  connect_num-call finish args re_send m t o ran =
      let (x, d, _, _) = call-Did finish args re_send m t o ran in
      ap (λ q. q.connect_num) (sym d.left)

  -- What a command leaves alone: the number of connections, and every other connection.
  pub call_keeps :
      {A : Type 0} (finish : Finish A) (args : List Arg) (re_send : Bool) (m : Mgr S E Q) (t : ℤ)
      (o : Outcome A (Mgr S E Q)) (j : ℕ)
      → connection_idx t m.connect_num ≢ done j
      → call host fuel finish args re_send m t ≡ done o
      → get_elem? o.mgr.connections j ≡ get_elem? m.connections j
  call_keeps finish args re_send m t o j ne ran =
      let (x, d, _, _) = call-Did finish args re_send m t o ran in
      ap (λ (q : Mgr S E Q). get_elem? q.connections j) (sym d.left)
      ∙ get_elem?-set_ctx_other m.connections d.place j d.after (λ e. ne (d.chosen ∙ ap done e))
