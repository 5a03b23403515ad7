-- ===== src/Mysql/Connection/Trace.antt =====
-- DBConnection.cpp, execute: what a connection counts while it executes statements.
use seed_core.Prelude.{
  ℕ, suc, ◌+◌, ◌≤◌, ◌<◌, ◌≡◌, refl, ap, subst, ◌∙◌, Bool, true, false, List, [], ◌∷◌, Bytes, arith,
  length, Run, done, ◌>>=◌,
}
use seed_core.Prelude.Int.{pos, ltb_ℤ, inc, to_s64, to_s64-pos, two63}
use seed_core.Mysql.{ConnectionInfo, Client}
use seed_core.Mysql.Connection.{
  ConnectionTraceInfo, DbConnection, traced, new_connection, after_execute, execute,
}
use seed_core.Mysql.Connection.Active.{IsClock, ticks, inner_execute_returns}

-- The statements that failed.
abbrev pub fails : List Bool → ℕ
fails [] = 0
fails (true ∷ rets) = fails rets
fails (false ∷ rets) = fails rets + 1

-- `n` statements were executed, `k` of which failed.
pub record IsCounted (n : ℕ) (k : ℕ) (t : ConnectionTraceInfo) : Type 0 where
  pub executed : t.exec_count ≡ pos n
  pub failed : t.fail_count ≡ pos k
  pub at_zero : t.min_exec_time ≡ pos 0

abbrev failing : Bool → ℕ → ℕ
failing true k = k
failing false k = k + 1

failing_le : (ret : Bool) (k n : ℕ) → k ≤ n → failing ret k ≤ n + 1
failing_le true k n le = omega arith
failing_le false k n le = omega arith

failing_fails :
    (ret : Bool) (k : ℕ) (rets : List Bool) → failing ret k + fails rets ≡ k + fails (ret ∷ rets)
failing_fails true k rets = refl
failing_fails false k rets = omega arith

IsCounted-at :
    (n n' k k' : ℕ)
    → n ≡ n'
    → k ≡ k'
    → {t : ConnectionTraceInfo} → IsCounted n k t
    → IsCounted n' k' t
IsCounted-at n n' k k' e f {t} h =
    subst (λ i. IsCounted i k' t) e (subst (λ i. IsCounted n i t) f h)

zero_is_least : (time : ℕ) → ltb_ℤ (pos time) (pos 0) ≡ false
zero_is_least time = ground arith

traced-IsCounted :
    (n k : ℕ) (time : ℕ) (ret : Bool) (t : ConnectionTraceInfo)
    → k + 1 < two63
    → IsCounted n k t
    → IsCounted n (failing ret k) (traced (pos time) ret t)
unfolding traced
traced-IsCounted n k time true t small h = record {
  executed = h.executed;
  failed = h.failed;
  at_zero = rw (h.at_zero, zero_is_least time) refl;
}
traced-IsCounted n k time false t small h = record {
  executed = h.executed;
  failed = rw h.failed (to_s64-pos (k + 1) small);
  at_zero = rw (h.at_zero, zero_is_least time) refl;
}

module _ {H W R : Type 0} (client : Client H W R) where
  -- The connection executes one statement after another.
  abbrev pub execute_all :
      ℕ → List Bytes → DbConnection H → W → Run (List Bool × DbConnection H × W)
  execute_all fuel [] c w = done ([], c, w)
  execute_all fuel (sql ∷ sqls) c w = execute client fuel sql c w >>= λ (ret, c', w').
      execute_all fuel sqls c' w' >>= λ (rets, c'', w''). done (ret ∷ rets, c'', w'')

module _ {H W R : Type 0} (client : Client H W R) (clock : IsClock client)
    (forward : (start : ℕ) (w : W) → (time : ℕ) × ((client.interval start w).0 ≡ pos time)) where
  execute-IsCounted :
      (fuel n k : ℕ) (sql : Bytes) (c : DbConnection H) (w : W)
      → ticks client clock ≤ fuel
      → n + 1 < two63
      → k + 1 < two63
      → IsCounted n k c.trace_info
      → (ret : Bool) × (c' : DbConnection H) × (w' : W) × (execute client (suc fuel) sql c w
          ≡ done (ret, c', w'))
        × IsCounted (n + 1) (failing ret k) c'.trace_info
  unfolding execute
  execute-IsCounted fuel n k sql c w room small small' h =
      let ((ret, (hd, w1)), ran) =
        inner_execute_returns client clock fuel c.info sql (c.handler, (client.start_watch w).1)
          room in
      let (time, e) = forward (client.start_watch w).0 w1 in
      let t = c.trace_info in
      let t' = record t { exec_count = to_s64 (inc t.exec_count) } in
      (
        ret,
        record c {
          handler = hd;
          trace_info = traced (client.interval (client.start_watch w).0 w1).0 ret t';
        },
        (client.interval (client.start_watch w).0 w1).1,
        ap
              (λ (q : Run (Bool × (H × W))).
                q >>= after_execute client (record c { trace_info = t' }) (client.start_watch w).0)
              ran
            ∙ unfold after_execute in refl,
        rw e (
            traced-IsCounted (n + 1) k time ret t' small' (record {
              executed = rw h.executed (to_s64-pos (n + 1) small);
              failed = h.failed;
              at_zero = h.at_zero;
            })),
      )

  execute_all-IsCounted :
      (fuel n k : ℕ) (sqls : List Bytes) (c : DbConnection H) (w : W)
      → ticks client clock ≤ fuel
      → n + length sqls < two63
      → k ≤ n
      → IsCounted n k c.trace_info
      → (rets : List Bool) × (c' : DbConnection H) × (w' : W) × (execute_all client
            (suc fuel)
            sqls
            c
            w
          ≡ done (rets, c', w'))
        × (length rets ≡ length sqls)
        × IsCounted (n + length sqls) (k + fails rets) c'.trace_info
  execute_all-IsCounted fuel n k [] c w room small le h =
      ([], c, w, refl, refl, IsCounted-at n (n + 0) k (k + 0) (omega arith) (omega arith) h)
  execute_all-IsCounted fuel n k (sql ∷ sqls) c w room small le h =
      let (ret, c', w', ran, h') =
        execute-IsCounted fuel n k sql c w room (omega arith) (omega arith) h in
      let (rets, c'', w'', ran', len, h'') =
        execute_all-IsCounted fuel (n + 1) (failing ret k) sqls c' w' room (omega arith)
          (failing_le ret k n le) h' in
      (
        ret ∷ rets,
        c'',
        w'',
        rw (ran, ran') refl,
        omega (arith, len),
        IsCounted-at (n + 1 + length sqls) (n + length (sql ∷ sqls)) (failing ret k + fails rets)
            (k + fails (ret ∷ rets)) (omega arith) (failing_fails ret k rets) h'',
      )

  -- A connection that executes `sqls` from its construction on: every statement comes back, after at
  -- most `fuel + 1` pings each. Then the connection has counted all the statements and those of
  -- them that failed, and its least time is still zero. There are fewer than 2^63 statements, the
  -- clock in milliseconds is a finer one cut off, that one and the watch do not run backwards, the
  -- finer clock goes on by at least one tick over a ping that fails, and `fuel` is at least its ticks
  -- in 30 minutes and a millisecond.
  pub execute_all_lem :
      (fuel : ℕ) (sqls : List Bytes) (info : ConnectionInfo) (w : W)
      → ticks client clock ≤ fuel
      → length sqls < two63
      → (rets : List Bool) × (c' : DbConnection H) × (w' : W) × (execute_all client
            (suc fuel)
            sqls
            (new_connection client info)
            w
          ≡ done (rets, c', w'))
        × (length rets ≡ length sqls)
        × IsCounted (length sqls) (fails rets) c'.trace_info
  unfolding new_connection
  execute_all_lem fuel sqls info w room small =
      let (rets, c, w', ran, len, h) =
        execute_all-IsCounted fuel 0 0 sqls (new_connection client info) w room (omega arith)
          (omega arith) (record { executed = refl; failed = refl; at_zero = refl }) in
      (
        rets,
        c,
        w',
        ran,
        len,
        IsCounted-at (0 + length sqls) (length sqls) (0 + fails rets) (fails rets) (omega arith)
            (omega arith) h,
      )
