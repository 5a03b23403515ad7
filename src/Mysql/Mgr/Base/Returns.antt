-- ===== src/Mysql/Mgr/Base/Returns.antt =====
-- MysqlBase.cpp, OnExecute: a job comes to its end.
use seed_core.Prelude.{
  ℕ, suc, ◌≤◌, ◌<◌, ◌≡◌, refl, ap, ◌∙◌, Bool, true, false, List, [], ◌∷◌, ◌++◌, Option, none, some,
  Bytes, length, get_elem?, Run, done, ◌>>=◌,
}
use seed_core.Mysql.{ConnectionInfo, Client}
use seed_core.Mysql.Connection.{
  DbConnection, is_active, after_escape, escape_string_ex, inner_execute, after_execute, execute,
}
use seed_core.Mysql.Connection.Active.{IsClock, ticks, is_active_returns, inner_execute_returns}
use seed_core.Mysql.Result.{FiledRow, MysqlResult, fetch_loop, init_result, init}
use seed_core.Mysql.Result.Rows.{IsCursor, fetch_loop_lem}
use seed_core.Mysql.Mgr.{MysqlBase, Mgr}
use seed_core.Mysql.Mgr.Access.{deref}
use seed_core.Mysql.Mgr.Base.{
  Script, finish, escape_string, call_back, Handlers, run_script, keep_result, on_execute,
}

-- A run that comes back.
abbrev Returns : {A : Type 0} → Run A → Type 0
Returns {A = A} r = (a : A) × (r ≡ done a)

then_Returns :
    {A B : Type 0} (r : Run A) (f : A → Run B)
    → Returns r
    → ((a : A) → Returns (f a))
    → Returns (r >>= f)
then_Returns {A = A} {B = B} r f (a, e) h = ((h a).0, ap (λ (q : Run A). q >>= f) e ∙ (h a).1)

from_Returns :
    {A B : Type 0} (r : Run A) (a : A) (f : A → Run B)
    → r ≡ done a
    → Returns (f a)
    → Returns (r >>= f)
from_Returns {A = A} r a f e (b, g) = (b, ap (λ (q : Run A). q >>= f) e ∙ g)

module _ {H W R : Type 0} (client : Client H W R) (clock : IsClock client)
    (cursor : IsCursor client) (fuel : ℕ) (room : ticks client clock ≤ fuel) where
  after_escape-Returns :
      (info : ConnectionInfo) (src : Bytes) (p : Bytes × (H × W))
      → Returns (after_escape client (suc fuel) info src p)
  unfolding after_escape
  after_escape-Returns info src ([], s) =
      then_Returns (is_active client (suc fuel) info s) _
        (is_active_returns client clock fuel info s room) (λ a. (_, refl))
  after_escape-Returns info src (c ∷ cs, s) = ((c ∷ cs, s), refl)

  escape_string_ex-Returns :
      (src : Bytes) (c : DbConnection H) (w : W)
      → Returns (escape_string_ex client (suc fuel) src c w)
  unfolding escape_string_ex
  escape_string_ex-Returns src c w =
      then_Returns
        (after_escape client (suc fuel) c.info src (client.real_escape_string src (c.handler, w))) _
        (after_escape-Returns c.info src (client.real_escape_string src (c.handler, w)))
        (λ a. (_, refl))

  execute-Returns :
      (sql : Bytes) (c : DbConnection H) (w : W) → Returns (execute client (suc fuel) sql c w)
  unfolding execute after_execute
  execute-Returns sql c w =
      then_Returns
        (inner_execute client (suc fuel) c.info sql (c.handler, (client.start_watch w).1)) _
        (inner_execute_returns client clock fuel c.info sql (c.handler, (client.start_watch w).1)
          room)
        (λ a. (_, refl))

  run_script-Returns :
      (s : Script) (ret : Bool) (c : DbConnection H) (w : W)
      → Returns (run_script client (suc fuel) s ret c w)
  unfolding run_script
  run_script-Returns finish ret c w = ((ret, c, w), refl)
  run_script-Returns (escape_string src next) ret c w =
      then_Returns (escape_string_ex client (suc fuel) src c w) _ (escape_string_ex-Returns src c w)
        (λ (out, c', w'). run_script-Returns (next out) ret c' w')
  run_script-Returns (call_back sql next) ret c w =
      then_Returns (execute client (suc fuel) sql c w) _ (execute-Returns sql c w)
        (λ (ret', c', w'). run_script-Returns next ret' c' w')

  module _
      (few : (h : H) (r : R)
        → (client.store_result h).0 ≡ some r
        → length (cursor.left r) < suc fuel) where
    init_result-Returns :
        (h : H) (o : Option R) (rows : List FiledRow)
        → (client.store_result h).0 ≡ o
        → Returns (init_result client (suc fuel) o rows)
    unfolding init_result
    init_result-Returns h none rows e = (_, refl)
    init_result-Returns h (some r) rows e =
        let (r', fs, ran, same) =
          fetch_loop_lem client cursor (cursor.left r) (suc fuel) _ r rows refl (few h r e) in
        then_Returns (fetch_loop client (suc fuel) _ (client.fetch_row r) rows) _
          ((r', rows ++ fs), ran) (λ a. (_, refl))

    init-Returns : (h : H) (res : MysqlResult R) → Returns (init client (suc fuel) h res)
    unfolding init
    init-Returns h res =
        then_Returns (init_result client (suc fuel) (client.store_result h).0 res.rows) _
          (init_result-Returns h (client.store_result h).0 res.rows refl) (λ a. (_, refl))

    keep_result-Returns :
        (b : MysqlBase R) (r : Bool × DbConnection H × W)
        → Returns (keep_result client (suc fuel) b r)
    unfolding keep_result
    keep_result-Returns b (true, c, w) =
        then_Returns (init client (suc fuel) c.handler b.result) _ (init-Returns c.handler b.result)
          (λ a. (_, refl))
    keep_result-Returns b (false, c, w) = (_, refl)

    -- OnExecute of a job whose base and connection are there comes back, whatever its handler does with
    -- the connection and whatever the server answers. The clock in milliseconds is a finer one
    -- cut off, that one does not run backwards and goes on by at least one tick over a ping that
    -- fails, the fuel is at least its ticks in 30 minutes and a millisecond and above the rows of
    -- every result, and the client gives out the rows one after another.
    pub on_execute_returns :
        (handlers : Handlers W R) (a : ℕ) (m : Mgr H W R) (b : MysqlBase R) (c : DbConnection H)
        → get_elem? m.bases a ≡ some b
        → get_elem? m.connections b.connection ≡ some c
        → (r : Bool × Mgr H W R) × (on_execute client handlers (suc fuel) a m ≡ done r)
    unfolding on_execute deref
    on_execute_returns handlers a m b c there open_ =
        from_Returns (deref (get_elem? m.bases a)) b _ (ap deref there) (
          from_Returns (deref (get_elem? m.connections b.connection)) c _ (ap deref open_) (
            then_Returns
              (run_script client (suc fuel) (handlers.exec_sql b.mysql_handler m.world) false c
                m.world)
              _ (run_script-Returns (handlers.exec_sql b.mysql_handler m.world) false c m.world)
              (λ r.
                then_Returns (keep_result client (suc fuel) b r) _ (keep_result-Returns b r)
                  (λ x. (_, refl)))))
