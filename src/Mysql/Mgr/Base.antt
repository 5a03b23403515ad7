-- ===== src/Mysql/Mgr/Base.antt =====
-- MysqlBase.cpp: what the kernel's queue calls for a job, and the steps that the module takes.
pub mod Steps
pub mod Counts
pub mod Apart
pub mod Returns
use seed_core.Prelude.{
  ℕ, suc, Bool, true, false, List, [], ◌∷◌, ◌++◌, ◌≡◌, Option, none, some, Bytes, get_elem?, set,
  if◌then◌else◌, Run, done, fault, ◌>>=◌,
}
use seed_core.Prelude.Int.{ℤ}
use seed_core.Mysql.{Client}
use seed_core.Mysql.Connection.{DbConnection, execute, escape_string_ex}
use seed_core.Mysql.Result.{MysqlResult, no_result, init}
use seed_core.Mysql.Mgr.{MysqlBase, Mgr, push_mysql_handler, on_base_release}
use seed_core.Mysql.Mgr.Access.{deref}

-- What IMysqlHandler::ExecSql does with its two arguments: it ends, or it escapes a text and goes on
-- with what it gets, or it executes a statement and goes on.
pub data Script : Type 0 where
  finish : Script
  escape_string : Bytes → (Bytes → Script) → Script
  call_back : Bytes → Script → Script

-- The handlers of the program, by address.
pub record Handlers (W : Type 0) (R : Type 0) : Type 0 where
  pub exec_sql : ℕ → W → Script
  pub on_success : ℕ → MysqlResult R → W → W
  pub on_fail : ℕ → Option ℕ → Bytes → W → W
  pub on_release : ℕ → W → W

module _ {H W R : Type 0} (client : Client H W R) where
  -- ExecSql on the job's connection; `ret` is what the last statement returned.
  unfoldable pub run_script :
      ℕ → Script → Bool → DbConnection H → W → Run (Bool × DbConnection H × W)
  run_script fuel finish ret c w = done (ret, c, w)
  run_script fuel (escape_string src next) ret c w =
      escape_string_ex client fuel src c w >>= λ (out, c', w'). run_script fuel (next out) ret c' w'
  run_script fuel (call_back sql next) ret c w =
      execute client fuel sql c w >>= λ (ret', c', w'). run_script fuel next ret' c' w'

  -- What OnExecute keeps of the statement: its result, or its error.
  unfoldable pub keep_result :
      ℕ → MysqlBase R → Bool × DbConnection H × W → Run (Bool × MysqlBase R × DbConnection H × W)
  keep_result fuel b (true, c, w) = init client fuel c.handler b.result >>= λ (res, h).
      done (true, record b { result = res }, record c { handler = h }, w)
  keep_result fuel b (false, c, w) = done (
    false,
    record b { eror_code = some (client.errno c.handler); error_info = client.error c.handler },
    c,
    w,
  )

module _ {H W R : Type 0} (client : Client H W R) (handlers : Handlers W R) where
  unfoldable pub with_base :
      ℕ → MysqlBase R → Mgr H W R → Bool × MysqlBase R × DbConnection H × W → Bool × Mgr H W R
  with_base a b m (ret, b', c, w) = (
    ret,
    record m {
      bases = set m.bases a b';
      connections = set m.connections b.connection c;
      world = w;
    },
  )

  -- OnExecute of the base at address `a`.
  unfoldable pub on_execute : ℕ → ℕ → Mgr H W R → Run (Bool × Mgr H W R)
  unfolding deref run_script keep_result with_base
  on_execute fuel a m = deref (get_elem? m.bases a) >>= λ b.
      deref (get_elem? m.connections b.connection) >>= λ c.
      run_script client fuel (handlers.exec_sql b.mysql_handler m.world) false c m.world >>= λ r.
      keep_result client fuel b r >>= λ r'. done (with_base a b m r')

  -- OnSuccess
  unfoldable pub on_success : ℕ → Mgr H W R → Run (Mgr H W R)
  unfolding deref
  on_success a m = deref (get_elem? m.bases a) >>= λ b.
      done (record m { world = handlers.on_success b.mysql_handler b.result m.world })

  -- OnFailed, which does not ask whether the job was executed.
  unfoldable pub on_failed : ℕ → Mgr H W R → Run (Mgr H W R)
  unfolding deref
  on_failed a m = deref (get_elem? m.bases a) >>= λ b.
      done (record m { world = handlers.on_fail b.mysql_handler b.eror_code b.error_info m.world })

  -- OnRelease, which counts before the handler is told. The base's place is not used again.
  unfoldable pub on_release : ℕ → Mgr H W R → Run (Mgr H W R)
  unfolding deref on_base_release
  on_release a m = deref (get_elem? m.bases a) >>= λ b.
      let m' = on_base_release m in
      done (record m' { world = handlers.on_release b.mysql_handler m'.world })
