-- ===== src/Mysql.antt =====
-- logic/Core/MysqlMgr: connections to databases, on which handlers execute their statements in the
-- threads of the kernel's async queue. The mysql client and the clock are not in the repository: they
-- are the parameter `client`, over the states `H` of a handle, `W` of the world and `R` of a result.
pub mod Connection
pub mod Result
pub mod Mgr
mod Tests
use seed_core.Prelude.{ℕ, ◌+◌, Bool, Option, Bytes, List}
use seed_core.Prelude.Int.{ℤ}

-- ConnectionInfo. The path of the socket is always empty.
pub record ConnectionInfo : Type 0 where
  pub host_des : Bytes
  pub port : ℕ
  pub client_flag : ℕ
  pub charset : Bytes
  pub username : Bytes
  pub password : Bytes
  pub database_name : Bytes

-- What an operation on a handle answers, and what it leaves.
abbrev pub Api : Type 0 → Type 0 → Type 0 → Type 0
Api H W A = H × W → A × (H × W)

-- A row as mysql_fetch_row gives it, where a NULL is `none`.
abbrev pub Row : Type 0
Row = List (Option Bytes)

-- `true` stands for success: a pointer that is not null, a return value of zero. mysql_fetch_lengths
-- gives the address of the lengths, and `lengths_at` what stands there in the result's present state.
pub record Client (H : Type 0) (W : Type 0) (R : Type 0) : Type 0 where
  pub init : H
  pub set_reconnect : H → H
  pub real_connect : ConnectionInfo → Api H W Bool
  pub set_character_set : Bytes → Api H W Bool
  pub close : H × W → W
  pub real_query : Bytes → Api H W Bool
  pub ping : Api H W Bool
  pub errno : H → ℕ
  pub error : H → Bytes
  pub real_escape_string : Bytes → Api H W Bytes
  pub store_result : H → Option R × H
  pub num_fields : R → ℕ
  pub fetch_row : R → Option Row × R
  pub fetch_lengths : R → Option ℕ
  pub lengths_at : R → ℕ → List ℕ
  pub now : W → ℕ × W
  pub start_watch : W → ℕ × W
  pub interval : ℕ → W → ℤ × W
  pub minute : ℕ
  pub milliseconds : ℤ → ℤ
