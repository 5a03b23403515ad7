-- ===== src/Redis/Mgr.antt =====
-- RedisMgr.h and RedisMgr.cpp: the connections, and how a request is executed on one of them.
-- What the module is built on is the parameter `host`: hiredis, the clock, `Sleep`, `SafeSprintf`,
-- the lock-free list of queued commands (states `Q`) and the kernel's async queue, over a state `E`
-- of the world outside. The static members of RedisMgr are the record `Mgr`.
pub mod Execute
pub mod Select
pub mod Resend
pub mod Healthy
pub mod Retry
pub mod Initialize
pub mod Startup
use seed_core.Prelude.{
  ℕ, zero, suc, ◌+◌, ◌%◌, ◌≡◌, Bool, true, false, not, List, [], ◌∷◌, ◌++◌, Option, none, some,
  Bytes, ltb, ◌==◌, if◌then◌else◌, set, get_elem?, Run, done, starved, fault, ◌>>=◌, ◌&&◌, ◌||◌,
}
use seed_core.Prelude.Int.{ℤ, pos, negsuc, pos_part, neg_part, ◌==ℤ◌, ltb_ℤ, to_s32, to_u32, to_u64}
use seed_core.Redis.Builder.{Builder}
use seed_core.Redis.Reply.{Reply, error}
use seed_core.Redis.Transport.{
  Status, redis_ok, redis_err, status_code, err_io, Context, Net, send_and_get_reply,
}
use seed_core.Redis.Transport.Pipeline.{Batch, pipeline_send_and_get_reply}

-- RedisConnectionConfig
pub record Config : Type 0 where
  pub ip : Bytes
  pub port : ℤ
  pub connect_num : ℤ
  pub connect_tv_sec : ℤ
  pub pass_word : Bytes
  pub reattempt_time : ℤ

-- RedisConnection. Whether the task handler exists is all that its pointer says here.
pub record Connection (S : Type 0) (Q : Type 0) : Type 0 where
  pub ctx : Context S
  pub thread_cmd_list : Q
  pub thread_idx : ℤ
  pub has_task_handler : Bool
  pub post_task : Bool

pub record Mgr (S : Type 0) (E : Type 0) (Q : Type 0) : Type 0 where
  pub config : Config
  pub connections : List (Connection S Q)
  pub connect_num : ℤ
  pub env : E

pub record Host (S : Type 0) (E : Type 0) (Q : Type 0) : Type 0 where
  pub net : Net S
  pub connect_with_timeout : Config → E → Option (Context S) × E
  pub command_auth : Context S → Bytes → Option Reply × Context S
  pub now : E → ℕ × E
  pub sleep : ℕ → E → E
  pub sprintf : ℕ → ℕ → ℤ → Bytes
  pub empty_list : Q
  pub insert_head : Builder → Q → Q
  pub cut_list : Q → List Builder × Q
  pub start_async : ℤ → E → E

-- REATTEMPT_SLEEP_TIME
abbrev pub reattempt_sleep_time : ℕ
reattempt_sleep_time = 1000

-- GetRedisConnection: the connection's place in the vector. A modulus of zero is a fault.
unfoldable pub connection_idx : ℤ → ℤ → Run ℕ
connection_idx thread_idx connect_num =
    if thread_idx ==ℤ pos 0
    then done 0
    else if to_u32 connect_num == 0
    then fault
    else (elim (to_s32 (pos (to_u32 thread_idx % to_u32 connect_num + 1))) [
      | pos i ↦ done i
      | negsuc i ↦ fault
    ])

-- GetRedisConnectionInAsync: the same for the id of a task, over 64 bits.
unfoldable pub async_idx : ℤ → ℤ → Run ℕ
async_idx task_id connect_num =
    if to_u64 connect_num == 0 then fault else done (to_u64 task_id % to_u64 connect_num + 1)

-- A place past the end of a vector is a fault.
abbrev pub at {ℓ} : {A : Type ℓ} → List A → ℕ → Run A
at xs i = elim (get_elem? xs i) [ none ↦ fault | some a ↦ done a ]

-- One attempt to execute something over a context, on the data `X` of the caller.
abbrev pub Attempt : Type 0 → Type 0 → Type 0
Attempt S X = Context S → X → Run (Status × Context S × X)

-- The data of a single command: its builder, the caller's reply pointer, and what has been sent.
pub record Cmd : Type 0 where
  pub builder : Builder
  pub reply : Option Reply
  pub sent : Bytes

pub record Cmds : Type 0 where
  pub builders : List Builder
  pub replies : List Reply
  pub sent : Bytes

abbrev pub or_else : Option Reply → Option Reply → Option Reply
or_else none old = old
or_else (some r) old = some r

module _ {S Q : Type 0} where
  unfoldable pub set_ctx : List (Connection S Q) → ℕ → Context S → List (Connection S Q)
  set_ctx [] i c = []
  set_ctx (x ∷ xs) zero c = record x { ctx = c } ∷ xs
  set_ctx (x ∷ xs) (suc i) c = x ∷ set_ctx xs i c

module _ {S E Q : Type 0} where
  abbrev pub with_ctx : Mgr S E Q → ℕ → Context S → Mgr S E Q
  with_ctx m i c = record m { connections = set_ctx m.connections i c }
