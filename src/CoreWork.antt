-- ===== src/CoreWork.antt =====
-- src/database/core_work.rs: the kinds of core work, the rows of core_work_queue (schema.sql) and of
-- the columns of subagent_tasks that the queue's recovery writes. The operations stand in Table.
pub mod Kinds
pub mod Table
pub mod Settle
pub mod Report
pub mod Ops
pub mod Effects
pub mod Invariant
pub mod Claim
pub mod ClaimBatch
pub mod ClaimEffect
pub mod Attempts
pub mod Recovery
pub mod CrashLoop
pub mod Requeue
mod Tests
use Prim.Native.String.{String}
use text.Mathlib.Text.{◌==◌ as str_eq}
use mail_subsystem.Prelude.{
  ℕ, zero, suc, ◌+◌, Bool, true, false, List, Option, none, some, if◌then◌else◌, ◌==◌,
}
use mail_subsystem.Prelude.Text.{Text}
use mail_subsystem.Json.{Json}

pub data CoreWorkType : Type 0 where
  sync_full sync_incremental sync_body analyze embed locate file_preview file_apply : CoreWorkType
  assistant_heartbeat subagent_task : CoreWorkType

unfoldable pub as_str : CoreWorkType → String
as_str sync_full = "sync_full"
as_str sync_incremental = "sync_incremental"
as_str sync_body = "sync_body"
as_str analyze = "analyze"
as_str embed = "embed"
as_str locate = "locate"
as_str file_preview = "file_preview"
as_str file_apply = "file_apply"
as_str assistant_heartbeat = "assistant_heartbeat"
as_str subagent_task = "subagent_task"

-- `none` is the error "unknown core work type".
unfoldable pub from_str : String → Option CoreWorkType
from_str s =
    if str_eq s "sync_full"
    then some sync_full
    else if str_eq s "sync_incremental"
    then some sync_incremental
    else if str_eq s "sync_body"
    then some sync_body
    else if str_eq s "analyze"
    then some analyze
    else if str_eq s "embed"
    then some embed
    else if str_eq s "locate"
    then some locate
    else if str_eq s "file_preview"
    then some file_preview
    else if str_eq s "file_apply"
    then some file_apply
    else if str_eq s "assistant_heartbeat"
    then some assistant_heartbeat
    else if str_eq s "subagent_task"
    then some subagent_task
    else none

-- The derived PartialEq compares the discriminants.
abbrev pub discriminant : CoreWorkType → ℕ
discriminant sync_full = 0
discriminant sync_incremental = 1
discriminant sync_body = 2
discriminant analyze = 3
discriminant embed = 4
discriminant locate = 5
discriminant file_preview = 6
discriminant file_apply = 7
discriminant assistant_heartbeat = 8
discriminant subagent_task = 9

abbrev pub same_type : CoreWorkType → CoreWorkType → Bool
same_type a b = discriminant a == discriminant b

pub data Status : Type 0 where
  pending processing done failed dead : Status

abbrev pub is_pending : Status → Bool
is_pending pending = true
is_pending _ = false

abbrev pub is_processing : Status → Bool
is_processing processing = true
is_processing _ = false

abbrev pub is_failed : Status → Bool
is_failed failed = true
is_failed _ = false

abbrev pub is_done : Status → Bool
is_done done = true
is_done _ = false

abbrev pub is_dead : Status → Bool
is_dead dead = true
is_dead _ = false

-- `status IN ('pending', 'failed')`.
abbrev pub is_claimable : Status → Bool
is_claimable pending = true
is_claimable failed = true
is_claimable _ = false

-- `status IN ('pending', 'processing', 'failed')`.
abbrev pub is_active : Status → Bool
is_active pending = true
is_active processing = true
is_active failed = true
is_active _ = false

-- A row of core_work_queue. Times are microseconds since the epoch.
pub record Row : Type 0 where
  pub id : ℕ
  pub account_id : String
  pub work_type : CoreWorkType
  pub idempotency_key : String
  pub payload : Json
  pub status : Status
  pub attempt_count : ℕ
  pub max_attempts : ℕ
  pub available_at : ℕ
  pub locked_at : Option ℕ
  pub worker_id : Option String
  pub last_error : Option Text
  pub created_at : ℕ
  pub updated_at : ℕ
  pub completed_at : Option ℕ

pub record CoreWorkQueueEntry : Type 0 where
  pub id : ℕ
  pub work_type : CoreWorkType
  pub payload : Json
  pub attempt_count : ℕ
  pub max_attempts : ℕ

pub data TaskStatus : Type 0 where
  pending running completed failed cancelled : TaskStatus

abbrev pub is_running : TaskStatus → Bool
is_running TaskStatus.running = true
is_running _ = false

pub record TaskRow : Type 0 where
  pub task_id : String
  pub account_id : String
  pub status : TaskStatus
  pub core_work_id : Option ℕ
  pub error : Option Text
  pub started_at : Option ℕ
  pub finished_at : Option ℕ
  pub updated_at : ℕ

-- `next_id` is the sequence behind BIGSERIAL.
pub record Db : Type 0 where
  pub next_id : ℕ
  pub rows : List Row
  pub tasks : List TaskRow

pub data DbError : Type 0 where
  unknown_work_type item_not_found : DbError

pub data Result (A : Type 0) : Type 0 where
  ok : A → Result A
  err : DbError → Result A

abbrev pub second : ℕ
second = 1_000_000
