-- ===== src/CoreWork/Report.antt =====
-- src/database/core_work.rs: the queries on core_work_queue that change nothing.
use Prim.Native.String.{String}
use text.Mathlib.Text.{◌==◌ as str_eq}
use mail_subsystem.Prelude.{
  ℕ, ◌+◌, ◌*◌, Bool, true, false, ◌&&◌, ◌||◌, List, [], ◌∷◌, Option, none, some, if◌then◌else◌, leb,
  ltb,
}
use mail_subsystem.Prelude.Int.{ℤ, at_least}
use mail_subsystem.Sql.{count_where, exists_where, find_where}
use mail_subsystem.CoreWork.{
  CoreWorkType, same_type, sync_full, sync_incremental, sync_body, analyze, embed, locate,
  file_preview, file_apply, is_active, is_processing, is_pending, is_failed, is_dead, Db, second,
}
use mail_subsystem.CoreWork.Table.{has_key}

unfoldable pub has_active_core_work_type_for_account : String → CoreWorkType → Db → Bool
has_active_core_work_type_for_account account work_type db =
    exists_where
      (λ r. str_eq r.account_id account && (same_type r.work_type work_type && is_active r.status))
      db.rows

abbrev pub is_sync : CoreWorkType → Bool
is_sync sync_full = true
is_sync sync_incremental = true
is_sync sync_body = true
is_sync _ = false

unfoldable pub has_active_sync_work_for_account : String → Db → Bool
has_active_sync_work_for_account account db =
    exists_where
      (λ r.
        str_eq r.account_id account
        && (is_sync r.work_type && (is_pending r.status || is_processing r.status)))
      db.rows

-- `completed <= Utc::now() - interval`, with the interval on the other side.
abbrev pub completed_long_ago : ℤ → ℕ → Option ℕ → Bool
completed_long_ago interval_secs now none = true
completed_long_ago interval_secs now (some completed) =
    leb (completed + at_least 1 interval_secs * second) now

unfoldable pub core_work_due_for_account : String → CoreWorkType → String → ℤ → ℕ → Db → Bool
core_work_due_for_account account work_type key interval_secs now db =
    elim (find_where (has_key account work_type key) db.rows) [
      | none ↦ true
      | some r ↦
          if is_active r.status then false else completed_long_ago interval_secs now r.completed_at
    ]

pub record CoreWorkQueueDepth : Type 0 where
  pub pending : ℕ
  pub failed : ℕ
  pub processing : ℕ
  pub dead : ℕ

unfoldable pub core_work_queue_depth_for_account : String → Db → CoreWorkQueueDepth
core_work_queue_depth_for_account account db = record {
  pending = count_where (λ r. str_eq r.account_id account && is_pending r.status) db.rows;
  failed = count_where (λ r. str_eq r.account_id account && is_failed r.status) db.rows;
  processing = count_where (λ r. str_eq r.account_id account && is_processing r.status) db.rows;
  dead = count_where (λ r. str_eq r.account_id account && is_dead r.status) db.rows;
}

-- The state names of the status summary.
pub data CoreState : Type 0 where
  error syncing analyzing locating working queued idle : CoreState

abbrev pub state_of_type : CoreWorkType → CoreState
state_of_type sync_full = syncing
state_of_type sync_incremental = syncing
state_of_type sync_body = syncing
state_of_type analyze = analyzing
state_of_type embed = analyzing
state_of_type locate = locating
state_of_type file_preview = locating
state_of_type file_apply = locating
state_of_type _ = working

-- `active` holds the kinds of the active items, the most recently locked first.
unfoldable pub core_state_from_work : CoreWorkQueueDepth → List CoreWorkType → CoreState
core_state_from_work depth active = if ltb 0 depth.dead then error else elim active [
  | t ∷ _ ↦ state_of_type t
  | [] ↦ if ltb 0 depth.failed then error else if ltb 0 depth.pending then queued else idle
]
