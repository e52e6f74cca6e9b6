-- ===== src/FrontierQueue.antt =====
-- src/database/frontier_queue.rs: the table frontier_analysis_queue (schema.sql) and its statements.
-- A job is a message of an account; a finished job is deleted. Rows that tie in the ORDER BY of the
-- claim are taken in the order of the table, which PostgreSQL does not promise.
pub mod Histories
pub mod Depth
mod Tests
use Prim.Native.String.{String}
use text.Mathlib.Text.{◌==◌ as str_eq}
use mail_subsystem.Prelude.{
  ℕ, ◌+◌, ◌*◌, ◌-◌, Bool, false, not, ◌&&◌, ◌||◌, List, [], ◌∷◌, Option, none, some, if◌then◌else◌,
  leb, map, take,
}
use mail_subsystem.Prelude.Int.{ℤ, at_least}
use mail_subsystem.Prelude.Text.{Text, codes}
use mail_subsystem.Sql.{
  select_where, update_where, delete_where, upsert_where, count_where, keys_before, order_by,
}
use mail_subsystem.CoreWork.{
  Status, pending, processing, failed, is_pending, is_processing, is_failed, is_dead, is_claimable,
  second,
}
use mail_subsystem.CoreWork.Settle.{left_4000, next_status, locked_before, coalesce}
use mail_subsystem.BodySync.{has_email}

pub record FrontierRow : Type 0 where
  pub account_id : String
  pub message_id : String
  pub enqueued_at : ℕ
  pub status : Status
  pub attempt_count : ℕ
  pub available_at : ℕ
  pub locked_at : Option ℕ
  pub worker_id : Option String
  pub last_error : Option Text
  pub updated_at : ℕ

pub record FrontierQueueEntry : Type 0 where
  pub message_id : String
  pub attempt_count : ℕ

-- With the keys of the table emails, to which the foreign key points.
pub record FrontierDb : Type 0 where
  pub rows : List FrontierRow
  pub emails : List (String × String)

pub data FrontierError : Type 0 where
  unknown_email item_not_found : FrontierError

pub data FrontierResult (A : Type 0) : Type 0 where
  ok : A → FrontierResult A
  err : FrontierError → FrontierResult A

abbrev pub has_message : String → String → FrontierRow → Bool
has_message account message r = str_eq r.account_id account && str_eq r.message_id message

abbrev pub new_frontier_row : String → String → ℕ → FrontierRow
new_frontier_row account message now = record {
  account_id = account;
  message_id = message;
  enqueued_at = now;
  status = pending;
  attempt_count = 0;
  available_at = now;
  locked_at = none;
  worker_id = none;
  last_error = none;
  updated_at = now;
}

abbrev pub restart_row : ℕ → FrontierRow → FrontierRow
restart_row now r = record r {
  enqueued_at = now;
  status = pending;
  attempt_count = 0;
  available_at = now;
  locked_at = none;
  worker_id = none;
  last_error = none;
  updated_at = now;
}

unfoldable pub enqueue_frontier_analysis_for_account :
    String → String → ℕ → FrontierDb → FrontierDb × FrontierResult ℕ
enqueue_frontier_analysis_for_account account message now db =
    if has_email account message db.emails
    then (
      record db {
        rows =
            upsert_where (has_message account message) (restart_row now)
              (new_frontier_row account message now) db.rows;
      },
      ok 1,
    )
    else (db, err FrontierError.unknown_email)

abbrev pub frontier_is_due : String → ℕ → (String → Bool) → FrontierRow → Bool
frontier_is_due account now skip r =
    str_eq r.account_id account
    && (is_claimable r.status && (leb r.available_at now && not (skip r.message_id)))

abbrev pub frontier_before : FrontierRow → FrontierRow → Bool
frontier_before a b =
    keys_before (a.available_at ∷ a.enqueued_at ∷ []) (b.available_at ∷ b.enqueued_at ∷ [])

abbrev pub frontier_claim_row : String → ℕ → FrontierRow → FrontierRow
frontier_claim_row worker now r = record r {
  status = processing;
  attempt_count = r.attempt_count + 1;
  locked_at = some now;
  worker_id = some worker;
  updated_at = now;
}

abbrev pub is_among : List FrontierRow → FrontierRow → Bool
is_among [] q = false
is_among (c ∷ cs) q = str_eq q.message_id c.message_id || is_among cs q

unfoldable pub frontier_claimable : String → ℕ → (String → Bool) → ℕ → FrontierDb → List FrontierRow
frontier_claimable account limit skip now db =
    take limit (order_by frontier_before (select_where (frontier_is_due account now skip) db.rows))

abbrev pub frontier_entry : FrontierRow → FrontierQueueEntry
frontier_entry r = record { message_id = r.message_id; attempt_count = r.attempt_count }

unfoldable pub claim_frontier_queue_batch_for_account :
    String → String → ℕ → (String → Bool) → ℕ → FrontierDb → FrontierDb × List FrontierQueueEntry
claim_frontier_queue_batch_for_account account worker limit skip now db =
    let batch = frontier_claimable account limit skip now db in
    let chosen = λ (q : FrontierRow). str_eq q.account_id account && is_among batch q in
    (
      record db { rows = update_where chosen (frontier_claim_row worker now) db.rows },
      map (λ r. frontier_entry (frontier_claim_row worker now r)) (select_where chosen db.rows),
    )

unfoldable pub mark_frontier_done_for_account : String → String → FrontierDb → FrontierDb × ℕ
mark_frontier_done_for_account account message db = (
  record db { rows = delete_where (has_message account message) db.rows },
  count_where (has_message account message) db.rows,
)

abbrev pub frontier_settled_row : Status → ℤ → Text → ℕ → FrontierRow → FrontierRow
frontier_settled_row next retry_after_secs error now r = record r {
  status = next;
  available_at =
      if is_failed next then now + at_least 0 retry_after_secs * second else r.available_at;
  locked_at = none;
  worker_id = none;
  last_error = some (left_4000 error);
  updated_at = now;
}

abbrev pub settled_or_error : Status → List FrontierRow → FrontierResult Status
settled_or_error next [] = err FrontierError.item_not_found
settled_or_error next (r ∷ rs) = ok next

unfoldable pub mark_frontier_retry_or_dead_for_account :
    String → String → ℕ → ℕ → ℤ → Text → ℕ → FrontierDb → FrontierDb × FrontierResult Status
mark_frontier_retry_or_dead_for_account account message attempts max_attempts retry error now db =
    let next = next_status attempts max_attempts in
    let fits = has_message account message in
    (
      record db { rows = update_where fits (frontier_settled_row next retry error now) db.rows },
      settled_or_error next (select_where fits db.rows),
    )

abbrev pub frontier_is_stale : String → ℤ → ℕ → FrontierRow → Bool
frontier_is_stale account stale_after_secs now r =
    str_eq r.account_id account
    && (is_processing r.status
        && locked_before (now - at_least 1 stale_after_secs * second) r.locked_at)

abbrev pub frontier_reset_row : ℕ → FrontierRow → FrontierRow
frontier_reset_row now r = record r {
  status = failed;
  available_at = now;
  locked_at = none;
  worker_id = none;
  last_error = some (coalesce r.last_error (codes "stale lock reset"));
  updated_at = now;
}

unfoldable pub reset_stale_frontier_processing_for_account :
    String → ℤ → ℕ → FrontierDb → FrontierDb × ℕ
reset_stale_frontier_processing_for_account account secs now db = (
  record db {
    rows = update_where (frontier_is_stale account secs now) (frontier_reset_row now) db.rows;
  },
  count_where (frontier_is_stale account secs now) db.rows,
)

pub record FrontierQueueDepth : Type 0 where
  pub pending : ℕ
  pub failed : ℕ
  pub processing : ℕ
  pub dead : ℕ

unfoldable pub frontier_queue_depth_for_account : String → FrontierDb → FrontierQueueDepth
frontier_queue_depth_for_account account db = record {
  pending = count_where (λ r. str_eq r.account_id account && is_pending r.status) db.rows;
  failed = count_where (λ r. str_eq r.account_id account && is_failed r.status) db.rows;
  processing = count_where (λ r. str_eq r.account_id account && is_processing r.status) db.rows;
  dead = count_where (λ r. str_eq r.account_id account && is_dead r.status) db.rows;
}
