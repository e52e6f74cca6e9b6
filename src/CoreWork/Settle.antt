-- ===== src/CoreWork/Settle.antt =====
-- src/database/core_work.rs: the statements that end a claim: done, retry or dead, the reset of
-- stale locks, and the recovery and release of claims with their sub-agent tasks.
use Prim.Native.String.{String}
use text.Mathlib.Text.{◌==◌ as str_eq}
use mail_subsystem.Prelude.{
  ℕ, ◌+◌, ◌-◌, ◌*◌, Bool, false, ◌&&◌, List, [], ◌∷◌, Option, none, some, if◌then◌else◌, ◌==◌, leb,
  ltb, take, length,
}
use mail_subsystem.Prelude.Int.{ℤ, at_least}
use mail_subsystem.Prelude.Text.{Text, codes}
use mail_subsystem.Sql.{select_where, update_where, count_where, find_where, any_id}
use mail_subsystem.CoreWork.{
  Status, done, failed, dead, is_processing, is_failed, Row, TaskRow, TaskStatus, is_running, Db,
  DbError, Result, ok, err, second,
}
use mail_subsystem.CoreWork.Table.{ids}

-- `account_id = $1 AND id = $2`.
abbrev pub has_id : String → ℕ → Row → Bool
has_id account i r = str_eq r.account_id account && r.id == i

abbrev pub done_row : ℕ → Row → Row
done_row now r = record r {
  status = done;
  locked_at = none;
  worker_id = none;
  last_error = none;
  completed_at = some now;
  updated_at = now;
}

-- The number is that of the rows affected.
unfoldable pub mark_core_work_done_for_account : String → ℕ → ℕ → Db → Db × ℕ
mark_core_work_done_for_account account i now db = elim (find_where (has_id account i) db.rows) [
  | none ↦ (db, 0)
  | some r ↦ (record db { rows = update_where (has_id account i) (done_row now) db.rows }, 1)
]

-- LEFT(text, 4000).
unfoldable pub left_4000 : Text → Text
left_4000 t = take 4000 t

-- `retry_after_secs.max(0)` seconds from now.
abbrev pub settled_row : Status → ℤ → Text → ℕ → Row → Row
settled_row next retry_after_secs error now r = record r {
  status = next;
  available_at =
      if is_failed next then now + at_least 0 retry_after_secs * second else r.available_at;
  locked_at = none;
  worker_id = none;
  last_error = some (left_4000 error);
  updated_at = now;
}

abbrev pub next_status : ℕ → ℕ → Status
next_status attempt_count max_attempts = if leb max_attempts attempt_count then dead else failed

unfoldable pub mark_core_work_retry_or_dead_for_account :
    String → ℕ → ℕ → ℕ → ℤ → Text → ℕ → Db → Db × Result Status
mark_core_work_retry_or_dead_for_account account i attempt_count max_attempts retry error now db =
    let next = next_status attempt_count max_attempts in
    elim (find_where (has_id account i) db.rows) [
      | none ↦ (db, err DbError.item_not_found)
      | some r ↦ (
        record db {
          rows = update_where (has_id account i) (settled_row next retry error now) db.rows;
        },
        ok next,
      )
    ]

-- `locked_at IS NOT NULL AND locked_at < NOW() - …`; times are not negative, so that the
-- subtraction may stop at 0.
abbrev pub locked_before : ℕ → Option ℕ → Bool
locked_before t none = false
locked_before t (some l) = ltb l t

abbrev pub is_stale : String → ℤ → ℕ → Row → Bool
is_stale account stale_after_secs now r =
    str_eq r.account_id account
    && (is_processing r.status
        && locked_before (now - at_least 1 stale_after_secs * second) r.locked_at)

abbrev pub coalesce {ℓ} : {A : Type ℓ} → Option A → A → A
coalesce none d = d
coalesce (some a) d = a

abbrev pub unlocked_row : (Option Text → Text) → ℕ → Row → Row
unlocked_row error now r = record r {
  status = failed;
  available_at = now;
  locked_at = none;
  worker_id = none;
  last_error = some (error r.last_error);
  updated_at = now;
}

abbrev pub reset_row : ℕ → Row → Row
reset_row now = unlocked_row (λ e. coalesce e (codes "stale lock reset")) now

unfoldable pub reset_stale_core_work_for_account : String → ℤ → ℕ → Db → Db × ℕ
reset_stale_core_work_for_account account stale_after_secs now db = (
  record db { rows = update_where (is_stale account stale_after_secs now) (reset_row now) db.rows },
  count_where (is_stale account stale_after_secs now) db.rows,
)

abbrev pub task_of : String → List ℕ → TaskRow → Bool
task_of account work_ids t =
    str_eq t.account_id account
    && (elim t.core_work_id [ none ↦ false | some i ↦ any_id work_ids i ] && is_running t.status)

abbrev pub reopened_task : Text → ℕ → TaskRow → TaskRow
reopened_task reason now t = record t {
  status = TaskStatus.pending;
  started_at = none;
  finished_at = none;
  error = some (left_4000 reason);
  updated_at = now;
}

-- Both functions below run the same two statements over the rows that `fits` selects. Where it
-- selects none, the second statement is not reached.
unfoldable pub unlock_where : String → (Row → Bool) → Text → ℕ → Db → Db × ℕ
unlock_where account fits reason now db =
    let unlocked = select_where fits db.rows in
    elim unlocked [
      | [] ↦ (db, 0)
      | r ∷ rs ↦ (
        record db {
          rows = update_where fits (unlocked_row (λ _. left_4000 reason) now) db.rows;
          tasks = update_where (task_of account (ids (r ∷ rs))) (reopened_task reason now) db.tasks;
        },
        length (r ∷ rs),
      )
    ]

abbrev pub is_claimed : String → Row → Bool
is_claimed account r = str_eq r.account_id account && is_processing r.status

unfoldable pub recover_orphaned_core_work_for_account : String → Text → ℕ → Db → Db × ℕ
unfolding unlock_where
recover_orphaned_core_work_for_account account reason now db =
    unlock_where account (is_claimed account) reason now db

abbrev pub owned_by : String → Option String → Bool
owned_by worker none = false
owned_by worker (some w) = str_eq w worker

abbrev pub is_claimed_by : String → String → Row → Bool
is_claimed_by account worker r =
    str_eq r.account_id account && (owned_by worker r.worker_id && is_processing r.status)

unfoldable pub release_core_work_for_worker_for_account : String → String → Text → ℕ → Db → Db × ℕ
unfolding unlock_where
release_core_work_for_worker_for_account account worker reason now db =
    unlock_where account (is_claimed_by account worker) reason now db
