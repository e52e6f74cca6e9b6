-- ===== src/BodySync/Stored.antt =====
-- src/database/body_sync_queue.rs: the claim of a batch, what ends a claim, and the queue's depth.
use Prim.Native.String.{String}
use text.Mathlib.Text.{◌==◌ as str_eq}
use mail_subsystem.Prelude.{
  ℕ, ◌+◌, ◌*◌, ◌-◌, Bool, not, ◌&&◌, List, [], ◌∷◌, none, some, if◌then◌else◌, leb, map, take,
}
use mail_subsystem.Prelude.Int.{ℤ, at_least}
use mail_subsystem.Prelude.Text.{Text, codes}
use mail_subsystem.Sql.{select_where, update_where, count_where, keys_before, order_by, any_id}
use mail_subsystem.CoreWork.{
  Status, processing, done, failed, is_pending, is_processing, is_failed, is_dead, is_claimable,
  second,
}
use mail_subsystem.CoreWork.Settle.{left_4000, next_status, locked_before, coalesce}
use mail_subsystem.BodySync.{BodyRow, BodySyncQueueEntry, BodyDb, BodyResult, ok, err, BodyError}

abbrev pub body_is_due : String → ℕ → (ℕ → Bool) → BodyRow → Bool
body_is_due account now skip r =
    str_eq r.account_id account
    && (is_claimable r.status && (leb r.available_at now && not (skip r.id)))

abbrev pub body_before : BodyRow → BodyRow → Bool
body_before a b = keys_before (a.available_at ∷ a.id ∷ []) (b.available_at ∷ b.id ∷ [])

abbrev pub body_claim_row : String → ℕ → BodyRow → BodyRow
body_claim_row worker now r = record r {
  status = processing;
  attempt_count = r.attempt_count + 1;
  locked_at = some now;
  worker_id = some worker;
  updated_at = now;
}

abbrev pub body_ids : List BodyRow → List ℕ
body_ids = map (λ (r : BodyRow). r.id)

abbrev pub has_any_id : String → List ℕ → BodyRow → Bool
has_any_id account is' r = str_eq r.account_id account && any_id is' r.id

abbrev pub body_entry : BodyRow → BodySyncQueueEntry
body_entry r = record {
  id = r.id;
  folder_name = r.folder_name;
  uid = r.uid;
  uid_validity = r.uid_validity;
  message_id = r.message_id;
  attempt_count = r.attempt_count;
}

unfoldable pub body_claimable : String → ℕ → (ℕ → Bool) → ℕ → BodyDb → List BodyRow
body_claimable account limit skip now db =
    take limit (order_by body_before (select_where (body_is_due account now skip) db.rows))

unfoldable pub claim_body_sync_batch_for_account :
    String → String → ℕ → (ℕ → Bool) → ℕ → BodyDb → BodyDb × List BodySyncQueueEntry
claim_body_sync_batch_for_account account worker limit skip now db =
    let chosen = has_any_id account (body_ids (body_claimable account limit skip now db)) in
    (
      record db { rows = update_where chosen (body_claim_row worker now) db.rows },
      map (λ r. body_entry (body_claim_row worker now r)) (select_where chosen db.rows),
    )

abbrev pub body_done_row : ℕ → BodyRow → BodyRow
body_done_row now r = record r {
  status = done;
  locked_at = none;
  worker_id = none;
  last_error = none;
  updated_at = now;
}

unfoldable pub mark_body_sync_done_for_account : String → List ℕ → ℕ → BodyDb → BodyDb × ℕ
mark_body_sync_done_for_account account [] now db = (db, 0)
mark_body_sync_done_for_account account (i ∷ is') now db = (
  record db { rows = update_where (has_any_id account (i ∷ is')) (body_done_row now) db.rows },
  count_where (has_any_id account (i ∷ is')) db.rows,
)

abbrev pub body_settled_row : Status → ℤ → Text → ℕ → BodyRow → BodyRow
body_settled_row next retry_after_secs error now r = record r {
  status = next;
  available_at =
      if is_failed next then now + at_least 0 retry_after_secs * second else r.available_at;
  locked_at = none;
  worker_id = none;
  last_error = some (left_4000 error);
  updated_at = now;
}

abbrev pub found_or_error : Status → List BodyRow → BodyResult Status
found_or_error next [] = err BodyError.item_not_found
found_or_error next (r ∷ rs) = ok next

unfoldable pub mark_body_sync_retry_or_dead_for_account :
    String → ℕ → ℕ → ℕ → ℤ → Text → ℕ → BodyDb → BodyDb × BodyResult Status
mark_body_sync_retry_or_dead_for_account account i attempt_count max_attempts retry error now db =
    let next = next_status attempt_count max_attempts in
    let fits = has_any_id account (i ∷ []) in
    (
      record db { rows = update_where fits (body_settled_row next retry error now) db.rows },
      found_or_error next (select_where fits db.rows),
    )

abbrev pub body_is_stale : String → ℤ → ℕ → BodyRow → Bool
body_is_stale account stale_after_secs now r =
    str_eq r.account_id account
    && (is_processing r.status
        && locked_before (now - at_least 1 stale_after_secs * second) r.locked_at)

abbrev pub body_reset_row : ℕ → BodyRow → BodyRow
body_reset_row now r = record r {
  status = failed;
  available_at = now;
  locked_at = none;
  worker_id = none;
  last_error = some (coalesce r.last_error (codes "stale lock reset"));
  updated_at = now;
}

unfoldable pub reset_stale_body_sync_processing_for_account : String → ℤ → ℕ → BodyDb → BodyDb × ℕ
reset_stale_body_sync_processing_for_account account secs now db = (
  record db { rows = update_where (body_is_stale account secs now) (body_reset_row now) db.rows },
  count_where (body_is_stale account secs now) db.rows,
)

pub record BodySyncQueueDepth : Type 0 where
  pub pending : ℕ
  pub failed : ℕ
  pub processing : ℕ
  pub dead : ℕ

unfoldable pub body_sync_queue_depth_for_account : String → BodyDb → BodySyncQueueDepth
body_sync_queue_depth_for_account account db = record {
  pending = count_where (λ r. str_eq r.account_id account && is_pending r.status) db.rows;
  failed = count_where (λ r. str_eq r.account_id account && is_failed r.status) db.rows;
  processing = count_where (λ r. str_eq r.account_id account && is_processing r.status) db.rows;
  dead = count_where (λ r. str_eq r.account_id account && is_dead r.status) db.rows;
}
