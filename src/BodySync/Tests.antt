-- ===== src/BodySync/Tests.antt =====
-- Runs of the statements of src/database/body_sync_queue.rs.
use mail_subsystem.Prelude.{
  In, true, inl, arith, none, some, ℕ, ◌≡◌, refl, List, [], ◌∷◌, Bool, false, map,
}
use mail_subsystem.Prelude.Int.{pos}
use mail_subsystem.Prelude.Text.{codes}
use mail_subsystem.Sql.{select_where, update_where, upsert_where, order_by, any_id, keys_before}
use mail_subsystem.CoreWork.{Status, pending, processing}
use mail_subsystem.CoreWork.Settle.{left_4000}
use mail_subsystem.BodySync.{
  BodyRow, BodySyncQueueItem, BodyDb, err, BodyError, insert_items, insert_statement, reopen_row,
  enqueue_body_sync_items_for_account,
}
use mail_subsystem.BodySync.Stored.{
  claim_body_sync_batch_for_account, mark_body_sync_retry_or_dead_for_account, body_claimable,
  body_is_due,
}
use mail_subsystem.BodySync.Ops.{BodyOp, body_apply, body_run}
use mail_subsystem.BodySync.Enqueue.{IsEnqueued, enqueue-IsEnqueued}
use mail_subsystem.BodySync.Invariant.{IsWellFormed}
use mail_subsystem.BodySync.Claim.{IsBodyClaim, claim-IsBodyClaim}
use mail_subsystem.BodySync.Reclaim.{enqueue-frees_claim}
use mail_subsystem.BodySync.Histories.{body_run-IsWellFormed}

abbrev empty_db : BodyDb
empty_db = record { next_id = 1; rows = []; emails = ("me", "m1") ∷ ("me", "m2") ∷ [] }

abbrev first_item : BodySyncQueueItem
first_item = record { folder_name = "INBOX"; uid = pos 7; uid_validity = pos 1; message_id = "m1" }

abbrev second_item : BodySyncQueueItem
second_item = record { folder_name = "INBOX"; uid = pos 8; uid_validity = pos 1; message_id = "m2" }

abbrev unknown_item : BodySyncQueueItem
unknown_item = record {
  folder_name = "INBOX";
  uid = pos 9;
  uid_validity = pos 1;
  message_id = "m3";
}

abbrev statuses : BodyDb → List (ℕ × Status)
statuses db = map (λ (r : BodyRow). (r.attempt_count, r.status)) db.rows

abbrev skip_none : ℕ → Bool
skip_none i = false

item_twice :
    (enqueue_body_sync_items_for_account "me" 10 (first_item ∷ first_item ∷ []) empty_db).1
    ≡ err BodyError.row_affected_twice
unfolding enqueue_body_sync_items_for_account insert_statement insert_items upsert_where
item_twice = refl

email_missing :
    (enqueue_body_sync_items_for_account "me" 10 (first_item ∷ unknown_item ∷ []) empty_db).1
    ≡ err BodyError.unknown_email
unfolding enqueue_body_sync_items_for_account insert_statement insert_items upsert_where
email_missing = refl

abbrev enqueue_both : BodyOp × ℕ
enqueue_both = (BodyOp.enqueue "me" (first_item ∷ second_item ∷ []), 10)

abbrev claim_one : BodyOp × ℕ
claim_one = (BodyOp.claim "me" "w" 1 skip_none, 20)

-- A row that was tried without success, dead, and enqueued again keeps its attempts.
enqueued_when_dead :
    statuses (
      body_run
        (enqueue_both
          ∷ claim_one
          ∷ (BodyOp.mark_retry_or_dead "me" 1 1 1 (pos 30) (codes "lost"), 30)
          ∷ enqueue_both
          ∷ [])
        empty_db)
    ≡ (1, pending) ∷ (0, pending) ∷ []
unfolding body_run body_apply enqueue_body_sync_items_for_account insert_statement insert_items
    upsert_where claim_body_sync_batch_for_account body_claimable order_by select_where update_where
    any_id mark_body_sync_retry_or_dead_for_account left_4000 keys_before
enqueued_when_dead = refl

enqueue-IsEnqueued_example :
    IsEnqueued "me" 10
      (first_item ∷ second_item ∷ [])
      empty_db
      (enqueue_body_sync_items_for_account "me" 10 (first_item ∷ second_item ∷ []) empty_db)
enqueue-IsEnqueued_example = enqueue-IsEnqueued "me" 10 (first_item ∷ second_item ∷ []) empty_db

body_run-IsWellFormed_example :
    IsWellFormed (body_run (enqueue_both ∷ claim_one ∷ enqueue_both ∷ []) empty_db)
body_run-IsWellFormed_example =
    body_run-IsWellFormed (enqueue_both ∷ claim_one ∷ enqueue_both ∷ []) empty_db
      (record { ids_grow = tt; ids_below = tt; keys_unique = tt; locks_right = tt })

-- The row of the first item, held by a worker.
abbrev claimed_row : BodyRow
claimed_row = record {
  id = 1;
  account_id = "me";
  folder_name = "INBOX";
  uid = pos 7;
  uid_validity = pos 1;
  message_id = "m1";
  status = processing;
  attempt_count = 1;
  available_at = 10;
  locked_at = some 20;
  worker_id = some "w";
  last_error = none;
  created_at = 10;
  updated_at = 20;
}

abbrev claimed_db : BodyDb
claimed_db = record { next_id = 2; rows = claimed_row ∷ []; emails = ("me", "m1") ∷ [] }

enqueue-frees_claim_example :
    In
      (reopen_row 30 claimed_row)
      (enqueue_body_sync_items_for_account "me" 30 (first_item ∷ []) claimed_db).0.rows
    × (body_is_due "me" 30 (λ _. false) (reopen_row 30 claimed_row) ≡ true)
enqueue-frees_claim_example =
    enqueue-frees_claim "me" 30 first_item claimed_db claimed_row
      (record {
        ids_grow = (tt, tt);
        ids_below = (omega arith, tt);
        keys_unique = (tt, tt);
        locks_right = (record { lock = refl; owner = refl }, tt);
      })
      (inl refl) refl refl refl

abbrev waiting_db : BodyDb
waiting_db = record {
  next_id = 2;
  rows = record claimed_row { status = pending; locked_at = none; worker_id = none } ∷ [];
  emails = ("me", "m1") ∷ [];
}

claim-IsBodyClaim_example :
    IsBodyClaim "me" "w" 5 skip_none 40 waiting_db
      (claim_body_sync_batch_for_account "me" "w" 5 skip_none 40 waiting_db)
claim-IsBodyClaim_example = claim-IsBodyClaim "me" "w" 5 skip_none 40 waiting_db (record {
  ids_grow = (tt, tt);
  ids_below = (omega arith, tt);
  keys_unique = (tt, tt);
  locks_right = (record { lock = refl; owner = refl }, tt);
})
