-- ===== src/BodySync/Histories.antt =====
-- src/database/body_sync_queue.rs: every history of statements keeps the table well formed.
use Prim.Native.String.{String}
use mail_subsystem.Prelude.{ℕ, refl, ◌≤◌, List, [], ◌∷◌, Option, none, some, arith}
use mail_subsystem.CoreWork.Settle.{next_status}
use mail_subsystem.BodySync.{
  BodySyncQueueItem, BodyDb, BodyResult, ok, err, insert_statement, commit_after_insert,
  after_envelopes, enqueue_in_transaction, enqueue_body_sync_items_for_account,
  upsert_envelopes_and_enqueue_body_sync_for_account,
}
use mail_subsystem.BodySync.Stored.{
  body_claim_row, body_done_row, body_settled_row, body_reset_row,
  claim_body_sync_batch_for_account, mark_body_sync_done_for_account,
  mark_body_sync_retry_or_dead_for_account, reset_stale_body_sync_processing_for_account,
}
use mail_subsystem.BodySync.Ops.{
  BodyOp, enqueue, upsert_and_enqueue, claim, mark_done, mark_retry_or_dead, reset_stale,
  body_apply, body_run,
}
use mail_subsystem.BodySync.Invariant.{
  IsWellFormed, rows_updated-IsWellFormed, next_id_raised-IsWellFormed,
  insert_statement-IsWellFormed,
}

other_emails-IsWellFormed :
    (db : BodyDb) (es : List (String × String))
    → IsWellFormed db
    → IsWellFormed (record db { emails = es })
other_emails-IsWellFormed db es w = record {
  ids_grow = w.ids_grow;
  ids_below = w.ids_below;
  keys_unique = w.keys_unique;
  locks_right = w.locks_right;
}

commit-IsWellFormed :
    (before : BodyDb) (result : BodyDb × BodyResult ℕ)
    → IsWellFormed before
    → IsWellFormed result.0
    → before.next_id ≤ result.0.next_id
    → IsWellFormed (commit_after_insert before result).0
commit-IsWellFormed before (db, ok n) b w le = w
commit-IsWellFormed before (db, err e) b w le = next_id_raised-IsWellFormed before db.next_id le b

transaction-IsWellFormed :
    (account : String) (now : ℕ) (items : List BodySyncQueueItem) (before : BodyDb)
    (es : List (String × String))
    → IsWellFormed before
    → IsWellFormed
        (enqueue_in_transaction account now items before (record before { emails = es })).0
transaction-IsWellFormed account now [] before es w = other_emails-IsWellFormed before es w
transaction-IsWellFormed account now (i ∷ is') before es w =
    let db = record before { emails = es } in
    let (a, b) =
      insert_statement-IsWellFormed account now (i ∷ is') db
        (other_emails-IsWellFormed before es w) in
    commit-IsWellFormed before (insert_statement account now (i ∷ is') db) w a b

after_envelopes-IsWellFormed :
    (account : String) (now : ℕ) (items : List BodySyncQueueItem) (db : BodyDb)
    (o : Option (List (String × String)))
    → IsWellFormed db
    → IsWellFormed (after_envelopes account now items db o).0
after_envelopes-IsWellFormed account now items db none w = w
after_envelopes-IsWellFormed account now items db (some es) w =
    transaction-IsWellFormed account now items db es w

body_apply-IsWellFormed :
    (op : BodyOp) (now : ℕ) (db : BodyDb) → IsWellFormed db → IsWellFormed (body_apply op now db)
unfolding body_apply enqueue_body_sync_items_for_account
    upsert_envelopes_and_enqueue_body_sync_for_account claim_body_sync_batch_for_account
    mark_body_sync_done_for_account mark_body_sync_retry_or_dead_for_account
    reset_stale_body_sync_processing_for_account
body_apply-IsWellFormed (enqueue account []) now db w = w
body_apply-IsWellFormed (enqueue account (i ∷ is')) now db w =
    (insert_statement-IsWellFormed account now (i ∷ is') db w).0
body_apply-IsWellFormed (upsert_and_enqueue upsert account items) now db w =
    after_envelopes-IsWellFormed account now items db (upsert db.emails) w
body_apply-IsWellFormed (claim account worker limit skip) now db w =
    rows_updated-IsWellFormed _ (body_claim_row worker now)
      (record { id = λ r. refl; account_id = λ r. refl; item = λ r. refl; key = λ a i r. refl }) db
      (λ r h. record { lock = refl; owner = refl }) w
body_apply-IsWellFormed (mark_done account []) now db w = w
body_apply-IsWellFormed (mark_done account (i ∷ is')) now db w =
    rows_updated-IsWellFormed _ (body_done_row now)
      (record { id = λ r. refl; account_id = λ r. refl; item = λ r. refl; key = λ a i r. refl }) db
      (λ r h. record { lock = refl; owner = refl }) w
body_apply-IsWellFormed (mark_retry_or_dead account i attempts max_attempts retry error) now db w =
    rows_updated-IsWellFormed _
      (body_settled_row (next_status attempts max_attempts) retry error now)
      (record { id = λ r. refl; account_id = λ r. refl; item = λ r. refl; key = λ a i r. refl }) db
      (λ r h. ground arith) w
body_apply-IsWellFormed (reset_stale account secs) now db w =
    rows_updated-IsWellFormed _ (body_reset_row now)
      (record { id = λ r. refl; account_id = λ r. refl; item = λ r. refl; key = λ a i r. refl }) db
      (λ r h. record { lock = refl; owner = refl }) w

-- Any history of statements keeps the table of body jobs well formed: ids grow in the order of
-- insertion and stay below the sequence, no two rows have the same account, folder, uid, validity
-- and message, and a row has a lock and an owner exactly while it is being processed.
pub body_run-IsWellFormed :
    (ops : List (BodyOp × ℕ)) (db : BodyDb) → IsWellFormed db → IsWellFormed (body_run ops db)
unfolding body_run
body_run-IsWellFormed [] db w = w
body_run-IsWellFormed ((op, now) ∷ ops) db w =
    body_run-IsWellFormed ops (body_apply op now db) (body_apply-IsWellFormed op now db w)
