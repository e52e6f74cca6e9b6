-- ===== src/BodySync/Ops.antt =====
-- src/database/body_sync_queue.rs: the statements that change the table, and histories of them.
use Prim.Native.String.{String}
use mail_subsystem.Prelude.{ℕ, Bool, List, [], ◌∷◌, Option}
use mail_subsystem.Prelude.Int.{ℤ}
use mail_subsystem.Prelude.Text.{Text}
use mail_subsystem.BodySync.{
  BodySyncQueueItem, BodyDb, enqueue_body_sync_items_for_account,
  upsert_envelopes_and_enqueue_body_sync_for_account,
}
use mail_subsystem.BodySync.Stored.{
  claim_body_sync_batch_for_account, mark_body_sync_done_for_account,
  mark_body_sync_retry_or_dead_for_account, reset_stale_body_sync_processing_for_account,
}

pub data BodyOp : Type 0 where
  enqueue : String → List BodySyncQueueItem → BodyOp
  upsert_and_enqueue :
      (List (String × String) → Option (List (String × String)))
      → String
      → List BodySyncQueueItem
      → BodyOp
  claim : String → String → ℕ → (ℕ → Bool) → BodyOp
  mark_done : String → List ℕ → BodyOp
  mark_retry_or_dead : String → ℕ → ℕ → ℕ → ℤ → Text → BodyOp
  reset_stale : String → ℤ → BodyOp

unfoldable pub body_apply : BodyOp → ℕ → BodyDb → BodyDb
body_apply (enqueue account items) now db =
    (enqueue_body_sync_items_for_account account now items db).0
body_apply (upsert_and_enqueue upsert account items) now db =
    (upsert_envelopes_and_enqueue_body_sync_for_account upsert account now items db).0
body_apply (claim account worker limit skip) now db =
    (claim_body_sync_batch_for_account account worker limit skip now db).0
body_apply (mark_done account ids) now db = (mark_body_sync_done_for_account account ids now db).0
body_apply (mark_retry_or_dead account i attempts max_attempts retry error) now db =
    (mark_body_sync_retry_or_dead_for_account account i attempts max_attempts retry error now db).0
body_apply (reset_stale account secs) now db =
    (reset_stale_body_sync_processing_for_account account secs now db).0

unfoldable pub body_run : List (BodyOp × ℕ) → BodyDb → BodyDb
body_run [] db = db
body_run ((op, now) ∷ ops) db = body_run ops (body_apply op now db)
