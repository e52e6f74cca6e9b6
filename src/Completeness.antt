-- ===== src/Completeness.antt =====
-- src/database/completeness.rs: the counts that decide which work is planned. The queries behind
-- the snapshot read other tables; a snapshot is an argument wherever one is loaded.
use mail_subsystem.Prelude.{ℕ, ◌*◌, Bool, ◌&&◌, ◌||◌, ltb, leb, ◌==◌, min}

pub record BodySyncQueueDepth : Type 0 where
  pub pending : ℕ
  pub failed : ℕ
  pub processing : ℕ
  pub dead : ℕ

-- The counts are i64 values that are not negative.
pub record DbCompletenessSnapshot : Type 0 where
  pub folder_count : ℕ
  pub largest_folder_message_count : ℕ
  pub email_count : ℕ
  pub missing_message_id : ℕ
  pub body_missing : ℕ
  pub analysis_missing : ℕ
  pub location_missing : ℕ
  pub filing_pending : ℕ
  pub body_sync : BodySyncQueueDepth

abbrev pub i64_max : ℕ
i64_max = 9223372036854775807

abbrev pub saturating_mul : ℕ → ℕ → ℕ
saturating_mul a b = min (a * b) i64_max

unfoldable pub needs_full_sync_backfill : DbCompletenessSnapshot → Bool
needs_full_sync_backfill s =
    s.email_count == 0
    || (leb 100 s.largest_folder_message_count
        && ltb (saturating_mul s.email_count 4) s.largest_folder_message_count)

unfoldable pub has_active_backlog : DbCompletenessSnapshot → Bool
unfolding needs_full_sync_backfill
has_active_backlog s =
    needs_full_sync_backfill s
    || (s.folder_count == 0
        || (ltb 0 s.body_missing
            || (ltb 0 s.analysis_missing
                || (ltb 0 s.location_missing
                    || (ltb 0 s.body_sync.pending
                        || (ltb 0 s.body_sync.failed || ltb 0 s.body_sync.processing))))))

-- The test by which bodies are queued, at start and when idle.
unfoldable pub has_body_backlog : DbCompletenessSnapshot → Bool
has_body_backlog s =
    ltb 0 s.body_missing
    || (ltb 0 s.body_sync.pending || (ltb 0 s.body_sync.failed || ltb 0 s.body_sync.processing))
