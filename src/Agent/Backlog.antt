-- ===== src/Agent/Backlog.antt =====
-- src/agent_harness/run_executor.rs: which work is missing, and that a request queues it.
use mail_subsystem.Prelude.{
  ◌≡◌, Bool, true, false, not, ◌&&◌, ◌||◌, List, [], ◌∷◌, arith, ltb, ◌==◌,
}
use mail_subsystem.Completeness.{
  DbCompletenessSnapshot, needs_full_sync_backfill, has_active_backlog, has_body_backlog,
}
use mail_subsystem.CoreWork.{CoreWorkType, same_type, sync_full, sync_body, analyze, locate}
use mail_subsystem.Agent.Distinct.{has}
use mail_subsystem.Agent.Prerequisites.{classify_db_prerequisite_work}

-- Vec::contains.
abbrev pub has_type : CoreWorkType → List CoreWorkType → Bool
has_type = has same_type

abbrev pub is_empty_work : List CoreWorkType → Bool
is_empty_work [] = true
is_empty_work (t ∷ ts) = false

-- The missing work is empty exactly if there is no active backlog, and each kind is missing exactly
-- if its part of the backlog is there; no other kind is ever missing.
pub classify-backlog :
    (s : DbCompletenessSnapshot) (t : CoreWorkType)
    → (is_empty_work (classify_db_prerequisite_work s) ≡ not (has_active_backlog s))
      × (has_type t (classify_db_prerequisite_work s) ≡ (
          (same_type sync_full t && (s.folder_count == 0 || needs_full_sync_backfill s))
          || ((same_type sync_body t && has_body_backlog s)
              || ((same_type analyze t && ltb 0 s.analysis_missing)
                  || (same_type locate t && ltb 0 s.location_missing)))))
unfolding classify_db_prerequisite_work has_active_backlog has_body_backlog needs_full_sync_backfill
classify-backlog s t = (ground arith, ground arith)
