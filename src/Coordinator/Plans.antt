-- ===== src/Coordinator/Plans.antt =====
-- src/core_work_queue.rs: what the plans contain.
use mail_subsystem.Prelude.{◌≡◌, Bool, true, not, ◌&&◌, [], ◌∷◌, arith, ltb}
use mail_subsystem.Completeness.{DbCompletenessSnapshot}
use mail_subsystem.CoreWork.{
  CoreWorkType, analyze, embed, locate, file_preview, file_apply, same_type,
}
use mail_subsystem.Coordinator.{Plan, plans, follow_up_work_plan}

-- No kind is planned twice.
abbrev pub planned_once : Plan → Bool
planned_once [] = true
planned_once ((t, reason) ∷ rest) = not (plans t rest) && planned_once rest

-- After completed work: nothing is planned twice, analysis and location are planned exactly if some
-- of either is missing, embedding exactly after an analysis, whether or not some is missing, a filing
-- preview exactly after a location with filings pending, and the filing itself exactly after a
-- preview, with filings pending, if it is enabled.
pub follow_up-plans :
    (completed : CoreWorkType) (enabled : Bool) (s : DbCompletenessSnapshot)
    → (planned_once (follow_up_work_plan completed enabled s) ≡ true)
      × (plans analyze (follow_up_work_plan completed enabled s) ≡ ltb 0 s.analysis_missing)
      × (plans locate (follow_up_work_plan completed enabled s) ≡ ltb 0 s.location_missing)
      × (plans embed (follow_up_work_plan completed enabled s) ≡ same_type completed analyze)
      × (plans file_preview (follow_up_work_plan completed enabled s)
          ≡ (same_type completed locate && ltb 0 s.filing_pending))
      × (plans file_apply (follow_up_work_plan completed enabled s)
          ≡ (same_type completed file_preview && (enabled && ltb 0 s.filing_pending)))
unfolding follow_up_work_plan
follow_up-plans completed enabled s =
    (ground arith, ground arith, ground arith, ground arith, ground arith, ground arith)
