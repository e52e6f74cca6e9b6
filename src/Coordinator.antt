-- ===== src/Coordinator.antt =====
-- src/core_work_queue.rs: which work the coordinator plans, and how it enqueues it.
pub mod Plans
pub mod Coalesce
pub mod Enqueue
pub mod Run
pub mod Claims
pub mod Round
pub mod Steps
pub mod Daemon
pub mod Lifetime
pub mod Unclaimed
mod Tests
use Prim.Native.String.{String}
use mail_subsystem.Prelude.{
  ℕ, suc, ◌+◌, Bool, true, false, not, ◌&&◌, ◌||◌, List, [], ◌∷◌, ◌++◌, ltb, ◌==◌, if◌then◌else◌,
}
use mail_subsystem.Json.{Json, obj, field, end, str}
use mail_subsystem.Completeness.{DbCompletenessSnapshot, needs_full_sync_backfill, has_body_backlog}
use mail_subsystem.CoreWork.{
  CoreWorkType, sync_full, sync_incremental, sync_body, analyze, embed, locate, file_preview,
  file_apply, assistant_heartbeat, subagent_task, same_type, Db,
}
use mail_subsystem.CoreWork.Table.{enqueue_core_work_for_account}
use mail_subsystem.CoreWork.Report.{has_active_core_work_type_for_account}

abbrev pub Plan : Type 0
Plan = List (CoreWorkType × String)

-- `plan.iter().any(|(work_type, _)| *work_type == t)`.
abbrev pub plans : CoreWorkType → Plan → Bool
plans t [] = false
plans t ((u, reason) ∷ rest) = same_type u t || plans t rest

-- `if test { plan.push((t, reason)) }`.
abbrev pub push_if : Bool → CoreWorkType → String → Plan → Plan
push_if test t reason plan = if test then plan ++ (t, reason) ∷ [] else plan

-- The match on the completed work.
abbrev pub next_stage : CoreWorkType → Bool → DbCompletenessSnapshot → Plan
next_stage sync_full file_apply_enabled s =
    push_if (ltb 0 s.analysis_missing) analyze "sync_completed" []
next_stage sync_incremental file_apply_enabled s =
    push_if (ltb 0 s.analysis_missing) analyze "sync_completed" []
next_stage sync_body file_apply_enabled s =
    push_if (ltb 0 s.analysis_missing) analyze "sync_completed" []
next_stage analyze file_apply_enabled s =
    push_if (ltb 0 s.location_missing) locate "analysis_completed"
      ((embed, "analysis_completed") ∷ [])
next_stage embed file_apply_enabled s =
    push_if (ltb 0 s.location_missing) locate "embed_completed" []
next_stage locate file_apply_enabled s =
    push_if (ltb 0 s.filing_pending) file_preview "locate_completed" []
next_stage file_preview file_apply_enabled s =
    push_if (file_apply_enabled && ltb 0 s.filing_pending) file_apply "file_preview_completed" []
next_stage _ file_apply_enabled s = []

unfoldable pub follow_up_work_plan : CoreWorkType → Bool → DbCompletenessSnapshot → Plan
follow_up_work_plan completed file_apply_enabled s =
    let plan = next_stage completed file_apply_enabled s in
    let with_analyze =
      push_if (ltb 0 s.analysis_missing && not (plans analyze plan)) analyze "analysis_backlog"
        plan in
    push_if (ltb 0 s.location_missing && not (plans locate with_analyze)) locate "location_backlog"
      with_analyze

abbrev pub sync_plan : DbCompletenessSnapshot → Plan
sync_plan s =
    if needs_full_sync_backfill s
    then (sync_full, if s.email_count == 0 then "blank_database" else "partial_database_backfill")
      ∷ []
    else (sync_incremental, "core_idle_poll") ∷ []

unfoldable pub idle_work_plan : DbCompletenessSnapshot → Bool → Plan
idle_work_plan s file_apply_enabled =
    let with_bodies = push_if (has_body_backlog s) sync_body "body_backlog" (sync_plan s) in
    let with_analyze = push_if (ltb 0 s.analysis_missing) analyze "analysis_backlog" with_bodies in
    let with_locate = push_if (ltb 0 s.location_missing) locate "location_backlog" with_analyze in
    push_if (file_apply_enabled && ltb 0 s.filing_pending) file_apply "filing_backlog" with_locate

unfoldable pub should_coalesce_core_work : CoreWorkType → Bool
should_coalesce_core_work assistant_heartbeat = false
should_coalesce_core_work subagent_task = false
should_coalesce_core_work _ = true

-- Work of a kind that is pending, running or waiting for a retry is not queued again. The test and the
-- INSERT are two statements: `others now` is what other tasks do to the table between them.
unfoldable pub enqueue_core_work :
    (ℕ → Db → Db) → String → CoreWorkType → String → Json → ℕ → Db → Db
unfolding should_coalesce_core_work
enqueue_core_work others account t key payload now db =
    if should_coalesce_core_work t && has_active_core_work_type_for_account account t db
    then db
    else (enqueue_core_work_for_account account t key payload now (others now db)).0

abbrev pub reason_payload : String → Json
reason_payload reason = obj (field "reason" (str reason) end)

-- The loops over a plan; `clock i` is the time of the i-th statement.
unfoldable pub enqueue_plan : (ℕ → Db → Db) → String → String → (ℕ → ℕ) → ℕ → Plan → Db → Db
enqueue_plan others account key clock i [] db = db
enqueue_plan others account key clock i ((t, reason) ∷ rest) db =
    enqueue_plan others account key clock (i + 1) rest
      (enqueue_core_work others account t key (reason_payload reason) (clock i) db)
