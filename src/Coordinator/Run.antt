-- ===== src/Coordinator/Run.antt =====
-- src/core_work_queue.rs: one round of the coordinator. What a kind of work does (execute_work) and
-- the snapshot are arguments; `clock i` is the time of the i-th statement of a call.
use Prim.Native.String.{String}
use mail_subsystem.Prelude.{
  ℕ, ◌+◌, ◌-◌, Bool, true, false, ◌&&◌, List, [], ◌∷◌, Option, none, some, ltb, ◌==◌, if◌then◌else◌,
}
use mail_subsystem.Prelude.Int.{ℤ, pos}
use mail_subsystem.Prelude.Text.{Text}
use mail_subsystem.Json.{Json, obj, field, end, str}
use mail_subsystem.Completeness.{DbCompletenessSnapshot, needs_full_sync_backfill, has_body_backlog}
use mail_subsystem.CoreWork.{
  CoreWorkType, sync_full, sync_incremental, sync_body, assistant_heartbeat, subagent_task,
  same_type, Db, CoreWorkQueueEntry, Result, ok, err,
}
use mail_subsystem.CoreWork.Table.{claim_core_work_for_account, claim_core_work_batch_for_account}
use mail_subsystem.CoreWork.Settle.{
  mark_core_work_done_for_account, mark_core_work_retry_or_dead_for_account,
  reset_stale_core_work_for_account,
}
use mail_subsystem.CoreWork.Report.{core_work_due_for_account}
use mail_subsystem.Coordinator.{
  enqueue_core_work, enqueue_plan, follow_up_work_plan, idle_work_plan, reason_payload,
}

-- The fields of CoreCoordinatorConfig that a round reads.
pub record Config : Type 0 where
  pub account_id : String
  pub worker_id : String
  pub stale_after_secs : ℤ
  pub retry_after_secs : ℤ
  pub file_apply_enabled : Bool
  pub assistant_heartbeat_enabled : Bool
  pub assistant_heartbeat_interval_secs : ℕ
  pub subagent_concurrency : ℕ

-- What the coordinator calls, the work itself, with the text of its error, and the snapshot; and what
-- other tasks do to the table between a test for active work and the INSERT at the given time.
pub record World : Type 0 where
  pub execute : CoreWorkQueueEntry → Db → Db × Option Text
  pub snapshot : Db → DbCompletenessSnapshot
  pub others : ℕ → Db → Db

abbrev heartbeat_payload : String → Json
heartbeat_payload reason =
    obj (field "reason" (str reason) (field "requested_by" (str "mail-assistant") end))

module _ (world : World) (cfg : Config) where
  unfoldable pub enqueue_follow_up_work : CoreWorkType → (ℕ → ℕ) → ℕ → Db → Db
  enqueue_follow_up_work completed clock i db =
      enqueue_plan world.others cfg.account_id "pipeline" clock i
        (follow_up_work_plan completed cfg.file_apply_enabled (world.snapshot db)) db

  unfoldable pub enqueue_idle_work : (ℕ → ℕ) → Db → Db
  enqueue_idle_work clock db =
      let planned =
        enqueue_plan world.others cfg.account_id "periodic" clock 1
          (idle_work_plan (world.snapshot db) cfg.file_apply_enabled) db in
      if cfg.assistant_heartbeat_enabled
        && core_work_due_for_account cfg.account_id assistant_heartbeat "assistant-heartbeat"
            (pos cfg.assistant_heartbeat_interval_secs) (clock 0) planned
      then enqueue_core_work world.others cfg.account_id assistant_heartbeat "assistant-heartbeat"
          (heartbeat_payload "heartbeat_due") (clock 0) planned
      else planned

  unfoldable pub seed_bootstrap_work : (ℕ → ℕ) → Db → Db
  seed_bootstrap_work clock db =
      let s = world.snapshot db in
      let synced =
        if needs_full_sync_backfill s
        then enqueue_core_work world.others cfg.account_id sync_full "bootstrap"
            (reason_payload
              (if s.email_count == 0 then "blank_database" else "partial_database_backfill"))
            (clock 0) db
        else enqueue_core_work world.others cfg.account_id sync_incremental "periodic"
            (reason_payload "core_start") (clock 0) db in
      let bodies =
        if has_body_backlog s
        then enqueue_core_work world.others cfg.account_id sync_body "body-backlog"
            (reason_payload "active_body_backlog") (clock 1) synced
        else synced in
      if cfg.assistant_heartbeat_enabled
      then enqueue_core_work world.others cfg.account_id assistant_heartbeat "assistant-heartbeat"
          (heartbeat_payload "core_start") (clock 2) bodies
      else bodies

  unfoldable pub process_claimed_work : (ℕ → ℕ) → CoreWorkQueueEntry → Db → Db × Result (Unit {0})
  process_claimed_work clock work db =
      let (worked, failure) = world.execute work db in
      elim failure [
        | none ↦ (
          enqueue_follow_up_work work.work_type clock 1
              (mark_core_work_done_for_account cfg.account_id work.id (clock 0) worked).0,
          ok tt,
        )
        | some error ↦
            let (marked, status) =
              mark_core_work_retry_or_dead_for_account cfg.account_id work.id work.attempt_count
                work.max_attempts cfg.retry_after_secs error (clock 0) worked in
            (marked, elim status [ ok s ↦ ok tt | err x ↦ err x ])
      ]

  -- The stream over a batch: every item is processed, and the first error is returned at the end.
  -- `clocks k` is the clock of the k-th item; the items run one after another.
  unfoldable pub process_batch :
      (ℕ → ℕ → ℕ) → ℕ → List CoreWorkQueueEntry → Db → Db × Result (Unit {0})
  process_batch clocks k [] db = (db, ok tt)
  process_batch clocks k (work ∷ rest) db =
      let (db', first) = process_claimed_work (clocks k) work db in
      let (db'', later) = process_batch clocks (k + 1) rest db' in
      (db'', elim first [ ok _ ↦ later | err x ↦ err x ])

  -- The batch with what the second claim returned.
  unfoldable pub settle_batch :
      (ℕ → ℕ → ℕ) → CoreWorkQueueEntry → Db × Result (List CoreWorkQueueEntry) → Db × Result Bool
  settle_batch clocks work (claimed, err x) = (claimed, err x)
  settle_batch clocks work (claimed, ok entries) =
      let (processed, outcome) = process_batch clocks 0 (work ∷ entries) claimed in
      (processed, elim outcome [ ok _ ↦ ok true | err x ↦ err x ])

  -- The round from the first claim on; `now` is the time of the batch claim.
  unfoldable pub settle_claim :
      (ℕ → Bool) → ℕ → (ℕ → ℕ → ℕ) → Db × Result (Option CoreWorkQueueEntry) → Db × Result Bool
  settle_claim skip now clocks (claimed, err x) = (claimed, err x)
  settle_claim skip now clocks (claimed, ok none) = (claimed, ok false)
  settle_claim skip now clocks (claimed, ok (some work)) =
      let batched = settle_batch clocks work (
        claim_core_work_batch_for_account cfg.account_id cfg.worker_id subagent_task
          (cfg.subagent_concurrency - 1) skip now claimed) in
      let (processed, outcome) = process_claimed_work (clocks 0) work claimed in
      if same_type work.work_type subagent_task && ltb 1 cfg.subagent_concurrency
      then batched
      else (processed, elim outcome [ ok _ ↦ ok true | err x ↦ err x ])

  -- `times 0`, `times 1` and `times 2` are those of the reset, the claim and the batch claim.
  unfoldable pub run_once : (ℕ → Bool) → (ℕ → ℕ) → (ℕ → ℕ → ℕ) → Db → Db × Result Bool
  run_once skip times clocks db =
      let reset =
        (reset_stale_core_work_for_account cfg.account_id cfg.stale_after_secs (times 0) db).0 in
      settle_claim skip (times 2) clocks
        (claim_core_work_for_account cfg.account_id cfg.worker_id skip (times 1) reset)
