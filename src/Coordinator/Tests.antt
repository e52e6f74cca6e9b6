-- ===== src/Coordinator/Tests.antt =====
-- src/core_work_queue.rs: the theorems at concrete inputs, and the plans of the source's own tests.
use Prim.Native.String.{String}
use mail_subsystem.Prelude.{List, Bool, ℕ, ◌+◌, ◌≡◌, refl, true, false, [], ◌∷◌, some, arith}
use mail_subsystem.Prelude.Int.{pos}
use mail_subsystem.Prelude.Text.{codes}
use mail_subsystem.Json.{null}
use mail_subsystem.Completeness.{DbCompletenessSnapshot, needs_full_sync_backfill, has_body_backlog}
use mail_subsystem.CoreWork.{
  sync_incremental, analyze, embed, locate, file_preview, file_apply, subagent_task, Row, Db,
  is_active,
}
use mail_subsystem.CoreWork.Table.{new_row, enqueue_core_work_for_account}
use mail_subsystem.CoreWork.Report.{has_active_core_work_type_for_account}
use mail_subsystem.Sql.{upsert_where, exists_where}
use mail_subsystem.CoreWork.Ops.{Op, mark_retry_or_dead, apply}
use mail_subsystem.CoreWork.Invariant.{IsWellFormed}
use mail_subsystem.Coordinator.{
  Plan, plans, follow_up_work_plan, idle_work_plan, enqueue_plan, should_coalesce_core_work,
  enqueue_core_work,
}
use mail_subsystem.Coordinator.Plans.{planned_once, follow_up-plans}
use mail_subsystem.Coordinator.Coalesce.{OneActive, apply-OneActive}
use mail_subsystem.Coordinator.Enqueue.{KeepsOneActive, enqueue_plan-OneActive}
use mail_subsystem.Coordinator.Run.{Config, World, run_once}
use mail_subsystem.Coordinator.Daemon.{BackgroundSync, Iteration, run_core_coordinator_with_config}
use mail_subsystem.Coordinator.Lifetime.{IsUnclaimed, EndsReleased, run-EndsReleased}
use mail_subsystem.Coordinator.Unclaimed.{IsQuiet, run-IsQuiet}
use mail_subsystem.Coordinator.Claims.{ClaimsWithin}
use mail_subsystem.Coordinator.Round.{run_once-ClaimsWithin}

abbrev backlog : ℕ → ℕ → ℕ → DbCompletenessSnapshot
backlog analysis location filing = record {
  folder_count = 1;
  largest_folder_message_count = 0;
  email_count = 10;
  missing_message_id = 0;
  body_missing = 0;
  analysis_missing = analysis;
  location_missing = location;
  filing_pending = filing;
  body_sync = record { pending = 0; failed = 0; processing = 0; dead = 0 };
}

follow_up_analyze :
    follow_up_work_plan analyze true (backlog 12 7 0)
    ≡ (embed, "analysis_completed")
      ∷ (locate, "analysis_completed")
      ∷ (analyze, "analysis_backlog")
      ∷ []
unfolding follow_up_work_plan
follow_up_analyze = refl

idle_apply_only_when_enabled :
    idle_work_plan (backlog 0 0 3) true
    ≡ (sync_incremental, "core_idle_poll") ∷ (file_apply, "filing_backlog") ∷ []
unfolding idle_work_plan needs_full_sync_backfill has_body_backlog
idle_apply_only_when_enabled = refl

follow_up-plans_example :
    let plan = follow_up_work_plan locate true (backlog 0 0 1) in
    (planned_once plan ≡ true)
    × (plans analyze plan ≡ false)
    × (plans locate plan ≡ false)
    × (plans embed plan ≡ false)
    × (plans file_preview plan ≡ true)
    × (plans file_apply plan ≡ false)
follow_up-plans_example = follow_up-plans locate true (backlog 0 0 1)

abbrev first : Row
first = new_row "default" analyze "pipeline" null 100 1

abbrev sub : Row
sub = new_row "default" subagent_task "task-1" null 50 2

abbrev table : Db
table = record { next_id = 3; rows = first ∷ sub ∷ []; tasks = [] }

table-IsWellFormed : IsWellFormed table
table-IsWellFormed = record {
  ids_grow = omega arith;
  ids_below = omega arith;
  keys_unique = ((refl, tt), (tt, tt));
  locks_right = (record { lock = refl; owner = refl }, (record { lock = refl; owner = refl }, tt));
}

table-OneActive : OneActive table
unfolding should_coalesce_core_work
table-OneActive = ((refl, tt), (tt, tt))

abbrev fails : Op
fails = mark_retry_or_dead "default" 1 0 3 (pos 60) (codes "boom")

apply-OneActive_example : OneActive (apply fails 200 table)
apply-OneActive_example =
    apply-OneActive fails 200 table table-IsWellFormed refl (refl, (refl, tt)) table-OneActive

abbrev plan : Plan
plan = (analyze, "analysis_backlog") ∷ (locate, "location_backlog") ∷ []

abbrev no_others : ℕ → Db → Db
no_others now db = db

no_others-KeepsOneActive : KeepsOneActive "default" no_others
no_others-KeepsOneActive = record {
  one_active = λ now db o. o;
  starts_none = λ now t db coalesced e. e;
}

enqueue_plan-OneActive_example :
    OneActive (enqueue_plan no_others "default" "periodic" (λ i. 300 + i) 0 plan table)
enqueue_plan-OneActive_example =
    enqueue_plan-OneActive no_others "default" "periodic" (λ i. 300 + i) 0 plan table
      no_others-KeepsOneActive table-OneActive

-- The background sync enqueues an analysis between the test and the INSERT of the idle enqueueing.
abbrev racing : ℕ → Db → Db
racing now db = (enqueue_core_work_for_account "default" analyze "pipeline" null now db).0

abbrev raced : Db
raced =
    enqueue_core_work racing "default" analyze "periodic" null 300
      (record { next_id = 1; rows = []; tasks = [] })

abbrev statuses : List Row → List (String × Bool)
statuses [] = []
statuses (r ∷ rs) = (r.idempotency_key, is_active r.status) ∷ statuses rs

-- Then two active rows of the kind stand in the queue.
race : statuses raced.rows ≡ ("pipeline", true) ∷ ("periodic", true) ∷ []
unfolding enqueue_core_work should_coalesce_core_work has_active_core_work_type_for_account
    enqueue_core_work_for_account upsert_where exists_where
race = refl

abbrev cfg : Config
cfg = record {
  account_id = "default";
  worker_id = "core-1";
  stale_after_secs = pos 600;
  retry_after_secs = pos 60;
  file_apply_enabled = false;
  assistant_heartbeat_enabled = true;
  assistant_heartbeat_interval_secs = 60;
  subagent_concurrency = 4;
}

-- Work that changes nothing in the table, and fails.
abbrev world : World
world = record {
  execute = λ work db. (db, some (codes "boom"));
  snapshot = λ db. backlog 5 0 0;
  others = no_others;
}

run_once-ClaimsWithin_example :
    ClaimsWithin "default" []
      (run_once world cfg (λ _. false) (λ i. 300 + i) (λ k i. 400 + k + i) table).0
run_once-ClaimsWithin_example =
    run_once-ClaimsWithin world cfg (λ account js work db h. h, λ account js now db h. h)
      (λ _. false) (λ i. 300 + i) (λ k i. 400 + k + i) table table-IsWellFormed (refl, (refl, tt))

-- A round with work that fails, with a background sync before it; then a shutdown is seen.
abbrev synced : BackgroundSync
synced = record {
  status_known = true;
  account_loads = true;
  sync = λ db. (db, true);
  clock = λ i. 290 + i;
}

abbrev round : Iteration
round = record {
  stopped = false;
  stopped_waiting = false;
  skip = λ i. false;
  times = λ i. 300 + i;
  clocks = λ k i. 400 + k + i;
  idle_clock = λ i. 500 + i;
  background = synced ∷ [];
}

run-EndsReleased_example :
    IsUnclaimed "default"
      (run_core_coordinator_with_config world cfg true true 200 600 (λ i. 210 + i) [] table).1
    × EndsReleased world cfg true table (
        run_core_coordinator_with_config world cfg true true 200 600
          (λ i. 210 + i)
          (round ∷ record round { stopped = true } ∷ [])
          table)
run-EndsReleased_example =
    run-EndsReleased world cfg true true 200 600 (λ i. 210 + i)
      (round ∷ record round { stopped = true } ∷ []) table (λ now db u. u)

run-IsQuiet_example :
    IsQuiet "default"
      (run_core_coordinator_with_config world cfg true true 200 600
        (λ i. 210 + i)
        (round ∷ record round { stopped = true } ∷ [])
        table).1
run-IsQuiet_example =
    run-IsQuiet world cfg true (λ account js work db h. h, λ account js now db h. h)
      (λ work db w. w, λ now db w. w) 200 600 (λ i. 210 + i)
      (round ∷ record round { stopped = true } ∷ []) table ((λ db q. q, tt), ((λ db q. q, tt), tt))
      table-IsWellFormed
