-- ===== src/Agent/Run.antt =====
-- src/agent_harness/run_executor.rs: run_with_callback, from the row of the run to its settling. Events,
-- log lines and metrics are left out.
use Prim.Native.String.{String}
use mail_subsystem.Prelude.{false, Option, none, some}
use mail_subsystem.Prelude.Text.{Text}
use mail_subsystem.Json.{Json}
use mail_subsystem.CoreWork.{Db}
use mail_subsystem.Agent.Pending.{db_prerequisites_pending_output}
use mail_subsystem.Agent.Prerequisites.{pending_retry_after_seconds}
use mail_subsystem.Agent.Polling.{
  Waited, ready, pending, load_failed, timed_out, DbCompletenessPending, wait_for_db_completeness,
}
use mail_subsystem.Agent.Preparation.{
  Attached, attached, unattached, attach_mailbox_preparation_context,
}
use mail_subsystem.Agent.Runs.{AgentDb, begin_run, finish_run, fail_run, timeout_run}
use mail_subsystem.Agent.Loop.{
  RunError, prerequisites_timed_out, snapshot_failed, Harness, Outcome, finished, failing,
  timing_out, LoopState,
}
use mail_subsystem.Agent.Turns.{turns}
use mail_subsystem.Agent.Start.{
  Task, Fetched, fetched, unfetched, state, wanted_for, calibrated, fetch_prerequisites,
  first_state,
}

-- How a run ends: by its loop or an error, by an error of a tool that the harness calls before the
-- loop, or by the answer that prerequisites are pending.
pub data Ran : Type 0 where
  ran : Outcome → Ran
  prerequisite_failed : Text → Ran
  answered_pending : DbCompletenessPending → Ran

pub record After : Type 0 where
  pub ended : Ran
  pub run_id : String
  pub agents : AgentDb
  pub queue : Db

module _ (h : Harness) (t : Task) where
  module _ (run_id : String) where
    abbrev pub fail : RunError → AgentDb → Outcome × AgentDb
    fail e db = (failing e, fail_run run_id t.elapsed (h.describe e) t.stopped db)

    -- The match on the result of the loop.
    abbrev pub settle : Outcome × LoopState → Outcome × AgentDb
    settle (finished r, st) = (finished r, st.db)
    settle (failing e, st) = fail e st.db
    settle (timing_out, st) = (timing_out, timeout_run run_id t.elapsed t.stopped st.db)

    abbrev pub as_ran : Outcome × AgentDb → Ran × AgentDb
    as_ran (outcome, db) = (ran outcome, db)

    -- An error of a prerequisite is returned at once.
    abbrev pub loop_from : Harness → Json → Fetched → Ran × AgentDb
    loop_from h' input (unfetched e st) = (prerequisite_failed e, st.db)
    loop_from h' input (fetched st) =
        as_ran
          (settle (turns h' run_id (wanted_for h t input) h.spec.execution.max_iterations 0 st))

    abbrev pub run_ready : Json → AgentDb → Ran × AgentDb
    run_ready input db =
        loop_from (calibrated h t db) input
          (fetch_prerequisites h t run_id input (first_state h t run_id input db))

    abbrev pub after_loop : Db → Ran × AgentDb → After
    after_loop queue (ended, db) = record {
      ended = ended;
      run_id = run_id;
      agents = db;
      queue = queue;
    }

    -- The match on the result of the wait; `none` if its rounds are used up.
    abbrev pub after_wait : Json → AgentDb → Option (Waited × Db) → Option After
    after_wait input db none = none
    after_wait input db (some (ready, queue)) = some (after_loop queue (run_ready input db))
    after_wait input db (some (load_failed, queue)) =
        some (after_loop queue (as_ran (fail snapshot_failed db)))
    after_wait input db (some (timed_out p, queue)) =
        some (after_loop queue (as_ran (fail prerequisites_timed_out db)))
    after_wait input db (some (pending p, queue)) = some (record {
      ended = answered_pending p;
      run_id = run_id;
      agents =
          finish_run run_id t.elapsed
            (db_prerequisites_pending_output t.print h.account_id h.spec.name
              t.db_completeness.request_work (pending_retry_after_seconds p.snapshot) p)
            false (some "1.0") t.stopped db;
      queue = queue;
    })

    abbrev pub after_attach : AgentDb → Attached → Option After
    after_attach db (unattached e queue) = some (after_loop queue (as_ran (fail e db)))
    after_attach db (attached input queue) = after_wait input db (
        wait_for_db_completeness t.db_completeness h.account_id h.spec.name run_id t.task_id
          t.surroundings t.polls queue)

    abbrev pub attach : Db → Attached
    attach queue =
        attach_mailbox_preparation_context t.db_completeness h.account_id h.spec.name run_id
          t.task_id t.started t.input queue t.snapshot

  unfoldable pub begin : AgentDb → String × AgentDb
  begin db =
      begin_run h.is_whitespace (state h t) h.spec.version t.task_id t.new_run_id t.started db

  unfoldable pub run_with_callback : AgentDb → Db → Option After
  run_with_callback db queue =
      let (run_id, begun) = begin db in after_attach run_id begun (attach run_id queue)
