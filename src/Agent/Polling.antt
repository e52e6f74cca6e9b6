-- ===== src/Agent/Polling.antt =====
-- src/agent_harness/run_executor.rs: wait_for_db_completeness, which polls the snapshot until the
-- mailbox is ready or the wait is over. Duration and Instant are milliseconds. The clock is read once in
-- a round; metrics and log lines are left out.
use Prim.Native.String.{String}
use mail_subsystem.Prelude.{
  ℕ, zero, suc, ◌+◌, ◌*◌, Bool, true, false, not, ◌&&◌, List, [], ◌++◌, Option, none, some, leb,
  ◌==◌, if◌then◌else◌, min,
}
use mail_subsystem.Sql.{select_where}
use mail_subsystem.Completeness.{DbCompletenessSnapshot, has_active_backlog}
use mail_subsystem.CoreWork.{CoreWorkType, Db}
use mail_subsystem.Agent.Prerequisites.{
  DbCompletenessPollConfig, should_gate_db_completeness, should_complete_db_pending_for_task,
  should_use_partial_db_for_interactive_mail_assistant, max_wait_for_task,
  classify_db_prerequisite_work, request_db_prerequisite_work, prerequisite_payload,
}
use mail_subsystem.Agent.Backlog.{has_type}

pub record DbCompletenessPending : Type 0 where
  pub snapshot : DbCompletenessSnapshot
  pub requested_work : List CoreWorkType
  pub stable_polls : ℕ
  pub elapsed : ℕ
  pub max_wait : ℕ

-- The two outcomes, and the two errors.
pub data Waited : Type 0 where
  ready : Waited
  pending : DbCompletenessPending → Waited
  load_failed : Waited
  timed_out : DbCompletenessPending → Waited

-- The local variables of the loop, the time since it started, and the queue.
pub record PollState : Type 0 where
  pub prev_email_count : Option ℕ
  pub stable_polls : ℕ
  pub requested_work : List CoreWorkType
  pub delay : ℕ
  pub elapsed : ℕ
  pub db : Db

-- A round ends the wait, or goes on.
pub data Round : Type 0 where
  stop : Waited → Db → Round
  again : PollState → Round

-- What the loop meets: the snapshot that the i-th round loads, `none` if that fails; the time of its
-- statements; how long it sleeps, with what else takes time until the next round; and what the rest of
-- the program does to the queue meanwhile.
pub record Surroundings : Type 0 where
  pub load : ℕ → Option DbCompletenessSnapshot
  pub now : ℕ → ℕ
  pub slept : ℕ → ℕ → ℕ
  pub others : ℕ → Db → Db

abbrev pub u32_max : ℕ
u32_max = 4294967295

abbrev pub next_stable : Option ℕ → ℕ → ℕ → ℕ
next_stable none email_count stable_polls = 1
next_stable (some prev) email_count stable_polls =
    if prev == email_count then min (stable_polls + 1) u32_max else 1

unfoldable pub should_wait_for_db_completeness : DbCompletenessPollConfig → String → Bool
should_wait_for_db_completeness c agent_name = c.enabled && should_gate_db_completeness agent_name

unfoldable pub is_snapshot_ready : DbCompletenessPollConfig → DbCompletenessSnapshot → ℕ → Bool
is_snapshot_ready c s stable_polls =
    not (has_active_backlog s) && leb c.stable_polls_required stable_polls

abbrev pub give_up : Bool → DbCompletenessPending → Waited
give_up true p = pending p
give_up false p = timed_out p

module _ (c : DbCompletenessPollConfig) (account agent_name run_id task_id : String) where
  -- One round on the state that the previous one left.
  unfoldable pub poll : Surroundings → ℕ → PollState → Option DbCompletenessSnapshot → Round
  poll w i st none = stop load_failed st.db
  poll w i st (some s) =
      let stable_polls = next_stable st.prev_email_count s.email_count st.stable_polls in
      let missing_work =
        select_where (λ t. not (has_type t st.requested_work)) (classify_db_prerequisite_work s) in
      let (newly_requested, db) =
        request_db_prerequisite_work c.request_work account
          (prerequisite_payload agent_name run_id task_id s) (w.now i) missing_work st.db in
      let requested_work = st.requested_work ++ newly_requested in
      if is_snapshot_ready c s stable_polls
      then stop ready st.db
      else if leb (max_wait_for_task c task_id) st.elapsed
      then stop
          (give_up (should_complete_db_pending_for_task task_id) (record {
            snapshot = s;
            requested_work = requested_work;
            stable_polls = stable_polls;
            elapsed = st.elapsed;
            max_wait = max_wait_for_task c task_id;
          }))
          db
      else again (record {
        prev_email_count = some s.email_count;
        stable_polls = stable_polls;
        requested_work = requested_work;
        delay = min (st.delay * 2) c.max_backoff;
        elapsed = st.elapsed + w.slept i st.delay;
        db = w.others i db;
      })

  abbrev pub after_round : (PollState → Option (Waited × Db)) → Round → Option (Waited × Db)
  after_round rest (stop outcome db) = some (outcome, db)
  after_round rest (again st) = rest st

  -- The rounds from the i-th on, at most `fuel` of them; `none` if they are used up.
  unfoldable pub poll_from : Surroundings → ℕ → ℕ → PollState → Option (Waited × Db)
  poll_from w zero i st = none
  poll_from w (suc fuel) i st =
      after_round (λ st'. poll_from w fuel (suc i) st') (poll w i st (w.load i))

  abbrev pub first_poll : Db → PollState
  first_poll db = record {
    prev_email_count = none;
    stable_polls = 0;
    requested_work = [];
    delay = c.initial_backoff;
    elapsed = 0;
    db = db;
  }

  unfoldable pub wait_for_db_completeness : Surroundings → ℕ → Db → Option (Waited × Db)
  wait_for_db_completeness w fuel db =
      if not (should_wait_for_db_completeness c agent_name)
      then some (ready, db)
      else if should_use_partial_db_for_interactive_mail_assistant agent_name task_id
      then some (ready, db)
      else poll_from w fuel 0 (first_poll db)
