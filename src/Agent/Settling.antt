-- ===== src/Agent/Settling.antt =====
-- src/agent_harness/run_executor.rs: what the rows say when a run has ended.
use mail_subsystem.Agent.Results.{Finishes, has_status, update_run-has_status}
use mail_subsystem.Agent.Budget.{IsWithinBudget}
use mail_subsystem.Agent.Start.{
  Fetched, Task, build_initial_messages, state, calibrated, fetched, first_state, unfetched,
  wanted_for,
}
use Prim.Native.String.{String}
use mail_subsystem.Prelude.{
  ◌≤◌, ◌≡◌, refl, inl, inr, In, ltb, ◌++◌, Bool, true, List, [], ◌∷◌, Option, none, some, arith,
  All, max,
}
use mail_subsystem.Json.{Json}
use mail_subsystem.CoreWork.{Db}
use mail_subsystem.Agent.Polling.{
  Waited, ready, pending, load_failed, timed_out, wait_for_db_completeness,
}
use mail_subsystem.Agent.Outcome.{wait-Says}
use mail_subsystem.Agent.Preparation.{Attached, attached, unattached}
use mail_subsystem.Agent.Spec.{validate}
use mail_subsystem.Agent.Fetching.{
  FetchedAt, KeepsRuns, fetch_prerequisites-FetchedAt, fetch_prerequisites-KeepsRuns,
}
use mail_subsystem.Agent.Runs.{
  completed, failed, is_running, RunRow, AgentDb, fail_run, timeout_run, is_running_task, new_run,
  first, begin_with, begin_run,
}
use mail_subsystem.Agent.Scratchpad.{prune_expired_scratchpad}
use mail_subsystem.Sql.{order_by, select_where}
use mail_subsystem.Sql.Update.{select_where-In}
use mail_subsystem.Sql.OrderBy.{order_by-In}
use mail_subsystem.Agent.Runs.{timed_out as run_timed_out}
use mail_subsystem.Agent.Loop.{
  Harness, RunError, prerequisites_timed_out, snapshot_failed, Outcome, finished, failing,
  timing_out, LoopState,
}
use mail_subsystem.Agent.Turns.{Wanted, turns}
use mail_subsystem.Agent.Bounds.{turns-IsWithinBudget}
use mail_subsystem.Agent.Finish.{turns-Finishes}
use mail_subsystem.Agent.Run.{
  Ran, ran, prerequisite_failed, answered_pending, After, fail, settle, loop_from, run_ready,
  after_wait, after_attach, attach, begin, run_with_callback,
}

-- The row of the run says how it ended.
abbrev pub says_how : String → Outcome → RunRow → Bool
says_how run_id (finished r) x = has_status run_id completed x
says_how run_id (failing e) x = has_status run_id failed x
says_how run_id timing_out x = has_status run_id run_timed_out x

abbrev pub RowsSay : String → Outcome → AgentDb → Type 0
RowsSay run_id outcome db = All (λ (x : RunRow). says_how run_id outcome x ≡ true) db.runs

-- A row of the run is there and is running.
abbrev pub IsLeftRunning : String → List RunRow → Type 0
IsLeftRunning run_id runs =
    (x : RunRow) × In x runs × (x.run_id ≡ run_id) × (is_running x.status ≡ true)

first-In : {A : Type 0} (x : A) (xs : List A) → first xs ≡ some x → In x xs
first-In x [] e = absurd (ground arith)
first-In x (y ∷ ys) e = inl (ground arith)

In-last : {A : Type 0} (x : A) (xs : List A) → In x (xs ++ x ∷ [])
In-last x [] = inl refl
In-last x (y ∷ ys) = inr (In-last x ys)

begin-IsLeftRunning :
    (h : Harness) (t : Task) (db : AgentDb) → IsLeftRunning (begin h t db).0 (begin h t db).1.runs
unfolding begin begin_run
begin-IsLeftRunning h t db =
    of_first
      (first (
        order_by (λ (a b : RunRow). ltb b.started_at a.started_at)
          (select_where (is_running_task (state h t) t.task_id) db.runs)))
      refl
  where
    new : RunRow
    new = new_run (state h t) h.spec.version t.task_id t.new_run_id t.started h.is_whitespace

    of_first :
        (o : Option RunRow)
        → first (
            order_by
              (λ (a b : RunRow). ltb b.started_at a.started_at)
              (select_where (is_running_task (state h t) t.task_id) db.runs))
          ≡ o
        → IsLeftRunning (begin_with o new db).0 (begin_with o new db).1.runs
    of_first none e = (new, In-last new db.runs, refl, refl)
    of_first (some x) e =
        let (m, k) =
          select_where-In (is_running_task (state h t) t.task_id) x db.runs
            (order_by-In _ x _ (first-In x _ e)) in
        (x, m, refl, ground (arith, k))

module _ (h : Harness) (t : Task) (run_id : String) (begun : List RunRow) where
  -- A result is valid and within the budgets.
  abbrev pub IsRight : Outcome → Type 0
  IsRight (finished r) =
      (r.run_id ≡ run_id)
      × (validate h.as_f64 h.below h.spec.output r.output ≡ none)
      × (r.llm_calls ≤ h.spec.execution.max_iterations)
      × (r.llm_calls ≤ h.spec.budget.max_llm_calls)
      × (r.tool_calls ≤ max h.spec.budget.max_tool_calls 1)
  IsRight _ = Unit

  -- What the end of a run says, of the rows as they were when it began; none ends as pending.
  abbrev pub EndsWell : Ran → AgentDb → Type 0
  EndsWell (ran outcome) db = RowsSay run_id outcome db × IsRight outcome
  EndsWell (prerequisite_failed e) db = (db.runs ≡ begun) × IsLeftRunning run_id db.runs
  EndsWell (answered_pending p) db = ⊥

  fail-EndsWell :
      (e : RunError) (db : AgentDb) → EndsWell (ran (failing e)) (fail h t run_id e db).1
  unfolding fail_run
  fail-EndsWell e db = (update_run-has_status run_id failed _ (λ x. refl) db.runs, tt)

  settle-EndsWell :
      (calibrated_threshold : Option String) (wanted : Wanted) (outcome : Outcome)
      (st before : LoopState)
      → before.total_tool_calls ≤ 1
      → IsWithinBudget h before h.spec.execution.max_iterations st
      → Finishes (record h { calibrated_threshold = calibrated_threshold }) run_id wanted outcome st
      → EndsWell (ran (settle h t run_id (outcome, st)).0) (settle h t run_id (outcome, st)).1
  unfolding timeout_run
  settle-EndsWell c wanted (finished r) st before few w f = (
    f.row,
    (
      f.id,
      f.output,
      omega (arith, f.llm_calls, w.iterations),
      omega (arith, f.llm_calls, w.llm_calls),
      omega (arith, f.tool_calls, w.tool_calls, few),
    ),
  )
  settle-EndsWell c wanted (failing e) st before few w f = fail-EndsWell e st.db
  settle-EndsWell c wanted timing_out st before few w f =
      (update_run-has_status run_id run_timed_out _ (λ x. refl) st.db.runs, tt)

  loop-EndsWell :
      (c : Option String) (input : Json) (f : Fetched)
      → IsLeftRunning run_id begun
      → KeepsRuns h t run_id begun f
      → FetchedAt h t run_id 1 f
      → EndsWell
          (loop_from h t run_id (record h { calibrated_threshold = c }) input f).0
          (loop_from h t run_id (record h { calibrated_threshold = c }) input f).1
  loop-EndsWell c input (unfetched e st) left same z = (same, rw same left)
  loop-EndsWell c input (fetched st) left same (z, few) =
      let h' : Harness = record h { calibrated_threshold = c } in
      let n = h.spec.execution.max_iterations in
      let out = turns h' run_id (wanted_for h t input) n 0 st in
      let start : IsWithinBudget h' st 0 st = record {
        iterations = omega (arith, z);
        llm_calls = omega (arith, z);
        tool_calls = omega arith;
        logged = refl;
      } in
      let kept = turns-IsWithinBudget h' run_id (wanted_for h t input) st n 0 st start in
      settle-EndsWell c (wanted_for h t input) out.0 out.1 st few
        (record {
          iterations = omega (arith, kept.iterations);
          llm_calls = kept.llm_calls;
          tool_calls = kept.tool_calls;
          logged = kept.logged;
        })
        (turns-Finishes h' run_id (wanted_for h t input) n 0 st)

  ready-EndsWell :
      (input : Json) (db : AgentDb)
      → db.runs ≡ begun
      → IsLeftRunning run_id begun
      → EndsWell (run_ready h t run_id input db).0 (run_ready h t run_id input db).1
  unfolding build_initial_messages prune_expired_scratchpad
  ready-EndsWell input db same left =
      loop-EndsWell (calibrated h t db).calibrated_threshold input _ left
        (rw (← same)
          (fetch_prerequisites-KeepsRuns h t run_id input (first_state h t run_id input db)))
        (fetch_prerequisites-FetchedAt h t run_id input (first_state h t run_id input db) refl refl)

  abbrev pub AllEndWell : Option After → Type 0
  AllEndWell none = Unit
  AllEndWell (some a) = EndsWell a.ended a.agents

  module _ (db : AgentDb) (same : db.runs ≡ begun) (left : IsLeftRunning run_id begun) where
    waited-EndsWell :
        (input : Json) (queue : Db) (o : Option (Waited × Db))
        → wait_for_db_completeness t.db_completeness h.account_id h.spec.name run_id t.task_id
            t.surroundings t.polls queue
          ≡ o
        → AllEndWell (after_wait h t run_id input db o)
    waited-EndsWell input queue none e = tt
    waited-EndsWell input queue (some (ready, q)) e = ready-EndsWell input db same left
    waited-EndsWell input queue (some (load_failed, q)) e = fail-EndsWell snapshot_failed db
    waited-EndsWell input queue (some (timed_out p, q)) e = fail-EndsWell prerequisites_timed_out db
    waited-EndsWell input queue (some (pending p, q)) e =
        elim (wait-Says t.db_completeness h.account_id h.spec.name run_id t.task_id t.surroundings
          t.polls queue q (pending p) e) [ inl (_, k, _) ↦ absurd (ground arith) | inr (_, k) ↦ k ]

    attached-EndsWell : (a : Attached) → AllEndWell (after_attach h t run_id db a)
    attached-EndsWell (unattached e queue) = fail-EndsWell e db
    attached-EndsWell (attached input queue) = waited-EndsWell input queue _ refl

-- A run never ends as pending. After an error of a tool that the harness calls before the loop, the rows
-- of the runs are as they were when the run began, and its row is left running. After any other end, the
-- row of the run, if any has its id, is completed after a result, timed out after the time limit, and
-- failed after an error, be it that of a tool or that the iterations are used up; and a result is valid,
-- with no more calls of the model than iterations and than its budget, and no more counted calls of
-- tools than their budget or than one.
pub run-EndsWell :
    (h : Harness) (t : Task) (db : AgentDb) (queue : Db)
    → AllEndWell h t (begin h t db).0 (begin h t db).1.runs (run_with_callback h t db queue)
unfolding run_with_callback
run-EndsWell h t db queue =
    attached-EndsWell h t (begin h t db).0 (begin h t db).1.runs (begin h t db).1 refl
      (begin-IsLeftRunning h t db) (attach h t (begin h t db).0 queue)
