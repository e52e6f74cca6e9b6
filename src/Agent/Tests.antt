-- ===== src/Agent/Tests.antt =====
-- Runs of src/agent_harness on the data of Samples.
use mail_subsystem.Agent.Results.{Finishes}
use mail_subsystem.Agent.Budget.{IsWithinBudget}
use mail_subsystem.Prelude.{
  none, ℕ, suc, ◌+◌, ◌*◌, ◌≤◌, ◌≡◌, refl, ◌⊎◌, true, false, not, ◌&&◌, ◌||◌, [], ◌∷◌, some, arith,
  In, is_some, ltb, ◌==◌,
}
use mail_subsystem.Prelude.Text.{codes}
use mail_subsystem.Strings.{
  eq_ignore_ascii_case, trim_start_by, trim_end_by, contains, contains_any,
}
use mail_subsystem.Sql.{select_where, upsert_where, update_where}
use mail_subsystem.Json.{Fields, null}
use mail_subsystem.Completeness.{needs_full_sync_backfill, has_active_backlog, has_body_backlog}
use mail_subsystem.CoreWork.{Db, CoreWorkType, sync_body, sync_full, analyze, locate, same_type}
use mail_subsystem.CoreWork.Table.{enqueue_core_work_for_account}
use mail_subsystem.CoreWork.Invariant.{IsWellFormed}
use mail_subsystem.CoreWork.Report.{has_active_core_work_type_for_account}
use mail_subsystem.Agent.Prerequisites.{
  from_env, max_wait_for_task, should_complete_db_pending_for_task, should_gate_db_completeness,
  classify_db_prerequisite_work, request_db_prerequisite_work,
  should_use_partial_db_for_interactive_mail_assistant, enqueue_each,
}
use mail_subsystem.Agent.Backlog.{has_type, is_empty_work, classify-backlog}
use mail_subsystem.Agent.Requests.{request-queues}
use mail_subsystem.Agent.Polling.{
  ready, poll, poll_from, is_snapshot_ready, should_wait_for_db_completeness,
  wait_for_db_completeness,
}
use mail_subsystem.Agent.Waiting.{wait-ends}
use mail_subsystem.Agent.Outcome.{Says, wait-Says}
use mail_subsystem.Agent.Spec.{validate, normalize_common_output_enums}
use mail_subsystem.Agent.Output.{
  parse_json_tool_call, parse_embedded_json, strip_markdown_fences, extract_json_object,
  parse_scratchpad_action, validate_output,
}
use mail_subsystem.Agent.Questions.{
  mail_assistant_input_text, is_count_question_text, is_mailbox_preparation_count_text,
  should_require_synced_email_list_tool, has_followup_reference,
  extract_spam_status_filter_from_text,
}
use mail_subsystem.Agent.Runs.{record_step, record_llm_call, finish_run}
use mail_subsystem.Agent.Loop.{refused, execute}
use mail_subsystem.Agent.Arguments.{
  should_require_count_emails_tool, count_emails_tool_args_for_input,
  extract_sender_filter_from_count_text,
}
use mail_subsystem.Agent.Turns.{turn, turns}
use mail_subsystem.Agent.Bounds.{turns-IsWithinBudget}
use mail_subsystem.Agent.Finish.{turns-Finishes}
use mail_subsystem.Agent.Run.{begin, run_ready, run_with_callback, prerequisite_failed}
use mail_subsystem.Agent.Start.{fetch_prerequisites, build_initial_messages}
use mail_subsystem.Agent.Scratchpad.{prune_expired_scratchpad}
use mail_subsystem.Agent.Settling.{AllEndWell, run-EndsWell}
use mail_subsystem.Agent.Valid.{IsTyped, validate-IsTyped}
use mail_subsystem.Agent.Samples.{
  categorized, work, nothing_set, no_number, bodies_missing, no_rows, meets, by_default, outcome_of,
  waits, harness, nothing_run, how_many, task, first_messages, nothing_wanted, already_read,
}

bodies_only : classify_db_prerequisite_work bodies_missing ≡ sync_body ∷ []
unfolding classify_db_prerequisite_work needs_full_sync_backfill
bodies_only = refl

ready_in_two : outcome_of waits ≡ some ready
unfolding wait_for_db_completeness should_wait_for_db_completeness should_gate_db_completeness
    should_use_partial_db_for_interactive_mail_assistant should_complete_db_pending_for_task
    eq_ignore_ascii_case poll_from poll is_snapshot_ready has_active_backlog
    needs_full_sync_backfill classify_db_prerequisite_work max_wait_for_task from_env
    request_db_prerequisite_work select_where enqueue_core_work_for_account upsert_where
    enqueue_each
ready_in_two = refl

classify-backlog_example :
    (is_empty_work (classify_db_prerequisite_work bodies_missing)
      ≡ not (has_active_backlog bodies_missing))
    × (has_type sync_body (classify_db_prerequisite_work bodies_missing) ≡ (
        (same_type sync_full sync_body
          && (bodies_missing.folder_count == 0 || needs_full_sync_backfill bodies_missing))
        || ((same_type sync_body sync_body && has_body_backlog bodies_missing)
            || ((same_type analyze sync_body && ltb 0 bodies_missing.analysis_missing)
                || (same_type locate sync_body && ltb 0 bodies_missing.location_missing)))))
classify-backlog_example = classify-backlog bodies_missing sync_body

no_rows-IsWellFormed : IsWellFormed no_rows
no_rows-IsWellFormed = record { ids_grow = tt; ids_below = tt; keys_unique = tt; locks_right = tt }

request-queues_example :
    ((t : CoreWorkType)
      → In t (sync_body ∷ [])
      → has_active_core_work_type_for_account "default" t
          (request_db_prerequisite_work true "default" null 5 (sync_body ∷ []) no_rows).1
        ≡ true)
    × IsWellFormed (request_db_prerequisite_work true "default" null 5 (sync_body ∷ []) no_rows).1
request-queues_example =
    request-queues "default" null 5 (sync_body ∷ []) no_rows no_rows-IsWellFormed

sleeps_long : (i d : ℕ) → d ≤ meets.slept i d
sleeps_long i d = omega arith

in_time : max_wait_for_task by_default "task" ≤ 2400 * 50
unfolding max_wait_for_task from_env should_complete_db_pending_for_task
in_time = omega arith

wait-ends_example :
    is_some (
      wait_for_db_completeness by_default "default" "mail-assistant" "r" "task" meets
        (suc 2400)
        no_rows)
    ≡ true
wait-ends_example =
    wait-ends nothing_set no_number "default" "mail-assistant" "r" "task" meets 2400 no_rows
      sleeps_long in_time

waits_then : (db : Db) × (waits ≡ some (ready, db))
unfolding wait_for_db_completeness should_wait_for_db_completeness should_gate_db_completeness
    should_use_partial_db_for_interactive_mail_assistant should_complete_db_pending_for_task
    eq_ignore_ascii_case poll_from poll is_snapshot_ready has_active_backlog
    needs_full_sync_backfill classify_db_prerequisite_work max_wait_for_task from_env
    request_db_prerequisite_work select_where enqueue_core_work_for_account upsert_where
    enqueue_each
waits_then = (_, refl)

wait-Says_example :
    ((((by_default.enabled && should_gate_db_completeness "mail-assistant")
          && not (should_complete_db_pending_for_task "task"))
        ≡ false)
      × (ready ≡ ready)
      × (waits_then.0 ≡ no_rows))
    ⊎ ((((by_default.enabled && should_gate_db_completeness "mail-assistant")
            && not (should_complete_db_pending_for_task "task"))
          ≡ true)
        × Says meets by_default "default" "mail-assistant" "r" "task" ready)
wait-Says_example =
    wait-Says by_default "default" "mail-assistant" "r" "task" meets 3 no_rows waits_then.0 ready
      waits_then.1

run-EndsWell_example :
    AllEndWell harness task
      (begin harness task nothing_run).0
      (begin harness task nothing_run).1.runs
      (run_with_callback harness task nothing_run no_rows)
run-EndsWell_example = run-EndsWell harness task nothing_run no_rows

first-IsWithinBudget : IsWithinBudget harness first_messages 0 first_messages
first-IsWithinBudget = record {
  iterations = omega arith;
  llm_calls = omega arith;
  tool_calls = omega arith;
  logged = refl;
}

turns-IsWithinBudget_example :
    IsWithinBudget harness first_messages
      (0 + 4)
      (turns harness "r" nothing_wanted 4 0 first_messages).1
turns-IsWithinBudget_example =
    turns-IsWithinBudget harness "r" nothing_wanted first_messages 4 0 first_messages
      first-IsWithinBudget

turns-Finishes_example :
    Finishes harness "r" nothing_wanted
      (turns harness "r" nothing_wanted 4 0 first_messages).0
      (turns harness "r" nothing_wanted 4 0 first_messages).1
turns-Finishes_example = turns-Finishes harness "r" nothing_wanted 4 0 first_messages

one_call : (turns harness "r" nothing_wanted 4 0 first_messages).1.total_llm_calls ≡ 1
unfolding turns turn record_step record_llm_call parse_json_tool_call parse_embedded_json
    strip_markdown_fences trim_start_by trim_end_by extract_json_object parse_scratchpad_action
    validate_output validate normalize_common_output_enums finish_run update_where
one_call = refl

wants_count :
    should_require_count_emails_tool harness.is_whitespace (codes harness.spec.name) how_many ≡ true
unfolding should_require_count_emails_tool mail_assistant_input_text trim_start_by trim_end_by
    is_count_question_text contains_any contains eq_ignore_ascii_case
    is_mailbox_preparation_count_text should_require_synced_email_list_tool
    extract_sender_filter_from_count_text has_followup_reference
    extract_spam_status_filter_from_text
wants_count = refl

is_refused :
    execute harness.tools 0 "count_emails"
      (count_emails_tool_args_for_input harness.is_whitespace task.parse task.string_of how_many)
    ≡ refused (codes "no database")
unfolding execute
is_refused = refl

-- The tool that the question wants is refused before the loop.
refused_before :
    (run_ready harness task "r" how_many nothing_run).0 ≡ prerequisite_failed (codes "no database")
unfolding fetch_prerequisites build_initial_messages prune_expired_scratchpad
refused_before = rw (wants_count, is_refused) refl

already_wants_no_count :
    should_require_count_emails_tool harness.is_whitespace (codes harness.spec.name) already_read
    ≡ false
unfolding should_require_count_emails_tool mail_assistant_input_text trim_start_by trim_end_by
    is_count_question_text contains_any contains eq_ignore_ascii_case
    is_mailbox_preparation_count_text should_require_synced_email_list_tool
already_wants_no_count = refl

work_is_valid : validate harness.as_f64 harness.below categorized work ≡ none
unfolding validate
work_is_valid = refl

validate-IsTyped_example : (object : Fields) × IsTyped categorized work object
validate-IsTyped_example =
    validate-IsTyped harness.as_f64 harness.below categorized work work_is_valid
