-- ===== src/Agent/Turns.antt =====
-- src/agent_harness/run_executor.rs: the loop of run_with_callback, up to its end.
use Prim.Native.String.{String}
use mail_subsystem.Prelude.{
  ℕ, zero, suc, ◌+◌, Bool, not, ◌&&◌, ◌||◌, List, [], ◌∷◌, ◌++◌, Option, none, some, ltb, leb,
  if◌then◌else◌, length, is_some, map,
}
use mail_subsystem.Prelude.Text.{Text, codes}
use mail_subsystem.Strings.{join}
use mail_subsystem.Json.{Json, get}
use mail_subsystem.Agent.Questions.{output_promises_deferred_tool_work, required_mailbox_tool_names}
use mail_subsystem.Agent.Spec.{Invalid, has_text, evaluate_escalation_with_threshold, and_then_f64}
use mail_subsystem.Agent.Output.{
  ToolCall, ScratchpadAction, Validated, valid, invalid, parse_json_tool_call,
  parse_scratchpad_action, validate_output, output_validation_repair_hint,
}
use mail_subsystem.Agent.Runs.{record_step, record_llm_call, finish_run}
use mail_subsystem.Agent.Loop.{
  as_u32, Answer, got, broken, cut_off, AiResponse, max_llm_calls_reached, max_tool_calls_reached,
  max_iterations_reached, llm_failed, Harness, Outcome, finished, failing, timing_out, LoopState,
  Turn, go_on, ended, tokens, if_any, usage_of, any_calls, given, run_tools, say, after_tools,
  after_action, handle_scratchpad_action,
}

-- Which tools the question of the input wants called first.
pub record Wanted : Type 0 where
  pub count_emails : Bool
  pub list_synced_emails : Bool

abbrev pub count_first : Text
count_first =
    codes
      "This user request asks for a mailbox email count. You must call the `count_emails` tool before the final JSON answer. For 'emails from X', call `count_emails` with the `sender` filter set to X. Then answer with the returned total_count."

abbrev pub list_first : Text
list_first =
    codes
      "This user request asks about currently synced database rows. You must call the `list_synced_emails` tool before the final JSON answer, then answer from the returned emails and note any pending preparation limits."

module _ (h : Harness) (run_id : String) (wanted : Wanted) where
  abbrev pub answer_now : Text
  answer_now =
      codes
        "Do not promise to run mailbox tools later. You already have the required tool result(s): "
      ++ (join (codes ", ")
            (required_mailbox_tool_names wanted.count_emails wanted.list_synced_emails)
          ++ codes
              ". Return the final JSON answer now using those results, including the exact count or rows available.")

  abbrev pub repair : Invalid → Text
  repair e =
      codes "Your output was invalid: "
      ++ (h.describe_invalid e
          ++ (codes ". Return a JSON object with these required fields: "
              ++ (join (codes ", ") (map codes h.spec.output.required_fields)
                  ++ (codes ". No markdown, no prose."
                      ++ output_validation_repair_hint h.spec.output))))

  -- finish_run and the result.
  abbrev pub finish : ℕ → Json → LoopState → Turn
  finish step output st =
      let escalation =
        evaluate_escalation_with_threshold h.as_f64 h.below h.spec.escalation output
          h.calibrated_threshold in
      ended
        (finished (record {
          run_id = run_id;
          output = output;
          escalation = escalation;
          llm_calls = st.total_llm_calls;
          tool_calls = st.total_tool_calls;
          input_tokens = if_any st.total_input_tokens;
          output_tokens = if_any st.total_output_tokens;
        }))
        (record st {
          db =
              finish_run run_id (h.elapsed step) output (is_some escalation)
                (and_then_f64 h.as_f64 h.below (get "confidence" output)) (h.now step) st.db;
        })

  abbrev pub after_validation : ℕ → Text → LoopState → Validated → Turn
  after_validation step content st (invalid e) = go_on (say h run_id content (repair e) st)
  after_validation step content st (valid output) =
      if wanted.count_emails && not (has_text "count_emails" st.used_tool_names)
      then go_on (say h run_id content count_first st)
      else if wanted.list_synced_emails && not (has_text "list_synced_emails" st.used_tool_names)
      then go_on (say h run_id content list_first st)
      else if (wanted.count_emails || wanted.list_synced_emails)
          && output_promises_deferred_tool_work output
      then go_on (say h run_id content answer_now st)
      else finish step output st

  abbrev pub after_response : ℕ → Text → LoopState → List ToolCall → Option ScratchpadAction → Turn
  after_response step content st (call ∷ calls) action =
      let count = length (call ∷ calls) in
      if ltb (as_u32 h.spec.budget.max_tool_calls) (st.total_tool_calls + count)
      then ended (failing max_tool_calls_reached) st
      else after_tools h run_id step content count (run_tools h run_id step [] (call ∷ calls) st)
  after_response step content st [] (some action) =
      after_action h run_id step content action st
        (handle_scratchpad_action h run_id action (h.now step) st.db)
  after_response step content st [] none =
      after_validation step content st
        (validate_output h.is_whitespace h.from_str h.as_f64 h.below h.spec.output content)

  abbrev pub counted : AiResponse → LoopState → LoopState
  counted r st =
      let u = usage_of r.usage in
      record st {
        total_llm_calls = st.total_llm_calls + 1;
        total_input_tokens = st.total_input_tokens + tokens u.input_tokens;
        total_output_tokens = st.total_output_tokens + tokens u.output_tokens;
        db = record_llm_call run_id u.input_tokens u.output_tokens st.db;
      }

  abbrev pub after_call : ℕ → LoopState → Answer AiResponse → Turn
  after_call step st (broken e) = ended (failing (llm_failed e)) st
  after_call step st cut_off = ended timing_out st
  after_call step st (got r) =
      after_response step r.content (counted r st)
        (any_calls (given r.tool_calls) (parse_json_tool_call h.is_whitespace h.from_str r.content))
        (parse_scratchpad_action h.is_whitespace h.from_str r.content)

  unfoldable pub turn : ℕ → LoopState → Turn
  turn step st =
      if leb (as_u32 h.spec.budget.max_llm_calls) st.total_llm_calls
      then ended (failing max_llm_calls_reached) st
      else after_call step (record st { db = record_step run_id st.db })
          (h.complete step st.messages)

  abbrev pub after_turn : (LoopState → Outcome × LoopState) → Turn → Outcome × LoopState
  after_turn rest (go_on st) = rest st
  after_turn rest (ended outcome st) = (outcome, st)

  -- The iterations from `step` on, `left` of them.
  unfoldable pub turns : ℕ → ℕ → LoopState → Outcome × LoopState
  turns zero step st = (failing max_iterations_reached, st)
  turns (suc left) step st = after_turn (λ st'. turns left (suc step) st') (turn step st)
