-- ===== src/Agent/Bounds.antt =====
-- src/agent_harness/run_executor.rs: the budgets of a run.
use Prim.Native.String.{String}
use mail_subsystem.Prelude.{
  ℕ, zero, suc, ◌+◌, ◌≤◌, ◌<◌, ◌≡◌, refl, inl, inr, Bool, true, false, not, ◌&&◌, ◌||◌, List, [],
  ◌∷◌, Option, none, some, arith, ltb, leb, if◌then◌else◌, length, Bool-cases,
}
use mail_subsystem.Prelude.Text.{Text}
use mail_subsystem.Agent.Questions.{output_promises_deferred_tool_work}
use mail_subsystem.Agent.Spec.{has_text}
use mail_subsystem.Agent.Output.{ToolCall, ScratchpadAction, read, write, Validated, valid, invalid}
use mail_subsystem.Agent.Scratchpad.{write_scratchpad}
use mail_subsystem.Agent.Runs.{AgentDb, finish_run, record_tool_calls, record_step, record_llm_call}
use mail_subsystem.Agent.Loop.{
  as_u32, Answer, got, broken, cut_off, AiResponse, Harness, LoopState, Turn, go_on, ended,
  ToolsDone, all_done, stopped, say, after_tools, after_action, handle_scratchpad_action,
}
use mail_subsystem.Agent.Calls.{ToolsCounted, run_tools-ToolsCounted}
use mail_subsystem.Agent.Budget.{
  IsWithinBudget, same-IsWithinBudget, later-IsWithinBudget, calls-IsWithinBudget,
  checkpointed-IsWithinBudget,
}
use mail_subsystem.Agent.Turns.{
  Wanted, count_first, list_first, answer_now, after_validation, after_response, after_call,
  counted, turn, turns, after_turn,
}

as_u32_le : (n : ℕ) → as_u32 n ≤ n
as_u32_le n = omega arith

module _ (h : Harness) (run_id : String) (wanted : Wanted) (before : LoopState) where
  abbrev TurnWithin : ℕ → Turn → Type 0
  TurnWithin step (go_on st) = IsWithinBudget h before step st
  TurnWithin step (ended outcome st) = IsWithinBudget h before step st

  said-TurnWithin :
      (step : ℕ) (content reply : Text) (st : LoopState)
      → IsWithinBudget h before step st
      → IsWithinBudget h before step (say h run_id content reply st)
  said-TurnWithin step content reply st w =
      same-IsWithinBudget h run_id before step st _ refl refl refl w

  tools-TurnWithin :
      (step n : ℕ) (content : Text) (st : LoopState) (d : ToolsDone)
      → st.total_tool_calls + n ≤ h.spec.budget.max_tool_calls
      → IsWithinBudget h before (suc step) st
      → ToolsCounted h run_id n st d
      → TurnWithin (suc step) (after_tools h run_id step content n d)
  unfolding record_tool_calls
  tools-TurnWithin step n content st (all_done parts st') fits w c =
      checkpointed-IsWithinBudget h run_id before (suc step) step _ (
        same-IsWithinBudget h run_id before (suc step) st' _ refl refl refl
          (calls-IsWithinBudget h run_id before step n st st' fits w c))
  tools-TurnWithin step n content st (stopped outcome st') fits w c =
      calls-IsWithinBudget h run_id before step n st st' fits w c

  replied-TurnWithin :
      (step : ℕ) (content : Text) (action : ScratchpadAction) (st : LoopState) (reply : Text)
      (db : AgentDb) (test : Bool)
      → length db.tool_log ≡ length st.db.tool_log
      → IsWithinBudget h before (suc step) st
      → TurnWithin
          (suc step)
          (after_action h run_id step content action st (if test then some (reply, db) else none))
  replied-TurnWithin step content action st reply db true same w =
      checkpointed-IsWithinBudget h run_id before (suc step) step _
        (same-IsWithinBudget h run_id before (suc step) st _ refl refl same w)
  replied-TurnWithin step content action st reply db false same w = w

  action-TurnWithin :
      (step : ℕ) (content : Text) (action : ScratchpadAction) (st : LoopState)
      → IsWithinBudget h before (suc step) st
      → TurnWithin (suc step) (
          after_action h run_id step content action st
            (handle_scratchpad_action h run_id action (h.now step) st.db))
  unfolding handle_scratchpad_action write_scratchpad
  action-TurnWithin step content (read key) st w =
      replied-TurnWithin step content (read key) st _ st.db (has_text key h.spec.state.schema) refl
        w
  action-TurnWithin step content (write key value) st w =
      replied-TurnWithin step content (write key value) st _ _ (has_text key h.spec.state.schema)
        refl w

  validation-TurnWithin :
      (step : ℕ) (content : Text) (st : LoopState) (v : Validated)
      → IsWithinBudget h before (suc step) st
      → TurnWithin (suc step) (after_validation h run_id wanted step content st v)
  unfolding finish_run
  validation-TurnWithin step content st (invalid e) w = said-TurnWithin (suc step) content _ st w
  validation-TurnWithin step content st (valid output) w =
      let s = suc step in
      elim (Bool-cases (wanted.count_emails && not (has_text "count_emails" st.used_tool_names))) [
        | inl a ↦ rw a (said-TurnWithin s content count_first st w)
        | inr a ↦
            elim (Bool-cases (
              wanted.list_synced_emails
              && not (has_text "list_synced_emails" st.used_tool_names))) [
                | inl b ↦ rw (a, b) (said-TurnWithin s content list_first st w)
                | inr b ↦
                    elim (Bool-cases (
                      (wanted.count_emails || wanted.list_synced_emails)
                      && output_promises_deferred_tool_work output)) [
                        | inl c ↦
                            rw (a, b, c)
                              (said-TurnWithin s content (answer_now h run_id wanted) st w)
                        | inr c ↦
                            rw (a, b, c)
                              (same-IsWithinBudget h run_id before s st _ refl refl refl w)
                      ]
              ]
      ]

  response-TurnWithin :
      (step : ℕ) (content : Text) (st : LoopState) (calls : List ToolCall)
      (action : Option ScratchpadAction)
      → IsWithinBudget h before (suc step) st
      → TurnWithin (suc step) (after_response h run_id wanted step content st calls action)
  response-TurnWithin step content st (call ∷ calls) action w =
      let n = length (call ∷ calls) in
      elim (Bool-cases (ltb (as_u32 h.spec.budget.max_tool_calls) (st.total_tool_calls + n))) [
        | inl e ↦ rw e w
        | inr e ↦
            let below : st.total_tool_calls + n ≤ as_u32 h.spec.budget.max_tool_calls =
              ground arith in
            let fits : st.total_tool_calls + n ≤ h.spec.budget.max_tool_calls =
              omega (arith, below, as_u32_le h.spec.budget.max_tool_calls) in
            rw e (
              tools-TurnWithin step n content st _ fits w
                (run_tools-ToolsCounted h run_id step [] (call ∷ calls) st))
      ]
  response-TurnWithin step content st [] (some action) w =
      action-TurnWithin step content action st w
  response-TurnWithin step content st [] none w = validation-TurnWithin step content st _ w

  called-TurnWithin :
      (step : ℕ) (st : LoopState) (a : Answer AiResponse)
      → st.total_llm_calls < h.spec.budget.max_llm_calls
      → IsWithinBudget h before step st
      → TurnWithin (suc step) (after_call h run_id wanted step st a)
  unfolding record_llm_call
  called-TurnWithin step st (got r) more w =
      let called : IsWithinBudget h before (suc step) (counted h run_id wanted r st) = record {
        iterations = omega (arith, w.iterations);
        llm_calls = omega (arith, more);
        tool_calls = w.tool_calls;
        logged = w.logged;
      } in
      response-TurnWithin step r.content (counted h run_id wanted r st) _ _ called
  called-TurnWithin step st (broken e) more w = later-IsWithinBudget h run_id before step st w
  called-TurnWithin step st cut_off more w = later-IsWithinBudget h run_id before step st w

  turn-TurnWithin :
      (step : ℕ) (st : LoopState)
      → IsWithinBudget h before step st
      → TurnWithin (suc step) (turn h run_id wanted step st)
  unfolding turn record_step
  turn-TurnWithin step st w =
      elim (Bool-cases (leb (as_u32 h.spec.budget.max_llm_calls) st.total_llm_calls)) [
        | inl e ↦ rw e (later-IsWithinBudget h run_id before step st w)
        | inr e ↦
            let more : st.total_llm_calls < as_u32 h.spec.budget.max_llm_calls = ground arith in
            rw e (
              called-TurnWithin step stepped (h.complete step st.messages)
                (omega (arith, more, as_u32_le h.spec.budget.max_llm_calls))
                (same-IsWithinBudget h run_id before step st stepped refl refl refl w))
      ]
    where
      stepped : LoopState
      stepped = record st { db = record_step run_id st.db }

  ended-IsWithinBudget :
      (left step : ℕ) (t : Turn)
      → ((st : LoopState)
          → IsWithinBudget h before (suc step) st
          → IsWithinBudget h before (suc step + left) (turns h run_id wanted left (suc step) st).1)
      → TurnWithin (suc step) t
      → IsWithinBudget h before
          (suc step + left)
          (after_turn h run_id wanted (λ st. turns h run_id wanted left (suc step) st) t).1
  ended-IsWithinBudget left step (go_on st) rest w = rest st w
  ended-IsWithinBudget left step (ended outcome st) rest w = record {
    iterations = omega (arith, w.iterations);
    llm_calls = w.llm_calls;
    tool_calls = w.tool_calls;
    logged = w.logged;
  }

  -- However the loop ends, it has counted no more answers of the model than iterations and than its
  -- budget, and no more results of tools than their budget or than were counted before it; and the log
  -- has grown by one entry for each result that it counted; if this held when it began. A call that is
  -- refused or cut off is neither counted nor logged.
  pub turns-IsWithinBudget :
      (left step : ℕ) (st : LoopState)
      → IsWithinBudget h before step st
      → IsWithinBudget h before (step + left) (turns h run_id wanted left step st).1
  unfolding turns
  turns-IsWithinBudget zero step st w = rw (nothing step) w
    where
      nothing : (n : ℕ) → n + 0 ≡ n
      nothing n = omega arith
  turns-IsWithinBudget (suc left) step st w =
      let moved : step + suc left ≡ suc step + left = omega arith in
      rw moved (
        ended-IsWithinBudget left step (turn h run_id wanted step st)
          (λ st' w'. turns-IsWithinBudget left (suc step) st' w') (turn-TurnWithin step st w))
