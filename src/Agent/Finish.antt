-- ===== src/Agent/Finish.antt =====
-- src/agent_harness/run_executor.rs: what a result of the loop of a run guarantees.
use Prim.Native.String.{String}
use mail_subsystem.Prelude.{
  ℕ, zero, suc, ◌+◌, refl, inl, inr, List, [], ◌∷◌, ◌++◌, Option, none, some, Bool-cases, ltb, leb,
  length,
}
use mail_subsystem.Prelude.Text.{Text}
use mail_subsystem.Agent.Output.{ToolCall, ScratchpadAction}
use mail_subsystem.Agent.Runs.{AgentDb, record_step}
use mail_subsystem.Agent.Loop.{
  as_u32, Answer, got, broken, cut_off, Harness, Outcome, LoopState, Turn, go_on, ended, execute,
  awaited, ToolsDone, all_done, stopped, tool_answered, run_tools, after_tool, tool_result,
  after_tools, after_action, handle_scratchpad_action, AiResponse,
}
use mail_subsystem.Agent.Results.{Finishes, TurnFinishes, validation-Finishes}
use mail_subsystem.Agent.Turns.{
  Wanted, after_response, after_call, counted, turn, turns, after_turn,
}

module _ (h : Harness) (run_id : String) (wanted : Wanted) where
  abbrev ToolsFinish : ToolsDone → Type 0
  ToolsFinish (all_done parts st) = Unit
  ToolsFinish (stopped outcome st) = Finishes h run_id wanted outcome st

  run_tools-ToolsFinish :
      (step : ℕ) (parts : List Text) (calls : List ToolCall) (st : LoopState)
      → ToolsFinish (run_tools h run_id step parts calls st)
  unfolding run_tools
  run_tools-ToolsFinish step parts [] st = tt
  run_tools-ToolsFinish step parts (call ∷ calls) st =
      answered
        (awaited (h.limit_falls st.total_tool_calls)
          (execute h.tools st.total_tool_calls call.name call.arguments))
        (λ part st'. run_tools-ToolsFinish step (parts ++ part ∷ []) calls st')
    where
      answered :
          (a : Answer Text)
          → ((part : Text) (st' : LoopState)
              → ToolsFinish (run_tools h run_id step (parts ++ part ∷ []) calls st'))
          → ToolsFinish (
              tool_answered h run_id
                (λ part st'. run_tools h run_id step (parts ++ part ∷ []) calls st')
                step
                call
                st
                a)
      answered (got result) rest =
          rest (tool_result h run_id call result) (after_tool h run_id step call result st)
      answered (broken e) rest = tt
      answered cut_off rest = tt

  tools-Finishes :
      (step n : ℕ) (content : Text) (d : ToolsDone)
      → ToolsFinish d
      → TurnFinishes h run_id wanted (after_tools h run_id step content n d)
  tools-Finishes step n content (all_done parts st) f = tt
  tools-Finishes step n content (stopped outcome st) f = f

  action-Finishes :
      (step : ℕ) (content : Text) (action : ScratchpadAction) (st : LoopState)
      (o : Option (Text × AgentDb))
      → TurnFinishes h run_id wanted (after_action h run_id step content action st o)
  action-Finishes step content action st none = tt
  action-Finishes step content action st (some (reply, db)) = tt

  response-Finishes :
      (step : ℕ) (content : Text) (st : LoopState) (calls : List ToolCall)
      (action : Option ScratchpadAction)
      → TurnFinishes h run_id wanted (after_response h run_id wanted step content st calls action)
  response-Finishes step content st (call ∷ calls) action =
      let n = length (call ∷ calls) in
      elim (Bool-cases (ltb (as_u32 h.spec.budget.max_tool_calls) (st.total_tool_calls + n))) [
        | inl e ↦ rw e tt
        | inr e ↦ rw e (
            tools-Finishes step n content (run_tools h run_id step [] (call ∷ calls) st)
              (run_tools-ToolsFinish step [] (call ∷ calls) st))
      ]
  response-Finishes step content st [] (some action) =
      action-Finishes step content action st
        (handle_scratchpad_action h run_id action (h.now step) st.db)
  response-Finishes step content st [] none =
      validation-Finishes h run_id wanted step content st _ refl

  called-Finishes :
      (step : ℕ) (st : LoopState) (a : Answer AiResponse)
      → TurnFinishes h run_id wanted (after_call h run_id wanted step st a)
  called-Finishes step st (got r) =
      response-Finishes step r.content (counted h run_id wanted r st) _ _
  called-Finishes step st (broken e) = tt
  called-Finishes step st cut_off = tt

  turn-Finishes :
      (step : ℕ) (st : LoopState) → TurnFinishes h run_id wanted (turn h run_id wanted step st)
  unfolding turn
  turn-Finishes step st =
      elim (Bool-cases (leb (as_u32 h.spec.budget.max_llm_calls) st.total_llm_calls)) [
        | inl e ↦ rw e tt
        | inr e ↦ rw e (
            called-Finishes step (record st { db = record_step run_id st.db })
              (h.complete step st.messages))
      ]

  after_turn-Finishes :
      (rest : LoopState → Outcome × LoopState) (t : Turn)
      → ((st : LoopState) → Finishes h run_id wanted (rest st).0 (rest st).1)
      → TurnFinishes h run_id wanted t
      → Finishes h run_id wanted
          (after_turn h run_id wanted rest t).0
          (after_turn h run_id wanted rest t).1
  after_turn-Finishes rest (go_on st) f g = f st
  after_turn-Finishes rest (ended outcome st) f g = g

  -- If the loop ends with a result, its output is valid, was given after the tools that the question
  -- wants, does not promise to call them later, and is escalated as its rules say; its counts are those
  -- of the loop, and the row of the run is completed.
  pub turns-Finishes :
      (left step : ℕ) (st : LoopState)
      → Finishes h run_id wanted
          (turns h run_id wanted left step st).0
          (turns h run_id wanted left step st).1
  unfolding turns
  turns-Finishes zero step st = tt
  turns-Finishes (suc left) step st =
      after_turn-Finishes (λ st'. turns h run_id wanted left (suc step) st')
        (turn h run_id wanted step st) (λ st'. turns-Finishes left (suc step) st')
        (turn-Finishes step st)
