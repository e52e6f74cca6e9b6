-- ===== src/Agent/Calls.antt =====
-- src/agent_harness/run_executor.rs: the calls of tools that a turn counts.
use Prim.Native.String.{String}
use mail_subsystem.Prelude.{
  ℕ, suc, ◌+◌, ◌≤◌, ◌≡◌, refl, List, [], ◌∷◌, ◌++◌, arith, ◌∙◌, length-append, length,
}
use mail_subsystem.Prelude.Text.{Text}
use mail_subsystem.Agent.Output.{ToolCall}
use mail_subsystem.Agent.Runs.{log_tool_call, logged_call}
use mail_subsystem.Agent.Loop.{
  Answer, got, broken, cut_off, Harness, LoopState, awaited, execute, ToolsDone, all_done, stopped,
  after_tool, tool_result, tool_answered, run_tools,
}

-- The calls that a state has counted, beside those of another: none more of the model, and of tools as
-- many more as the log has entries more, at most `n`.
pub record Counted (n : ℕ) (st st' : LoopState) : Type 0 where
  pub llm : st'.total_llm_calls ≡ st.total_llm_calls
  pub tool : st'.total_tool_calls ≤ st.total_tool_calls + n
  pub logged :
      st'.total_tool_calls + length st.db.tool_log ≡ st.total_tool_calls + length st'.db.tool_log

Counted-refl : (st : LoopState) → Counted 0 st st
Counted-refl st = record { llm = refl; tool = omega arith; logged = refl }

Counted-trans : (m n : ℕ) (a b c : LoopState) → Counted m a b → Counted n b c → Counted (m + n) a c
Counted-trans m n a b c x y = record {
  llm = y.llm ∙ x.llm;
  tool = omega (arith, x.tool, y.tool);
  logged = omega (arith, x.logged, y.logged);
}

module _ (h : Harness) (run_id : String) where
  tool-Counted :
      (step : ℕ) (call : ToolCall) (result : Text) (st : LoopState)
      → Counted 1 st (after_tool h run_id step call result st)
  unfolding log_tool_call
  tool-Counted step call result st = record {
    llm = refl;
    tool = omega arith;
    logged =
        let new =
          logged_call run_id step call.name call.arguments result (h.latency st.total_tool_calls) in
        let n = length-append st.db.tool_log (new ∷ []) in omega (arith, n);
  }

  abbrev pub ToolsCounted : ℕ → LoopState → ToolsDone → Type 0
  ToolsCounted n st (all_done parts st') = Counted n st st'
  ToolsCounted n st (stopped outcome st') = Counted n st st'

  ToolsCounted-after :
      (n : ℕ) (a b : LoopState) (d : ToolsDone)
      → Counted 1 a b
      → ToolsCounted n b d
      → ToolsCounted (suc n) a d
  ToolsCounted-after n a b (all_done parts c) x y = rw one (Counted-trans 1 n a b c x y)
    where
      one : suc n ≡ 1 + n
      one = omega arith
  ToolsCounted-after n a b (stopped outcome c) x y = rw one (Counted-trans 1 n a b c x y)
    where
      one : suc n ≡ 1 + n
      one = omega arith

  -- Running tools counts each that has answered, and logs it.
  pub run_tools-ToolsCounted :
      (step : ℕ) (parts : List Text) (calls : List ToolCall) (st : LoopState)
      → ToolsCounted (length calls) st (run_tools h run_id step parts calls st)
  unfolding run_tools
  run_tools-ToolsCounted step parts [] st = Counted-refl st
  run_tools-ToolsCounted step parts (call ∷ calls) st =
      answered
        (awaited (h.limit_falls st.total_tool_calls)
          (execute h.tools st.total_tool_calls call.name call.arguments))
        (λ part st'. run_tools-ToolsCounted step (parts ++ part ∷ []) calls st')
    where
      at_once : (n : ℕ) → Counted (suc n) st st
      at_once n = record { llm = refl; tool = omega arith; logged = refl }

      answered :
          (a : Answer Text)
          → ((part : Text) (st' : LoopState)
              → ToolsCounted
                  (length calls)
                  st'
                  (run_tools h run_id step (parts ++ part ∷ []) calls st'))
          → ToolsCounted (suc (length calls)) st (
              tool_answered h run_id
                (λ part st'. run_tools h run_id step (parts ++ part ∷ []) calls st')
                step
                call
                st
                a)
      answered (got result) rest =
          let next = after_tool h run_id step call result st in
          ToolsCounted-after (length calls) st next _ (tool-Counted step call result st)
            (rest (tool_result h run_id call result) next)
      answered (broken e) rest = at_once (length calls)
      answered cut_off rest = at_once (length calls)
