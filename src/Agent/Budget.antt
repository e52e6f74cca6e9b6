-- ===== src/Agent/Budget.antt =====
-- src/agent_harness/run_executor.rs: what it is for a state to be within the budgets.
use Prim.Native.String.{String}
use mail_subsystem.Prelude.{
  ℕ, suc, ◌+◌, ◌≤◌, ◌≡◌, refl, inl, inr, arith, ◌%◌, ◌==◌, length, Bool-cases, max,
}
use mail_subsystem.Agent.Runs.{save_checkpoint}
use mail_subsystem.Agent.Loop.{Harness, LoopState, checkpointed}
use mail_subsystem.Agent.Calls.{Counted}

module _ (h : Harness) (before : LoopState) where
  -- The budgets kept so far: counted calls of the model by the iterations and by their budget, of tools by
  -- theirs, or by what was counted before the loop; and as many new entries in the log as counted calls.
  pub record IsWithinBudget (step : ℕ) (st : LoopState) : Type 0 where
    pub iterations : st.total_llm_calls ≤ step
    pub llm_calls : st.total_llm_calls ≤ h.spec.budget.max_llm_calls
    pub tool_calls : st.total_tool_calls ≤ max h.spec.budget.max_tool_calls before.total_tool_calls
    pub logged :
        st.total_tool_calls + length before.db.tool_log
        ≡ before.total_tool_calls + length st.db.tool_log

module _ (h : Harness) (run_id : String) (before : LoopState) where
  -- Only the counters and the log matter.
  pub same-IsWithinBudget :
      (step : ℕ) (st st' : LoopState)
      → st'.total_llm_calls ≡ st.total_llm_calls
      → st'.total_tool_calls ≡ st.total_tool_calls
      → length st'.db.tool_log ≡ length st.db.tool_log
      → IsWithinBudget h before step st
      → IsWithinBudget h before step st'
  same-IsWithinBudget step st st' a b c w = record {
    iterations = omega (arith, a, w.iterations);
    llm_calls = omega (arith, a, w.llm_calls);
    tool_calls = omega (arith, b, w.tool_calls);
    logged = omega (arith, b, c, w.logged);
  }

  pub later-IsWithinBudget :
      (step : ℕ) (st : LoopState)
      → IsWithinBudget h before step st
      → IsWithinBudget h before (suc step) st
  later-IsWithinBudget step st w = record {
    iterations = omega (arith, w.iterations);
    llm_calls = w.llm_calls;
    tool_calls = w.tool_calls;
    logged = w.logged;
  }

  pub calls-IsWithinBudget :
      (step n : ℕ) (st st' : LoopState)
      → st.total_tool_calls + n ≤ h.spec.budget.max_tool_calls
      → IsWithinBudget h before (suc step) st
      → Counted n st st'
      → IsWithinBudget h before (suc step) st'
  calls-IsWithinBudget step n st st' fits w c = record {
    iterations = omega (arith, c.llm, w.iterations);
    llm_calls = omega (arith, c.llm, w.llm_calls);
    tool_calls = omega (arith, c.tool, fits);
    logged = omega (arith, c.logged, w.logged);
  }

  pub checkpointed-IsWithinBudget :
      (step n : ℕ) (st : LoopState)
      → IsWithinBudget h before step st
      → IsWithinBudget h before step (checkpointed h run_id n st)
  unfolding save_checkpoint
  checkpointed-IsWithinBudget step n st w =
      elim (Bool-cases ((n + 1) % h.spec.execution.checkpoint_every == 0)) [
        | inl e ↦ rw e (same-IsWithinBudget step st _ refl refl refl w)
        | inr e ↦ rw e w
      ]
