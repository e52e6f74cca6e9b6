-- ===== src/Agent/Results.antt =====
-- src/agent_harness/run_executor.rs: what it is for a result of a run to be right.
use Prim.Native.String.{String}
use mail_subsystem.Prelude.{
  ℕ, ◌≡◌, refl, inl, inr, Bool, true, false, not, ◌&&◌, ◌||◌, List, [], ◌∷◌, Option, none, some,
  arith, Bool-cases, All,
}
use mail_subsystem.Prelude.Text.{Text}
use mail_subsystem.Json.{Json}
use mail_subsystem.Sql.{update_where}
use mail_subsystem.Agent.Questions.{output_promises_deferred_tool_work}
use mail_subsystem.Agent.Spec.{
  Invalid, has_text, validate, evaluate_escalation_with_threshold, normalize_common_output_enums,
}
use mail_subsystem.Agent.Output.{
  Validated, valid, invalid, or_error, or_candidate, validated, validate_output,
}
use mail_subsystem.Agent.Runs.{
  AgentRunStatus, running, completed, failed, timed_out, RunRow, has_run_id, finish_run,
}
use mail_subsystem.Agent.Loop.{Harness, RunResult, Outcome, finished, LoopState, Turn, go_on, ended}
use mail_subsystem.Agent.Turns.{Wanted, after_validation}

abbrev pub same_status : AgentRunStatus → AgentRunStatus → Bool
same_status running running = true
same_status completed completed = true
same_status failed failed = true
same_status timed_out timed_out = true
same_status _ _ = false

-- The row of the run, if it is this one, has the status.
abbrev pub has_status : String → AgentRunStatus → RunRow → Bool
has_status run_id s r = not (has_run_id run_id r) || same_status r.status s

pub update_run-has_status :
    (run_id : String) (s : AgentRunStatus) (f : RunRow → RunRow)
    → ((r : RunRow) → same_status (f r).status s ≡ true)
    → (rows : List RunRow)
    → All (λ r. has_status run_id s r ≡ true) (update_where (has_run_id run_id) f rows)
unfolding update_where
update_run-has_status run_id s f sets [] = tt
update_run-has_status run_id s f sets (r ∷ rows) =
    let rest = update_run-has_status run_id s f sets rows in
    elim (Bool-cases (has_run_id run_id r)) [
      | inl e ↦ rw e (ground (arith, sets r), rest)
      | inr e ↦ rw e (ground arith, rest)
    ]

module _ (h : Harness) (run_id : String) (wanted : Wanted) where
  -- A result: its output is valid, was given after the tools that the question wants, does not promise
  -- to call them later, and is escalated as its rules say; its counts are those of the loop; and the row of
  -- the run is completed.
  pub record IsFinished (r : RunResult) (st : LoopState) : Type 0 where
    pub id : r.run_id ≡ run_id
    pub output : validate h.as_f64 h.below h.spec.output r.output ≡ none
    pub count : (not wanted.count_emails || has_text "count_emails" st.used_tool_names) ≡ true
    pub list :
        (not wanted.list_synced_emails || has_text "list_synced_emails" st.used_tool_names) ≡ true
    pub no_promise :
        ((wanted.count_emails || wanted.list_synced_emails)
          && output_promises_deferred_tool_work r.output)
        ≡ false
    pub escalation :
        r.escalation
        ≡ evaluate_escalation_with_threshold h.as_f64 h.below h.spec.escalation r.output
            h.calibrated_threshold
    pub llm_calls : r.llm_calls ≡ st.total_llm_calls
    pub tool_calls : r.tool_calls ≡ st.total_tool_calls
    pub row : All (λ (x : RunRow). has_status run_id completed x ≡ true) st.db.runs

  abbrev pub Finishes : Outcome → LoopState → Type 0
  Finishes (finished r) st = IsFinished r st
  Finishes _ st = Unit

  abbrev pub TurnFinishes : Turn → Type 0
  TurnFinishes (go_on st) = Unit
  TurnFinishes (ended outcome st) = Finishes outcome st

  valid-output :
      (content : Text) (output : Json)
      → validate_output h.is_whitespace h.from_str h.as_f64 h.below h.spec.output content
        ≡ valid output
      → validate h.as_f64 h.below h.spec.output output ≡ none
  unfolding validate_output
  valid-output content output e =
      of_parsed (or_candidate h.is_whitespace h.from_str _ (h.from_str _)) e
    where
      no_error :
          (v : Json) (o : Option Invalid)
          → validate h.as_f64 h.below h.spec.output v ≡ o
          → or_error v o ≡ valid output
          → validate h.as_f64 h.below h.spec.output output ≡ none
      no_error v none k q = let same : v ≡ output = ground arith in rw same at k
      no_error v (some i) k q = absurd (ground arith)

      of_parsed :
          (o : Option Json)
          → validated h.is_whitespace h.from_str h.as_f64 h.below h.spec.output o ≡ valid output
          → validate h.as_f64 h.below h.spec.output output ≡ none
      of_parsed none q = absurd (ground arith)
      of_parsed (some parsed) q =
          no_error (normalize_common_output_enums h.is_whitespace h.spec.output parsed) _ refl q

  -- A turn that ends after a valid output ends so.
  pub validation-Finishes :
      (step : ℕ) (content : Text) (st : LoopState) (v : Validated)
      → validate_output h.is_whitespace h.from_str h.as_f64 h.below h.spec.output content ≡ v
      → TurnFinishes (after_validation h run_id wanted step content st v)
  unfolding finish_run
  validation-Finishes step content st (invalid e) q = tt
  validation-Finishes step content st (valid output) q =
      let right = valid-output content output q in
      elim (Bool-cases (wanted.count_emails && not (has_text "count_emails" st.used_tool_names))) [
        | inl a ↦ rw a tt
        | inr a ↦
            elim (Bool-cases (
              wanted.list_synced_emails
              && not (has_text "list_synced_emails" st.used_tool_names))) [
                | inl b ↦ rw (a, b) tt
                | inr b ↦
                    elim (Bool-cases (
                      (wanted.count_emails || wanted.list_synced_emails)
                      && output_promises_deferred_tool_work output)) [
                        | inl c ↦ rw (a, b, c) tt
                        | inr c ↦
                            rw (a, b, c)
                              (record {
                                id = refl;
                                output = right;
                                count = ground arith;
                                list = ground arith;
                                no_promise = c;
                                escalation = refl;
                                llm_calls = refl;
                                tool_calls = refl;
                                row =
                                    update_run-has_status run_id completed _ (λ x. refl) st.db.runs;
                              })
                      ]
              ]
      ]
