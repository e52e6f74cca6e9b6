-- ===== src/Agent/Start.antt =====
-- src/agent_harness/run_executor.rs: run_with_callback between its wait and its loop: the messages, the
-- calibrated threshold, and the tools that are called first.
use Prim.Native.String.{String, ◌++◌ as push_str}
use mail_subsystem.Prelude.{
  ℕ, ◌+◌, Bool, true, false, not, ◌&&◌, List, [], ◌∷◌, ◌++◌, Option, none, some, if◌then◌else◌,
}
use mail_subsystem.Prelude.Text.{Text, codes}
use mail_subsystem.Strings.{join}
use mail_subsystem.Json.{Json, null, obj, end, get}
use mail_subsystem.Completeness.{DbCompletenessSnapshot}
use mail_subsystem.Agent.Prerequisites.{DbCompletenessPollConfig}
use mail_subsystem.Agent.Polling.{Surroundings}
use mail_subsystem.Agent.Questions.{should_require_synced_email_list_tool}
use mail_subsystem.Agent.Arguments.{
  should_require_count_emails_tool, count_emails_tool_args_for_input,
  synced_email_list_tool_args_for_input,
}
use mail_subsystem.Agent.Spec.{has_text, and_then_f64}
use mail_subsystem.Agent.Runs.{
  Message, Checkpoint, AgentDb, AgentState, latest_checkpoint, record_tool_calls, log_tool_call,
}
use mail_subsystem.Agent.Scratchpad.{read_scratchpad, prune_expired_scratchpad}
use mail_subsystem.Agent.Loop.{Reply, replied, refused, Harness, LoopState, user, execute}
use mail_subsystem.Agent.Turns.{Wanted}

-- The task of a run, and what the harness meets before its loop and after it: the id that a new run gets,
-- the snapshot for a chat turn, what the wait meets and the rounds it may take, the printed input, how
-- numbers and strings are read from texts and printed, and the times of the statements.
pub record Task : Type 0 where
  pub task_id : String
  pub input : Json
  pub new_run_id : String
  pub db_completeness : DbCompletenessPollConfig
  pub snapshot : Option DbCompletenessSnapshot
  pub surroundings : Surroundings
  pub polls : ℕ
  pub to_string_pretty : Json → Text
  pub parse : Text → Option ℕ
  pub string_of : Text → String
  pub print : ℕ → String
  pub started : ℕ
  pub stopped : ℕ
  pub elapsed : ℕ

-- What a prerequisite leaves: the state with its result, or its error.
pub data Fetched : Type 0 where
  fetched : LoopState → Fetched
  unfetched : Text → LoopState → Fetched

abbrev pub count_intro : Text
count_intro =
    codes
      "Required mailbox count result, already fetched with `count_emails`. Use this result for the final answer and do not invent a different count.\n\n[count_emails]: "

abbrev pub list_intro : Text
list_intro =
    codes
      "Required synced email list, already fetched with `list_synced_emails`. Use only this current Postgres data for the final answer. Clearly say that the mailbox is still being prepared if rows have pending analysis, summaries, or filing data.\n\n[list_synced_emails]: "

abbrev pub is_bare : Json → Bool
is_bare null = true
is_bare (obj end) = true
is_bare _ = false

module _ (h : Harness) (t : Task) where
  abbrev pub state : AgentState
  state = record { account_id = h.account_id; agent_name = h.spec.name }

  abbrev pub scratchpad_line : String → Option Json → List Text → List Text
  scratchpad_line key none lines = lines
  scratchpad_line key (some value) lines =
      if is_bare value then lines else (codes key ++ (codes ": " ++ h.to_string value)) ∷ lines

  abbrev pub scratchpad_lines : List String → AgentDb → List Text
  scratchpad_lines [] db = []
  scratchpad_lines (key ∷ keys) db =
      scratchpad_line key (read_scratchpad state key t.started db) (scratchpad_lines keys db)

  abbrev pub with_scratchpad : Text → List Text → Text
  with_scratchpad prompt [] = prompt
  with_scratchpad prompt (line ∷ lines) =
      prompt
      ++ (codes "\n\n--- Scratchpad (your persistent memory for this account) ---\n"
          ++ (join (codes "\n") (line ∷ lines) ++ codes "\n--- End Scratchpad ---"))

  unfoldable pub build_initial_messages : Json → AgentDb → List Message × AgentDb
  build_initial_messages input db =
      let pruned = prune_expired_scratchpad state t.started db in
      (
        record {
          role = codes "system";
          content =
              with_scratchpad h.spec.system_prompt (scratchpad_lines h.spec.state.schema pruned);
        }
            ∷ user (t.to_string_pretty input)
            ∷ [],
        pruned,
      )

  abbrev pub resumed : List Message → Option Checkpoint → List Message
  resumed messages none = messages
  resumed messages (some c) = c.messages

  abbrev pub wanted_for : Json → Wanted
  wanted_for input = record {
    count_emails = should_require_count_emails_tool h.is_whitespace (codes h.spec.name) input;
    list_synced_emails =
        should_require_synced_email_list_tool h.is_whitespace (codes h.spec.name) input;
  }

  abbrev pub threshold_of : Option Json → Option String
  threshold_of none = none
  threshold_of (some v) = and_then_f64 h.as_f64 h.below (get "threshold" v)

  -- The harness with the calibrated threshold of its scratchpad.
  abbrev pub calibrated : AgentDb → Harness
  calibrated db = record h {
    calibrated_threshold =
        threshold_of (read_scratchpad state (push_str "calibration_" h.spec.name) t.started db);
  }

  module _ (run_id : String) where
    abbrev pub fetch : String → Json → Text → LoopState → Reply → Fetched
    fetch name arguments intro st (refused e) = unfetched e st
    fetch name arguments intro st (replied result) = fetched (record st {
      messages = st.messages ++ user (intro ++ result) ∷ [];
      used_tool_names = st.used_tool_names ++ name ∷ [];
      total_tool_calls = st.total_tool_calls + 1;
      db =
          record_tool_calls run_id 1
            (log_tool_call run_id 0 name arguments result (h.latency st.total_tool_calls) st.db);
    })

    -- A tool that the question wants and that has not been used is called at once.
    abbrev pub fetch_wanted : Bool → String → Json → Text → LoopState → Fetched
    fetch_wanted wanted name arguments intro st =
        if wanted && not (has_text name st.used_tool_names)
        then fetch name arguments intro st (execute h.tools st.total_tool_calls name arguments)
        else fetched st

    abbrev pub then_fetch : (LoopState → Fetched) → Fetched → Fetched
    then_fetch next (fetched st) = next st
    then_fetch next (unfetched e st) = unfetched e st

    abbrev pub fetch_count : Json → LoopState → Fetched
    fetch_count input st =
        fetch_wanted (wanted_for input).count_emails "count_emails"
          (count_emails_tool_args_for_input h.is_whitespace t.parse t.string_of input) count_intro
          st

    abbrev pub fetch_list : Json → LoopState → Fetched
    fetch_list input st =
        fetch_wanted (wanted_for input).list_synced_emails "list_synced_emails"
          (synced_email_list_tool_args_for_input h.is_whitespace t.parse t.string_of input)
          list_intro st

    unfoldable pub fetch_prerequisites : Json → LoopState → Fetched
    fetch_prerequisites input st = then_fetch (λ st'. fetch_list input st') (fetch_count input st)

    abbrev pub first_state : Json → AgentDb → LoopState
    first_state input db =
        let (messages, pruned) = build_initial_messages input db in
        record {
          messages = resumed messages (latest_checkpoint run_id pruned);
          used_tool_names = [];
          total_llm_calls = 0;
          total_tool_calls = 0;
          total_input_tokens = 0;
          total_output_tokens = 0;
          db = pruned;
        }
