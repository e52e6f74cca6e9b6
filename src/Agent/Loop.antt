-- ===== src/Agent/Loop.antt =====
-- src/agent_harness/run_executor.rs: the tools and the scratchpad in an iteration of the loop of a run, and
-- tool_registry.rs. A tool and the provider answer, fail, or are cut off by the time limit of the run; statements of the database
-- take effect at once. Events, log lines and metrics are left out.
use Prim.Native.String.{String}
use text.Mathlib.Text.{◌==◌ as str_eq}
use mail_subsystem.Prelude.{
  ℕ, ◌+◌, ◌%◌, Bool, true, false, List, [], ◌∷◌, ◌++◌, Option, none, some, ltb, ◌==◌, if◌then◌else◌,
}
use mail_subsystem.Prelude.Text.{Text, codes}
use mail_subsystem.Strings.{join}
use mail_subsystem.Json.{Json, str}
use mail_subsystem.Analysis.Align.{TokenUsage}
use mail_subsystem.Agent.Prerequisites.{object}
use mail_subsystem.Agent.Spec.{AgentSpec, Invalid, Escalation, has_text}
use mail_subsystem.Agent.Output.{ToolCall, ScratchpadAction, read, write, value_or_null}
use mail_subsystem.Agent.Runs.{
  Message, AgentDb, AgentState, record_tool_calls, save_checkpoint, log_tool_call,
}
use mail_subsystem.Agent.Scratchpad.{read_scratchpad, write_scratchpad}

-- `as u32`.
abbrev pub as_u32 : ℕ → ℕ
as_u32 n = n % 4294967296

pub data Answer (A : Type 0) : Type 0 where
  got : A → Answer A
  broken : Text → Answer A
  cut_off : Answer A

-- Of a response what the loop reads.
pub record AiResponse : Type 0 where
  pub content : Text
  pub tool_calls : Option (List ToolCall)
  pub usage : Option TokenUsage

-- What a tool returns: its result, or an error.
pub data Reply : Type 0 where
  replied : Text → Reply
  refused : Text → Reply

-- A tool of the registry, at its n-th call of the run.
abbrev pub Tool : Type 0
Tool = ℕ → Json → Reply

-- The reply that is awaited, unless the time limit of the run falls in the wait.
abbrev pub awaited : Bool → Reply → Answer Text
awaited true reply = cut_off
awaited false (replied t) = got t
awaited false (refused e) = broken e

pub data RunError : Type 0 where
  input_not_object prerequisites_timed_out snapshot_failed : RunError
  max_llm_calls_reached max_tool_calls_reached max_iterations_reached : RunError
  -- An error of the provider, and of a tool.
  llm_failed tool_failed : Text → RunError
  undeclared_key : String → RunError

-- The harness, and what it calls: white space, JSON, numbers, the provider, the tools, in which call
-- of a tool the time limit falls, the time of the statements of a step, the milliseconds since the start of the run, and the texts of errors.
pub record Harness : Type 0 where
  pub spec : AgentSpec
  pub account_id : String
  pub calibrated_threshold : Option String
  pub is_whitespace : ℕ → Bool
  pub from_str : Text → Option Json
  pub to_string : Json → Text
  pub as_f64 : Json → Option String
  pub below : String → String → Bool
  pub complete : ℕ → List Message → Answer AiResponse
  pub tools : List (String × Tool)
  pub limit_falls : ℕ → Bool
  pub now : ℕ → ℕ
  pub elapsed : ℕ → ℕ
  pub latency : ℕ → ℕ
  pub describe : RunError → Text
  pub describe_invalid : Invalid → Text

pub record RunResult : Type 0 where
  pub run_id : String
  pub output : Json
  pub escalation : Option Escalation
  pub llm_calls : ℕ
  pub tool_calls : ℕ
  pub input_tokens : Option ℕ
  pub output_tokens : Option ℕ

pub data Outcome : Type 0 where
  finished : RunResult → Outcome
  failing : RunError → Outcome
  timing_out : Outcome

pub record LoopState : Type 0 where
  pub messages : List Message
  pub used_tool_names : List String
  pub total_llm_calls : ℕ
  pub total_tool_calls : ℕ
  pub total_input_tokens : ℕ
  pub total_output_tokens : ℕ
  pub db : AgentDb

-- An iteration goes on to the next one, or ends the loop.
pub data Turn : Type 0 where
  go_on : LoopState → Turn
  ended : Outcome → LoopState → Turn

abbrev pub user : Text → Message
user content = record { role = codes "user"; content = content }

abbrev pub assistant : Text → Message
assistant content = record { role = codes "assistant"; content = content }

-- ToolRegistry::execute; a name that is not registered is answered with an error text.
unfoldable pub execute : List (String × Tool) → ℕ → String → Json → Reply
execute [] n name arguments = replied (codes "Error: unknown tool '" ++ (codes name ++ codes "'"))
execute ((known, tool) ∷ rest) n name arguments =
    let later = execute rest n name arguments in
    if str_eq known name then tool n arguments else later

abbrev pub tokens : Option ℕ → ℕ
tokens none = 0
tokens (some n) = n

abbrev pub if_any : ℕ → Option ℕ
if_any n = if ltb 0 n then some n else none

abbrev pub usage_of : Option TokenUsage → TokenUsage
usage_of none = record { input_tokens = none; output_tokens = none }
usage_of (some u) = u

abbrev pub any_calls : List ToolCall → Option ToolCall → List ToolCall
any_calls (c ∷ cs) parsed = c ∷ cs
any_calls [] none = []
any_calls [] (some c) = c ∷ []

abbrev pub given : Option (List ToolCall) → List ToolCall
given none = []
given (some calls) = calls

-- What the tools did: their results, or the error or the limit at which they stopped.
pub data ToolsDone : Type 0 where
  all_done : List Text → LoopState → ToolsDone
  stopped : Outcome → LoopState → ToolsDone

module _ (h : Harness) (run_id : String) where
  abbrev pub agent : AgentState
  agent = record { account_id = h.account_id; agent_name = h.spec.name }

  abbrev pub tool_result : ToolCall → Text → Text
  tool_result call result = codes "[" ++ (codes call.name ++ (codes "]: " ++ result))

  -- The state after a tool has answered.
  abbrev pub after_tool : ℕ → ToolCall → Text → LoopState → LoopState
  after_tool step call result st = record st {
    used_tool_names = st.used_tool_names ++ call.name ∷ [];
    total_tool_calls = st.total_tool_calls + 1;
    db =
        log_tool_call run_id step call.name call.arguments result (h.latency st.total_tool_calls)
          st.db;
  }

  abbrev pub tool_answered :
      (Text → LoopState → ToolsDone) → ℕ → ToolCall → LoopState → Answer Text → ToolsDone
  tool_answered rest step call st (got result) =
      rest (tool_result call result) (after_tool step call result st)
  tool_answered rest step call st (broken e) = stopped (failing (tool_failed e)) st
  tool_answered rest step call st cut_off = stopped timing_out st

  unfoldable pub run_tools : ℕ → List Text → List ToolCall → LoopState → ToolsDone
  run_tools step parts [] st = all_done parts st
  run_tools step parts (call ∷ calls) st =
      tool_answered (λ part st'. run_tools step (parts ++ part ∷ []) calls st') step call st
        (awaited (h.limit_falls st.total_tool_calls)
          (execute h.tools st.total_tool_calls call.name call.arguments))

  abbrev pub say : Text → Text → LoopState → LoopState
  say content reply st = record st { messages = st.messages ++ assistant content ∷ user reply ∷ [] }

  abbrev pub checkpointed : ℕ → LoopState → LoopState
  checkpointed step st =
      if (step + 1) % h.spec.execution.checkpoint_every == 0
      then record st { db = save_checkpoint run_id step st.messages (h.now step) st.db }
      else st

  abbrev pub after_tools : ℕ → Text → ℕ → ToolsDone → Turn
  after_tools step content count (all_done parts st) = go_on (
      checkpointed step (
        say content (join (codes "\n\n") parts)
          (record st { db = record_tool_calls run_id count st.db })))
  after_tools step content count (stopped outcome st) = ended outcome st

  abbrev pub scratchpad_text : String → String → List (String × Json) → Text
  scratchpad_text action key members = h.to_string (
      object
        (("action", str action) ∷ ("key", str key) ∷ ("account_id", str h.account_id) ∷ members))

  -- handle_scratchpad_action: `none` is the error of a key that is not declared.
  unfoldable pub handle_scratchpad_action : ScratchpadAction → ℕ → AgentDb → Option (Text × AgentDb)
  handle_scratchpad_action (read key) now db =
      if has_text key h.spec.state.schema
      then some (
        scratchpad_text "read_scratchpad_result" key
            (("value", value_or_null (read_scratchpad agent key now db)) ∷ []),
        db,
      )
      else none
  handle_scratchpad_action (write key value) now db =
      if has_text key h.spec.state.schema
      then some (
        scratchpad_text "write_scratchpad_result" key (("status", str "ok") ∷ []),
        write_scratchpad agent key value (some h.spec.state.ttl_hours) now db,
      )
      else none

  abbrev pub key_of : ScratchpadAction → String
  key_of (read key) = key
  key_of (write key value) = key

  abbrev pub after_action : ℕ → Text → ScratchpadAction → LoopState → Option (Text × AgentDb) → Turn
  after_action step content action st none = ended (failing (undeclared_key (key_of action))) st
  after_action step content action st (some (reply, db)) =
      go_on (checkpointed step (say content reply (record st { db = db })))
