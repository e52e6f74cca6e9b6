-- ===== src/Agent/Runs.antt =====
-- src/agent_harness/scratchpad_state.rs with the tables agent_runs, agent_checkpoints and
-- agent_tool_log (schema.sql): the runs of agents. The rows of agent_state have their functions in
-- Scratchpad. The id of a new run is an
-- argument, and so is the time since the run started, in milliseconds.
use Prim.Native.String.{String}
use text.Mathlib.Text.{◌==◌ as str_eq}
use mail_subsystem.Prelude.{
  ℕ, ◌+◌, Bool, true, false, ◌&&◌, List, [], ◌∷◌, ◌++◌, Option, none, some, if◌then◌else◌, ltb,
  ◌==◌, min, take,
}
use mail_subsystem.Prelude.Text.{Text, codes}
use mail_subsystem.Strings.{trim_by, is_empty}
use mail_subsystem.Json.{Json}
use mail_subsystem.Sql.{select_where, update_where, upsert_where, order_by}

pub data AgentRunStatus : Type 0 where
  running completed failed timed_out : AgentRunStatus

abbrev pub is_running : AgentRunStatus → Bool
is_running running = true
is_running _ = false

pub record RunRow : Type 0 where
  pub run_id : String
  pub account_id : String
  pub agent_name : String
  pub agent_version : Option Text
  pub task_id : String
  pub status : AgentRunStatus
  pub steps : ℕ
  pub llm_calls : ℕ
  pub tool_calls : ℕ
  pub input_tokens : Option ℕ
  pub output_tokens : Option ℕ
  pub result : Option Json
  pub error : Option Text
  pub started_at : ℕ
  pub finished_at : Option ℕ
  pub duration_ms : Option ℕ
  pub escalated : Bool
  pub output_confidence : Option String

pub record StateRow : Type 0 where
  pub account_id : String
  pub agent_name : String
  pub key : String
  pub value : Json
  pub updated_at : ℕ
  pub expires_at : Option ℕ

pub record Message : Type 0 where
  pub role : Text
  pub content : Text

pub record Checkpoint : Type 0 where
  pub run_id : String
  pub step : ℕ
  pub messages : List Message
  pub created_at : ℕ

pub record ToolLogRow : Type 0 where
  pub run_id : String
  pub step : ℕ
  pub tool_name : String
  pub arguments : Json
  pub result : Text
  pub latency_ms : ℕ

pub record AgentDb : Type 0 where
  pub runs : List RunRow
  pub scratchpads : List StateRow
  pub checkpoints : List Checkpoint
  pub tool_log : List ToolLogRow

pub record AgentState : Type 0 where
  pub account_id : String
  pub agent_name : String

abbrev pub has_run_id : String → RunRow → Bool
has_run_id run_id r = str_eq r.run_id run_id

abbrev pub update_run : String → (RunRow → RunRow) → AgentDb → AgentDb
update_run run_id f db = record db { runs = update_where (has_run_id run_id) f db.runs }

abbrev pub first : {A : Type 0} → List A → Option A
first [] = none
first (x ∷ xs) = some x

abbrev pub is_running_task : AgentState → String → RunRow → Bool
is_running_task s task_id r =
    str_eq r.account_id s.account_id
    && (str_eq r.task_id task_id && (str_eq r.agent_name s.agent_name && is_running r.status))

abbrev pub new_run : AgentState → Text → String → String → ℕ → (ℕ → Bool) → RunRow
new_run s version task_id run_id now w = record {
  run_id = run_id;
  account_id = s.account_id;
  agent_name = s.agent_name;
  agent_version = if is_empty (trim_by w version) then none else some version;
  task_id = task_id;
  status = running;
  steps = 0;
  llm_calls = 0;
  tool_calls = 0;
  input_tokens = none;
  output_tokens = none;
  result = none;
  error = none;
  started_at = now;
  finished_at = none;
  duration_ms = none;
  escalated = false;
  output_confidence = none;
}

-- The latest run of the task that is still running, or a new one.
abbrev pub begin_with : Option RunRow → RunRow → AgentDb → String × AgentDb
begin_with (some r) new db = (r.run_id, db)
begin_with none new db = (new.run_id, record db { runs = db.runs ++ new ∷ [] })

unfoldable pub begin_run :
    (ℕ → Bool) → AgentState → Text → String → String → ℕ → AgentDb → String × AgentDb
begin_run w s version task_id new_id now db =
    begin_with
      (first (
        order_by (λ (a b : RunRow). ltb b.started_at a.started_at)
          (select_where (is_running_task s task_id) db.runs)))
      (new_run s version task_id new_id now w) db

unfoldable pub record_step : String → AgentDb → AgentDb
record_step run_id db = update_run run_id (λ r. record r { steps = r.steps + 1 }) db

abbrev pub add_tokens : Option ℕ → Option ℕ → Option ℕ
add_tokens none column = column
add_tokens (some n) none = some n
add_tokens (some n) (some m) = some (m + n)

unfoldable pub record_llm_call : String → Option ℕ → Option ℕ → AgentDb → AgentDb
record_llm_call run_id input_tokens output_tokens db =
    update_run run_id
      (λ r. record r {
        llm_calls = r.llm_calls + 1;
        input_tokens = add_tokens input_tokens r.input_tokens;
        output_tokens = add_tokens output_tokens r.output_tokens;
      })
      db

unfoldable pub record_tool_calls : String → ℕ → AgentDb → AgentDb
record_tool_calls run_id count db =
    update_run run_id (λ r. record r { tool_calls = r.tool_calls + count }) db

unfoldable pub save_checkpoint : String → ℕ → List Message → ℕ → AgentDb → AgentDb
save_checkpoint run_id step messages now db = record db {
  checkpoints =
      upsert_where (λ (c : Checkpoint). str_eq c.run_id run_id && c.step == step)
        (λ c. record c { messages = messages; created_at = now })
        (record { run_id = run_id; step = step; messages = messages; created_at = now })
        db.checkpoints;
}

unfoldable pub latest_checkpoint : String → AgentDb → Option Checkpoint
latest_checkpoint run_id db = first (
    order_by (λ (a b : Checkpoint). ltb b.step a.step)
      (select_where (λ (c : Checkpoint). str_eq c.run_id run_id) db.checkpoints))

abbrev pub logged_call : String → ℕ → String → Json → Text → ℕ → ToolLogRow
logged_call run_id step tool_name arguments result latency_ms = record {
  run_id = run_id;
  step = step;
  tool_name = tool_name;
  arguments = arguments;
  result = take 4000 result;
  latency_ms = latency_ms;
}

unfoldable pub log_tool_call : String → ℕ → String → Json → Text → ℕ → AgentDb → AgentDb
log_tool_call run_id step tool_name arguments result latency_ms db = record db {
  tool_log = db.tool_log ++ logged_call run_id step tool_name arguments result latency_ms ∷ [];
}

abbrev pub i32_max : ℕ
i32_max = 2147483647

unfoldable pub finish_run : String → ℕ → Json → Bool → Option String → ℕ → AgentDb → AgentDb
finish_run run_id elapsed result escalated output_confidence now db =
    update_run run_id
      (λ r. record r {
        status = completed;
        result = some result;
        error = none;
        finished_at = some now;
        duration_ms = some (min elapsed i32_max);
        escalated = escalated;
        output_confidence = output_confidence;
      })
      db

unfoldable pub fail_run : String → ℕ → Text → ℕ → AgentDb → AgentDb
fail_run run_id elapsed error now db =
    update_run run_id
      (λ r. record r {
        status = failed;
        error = some error;
        finished_at = some now;
        duration_ms = some (min elapsed i32_max);
      })
      db

unfoldable pub timeout_run : String → ℕ → ℕ → AgentDb → AgentDb
timeout_run run_id elapsed now db =
    update_run run_id
      (λ r. record r {
        status = timed_out;
        error = some (codes "timed_out");
        finished_at = some now;
        duration_ms = some (min elapsed i32_max);
      })
      db
