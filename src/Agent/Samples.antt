-- ===== src/Agent/Samples.antt =====
-- src/agent_harness: the data of the tests: a provider that answers at once, a tool that fails, and a
-- configuration by default.
use mail_subsystem.Agent.Start.{Task}
use Prim.Native.String.{String}
use mail_subsystem.Prelude.{
  ℕ, zero, suc, Bool, true, false, ◌||◌, [], ◌∷◌, Option, none, some, ◌==◌, if◌then◌else◌,
}
use mail_subsystem.Prelude.Text.{Text, codes}
use mail_subsystem.Strings.{is_between, text_eq}
use mail_subsystem.Json.{Json, obj, field, end, str}
use mail_subsystem.Completeness.{DbCompletenessSnapshot}
use mail_subsystem.CoreWork.{Db}
use mail_subsystem.Agent.Prerequisites.{DbCompletenessPollConfig, from_env}
use mail_subsystem.Agent.Polling.{Surroundings, Waited, wait_for_db_completeness}
use mail_subsystem.Agent.Spec.{OutputConfig, AgentSpec}
use mail_subsystem.Agent.Runs.{AgentDb}
use mail_subsystem.Agent.Loop.{Harness, got, refused, LoopState}
use mail_subsystem.Agent.Turns.{Wanted}

abbrev pub ascii_space : ℕ → Bool
ascii_space c = is_between 9 13 c || c == 32

abbrev pub nothing_set : String → Option String
nothing_set name = none

abbrev pub no_number : String → Option ℕ
no_number t = none

abbrev pub bodies_missing : DbCompletenessSnapshot
bodies_missing = record {
  folder_count = 1;
  largest_folder_message_count = 10;
  email_count = 10;
  missing_message_id = 0;
  body_missing = 2;
  analysis_missing = 0;
  location_missing = 0;
  filing_pending = 0;
  body_sync = record { pending = 0; failed = 0; processing = 0; dead = 0 };
}

abbrev pub all_there : DbCompletenessSnapshot
all_there = record bodies_missing { body_missing = 0 }

abbrev pub no_rows : Db
no_rows = record { rows = []; next_id = 1; tasks = [] }

-- Bodies are missing at first, and are there from the second round on; a sleep takes as long as asked.
abbrev pub loads : ℕ → Option DbCompletenessSnapshot
loads zero = some bodies_missing
loads (suc i) = some all_there

abbrev pub meets : Surroundings
meets = record { load = loads; now = λ i. i; slept = λ i d. d; others = λ i db. db }

abbrev pub by_default : DbCompletenessPollConfig
by_default = from_env nothing_set no_number

abbrev pub outcome_of : Option (Waited × Db) → Option Waited
outcome_of none = none
outcome_of (some (o, db)) = some o

abbrev pub waits : Option (Waited × Db)
waits = wait_for_db_completeness by_default "default" "mail-assistant" "r" "task" meets 3 no_rows

-- The response "{}" is an empty object, and no other text is JSON.
abbrev pub reads_json : Text → Option Json
reads_json t = if text_eq t (codes "{}") then some (obj end) else none

abbrev pub mail_assistant : AgentSpec
mail_assistant = record {
  name = "mail-assistant";
  version = codes "1";
  system_prompt = codes "Answer.";
  execution = record { max_iterations = 4; checkpoint_every = 1 };
  budget = record { max_llm_calls = 3; max_tool_calls = 2 };
  escalation = record {
    confidence_threshold = "0.5";
    always_escalate_on_phishing = true;
    always_escalate_on_threat = [];
  };
  state = record { schema = []; ttl_hours = 24 };
  output = record { required_fields = []; validation = [] };
}

abbrev pub harness : Harness
harness = record {
  spec = mail_assistant;
  account_id = "default";
  calibrated_threshold = none;
  is_whitespace = ascii_space;
  from_str = reads_json;
  to_string = λ v. [];
  as_f64 = λ v. none;
  below = λ a b. false;
  complete =
      λ step messages. got (record { content = codes "{}"; tool_calls = none; usage = none });
  tools = ("count_emails", λ n arguments. refused (codes "no database")) ∷ [];
  limit_falls = λ n. false;
  now = λ step. 10;
  elapsed = λ step. 1;
  latency = λ n. 0;
  describe = λ e. [];
  describe_invalid = λ e. [];
}

abbrev pub nothing_run : AgentDb
nothing_run = record { runs = []; scratchpads = []; checkpoints = []; tool_log = [] }

abbrev pub how_many : Json
how_many = obj (field "message" (str "How many emails are in my inbox?") end)

abbrev pub task : Task
task = record {
  task_id = "task";
  input = how_many;
  new_run_id = "r";
  db_completeness = by_default;
  snapshot = some bodies_missing;
  surroundings = meets;
  polls = suc 2400;
  to_string_pretty = λ v. [];
  parse = λ t. none;
  string_of = λ t. "";
  print = λ n. "";
  started = 5;
  stopped = 20;
  elapsed = 15;
}

abbrev pub first_messages : LoopState
first_messages = record {
  messages = [];
  used_tool_names = [];
  total_llm_calls = 0;
  total_tool_calls = 0;
  total_input_tokens = 0;
  total_output_tokens = 0;
  db = nothing_run;
}

abbrev pub nothing_wanted : Wanted
nothing_wanted = record { count_emails = false; list_synced_emails = false }

-- "already" contains "ready", by which the question counts as one about the preparation.
abbrev pub already_read : Json
already_read = obj (field "message" (str "How many emails from Ann have I already read?") end)

-- An output with a category, which is one of two.
abbrev pub categorized : OutputConfig
categorized = record {
  required_fields = "category" ∷ [];
  validation =
      (
        "category",
        record {
          enum_values = some ("work" ∷ "other" ∷ []);
          field_type = none;
          min = none;
          max = none;
        },
      )
      ∷ [];
}

abbrev pub work : Json
work = obj (field "category" (str "work") end)
