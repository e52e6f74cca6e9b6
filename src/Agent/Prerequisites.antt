-- ===== src/Agent/Prerequisites.antt =====
-- src/agent_harness/run_executor.rs: the work that must be done before an agent reads the mailbox.
-- A duration is a number of milliseconds. `var` reads the environment and `parse` is str::parse::<u64>.
use Prim.Native.String.{String, ◌++◌ as push_str}
use text.Mathlib.Text.{◌==◌ as str_eq}
use mail_subsystem.Prelude.{
  ℕ, ◌+◌, ◌*◌, Bool, true, not, ◌&&◌, ◌||◌, List, [], ◌∷◌, ◌++◌, Option, none, some, ltb, leb, ◌==◌,
  if◌then◌else◌, min, max, map,
}
use mail_subsystem.Prelude.Int.{pos}
use mail_subsystem.Prelude.Text.{Text, codes}
use mail_subsystem.Strings.{starts_with, text_eq, to_ascii_lowercase, eq_ignore_ascii_case}
use mail_subsystem.Json.{Json, Fields, obj, field, end, str, int}
use mail_subsystem.Completeness.{DbCompletenessSnapshot, needs_full_sync_backfill}
use mail_subsystem.CoreWork.{CoreWorkType, as_str, sync_full, sync_body, analyze, locate, Db}
use mail_subsystem.CoreWork.Table.{enqueue_core_work_for_account}

pub record DbCompletenessPollConfig : Type 0 where
  pub enabled : Bool
  pub request_work : Bool
  pub max_wait : ℕ
  pub interactive_max_wait : ℕ
  pub initial_backoff : ℕ
  pub max_backoff : ℕ
  pub stable_polls_required : ℕ

abbrev pub is_on : String → Bool
is_on value = str_eq value "1" || eq_ignore_ascii_case (codes value) (codes "true")

abbrev pub on_or : Bool → Option String → Bool
on_or default none = default
on_or default (some value) = is_on value

-- `.ok().and_then(|value| value.parse().ok()).unwrap_or(default)`.
abbrev pub number_or : (String → Option ℕ) → ℕ → Option String → ℕ
number_or parse default none = default
number_or parse default (some value) = elim (parse value) [ none ↦ default | some n ↦ n ]

-- A number that str::parse::<u32> reads too.
abbrev pub in_u32 : Option ℕ → Option ℕ
in_u32 none = none
in_u32 (some n) = if leb n 4294967295 then some n else none

abbrev pub text_or_empty : Option String → Text
text_or_empty none = []
text_or_empty (some value) = codes value

unfoldable pub from_env : (String → Option String) → (String → Option ℕ) → DbCompletenessPollConfig
from_env var parse =
    let mode = text_or_empty (var "AGENT_DB_COMPLETENESS_MODE") in
    let max_wait_secs = max (number_or parse 120 (var "AGENT_DB_COMPLETENESS_MAX_WAIT_SECS")) 1 in
    let interactive_max_wait_secs =
      min (max (number_or parse 15 (var "AGENT_DB_COMPLETENESS_INTERACTIVE_MAX_WAIT_SECS")) 1)
        max_wait_secs in
    let initial_backoff_ms =
      max (number_or parse 500 (var "AGENT_DB_COMPLETENESS_INITIAL_BACKOFF_MS")) 50 in
    let max_backoff_ms =
      max (number_or parse 5000 (var "AGENT_DB_COMPLETENESS_MAX_BACKOFF_MS")) initial_backoff_ms in
    record {
      enabled = on_or true (var "AGENT_DB_COMPLETENESS_ENABLED");
      request_work =
          on_or (not (eq_ignore_ascii_case mode (codes "passive")))
            (var "AGENT_DB_COMPLETENESS_REQUEST_WORK");
      max_wait = max_wait_secs * 1000;
      interactive_max_wait = interactive_max_wait_secs * 1000;
      initial_backoff = initial_backoff_ms;
      max_backoff = max_backoff_ms;
      stable_polls_required =
          max
            (number_or (λ value. in_u32 (parse value)) 2 (var "AGENT_DB_COMPLETENESS_STABLE_POLLS"))
            1;
    }

unfoldable pub should_gate_db_completeness : String → Bool
should_gate_db_completeness agent_name =
    text_eq (to_ascii_lowercase (codes agent_name)) (codes "mail-assistant")

unfoldable pub should_complete_db_pending_for_task : String → Bool
should_complete_db_pending_for_task task_id = starts_with (codes "api-chat-") (codes task_id)

unfoldable pub should_use_partial_db_for_interactive_mail_assistant : String → String → Bool
unfolding should_complete_db_pending_for_task
should_use_partial_db_for_interactive_mail_assistant agent_name task_id =
    eq_ignore_ascii_case (codes agent_name) (codes "mail-assistant")
    && should_complete_db_pending_for_task task_id

unfoldable pub max_wait_for_task : DbCompletenessPollConfig → String → ℕ
max_wait_for_task c task_id =
    if should_complete_db_pending_for_task task_id then c.interactive_max_wait else c.max_wait

-- `if test { work.push(t) }`.
abbrev pub push_when : Bool → CoreWorkType → List CoreWorkType → List CoreWorkType
push_when test t work = if test then work ++ t ∷ [] else work

unfoldable pub classify_db_prerequisite_work : DbCompletenessSnapshot → List CoreWorkType
unfolding needs_full_sync_backfill
classify_db_prerequisite_work s =
    let with_sync = push_when (s.folder_count == 0 || needs_full_sync_backfill s) sync_full [] in
    let with_body =
      push_when
        (ltb 0 s.body_missing
          || (ltb 0 s.body_sync.pending
              || (ltb 0 s.body_sync.failed || ltb 0 s.body_sync.processing)))
        sync_body with_sync in
    let with_analyze = push_when (ltb 0 s.analysis_missing) analyze with_body in
    push_when (ltb 0 s.location_missing) locate with_analyze

unfoldable pub core_work_type_names : List CoreWorkType → List String
core_work_type_names work = map as_str work

unfoldable pub pending_retry_after_seconds : DbCompletenessSnapshot → ℕ
pending_retry_after_seconds s =
    let backlog =
      s.body_missing + s.analysis_missing + s.location_missing + s.body_sync.pending
      + s.body_sync.failed + s.body_sync.processing in
    if ltb 100 backlog then 30 else if ltb 0 backlog then 15 else 10

abbrev pub prerequisite_key : CoreWorkType → String
prerequisite_key t = push_str "agent-db-completeness:" (as_str t)

abbrev pub count : ℕ → Json
count n = int (pos n)

-- `json!({ key: value, … })`.
abbrev pub object : List (String × Json) → Json
object members = obj (fields members)
  where
    fields : List (String × Json) → Fields
    fields [] = end
    fields ((key, value) ∷ rest) = field key value (fields rest)

-- What a request says about itself: the agent, its run and task, and the counts behind it.
unfoldable pub prerequisite_payload : String → String → String → DbCompletenessSnapshot → Json
prerequisite_payload agent_name run_id task_id s = object (
    ("reason", str "agent_db_completeness_prerequisite")
    ∷ ("requested_by", str "agent_harness")
    ∷ ("agent_name", str agent_name)
    ∷ ("run_id", str run_id)
    ∷ ("task_id", str task_id)
    ∷ (
      "snapshot",
      object (
          ("folder_count", count s.folder_count)
          ∷ ("email_count", count s.email_count)
          ∷ ("largest_folder_message_count", count s.largest_folder_message_count)
          ∷ ("missing_message_id", count s.missing_message_id)
          ∷ ("body_missing", count s.body_missing)
          ∷ ("analysis_missing", count s.analysis_missing)
          ∷ ("location_missing", count s.location_missing)
          ∷ ("body_sync_pending", count s.body_sync.pending)
          ∷ ("body_sync_failed", count s.body_sync.failed)
          ∷ ("body_sync_processing", count s.body_sync.processing)
          ∷ ("body_sync_dead", count s.body_sync.dead)
          ∷ []),
    )
    ∷ [])

-- The loop over the missing work, every statement at the time `now`.
unfoldable pub enqueue_each : String → Json → ℕ → List CoreWorkType → Db → Db
enqueue_each account payload now [] db = db
enqueue_each account payload now (t ∷ rest) db =
    enqueue_each account payload now rest
      (enqueue_core_work_for_account account t (prerequisite_key t) payload now db).0

-- What is requested, and the queue after it.
unfoldable pub request_db_prerequisite_work :
    Bool → String → Json → ℕ → List CoreWorkType → Db → List CoreWorkType × Db
unfolding enqueue_each
request_db_prerequisite_work request_work account payload now missing_work db =
    if not request_work
    then ([], db)
    else (missing_work, enqueue_each account payload now missing_work db)
