-- ===== src/Agent/Preparation.antt =====
-- src/agent_harness/run_executor.rs: attach_mailbox_preparation_context, which tells a chat turn how much of
-- the mailbox is prepared.
use Prim.Native.String.{String}
use text.Mathlib.Text.{◌==◌ as str_eq}
use mail_subsystem.Prelude.{ℕ, not, List, [], ◌∷◌, Option, none, some, if◌then◌else◌}
use mail_subsystem.Json.{Json, Fields, obj, field, end, str, bool, arr, nil, cons, Items}
use mail_subsystem.Completeness.{DbCompletenessSnapshot, has_active_backlog}
use mail_subsystem.CoreWork.{Db, CoreWorkType}
use mail_subsystem.Agent.Prerequisites.{
  DbCompletenessPollConfig, object, count, core_work_type_names, classify_db_prerequisite_work,
  request_db_prerequisite_work, prerequisite_payload,
  should_use_partial_db_for_interactive_mail_assistant,
}
use mail_subsystem.Agent.Loop.{RunError, input_not_object, snapshot_failed}

-- `object.insert(key, value)`.
abbrev pub insert : String → Json → Fields → Fields
insert key value end = field key value end
insert key value (field k v rest) =
    let later = insert key value rest in
    if str_eq k key then field k value rest else field k v later

abbrev pub strings : List String → Items
strings [] = nil
strings (t ∷ ts) = cons (str t) (strings ts)

abbrev pub answer_policy : String
answer_policy =
    "Use the normal Mail Assistant tools and answer from prepared Postgres evidence. Do not refuse the entire turn just because preparation is incomplete. If a requested field is null, pending, or absent, say that specific detail has not been prepared yet."

abbrev pub count_scope : String
count_scope =
    "Counts and lists from tools are active synced emails currently stored in Postgres unless the tool says otherwise."

abbrev pub mailbox_preparation : DbCompletenessSnapshot → List CoreWorkType → Json
mailbox_preparation s requested = object (
    ("ready", bool (not (has_active_backlog s)))
    ∷ ("answer_policy", str answer_policy)
    ∷ ("count_scope", str count_scope)
    ∷ ("folder_count", count s.folder_count)
    ∷ ("synced_email_count", count s.email_count)
    ∷ ("largest_folder_message_count", count s.largest_folder_message_count)
    ∷ ("missing_message_id", count s.missing_message_id)
    ∷ ("body_missing", count s.body_missing)
    ∷ ("analysis_missing", count s.analysis_missing)
    ∷ ("location_missing", count s.location_missing)
    ∷ ("filing_pending", count s.filing_pending)
    ∷ (
      "body_sync",
      object (
          ("pending", count s.body_sync.pending)
          ∷ ("failed", count s.body_sync.failed)
          ∷ ("processing", count s.body_sync.processing)
          ∷ ("dead", count s.body_sync.dead)
          ∷ []),
    )
    ∷ ("requested_work", arr (strings (core_work_type_names requested)))
    ∷ [])

-- The input with the preparation in it, or an error; and the work queue.
pub data Attached : Type 0 where
  attached : Json → Db → Attached
  unattached : RunError → Db → Attached

abbrev pub insert_preparation : Json → Json → Db → Attached
insert_preparation value (obj fields) queue =
    attached (obj (insert "mailbox_preparation" value fields)) queue
insert_preparation value _ queue = unattached input_not_object queue

abbrev pub attach_to :
    DbCompletenessPollConfig
    → String
    → String
    → String
    → String
    → ℕ
    → Json
    → Db
    → Option DbCompletenessSnapshot
    → Attached
attach_to c account agent_name run_id task_id now input queue none =
    unattached snapshot_failed queue
attach_to c account agent_name run_id task_id now input queue (some s) =
    let (requested_work, queue') =
      request_db_prerequisite_work c.request_work account
        (prerequisite_payload agent_name run_id task_id s) now (classify_db_prerequisite_work s)
        queue in
    insert_preparation (mailbox_preparation s requested_work) input queue'

unfoldable pub attach_mailbox_preparation_context :
    DbCompletenessPollConfig
    → String
    → String
    → String
    → String
    → ℕ
    → Json
    → Db
    → Option DbCompletenessSnapshot
    → Attached
attach_mailbox_preparation_context c account agent_name run_id task_id now input queue snapshot =
    if not (should_use_partial_db_for_interactive_mail_assistant agent_name task_id)
    then attached input queue
    else attach_to c account agent_name run_id task_id now input queue snapshot
