-- ===== src/Agent/Questions.antt =====
-- src/agent_harness/run_executor.rs: which questions want a tool's answer first. Texts are code points;
-- `w` is the White_Space property.
use mail_subsystem.Prelude.{
  ℕ, Bool, true, false, not, ◌&&◌, ◌||◌, List, [], ◌∷◌, Option, none, some, if◌then◌else◌, map,
  take,
}
use Prim.Native.String.{String}
use mathlib.Core.List.{reverse}
use mail_subsystem.Prelude.Text.{Text, codes}
use mail_subsystem.Strings.{
  trim_by, is_empty, to_ascii_lowercase, eq_ignore_ascii_case, contains, contains_any, join,
}
use mail_subsystem.Json.{Json, Items, nil, cons, arr, get, as_str}

-- `a.or_else(b)`.
abbrev pub or_else : Option Json → Option Json → Option Json
or_else (some v) other = some v
or_else none other = other

-- `.and_then(as_str).unwrap_or_default()`.
abbrev pub text_of : Option Json → Text
text_of v = text_or_default (as_str v)
  where
    text_or_default : Option String → Text
    text_or_default none = []
    text_or_default (some t) = codes t

abbrev pub message_text : Json → Text
message_text input = text_of (or_else (get "message" input) (get "user_message" input))

abbrev pub items : Items → List Json
items nil = []
items (cons v vs) = v ∷ items vs

-- `.and_then(Value::as_array)`.
abbrev pub as_array : Option Json → Option (List Json)
as_array (some (arr vs)) = some (items vs)
as_array _ = none

unfoldable pub is_count_question_text : Text → Bool
is_count_question_text text =
    contains_any text (codes "count" ∷ codes "how many" ∷ codes "number of" ∷ [])

unfoldable pub has_followup_reference : Text → Bool
has_followup_reference text = contains_any text (
    codes "those"
    ∷ codes "them"
    ∷ codes "that"
    ∷ codes "these"
    ∷ codes "the current list"
    ∷ codes "identified"
    ∷ [])

unfoldable pub is_mailbox_preparation_count_text : Text → Bool
is_mailbox_preparation_count_text text =
    contains_any text (
      codes "synced"
      ∷ codes "indexed"
      ∷ codes "imported"
      ∷ codes "loaded"
      ∷ codes "in the database"
      ∷ codes "in database"
      ∷ codes "database"
      ∷ codes "prepared"
      ∷ codes "preparing"
      ∷ codes "progress"
      ∷ codes "status"
      ∷ codes "ready"
      ∷ [])
    && contains_any text (
        codes "how many"
        ∷ codes "count"
        ∷ codes "number of"
        ∷ codes "message"
        ∷ codes "email"
        ∷ codes "mailbox"
        ∷ [])

unfoldable pub is_unfiltered_count_text : Text → Bool
is_unfiltered_count_text text =
    contains_any text (codes "count" ∷ codes "how many" ∷ codes "number of" ∷ [])
    && contains_any text (codes "email" ∷ codes "message" ∷ codes "mailbox" ∷ [])
    && not (
        contains_any text (
          codes " from "
          ∷ codes " about "
          ∷ codes " sender "
          ∷ codes " category "
          ∷ codes " folder "
          ∷ codes " in "
          ∷ codes " since "
          ∷ codes " today"
          ∷ codes " yesterday"
          ∷ codes " this week"
          ∷ codes " last week"
          ∷ []))

unfoldable pub extract_spam_status_filter_from_text : Text → Option Text
extract_spam_status_filter_from_text message =
    let text = to_ascii_lowercase message in
    if not (contains (codes "spam") text)
    then none
    else if contains_any text
        (codes "not spam" ∷ codes "not-spam" ∷ codes "non-spam" ∷ codes "clean" ∷ [])
    then some (codes "not-spam")
    else some (codes "spam")

unfoldable pub output_promises_deferred_tool_work : Json → Bool
output_promises_deferred_tool_work output =
    contains_any
      (to_ascii_lowercase (
        join (codes "\n")
          (text_of (get "response_markdown" output) ∷ text_of (get "summary" output) ∷ [])))
      (codes "i will run"
        ∷ codes "i'll run"
        ∷ codes "i will start"
        ∷ codes "i'll start"
        ∷ codes "please wait"
        ∷ codes "while i retrieve"
        ∷ codes "while i get"
        ∷ codes "run that count"
        ∷ codes "retrieve the exact"
        ∷ [])

unfoldable pub required_mailbox_tool_names : Bool → Bool → List Text
required_mailbox_tool_names true true = codes "count_emails" ∷ codes "list_synced_emails" ∷ []
required_mailbox_tool_names true false = codes "count_emails" ∷ []
required_mailbox_tool_names false true = codes "list_synced_emails" ∷ []
required_mailbox_tool_names false false = []

module _ (w : ℕ → Bool) where
  unfoldable pub mail_assistant_input_text : Json → Text
  mail_assistant_input_text input = to_ascii_lowercase (trim_by w (message_text input))

  -- The contents of the messages that have one, trimmed.
  abbrev pub said : List Json → List Text
  said [] = []
  said (m ∷ ms) =
      let rest = said ms in
      let t = trim_by w (text_of (get "content" m)) in if is_empty t then rest else t ∷ rest

  abbrev pub last_said : ℕ → Option (List Json) → Text
  last_said max_messages none = []
  last_said max_messages (some history) =
      join (codes "\n")
        (reverse (map to_ascii_lowercase (take max_messages (said (reverse history)))))

  unfoldable pub mail_assistant_recent_history_text : Json → ℕ → Text
  mail_assistant_recent_history_text input max_messages =
      last_said max_messages (as_array (get "conversation_history" input))

  abbrev pub asks_for_database_rows : Text → Bool
  asks_for_database_rows text =
      contains_any text
        (codes "first" ∷ codes "top" ∷ codes "show" ∷ codes "list" ∷ codes "tell me about" ∷ [])
      && contains_any text (
          codes "database"
          ∷ codes "synced"
          ∷ codes "indexed"
          ∷ codes "emails"
          ∷ codes "messages"
          ∷ [])

  abbrev pub asks_what_is_available : Text → Bool
  asks_what_is_available text = contains_any text (
      codes "what can you tell me"
      ∷ codes "what can you answer"
      ∷ codes "what do you know"
      ∷ codes "tell me what you can"
      ∷ codes "what is available"
      ∷ [])

  unfoldable pub should_require_synced_email_list_tool : Text → Json → Bool
  should_require_synced_email_list_tool agent_name input =
      let text = mail_assistant_input_text input in
      if not (eq_ignore_ascii_case agent_name (codes "mail-assistant"))
      then false
      else if is_empty text
      then false
      else asks_for_database_rows text || asks_what_is_available text

  -- The first word about spam in the last six messages.
  abbrev pub spam_in_history : List Json → Option Text
  spam_in_history [] = none
  spam_in_history (m ∷ ms) =
      let rest = spam_in_history ms in
      let content = to_ascii_lowercase (text_of (get "content" m)) in
      if contains_any content (codes "not-spam" ∷ codes "non-spam" ∷ codes "not spam" ∷ [])
      then some (codes "not-spam")
      else if contains (codes "spam") content
      then some (codes "spam")
      else rest

  abbrev pub spam_of_history : Option (List Json) → Option Text
  spam_of_history none = none
  spam_of_history (some history) = spam_in_history (take 6 (reverse history))

  unfoldable pub extract_contextual_spam_status_filter_from_input : Json → Option Text
  extract_contextual_spam_status_filter_from_input input =
      if not (has_followup_reference (mail_assistant_input_text input))
      then none
      else spam_of_history (as_array (get "conversation_history" input))
