-- ===== src/Router.antt =====
-- src/agent_router.rs: which agent answers a turn of a conversation. `is_whitespace` is the White_Space
-- property of Unicode, by which a text is trimmed; of a message of the history role and content are
-- read, and of the email at hand only whether there is one.
pub mod Questions
pub mod Catalog
pub mod Routes
pub mod Plans
pub mod History
mod Tests
use mail_subsystem.Prelude.{
  ℕ, Bool, true, false, not, ◌||◌, List, [], ◌∷◌, ◌++◌, Option, none, some, if◌then◌else◌, map,
  take,
}
use mathlib.Core.List.{reverse}
use mail_subsystem.Prelude.Text.{Text, codes}
use mail_subsystem.Strings.{trim_by, is_empty, to_ascii_lowercase, eq_ignore_ascii_case, join}
use mail_subsystem.Sql.{select_where}
use mail_subsystem.Router.Catalog.{default_agent_id}
use mail_subsystem.Router.Questions.{
  should_use_history_for_routing, is_daily_digest_window, is_weekly_digest_window,
}
use mail_subsystem.Router.Routes.{ExecutionPlan, plan_of, route_mail_assistant_text}

pub record ConversationMessage : Type 0 where
  pub role : Text
  pub content : Text

pub data DigestWindow : Type 0 where
  daily weekly : DigestWindow

abbrev pub is_user : ConversationMessage → Bool
is_user m = eq_ignore_ascii_case m.role (codes "user")

-- The plan of a follow-up, from the text of the turns before it.
abbrev pub continued : Option ExecutionPlan → Option ExecutionPlan
continued none = none
continued (some plan) = some (record plan {
  visible_agent_name = default_agent_id;
  routing_reason = codes "Continued earlier Mail Assistant context. " ++ plan.routing_reason;
})

abbrev pub or_handled_directly : Option ExecutionPlan → ExecutionPlan
or_handled_directly none =
    plan_of "mail-assistant" "Handled directly by Mail Assistant for a broad conversational turn."
or_handled_directly (some plan) = plan

abbrev pub direct_plan : Text → ExecutionPlan
direct_plan visible_agent_name = record {
  visible_agent_name = visible_agent_name;
  execution_agent_name = visible_agent_name;
  routing_reason = codes "Direct specialist thread keeps the selected agent unchanged.";
}

module _ (is_whitespace : ℕ → Bool) where
  unfoldable pub normalize_routing_text : Text → Text
  normalize_routing_text t = to_ascii_lowercase (trim_by is_whitespace t)

  -- The last two turns of the user, the older one first.
  unfoldable pub build_recent_user_history_text : List ConversationMessage → Text
  build_recent_user_history_text history =
      let recent_user_turns =
        map (λ (m : ConversationMessage). normalize_routing_text m.content)
          (take 2 (select_where is_user (reverse history))) in
      join (codes "\n") (select_where (λ t. not (is_empty t)) (reverse recent_user_turns))

  abbrev pub or_follow_up :
      Text → List ConversationMessage → Bool → Option ExecutionPlan → ExecutionPlan
  or_follow_up current_text history has_context_email (some plan) = plan
  or_follow_up current_text history has_context_email none = or_handled_directly (
      if should_use_history_for_routing current_text
      then continued
          (route_mail_assistant_text (build_recent_user_history_text history) has_context_email)
      else none)

  unfoldable pub route_mail_assistant_turn : Text → List ConversationMessage → Bool → ExecutionPlan
  route_mail_assistant_turn user_message history has_context_email =
      let current_text = normalize_routing_text user_message in
      or_follow_up current_text history has_context_email
        (route_mail_assistant_text current_text has_context_email)

  unfoldable pub resolve_execution_plan :
      Text → Text → List ConversationMessage → Bool → ExecutionPlan
  resolve_execution_plan visible_agent_name user_message history has_context_email =
      if not (eq_ignore_ascii_case visible_agent_name default_agent_id)
      then direct_plan visible_agent_name
      else route_mail_assistant_turn user_message history has_context_email

  unfoldable pub infer_digest_window : Text → List ConversationMessage → DigestWindow
  infer_digest_window user_message history =
      let current_text = normalize_routing_text user_message in
      if is_daily_digest_window current_text
      then daily
      else if is_weekly_digest_window current_text
      then weekly
      else if should_use_history_for_routing current_text
      then (if is_daily_digest_window (build_recent_user_history_text history)
          then daily
          else weekly)
      else weekly
