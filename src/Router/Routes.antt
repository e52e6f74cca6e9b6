-- ===== src/Router/Routes.antt =====
-- src/agent_router.rs: the route of a single text, in the order of the tests.
use Prim.Native.String.{String}
use mail_subsystem.Prelude.{Bool, ◌&&◌, Option, none, some, if◌then◌else◌}
use mail_subsystem.Prelude.Text.{Text, codes}
use mail_subsystem.Strings.{is_empty}
use mail_subsystem.Router.Catalog.{default_agent_id}
use mail_subsystem.Router.Questions.{
  is_explicit_escalation_question, is_single_email_analysis_question, is_filing_question,
  is_digest_question, is_folder_consolidation_question,
}

pub record ExecutionPlan : Type 0 where
  pub visible_agent_name : Text
  pub execution_agent_name : Text
  pub routing_reason : Text

-- ExecutionPlan::new with the default agent in front.
abbrev pub plan_of : String → String → ExecutionPlan
plan_of agent reason = record {
  visible_agent_name = default_agent_id;
  execution_agent_name = codes agent;
  routing_reason = codes reason;
}

unfoldable pub route_mail_assistant_text : Text → Bool → Option ExecutionPlan
route_mail_assistant_text routing_text has_context_email =
    if is_empty routing_text
    then none
    else if has_context_email && is_explicit_escalation_question routing_text
    then some (
        plan_of "orchestrator"
          "Routed to Orchestrator for an explicit higher-judgment review request.")
    else if has_context_email && is_single_email_analysis_question routing_text
    then some (
        plan_of "email-analyzer"
          "Routed to Email Analyzer for a single-email explanation or safety question.")
    else if has_context_email && is_filing_question routing_text
    then some (
        plan_of "location-agent"
          "Routed to Location Agent for a folder-placement question about the attached email.")
    else if is_digest_question routing_text
    then some (
        plan_of "digest-agent"
          "Routed to Digest Agent for a digest, recap, or inbox-trend question.")
    else if is_folder_consolidation_question routing_text
    then some (
        plan_of "folder-consolidator"
          "Routed to Folder Consolidator for mailbox cleanup or folder-structure guidance.")
    else none
