-- ===== src/Router/Tests.antt =====
-- Runs of src/agent_router.rs, with the white space of ASCII; the inputs are those of its tests.
use mail_subsystem.Prelude.{
  ℕ, ◌≤◌, ◌≡◌, refl, ◌⊎◌, Bool, true, false, ◌||◌, not, List, [], ◌∷◌, ◌++◌, arith, In, map, length,
  ◌==◌, is_some,
}
use mail_subsystem.Prelude.Text.{Text, codes}
use mail_subsystem.Strings.{
  trim_start_by, trim_end_by, contains, contains_any, eq_ignore_ascii_case, join, is_between,
}
use mail_subsystem.Sql.{select_where}
use mail_subsystem.Router.{
  ConversationMessage, is_user, daily, direct_plan, normalize_routing_text,
  build_recent_user_history_text, route_mail_assistant_turn, resolve_execution_plan,
  infer_digest_window,
}
use mail_subsystem.Router.Catalog.{AgentCatalogEntry, default_agent_id, builtin_agents}
use mail_subsystem.Router.Routes.{route_mail_assistant_text}
use mail_subsystem.Router.Questions.{
  is_explicit_escalation_question, is_single_email_analysis_question, is_filing_question,
  is_digest_question, is_folder_consolidation_question, should_use_history_for_routing,
  is_daily_digest_window,
}
use mail_subsystem.Router.Plans.{IsInFront, resolve-IsRouted}
use mail_subsystem.Router.History.{resolve-ignores_history, resolve-older_turns}

abbrev ascii_space : ℕ → Bool
ascii_space c = is_between 9 13 c || c == 32

abbrev said : Text → ConversationMessage
said t = record { role = codes "User"; content = t }

abbrev recap : ConversationMessage
recap = said (codes "Give me a weekly inbox recap.")

abbrev thanks : ConversationMessage
thanks = said (codes "Thanks!")

abbrev file_this : Text
file_this = codes "Which folder should this email go in?"

abbrev what_else : Text
what_else = codes " What else stands out? "

abbrev plan_for : Text → List ConversationMessage → Bool → Text
plan_for message history e =
    (resolve_execution_plan ascii_space default_agent_id message history e).execution_agent_name

filing_routed : plan_for file_this (recap ∷ []) true ≡ codes "location-agent"
unfolding resolve_execution_plan route_mail_assistant_turn route_mail_assistant_text
    normalize_routing_text trim_start_by trim_end_by is_explicit_escalation_question
    is_single_email_analysis_question is_filing_question contains_any contains eq_ignore_ascii_case
filing_routed = refl

follow_up_routed : plan_for what_else (recap ∷ thanks ∷ []) false ≡ codes "digest-agent"
unfolding resolve_execution_plan route_mail_assistant_turn route_mail_assistant_text
    normalize_routing_text trim_start_by trim_end_by is_explicit_escalation_question
    is_single_email_analysis_question is_filing_question is_digest_question
    is_folder_consolidation_question contains_any contains eq_ignore_ascii_case
    should_use_history_for_routing build_recent_user_history_text select_where join
follow_up_routed = refl

daily_inferred : infer_digest_window ascii_space (codes "Give me today's digest.") [] ≡ daily
unfolding infer_digest_window normalize_routing_text trim_start_by trim_end_by
    is_daily_digest_window contains_any contains
daily_inferred = refl

has_route :
    (is_some (route_mail_assistant_text (normalize_routing_text ascii_space file_this) true)
      || not (should_use_history_for_routing (normalize_routing_text ascii_space file_this)))
    ≡ true
unfolding route_mail_assistant_text normalize_routing_text trim_start_by trim_end_by
    is_explicit_escalation_question is_single_email_analysis_question is_filing_question
    contains_any contains
has_route = refl

resolve-IsRouted_example :
    ((eq_ignore_ascii_case default_agent_id default_agent_id ≡ false)
      × (resolve_execution_plan ascii_space default_agent_id file_this [] true
          ≡ direct_plan default_agent_id))
    ⊎ ((eq_ignore_ascii_case default_agent_id default_agent_id ≡ true)
        × IsInFront true (resolve_execution_plan ascii_space default_agent_id file_this [] true)
        × In
            (resolve_execution_plan ascii_space default_agent_id file_this []
              true).execution_agent_name
            (map (λ (a : AgentCatalogEntry). a.id) builtin_agents))
resolve-IsRouted_example = resolve-IsRouted ascii_space default_agent_id file_this [] true

resolve-ignores_history_example :
    resolve_execution_plan ascii_space default_agent_id file_this (recap ∷ []) true
    ≡ resolve_execution_plan ascii_space default_agent_id file_this (thanks ∷ []) true
resolve-ignores_history_example =
    resolve-ignores_history ascii_space (recap ∷ []) (thanks ∷ []) default_agent_id file_this true
      has_route

two_turns : 2 ≤ length (select_where is_user (recap ∷ thanks ∷ []))
unfolding select_where eq_ignore_ascii_case
two_turns = omega arith

resolve-older_turns_example :
    (resolve_execution_plan ascii_space default_agent_id what_else
        ((thanks ∷ []) ++ (recap ∷ thanks ∷ []))
        false
      ≡ resolve_execution_plan ascii_space default_agent_id what_else (recap ∷ thanks ∷ []) false)
    × (infer_digest_window ascii_space what_else ((thanks ∷ []) ++ (recap ∷ thanks ∷ []))
        ≡ infer_digest_window ascii_space what_else (recap ∷ thanks ∷ []))
resolve-older_turns_example =
    resolve-older_turns ascii_space (thanks ∷ []) (recap ∷ thanks ∷ []) default_agent_id what_else
      false two_turns
