-- ===== src/Router/Plans.antt =====
-- src/agent_router.rs: which agents a plan may name.
use mail_subsystem.Prelude.{
  ℕ, ◌≡◌, refl, ◌⊎◌, inl, inr, Bool, true, false, List, [], ◌∷◌, Option, none, some, In, map,
  Bool-cases, if◌then◌else◌,
}
use mail_subsystem.Prelude.Text.{Text, codes}
use mail_subsystem.Strings.{is_empty, eq_ignore_ascii_case}
use mail_subsystem.Sql.{order_by, insert_by}
use mail_subsystem.Router.{
  ConversationMessage, normalize_routing_text, build_recent_user_history_text, continued,
  or_handled_directly, or_follow_up, route_mail_assistant_turn, direct_plan, resolve_execution_plan,
}
use mail_subsystem.Router.Questions.{
  is_explicit_escalation_question, is_single_email_analysis_question, is_filing_question,
  is_digest_question, is_folder_consolidation_question, should_use_history_for_routing,
}
use mail_subsystem.Router.Catalog.{AgentCatalogEntry, default_agent_id, builtin_agents}
use mail_subsystem.Router.Routes.{ExecutionPlan, plan_of, route_mail_assistant_text}

abbrev pub general_agents : List Text
general_agents = codes "mail-assistant" ∷ codes "digest-agent" ∷ codes "folder-consolidator" ∷ []

-- Three agents work on one email, and are named only where there is one.
abbrev pub agents_for : Bool → List Text
agents_for false = general_agents
agents_for true =
    codes "orchestrator" ∷ codes "email-analyzer" ∷ codes "location-agent" ∷ general_agents

-- The plan keeps the assistant in front, and one of these agents works.
pub record IsInFront (has_context_email : Bool) (plan : ExecutionPlan) : Type 0 where
  pub visible : plan.visible_agent_name ≡ default_agent_id
  pub execution : In plan.execution_agent_name (agents_for has_context_email)

abbrev IsNoneOrInFront : Bool → Option ExecutionPlan → Type 0
IsNoneOrInFront e none = Unit
IsNoneOrInFront e (some plan) = IsInFront e plan

module _ (e : Bool) where
  if-IsNoneOrInFront :
      (test : Bool) (plan : ExecutionPlan) (others : Option ExecutionPlan)
      → IsInFront e plan
      → IsNoneOrInFront e others
      → IsNoneOrInFront e (if test then some plan else others)
  if-IsNoneOrInFront true plan others h k = h
  if-IsNoneOrInFront false plan others h k = k

  unless-IsNoneOrInFront :
      (test : Bool) (others : Option ExecutionPlan)
      → IsNoneOrInFront e others
      → IsNoneOrInFront e (if test then none else others)
  unless-IsNoneOrInFront true others k = tt
  unless-IsNoneOrInFront false others k = k

general-IsNoneOrInFront :
    (e : Bool) (t : Text)
    → In (codes "digest-agent") (agents_for e)
    → In (codes "folder-consolidator") (agents_for e)
    → IsNoneOrInFront e (
        if is_digest_question t
        then some (
            plan_of "digest-agent"
              "Routed to Digest Agent for a digest, recap, or inbox-trend question.")
        else if is_folder_consolidation_question t
        then some (
            plan_of "folder-consolidator"
              "Routed to Folder Consolidator for mailbox cleanup or folder-structure guidance.")
        else none)
general-IsNoneOrInFront e t d c =
    if-IsNoneOrInFront e (is_digest_question t) _ _ (record { visible = refl; execution = d })
      (if-IsNoneOrInFront e (is_folder_consolidation_question t) _ _
        (record { visible = refl; execution = c }) tt)

route_text-IsNoneOrInFront :
    (t : Text) (e : Bool) → IsNoneOrInFront e (route_mail_assistant_text t e)
unfolding route_mail_assistant_text
route_text-IsNoneOrInFront t false =
    unless-IsNoneOrInFront false (is_empty t) _
      (general-IsNoneOrInFront false t (inr (inl refl)) (inr (inr (inl refl))))
route_text-IsNoneOrInFront t true = unless-IsNoneOrInFront true (is_empty t) _ (
    if-IsNoneOrInFront true (is_explicit_escalation_question t) _ _
      (record { visible = refl; execution = inl refl })
      (if-IsNoneOrInFront true (is_single_email_analysis_question t) _ _
        (record { visible = refl; execution = inr (inl refl) })
        (if-IsNoneOrInFront true (is_filing_question t) _ _
          (record { visible = refl; execution = inr (inr (inl refl)) })
          (general-IsNoneOrInFront true t (inr (inr (inr (inr (inl refl)))))
            (inr (inr (inr (inr (inr (inl refl))))))))))

continued-IsNoneOrInFront :
    (e : Bool) (o : Option ExecutionPlan) → IsNoneOrInFront e o → IsNoneOrInFront e (continued o)
continued-IsNoneOrInFront e none h = tt
continued-IsNoneOrInFront e (some plan) h = record { visible = refl; execution = h.execution }

directly-IsInFront :
    (e : Bool) (o : Option ExecutionPlan)
    → IsNoneOrInFront e o
    → IsInFront e (or_handled_directly o)
directly-IsInFront false none h = record { visible = refl; execution = inl refl }
directly-IsInFront true none h = record { visible = refl; execution = inr (inr (inr (inl refl))) }
directly-IsInFront e (some plan) h = h

abbrev catalog_order : List Text
catalog_order =
    codes "mail-assistant"
    ∷ codes "email-analyzer"
    ∷ codes "location-agent"
    ∷ codes "orchestrator"
    ∷ codes "digest-agent"
    ∷ codes "folder-consolidator"
    ∷ []

builtin_ids : map (λ (a : AgentCatalogEntry). a.id) builtin_agents ≡ catalog_order
unfolding builtin_agents order_by insert_by
builtin_ids = refl

agents_for-catalogued :
    (e : Bool) (agent : Text)
    → In agent (agents_for e)
    → In agent (map (λ (a : AgentCatalogEntry). a.id) builtin_agents)
agents_for-catalogued e agent h = rw builtin_ids (go e h)
  where
    general : In agent general_agents → In agent catalog_order
    general (inl a) = inl a
    general (inr (inl a)) = inr (inr (inr (inr (inl a))))
    general (inr (inr (inl a))) = inr (inr (inr (inr (inr (inl a)))))
    general (inr (inr (inr m))) = absurd m

    go : (b : Bool) → In agent (agents_for b) → In agent catalog_order
    go false m = general m
    go true (inl a) = inr (inr (inr (inl a)))
    go true (inr (inl a)) = inr (inl a)
    go true (inr (inr (inl a))) = inr (inr (inl a))
    go true (inr (inr (inr m))) = general m

module _ (is_whitespace : ℕ → Bool) where
  follow_up-IsInFront :
      (current : Text) (history : List ConversationMessage) (e : Bool) (o : Option ExecutionPlan)
      → IsNoneOrInFront e o
      → IsInFront e (or_follow_up is_whitespace current history e o)
  follow_up-IsInFront current history e (some plan) h = h
  follow_up-IsInFront current history e none h = asks_back (should_use_history_for_routing current)
    where
      earlier : Option ExecutionPlan
      earlier =
          continued
            (route_mail_assistant_text (build_recent_user_history_text is_whitespace history) e)

      asks_back : (b : Bool) → IsInFront e (or_handled_directly (if b then earlier else none))
      asks_back true = directly-IsInFront e earlier (
          continued-IsNoneOrInFront e _
            (route_text-IsNoneOrInFront (build_recent_user_history_text is_whitespace history) e))
      asks_back false = directly-IsInFront e none tt

  -- A thread with another agent than Mail Assistant, whatever its spelling in ASCII case, keeps that
  -- agent in front and at work. Mail Assistant stays in front of its own threads, and the agent that
  -- works is one of the built-in ones; the three that work on one email only if there is one.
  pub resolve-IsRouted :
      (visible message : Text) (history : List ConversationMessage) (e : Bool)
      → ((eq_ignore_ascii_case visible default_agent_id ≡ false)
          × (resolve_execution_plan is_whitespace visible message history e ≡ direct_plan visible))
        ⊎ ((eq_ignore_ascii_case visible default_agent_id ≡ true)
            × IsInFront e (resolve_execution_plan is_whitespace visible message history e)
            × In
                (resolve_execution_plan is_whitespace visible message history
                  e).execution_agent_name
                (map (λ (a : AgentCatalogEntry). a.id) builtin_agents))
  unfolding resolve_execution_plan route_mail_assistant_turn
  resolve-IsRouted visible message history e =
      let t = normalize_routing_text is_whitespace message in
      elim (Bool-cases (eq_ignore_ascii_case visible default_agent_id)) [
        | inr k ↦ inl (k, rw k refl)
        | inl k ↦
            let front =
              follow_up-IsInFront t history e (route_mail_assistant_text t e)
                (route_text-IsNoneOrInFront t e) in
            inr (k, rw k front, rw k (agents_for-catalogued e _ front.execution))
      ]
