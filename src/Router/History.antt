-- ===== src/Router/History.antt =====
-- src/agent_router.rs: how far the history of a conversation bears on the plan.
use mathlib.Core.List.{reverse, reverse-append}
use mail_subsystem.Prelude.{
  ℕ, zero, suc, ◌+◌, ◌≤◌, ◌≡◌, refl, ap, inl, inr, Bool, true, false, not, ◌||◌, List, [], ◌∷◌,
  ◌++◌, Option, none, some, arith, Bool-cases, is_some, take, length, length-append,
}
use mail_subsystem.Prelude.Text.{Text}
use mail_subsystem.Strings.{eq_ignore_ascii_case}
use mail_subsystem.Sql.{select_where}
use mail_subsystem.Router.{
  ConversationMessage, is_user, normalize_routing_text, build_recent_user_history_text,
  route_mail_assistant_turn, resolve_execution_plan, infer_digest_window, or_follow_up,
}
use mail_subsystem.Router.Questions.{should_use_history_for_routing}
use mail_subsystem.Router.Catalog.{default_agent_id}
use mail_subsystem.Router.Routes.{ExecutionPlan, route_mail_assistant_text}

module _ {A : Type 0} (p : A → Bool) where
  select_where-append :
      (xs ys : List A) → select_where p (xs ++ ys) ≡ select_where p xs ++ select_where p ys
  unfolding select_where
  select_where-append [] ys = refl
  select_where-append (x ∷ xs) ys = elim (Bool-cases (p x)) [
    | inl e ↦ rw e (ap (λ r. x ∷ r) (select_where-append xs ys))
    | inr e ↦ rw e (select_where-append xs ys)
  ]

  length-select_where-reverse :
      (xs : List A) → length (select_where p (reverse xs)) ≡ length (select_where p xs)
  length-select_where-reverse [] = refl
  length-select_where-reverse (x ∷ xs) =
      let last = select_where p (x ∷ []) in
      let there : length (select_where p (reverse (x ∷ xs)))
          ≡ length (select_where p (reverse xs)) + length last =
        rw (reverse-append (x ∷ []) xs, select_where-append (reverse xs) (x ∷ []))
          (length-append (select_where p (reverse xs)) last) in
      let here : length (select_where p (x ∷ xs)) ≡ length last + length (select_where p xs) =
        rw (select_where-append (x ∷ []) xs) (length-append last (select_where p xs)) in
      omega (arith, there, here, length-select_where-reverse xs)

take-append : {A : Type 0} (n : ℕ) (xs ys : List A) → n ≤ length xs → take n (xs ++ ys) ≡ take n xs
take-append zero xs ys h = refl
take-append (suc n) [] ys h = absurd (omega arith)
take-append (suc n) (x ∷ xs) ys h = ap (λ r. x ∷ r) (take-append n xs ys (omega arith))

module _ (older recent : List ConversationMessage)
    (two : 2 ≤ length (select_where is_user recent)) where
  same_turns :
      take 2 (select_where is_user (reverse (older ++ recent)))
      ≡ take 2 (select_where is_user (reverse recent))
  same_turns =
      rw (reverse-append older recent, select_where-append is_user (reverse recent) (reverse older))
        (take-append 2 (select_where is_user (reverse recent))
          (select_where is_user (reverse older))
          (omega (arith, length-select_where-reverse is_user recent, two)))

  same_history :
      (w : ℕ → Bool)
      → build_recent_user_history_text w (older ++ recent) ≡ build_recent_user_history_text w recent
  unfolding build_recent_user_history_text
  same_history w = rw same_turns refl

module _ (w : ℕ → Bool) (h k : List ConversationMessage) (visible message : Text) (e : Bool) where
  abbrev current : Text
  current = normalize_routing_text w message

  follow_up-same_history :
      (o : Option ExecutionPlan)
      → build_recent_user_history_text w h ≡ build_recent_user_history_text w k
      → or_follow_up w current h e o ≡ or_follow_up w current k e o
  follow_up-same_history (some plan) same = refl
  follow_up-same_history none same = rw same refl

  follow_up-no_history :
      (o : Option ExecutionPlan)
      → (is_some o || not (should_use_history_for_routing current)) ≡ true
      → or_follow_up w current h e o ≡ or_follow_up w current k e o
  follow_up-no_history (some plan) same = refl
  follow_up-no_history none same =
      let direct : should_use_history_for_routing current ≡ false = ground arith in rw direct refl

  resolve-same_follow_up :
      or_follow_up w current h e (route_mail_assistant_text current e)
        ≡ or_follow_up w current k e (route_mail_assistant_text current e)
      → resolve_execution_plan w visible message h e ≡ resolve_execution_plan w visible message k e
  unfolding resolve_execution_plan route_mail_assistant_turn
  resolve-same_follow_up same = elim (Bool-cases (eq_ignore_ascii_case visible default_agent_id)) [
    | inl d ↦ rw d same
    | inr d ↦ rw d refl
  ]

  infer-same_history :
      build_recent_user_history_text w h ≡ build_recent_user_history_text w k
      → infer_digest_window w message h ≡ infer_digest_window w message k
  unfolding infer_digest_window
  infer-same_history same = rw same refl

-- A turn that has a route of its own, or that is no follow-up, has the same plan whatever was said
-- before it.
pub resolve-ignores_history :
    (w : ℕ → Bool) (h k : List ConversationMessage) (visible message : Text) (e : Bool)
    → (is_some (route_mail_assistant_text (normalize_routing_text w message) e)
        || not (should_use_history_for_routing (normalize_routing_text w message)))
      ≡ true
    → resolve_execution_plan w visible message h e ≡ resolve_execution_plan w visible message k e
resolve-ignores_history w h k visible message e same =
    resolve-same_follow_up w h k visible message e
      (follow_up-no_history w h k visible message e _ same)

-- With two turns of the user in the recent part of a conversation, nothing before that part bears on
-- the plan or on the window of a digest.
pub resolve-older_turns :
    (w : ℕ → Bool) (older recent : List ConversationMessage) (visible message : Text) (e : Bool)
    → 2 ≤ length (select_where is_user recent)
    → (resolve_execution_plan w visible message (older ++ recent) e
        ≡ resolve_execution_plan w visible message recent e)
      × (infer_digest_window w message (older ++ recent) ≡ infer_digest_window w message recent)
resolve-older_turns w older recent visible message e two =
    let same = same_history older recent two w in
    (
      resolve-same_follow_up w (older ++ recent) recent visible message e (
          follow_up-same_history w (older ++ recent) recent visible message e
            (route_mail_assistant_text (normalize_routing_text w message) e) same),
      infer-same_history w (older ++ recent) recent visible message e same,
    )
