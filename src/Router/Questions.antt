-- ===== src/Router/Questions.antt =====
-- src/agent_router.rs: the phrases by which a turn is recognised.
use mail_subsystem.Prelude.{Bool, ◌&&◌, ◌||◌, [], ◌∷◌}
use mail_subsystem.Prelude.Text.{Text, codes}
use mail_subsystem.Strings.{contains_any, ends_with}

unfoldable pub is_daily_digest_window : Text → Bool
is_daily_digest_window routing_text = contains_any routing_text (
    codes "today"
    ∷ codes "today's"
    ∷ codes "daily"
    ∷ codes "yesterday"
    ∷ codes "last 24 hours"
    ∷ codes "past 24 hours"
    ∷ codes "this morning"
    ∷ codes "since this morning"
    ∷ [])

unfoldable pub is_weekly_digest_window : Text → Bool
is_weekly_digest_window routing_text = contains_any routing_text (
    codes "weekly"
    ∷ codes "this week"
    ∷ codes "last week"
    ∷ codes "past week"
    ∷ codes "last 7 days"
    ∷ codes "past 7 days"
    ∷ codes "last seven days"
    ∷ codes "past seven days"
    ∷ [])

unfoldable pub is_digest_question : Text → Bool
is_digest_question routing_text = contains_any routing_text (
    codes "digest"
    ∷ codes "recap"
    ∷ codes "top senders"
    ∷ codes "what changed recently"
    ∷ codes "what changed this week"
    ∷ codes "what changed today"
    ∷ codes "inbox summary"
    ∷ codes "summarize my inbox"
    ∷ codes "mailbox summary"
    ∷ codes "weekly summary"
    ∷ codes "daily summary"
    ∷ codes "inbox trend"
    ∷ codes "inbox trends"
    ∷ codes "trend in my inbox"
    ∷ codes "summarize the last week"
    ∷ [])

unfoldable pub is_folder_consolidation_question : Text → Bool
is_folder_consolidation_question routing_text = contains_any routing_text (
    codes "consolidate folders"
    ∷ codes "consolidation"
    ∷ codes "folder cleanup"
    ∷ codes "clean up my folders"
    ∷ codes "clean up folders"
    ∷ codes "duplicate folders"
    ∷ codes "redundant folders"
    ∷ codes "merge folders"
    ∷ codes "reorganize folders"
    ∷ codes "reorganise folders"
    ∷ codes "folder structure"
    ∷ codes "too many folders"
    ∷ codes "folder tree"
    ∷ [])

unfoldable pub is_explicit_escalation_question : Text → Bool
is_explicit_escalation_question routing_text = contains_any routing_text (
    codes "second opinion"
    ∷ codes "escalate this"
    ∷ codes "careful review"
    ∷ codes "review this carefully"
    ∷ codes "higher judgment"
    ∷ codes "high-judgment"
    ∷ codes "adjudicate"
    ∷ codes "conflicting signals"
    ∷ codes "conflict here"
    ∷ [])

unfoldable pub is_single_email_analysis_question : Text → Bool
is_single_email_analysis_question routing_text = contains_any routing_text (
    codes "recap this email"
    ∷ codes "recap this message"
    ∷ codes "recap this attached email"
    ∷ codes "give me a recap of this email"
    ∷ codes "give me a recap of this message"
    ∷ codes "summarize this email"
    ∷ codes "summarise this email"
    ∷ codes "summarize this message"
    ∷ codes "summarise this message"
    ∷ codes "explain this email"
    ∷ codes "explain this message"
    ∷ codes "review this email"
    ∷ codes "review this message"
    ∷ codes "what does this email mean"
    ∷ codes "what does this mean"
    ∷ codes "what action is needed"
    ∷ codes "what should i do"
    ∷ codes "do i need to do anything"
    ∷ codes "is this safe"
    ∷ codes "is this email safe"
    ∷ codes "is this phishing"
    ∷ codes "is this email phishing"
    ∷ codes "is this spam"
    ∷ codes "is this email spam"
    ∷ codes "is this legit"
    ∷ codes "is this email legit"
    ∷ codes "is this legitimate"
    ∷ codes "is this email legitimate"
    ∷ codes "is this risky"
    ∷ codes "is this suspicious"
    ∷ codes "should i trust this"
    ∷ codes "should i reply"
    ∷ codes "safe to reply"
    ∷ codes "important or routine"
    ∷ codes "what kind of email is this"
    ∷ [])

unfoldable pub is_filing_question : Text → Bool
is_filing_question routing_text = contains_any routing_text (
    codes "where should this be filed"
    ∷ codes "where should this email be filed"
    ∷ codes "where should this go"
    ∷ codes "where should this email go"
    ∷ codes "where does this belong"
    ∷ codes "where does this email belong"
    ∷ codes "which folder should this go in"
    ∷ codes "which folder does this belong in"
    ∷ codes "which folder should this email go in"
    ∷ codes "which folder does this email belong in"
    ∷ codes "file this"
    ∷ codes "folder recommendation"
    ∷ codes "place this email"
    ∷ codes "move this email"
    ∷ codes "file this email"
    ∷ [])

-- A follow-up: a phrase that asks for more, or a question that points back.
unfoldable pub should_use_history_for_routing : Text → Bool
should_use_history_for_routing current_text =
    contains_any current_text (
      codes "what else"
      ∷ codes "anything else"
      ∷ codes "something else"
      ∷ codes "tell me more"
      ∷ codes "more detail"
      ∷ codes "go deeper"
      ∷ codes "keep going"
      ∷ codes "continue"
      ∷ codes "elaborate"
      ∷ codes "expand on that"
      ∷ codes "expand on this"
      ∷ codes "what about"
      ∷ codes "and what about"
      ∷ codes "what next"
      ∷ codes "stands out"
      ∷ [])
    || (ends_with (codes "?") current_text
        && contains_any current_text (
            codes " this"
            ∷ codes " that"
            ∷ codes " it"
            ∷ codes " them"
            ∷ codes " those"
            ∷ codes " these"
            ∷ codes " else"
            ∷ codes " more"
            ∷ codes " next"
            ∷ []))
