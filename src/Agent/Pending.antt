-- ===== src/Agent/Pending.antt =====
-- src/agent_harness/run_executor.rs: the answer that the mailbox is still being prepared. `print` is the
-- decimal form of a number.
use Prim.Native.String.{String, ◌++◌ as push_str}
use mail_subsystem.Prelude.{
  ℕ, ◌/◌, Bool, false, ◌||◌, List, [], ◌∷◌, ◌++◌, ltb, ◌==◌, if◌then◌else◌,
}
use mail_subsystem.Json.{Json, str, bool, real, arr}
use mail_subsystem.Completeness.{DbCompletenessSnapshot, needs_full_sync_backfill, has_body_backlog}
use mail_subsystem.Agent.Prerequisites.{object, count, core_work_type_names}
use mail_subsystem.Agent.Preparation.{strings}
use mail_subsystem.Agent.Polling.{DbCompletenessPending}

-- The pieces of a text one after another, and the lines of one.
abbrev pub concat : List String → String
concat [] = ""
concat (t ∷ ts) = push_str t (concat ts)

abbrev pub join_strings : String → List String → String
join_strings separator [] = ""
join_strings separator (t ∷ []) = t
join_strings separator (t ∷ u ∷ us) =
    push_str t (push_str separator (join_strings separator (u ∷ us)))

abbrev pub line_if : Bool → String → List String → List String
line_if test line lines = if test then lines ++ line ∷ [] else lines

abbrev pub or_line : String → List String → List String
or_line line [] = line ∷ []
or_line line (l ∷ ls) = l ∷ ls

module _ (print : ℕ → String) where
  abbrev pub sync_lines : DbCompletenessSnapshot → List String
  sync_lines s =
      if s.folder_count == 0 || s.email_count == 0
      then "- Sync: mailbox folders or messages are still loading." ∷ []
      else if needs_full_sync_backfill s
      then concat (
          "- Sync: only "
          ∷ print s.email_count
          ∷ " emails are indexed, but the largest known folder reports "
          ∷ print s.largest_folder_message_count
          ∷ " messages."
          ∷ [])
        ∷ []
      else []

  abbrev pub body_line : DbCompletenessSnapshot → String
  body_line s = concat (
      "- Bodies: "
      ∷ print s.body_missing
      ∷ " emails need body content; body queue pending/failed/processing/dead is "
      ∷ print s.body_sync.pending
      ∷ "/"
      ∷ print s.body_sync.failed
      ∷ "/"
      ∷ print s.body_sync.processing
      ∷ "/"
      ∷ print s.body_sync.dead
      ∷ "."
      ∷ [])

  abbrev pub detail_lines : DbCompletenessSnapshot → List String
  detail_lines s =
      let noted =
        line_if (ltb 0 s.missing_message_id)
          (concat (
            "- Sync note: "
            ∷ print s.missing_message_id
            ∷ " messages could not be imported because the server did not provide stable message IDs."
            ∷ []))
          (sync_lines s) in
      let with_bodies = line_if (has_body_backlog s) (body_line s) noted in
      let with_analysis =
        line_if (ltb 0 s.analysis_missing)
          (concat (
            "- Analysis: "
            ∷ print s.analysis_missing
            ∷ " emails still need classification and safety analysis."
            ∷ []))
          with_bodies in
      or_line "- Readiness: core still has active work that must settle first." (
        line_if (ltb 0 s.location_missing)
          (concat (
            "- Filing: "
            ∷ print s.location_missing
            ∷ " emails still need folder recommendations."
            ∷ []))
          with_analysis)

  abbrev pub requested_line : List String → String
  requested_line [] = "- Requested work: no new core work was needed on this poll."
  requested_line (t ∷ ts) =
      concat ("- Requested work: `" ∷ join_strings "`, `" (t ∷ ts) ∷ "`." ∷ [])

  unfoldable pub db_prerequisites_pending_markdown :
      Bool → ℕ → DbCompletenessSnapshot → List String → String
  db_prerequisites_pending_markdown request_work_enabled retry_after_seconds s requested_work =
      join_strings "\n" (
        ("## Mail Assistant"
          ∷ ""
          ∷ "I'm still preparing this mailbox, so I can't answer from the database reliably yet."
          ∷ ""
          ∷ (if request_work_enabled
              then "Core has requested the missing prerequisite work and is still catching up:"
              else "Core still needs prerequisite work before this answer can run:")
          ∷ [])
        ++ (detail_lines s
            ++ ""
              ∷ requested_line requested_work
              ∷ concat (
                  "- Next step: keep core running and try again in about "
                  ∷ print retry_after_seconds
                  ∷ " seconds."
                  ∷ [])
              ∷ []))

  -- The times are milliseconds.
  unfoldable pub db_prerequisites_pending_output :
      String → String → Bool → ℕ → DbCompletenessPending → Json
  unfolding db_prerequisites_pending_markdown
  db_prerequisites_pending_output account_id agent_name request_work_enabled retry_after_seconds p =
      let requested_work = core_work_type_names p.requested_work in
      let s = p.snapshot in
      object (
        ("status", str "prerequisites_pending")
        ∷ (
          "response_markdown",
          str (
              db_prerequisites_pending_markdown request_work_enabled retry_after_seconds s
                requested_work),
        )
        ∷ (
          "summary",
          str (
              concat (
                "Mailbox prerequisites are still pending: "
                ∷ print s.analysis_missing
                ∷ " emails need analysis and "
                ∷ print s.location_missing
                ∷ " need filing recommendations."
                ∷ [])),
        )
        ∷ ("confidence", real "1.0")
        ∷ ("needs_specialist", bool false)
        ∷ ("agent_name", str agent_name)
        ∷ ("account_id", str account_id)
        ∷ ("request_work_enabled", bool request_work_enabled)
        ∷ ("requested_work", arr (strings requested_work))
        ∷ ("retry_after_seconds", count retry_after_seconds)
        ∷ (
          "db_completeness",
          object (
              ("ready", bool false)
              ∷ ("folder_count", count s.folder_count)
              ∷ ("email_count", count s.email_count)
              ∷ ("largest_folder_message_count", count s.largest_folder_message_count)
              ∷ ("missing_message_id", count s.missing_message_id)
              ∷ ("body_missing", count s.body_missing)
              ∷ ("analysis_missing", count s.analysis_missing)
              ∷ ("location_missing", count s.location_missing)
              ∷ (
                "body_sync",
                object (
                    ("pending", count s.body_sync.pending)
                    ∷ ("failed", count s.body_sync.failed)
                    ∷ ("processing", count s.body_sync.processing)
                    ∷ ("dead", count s.body_sync.dead)
                    ∷ []),
              )
              ∷ ("stable_polls", count p.stable_polls)
              ∷ ("elapsed_ms", count p.elapsed)
              ∷ ("max_wait_seconds", count (p.max_wait / 1000))
              ∷ []),
        )
        ∷ [])
