-- ===== src/Agent/Fetching.antt =====
-- src/agent_harness/run_executor.rs: the tools that the harness calls before its loop.
use mail_subsystem.Agent.Start.{
  Fetched, Task, count_intro, fetch, fetch_count, fetch_list, fetch_prerequisites, fetch_wanted,
  fetched, list_intro, then_fetch, unfetched, wanted_for,
}
use Prim.Native.String.{String}
use mail_subsystem.Prelude.{
  List, ℕ, ◌+◌, ◌≤◌, ◌≡◌, refl, inl, inr, Bool, true, false, arith, if◌then◌else◌, Bool-cases,
}
use mail_subsystem.Prelude.Text.{Text, codes}
use mail_subsystem.Json.{Json}
use mail_subsystem.Agent.Questions.{should_require_synced_email_list_tool}
use mail_subsystem.Agent.Arguments.{should_require_count_emails_tool}
use mail_subsystem.Agent.Spec.{has_text}
use mail_subsystem.Agent.Runs.{RunRow}
use mail_subsystem.Agent.Loop.{Harness, LoopState, Reply, replied, refused}

-- A question does not want both tools.
required-exclusive :
    (w : ℕ → Bool) (agent_name : Text) (input : Json)
    → should_require_count_emails_tool w agent_name input ≡ true
    → should_require_synced_email_list_tool w agent_name input ≡ false
unfolding should_require_count_emails_tool
required-exclusive w agent_name input h =
    elim (Bool-cases (should_require_synced_email_list_tool w agent_name input)) [
      | inr e ↦ e
      | inl e ↦ absurd (ground arith)
    ]

module _ (h : Harness) (t : Task) (run_id : String) where
  abbrev pub FetchedAt : ℕ → Fetched → Type 0
  FetchedAt n (fetched st) = (st.total_llm_calls ≡ 0) × (st.total_tool_calls ≤ n)
  FetchedAt n (unfetched e st) = Unit

  fetch-FetchedAt :
      (name : String) (arguments : Json) (intro : Text) (st : LoopState) (reply : Reply)
      → st.total_llm_calls ≡ 0
      → FetchedAt (st.total_tool_calls + 1) (fetch h t run_id name arguments intro st reply)
  fetch-FetchedAt name arguments intro st (replied result) z = (z, omega arith)
  fetch-FetchedAt name arguments intro st (refused e) z = tt

  wanted-FetchedAt :
      (wanted : Bool) (name : String) (arguments : Json) (intro : Text) (st : LoopState)
      → st.total_llm_calls ≡ 0
      → FetchedAt
          (st.total_tool_calls + (if wanted then 1 else 0))
          (fetch_wanted h t run_id wanted name arguments intro st)
  wanted-FetchedAt false name arguments intro st z = (z, omega arith)
  wanted-FetchedAt true name arguments intro st z =
      elim (Bool-cases (has_text name st.used_tool_names)) [
        | inl e ↦ rw e (z, omega arith)
        | inr e ↦ rw e (fetch-FetchedAt name arguments intro st _ z)
      ]

  FetchedAt-then :
      (m n : ℕ) (next : LoopState → Fetched) (f : Fetched)
      → ((st : LoopState)
          → st.total_llm_calls ≡ 0
          → st.total_tool_calls ≤ m
          → FetchedAt n (next st))
      → FetchedAt m f
      → FetchedAt n (then_fetch h t run_id next f)
  FetchedAt-then m n next (fetched st) k (z, l) = k st z l
  FetchedAt-then m n next (unfetched e st) k a = tt

  FetchedAt-more : (m n : ℕ) (f : Fetched) → m ≤ n → FetchedAt m f → FetchedAt n f
  FetchedAt-more m n (fetched st) l (z, k) = (z, omega (arith, l, k))
  FetchedAt-more m n (unfetched e st) l a = tt

  -- At most one tool is called before the loop.
  pub fetch_prerequisites-FetchedAt :
      (input : Json) (st : LoopState)
      → st.total_llm_calls ≡ 0
      → st.total_tool_calls ≡ 0
      → FetchedAt 1 (fetch_prerequisites h t run_id input st)
  unfolding fetch_prerequisites
  fetch_prerequisites-FetchedAt input st z none_yet =
      let list = (wanted_for h t input).list_synced_emails in
      let exclusive = required-exclusive h.is_whitespace (codes h.spec.name) input in
      let both : (if (wanted_for h t input).count_emails then 1 else 0) + (if list then 1 else 0)
          ≤ 1 =
        ground (arith, exclusive) in
      FetchedAt-then (if (wanted_for h t input).count_emails then 1 else 0) 1
        (λ st'. fetch_list h t run_id input st') (fetch_count h t run_id input st)
        (λ st' z' l.
          FetchedAt-more (st'.total_tool_calls + (if list then 1 else 0)) 1
            (fetch_list h t run_id input st') (omega (arith, both, l))
            (wanted-FetchedAt list _ _ list_intro st' z'))
        (FetchedAt-more
          (st.total_tool_calls + (if (wanted_for h t input).count_emails then 1 else 0)) _
          (fetch_count h t run_id input st) (omega (arith, none_yet))
          (wanted-FetchedAt (wanted_for h t input).count_emails _ _ count_intro st z))

  abbrev pub KeepsRuns : List RunRow → Fetched → Type 0
  KeepsRuns runs (fetched st) = Unit
  KeepsRuns runs (unfetched e st) = st.db.runs ≡ runs

  fetch-KeepsRuns :
      (name : String) (arguments : Json) (intro : Text) (st : LoopState) (reply : Reply)
      → KeepsRuns st.db.runs (fetch h t run_id name arguments intro st reply)
  fetch-KeepsRuns name arguments intro st (replied result) = tt
  fetch-KeepsRuns name arguments intro st (refused e) = refl

  wanted-KeepsRuns :
      (wanted : Bool) (name : String) (arguments : Json) (intro : Text) (st : LoopState)
      → KeepsRuns st.db.runs (fetch_wanted h t run_id wanted name arguments intro st)
  wanted-KeepsRuns false name arguments intro st = tt
  wanted-KeepsRuns true name arguments intro st =
      elim (Bool-cases (has_text name st.used_tool_names)) [
        | inl e ↦ rw e tt
        | inr e ↦ rw e (fetch-KeepsRuns name arguments intro st _)
      ]

  KeepsRuns-then :
      (runs : List RunRow) (next : LoopState → Fetched) (f : Fetched)
      → ((st : LoopState) → KeepsRuns runs (next st))
      → KeepsRuns runs f
      → KeepsRuns runs (then_fetch h t run_id next f)
  KeepsRuns-then runs next (fetched st) k a = k st
  KeepsRuns-then runs next (unfetched e st) k a = a

  -- A tool that is refused before the loop leaves the rows of the runs as they were.
  pub fetch_prerequisites-KeepsRuns :
      (input : Json) (st : LoopState)
      → KeepsRuns st.db.runs (fetch_prerequisites h t run_id input st)
  unfolding fetch_prerequisites
  fetch_prerequisites-KeepsRuns input st = elim (Bool-cases (wanted_for h t input).count_emails) [
    | inl c ↦
        KeepsRuns-then st.db.runs (λ st'. fetch_list h t run_id input st')
          (fetch_count h t run_id input st)
          (λ st'.
            rw (required-exclusive h.is_whitespace (codes h.spec.name) input c, fetch_list) tt)
          (wanted-KeepsRuns (wanted_for h t input).count_emails _ _ count_intro st)
    | inr c ↦ rw c (wanted-KeepsRuns (wanted_for h t input).list_synced_emails _ _ list_intro st)
  ]
