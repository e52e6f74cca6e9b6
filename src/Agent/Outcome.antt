-- ===== src/Agent/Outcome.antt =====
-- src/agent_harness/run_executor.rs: what the outcome of the wait says.
use Prim.Native.String.{String}
use mail_subsystem.Prelude.{
  ℕ, zero, suc, ◌+◌, ◌≤◌, ◌≡◌, refl, inl, inr, ◌⊎◌, Bool, true, false, not, ◌&&◌, List, ◌++◌,
  Option, none, some, arith, leb, ◌==◌, min, Bool-cases, &&-cases,
}
use mail_subsystem.Prelude.Text.{codes}
use mail_subsystem.Strings.{eq_ignore_ascii_case}
use mathlib.Core.List.{append-nil}
use mail_subsystem.Json.{Json}
use mail_subsystem.Completeness.{DbCompletenessSnapshot, has_active_backlog}
use mail_subsystem.CoreWork.{CoreWorkType, Db, same_type}
use mail_subsystem.CoreWork.Kinds.{same_type_iff}
use mail_subsystem.Agent.Distinct.{distinct, unseen, distinct-unseen_added}
use mail_subsystem.Agent.Prerequisites.{
  DbCompletenessPollConfig, should_gate_db_completeness, request_db_prerequisite_work,
  prerequisite_payload, should_complete_db_pending_for_task,
  should_use_partial_db_for_interactive_mail_assistant, max_wait_for_task,
  classify_db_prerequisite_work,
}
use mail_subsystem.Agent.Polling.{
  Waited, ready, pending, load_failed, timed_out, PollState, Round, stop, again, Surroundings,
  next_stable, is_snapshot_ready, should_wait_for_db_completeness, poll, poll_from, after_round,
  first_poll, wait_for_db_completeness, u32_max,
}

classified_once :
    (s : DbCompletenessSnapshot) → distinct same_type (classify_db_prerequisite_work s) ≡ true
unfolding classify_db_prerequisite_work
classified_once s = ground arith

requested-distinct :
    (request_work : Bool) (account : String) (payload : Json) (now : ℕ)
    (requested : List CoreWorkType) (s : DbCompletenessSnapshot) (db : Db)
    → distinct same_type requested ≡ true
    → distinct same_type (
        requested
        ++ (request_db_prerequisite_work request_work account payload now
            (unseen same_type requested (classify_db_prerequisite_work s))
            db).0)
      ≡ true
unfolding request_db_prerequisite_work
requested-distinct true account payload now requested s db h =
    distinct-unseen_added same_type same_type_iff requested (classify_db_prerequisite_work s) h
      (classified_once s)
requested-distinct false account payload now requested s db h = rw (append-nil requested) h

module _ (w : Surroundings) where
  -- The i-th round reads this number of messages.
  abbrev pub Reads : ℕ → ℕ → Type 0
  Reads i n = (s : DbCompletenessSnapshot) × (w.load i ≡ some s) × (s.email_count ≡ n)

  -- The last `k` rounds up to the i-th all read this number of messages.
  abbrev pub Steady : ℕ → ℕ → ℕ → Type 0
  Steady zero i n = Unit
  Steady (suc k) zero n = (k ≡ 0) × Reads 0 n
  Steady (suc k) (suc i) n = Reads (suc i) n × Steady k i n

  Steady-less : (k k' i n : ℕ) → k ≤ k' → Steady k' i n → Steady k i n
  Steady-less zero k' i n h s = tt
  Steady-less (suc k) zero i n h s = absurd (omega arith)
  Steady-less (suc k) (suc k') zero n h (z, r) = (omega (arith, z, h), r)
  Steady-less (suc k) (suc k') (suc i) n h (r, s) = (r, Steady-less k k' i n (omega (arith, h)) s)

  -- What the i-th round finds in prev_email_count and stable_polls.
  abbrev Recent : ℕ → Option ℕ → ℕ → Type 0
  Recent i none k = Unit
  Recent zero (some n) k = ⊥
  Recent (suc i) (some n) k = Steady k i n

  alone : (i n : ℕ) → Reads i n → Steady 1 i n
  alone zero n r = (refl, r)
  alone (suc i) n r = (r, tt)

  Steady-next :
      (i : ℕ) (prev : Option ℕ) (k n : ℕ)
      → Recent i prev k
      → Reads i n
      → Steady (next_stable prev n k) i n
  Steady-next i none k n h r = alone i n r
  Steady-next zero (some p) k n h r = absurd h
  Steady-next (suc i) (some p) k n h r = elim (Bool-cases (p == n)) [
    | inl e ↦
        let same : p ≡ n = ground arith in
        rw e (Steady-less (min (k + 1) u32_max) (suc k) (suc i) n (omega arith) (r, rw same at h))
    | inr e ↦ rw e (alone (suc i) n r)
  ]

  module _ (c : DbCompletenessPollConfig) (account agent_name run_id task_id : String) where
    -- What each outcome says; a wait never ends as pending.
    abbrev pub Says : Waited → Type 0
    Says ready =
        (i : ℕ) × (s : DbCompletenessSnapshot) × (w.load i ≡ some s)
        × (has_active_backlog s ≡ false)
        × Steady c.stable_polls_required i s.email_count
    Says (pending p) = ⊥
    Says load_failed = (i : ℕ) × (w.load i ≡ none)
    Says (timed_out p) =
        (max_wait_for_task c task_id ≤ p.elapsed)
        × (distinct same_type p.requested_work ≡ true)
        × (is_snapshot_ready c p.snapshot p.stable_polls ≡ false)

    record IsPolling (i : ℕ) (st : PollState) : Type 0 where
      recent : Recent i st.prev_email_count st.stable_polls
      once : distinct same_type st.requested_work ≡ true

    abbrev EndsRight : ℕ → Round → Type 0
    EndsRight i (stop o db) = Says o
    EndsRight i (again st) = IsPolling (suc i) st

    poll-EndsRight :
        should_complete_db_pending_for_task task_id ≡ false
        → (i : ℕ) (st : PollState) (o : Option DbCompletenessSnapshot) → w.load i ≡ o
        → IsPolling i st
        → EndsRight i (poll c account agent_name run_id task_id w i st o)
    unfolding poll is_snapshot_ready request_db_prerequisite_work
    poll-EndsRight n i st none e h = (i, e)
    poll-EndsRight n i st (some s) e h =
        let stable = next_stable st.prev_email_count s.email_count st.stable_polls in
        let steady : Steady stable i s.email_count =
          Steady-next i st.prev_email_count st.stable_polls s.email_count h.recent (s, e, refl) in
        let once =
          requested-distinct c.request_work account
            (prerequisite_payload agent_name run_id task_id s) (w.now i) st.requested_work s st.db
            h.once in
        elim (Bool-cases (is_snapshot_ready c s stable)) [
          | inl r ↦
              let (idle, polls) =
                &&-cases (not (has_active_backlog s)) (leb c.stable_polls_required stable) r in
              rw r (
                i,
                s,
                e,
                ground arith,
                Steady-less c.stable_polls_required stable i s.email_count (ground arith) steady,
              )
          | inr r ↦ elim (Bool-cases (leb (max_wait_for_task c task_id) st.elapsed)) [
            | inl l ↦ rw (r, l, n) (ground arith, once, r)
            | inr l ↦ rw (r, l) (record { recent = steady; once = once })
          ]
        ]

    poll_from-Says :
        should_complete_db_pending_for_task task_id ≡ false
        → (fuel i : ℕ) (st : PollState) (o : Waited) (db : Db) → IsPolling i st
        → poll_from c account agent_name run_id task_id w fuel i st ≡ some (o, db)
        → Says o
    unfolding poll_from
    poll_from-Says n zero i st o db h e = absurd (ground arith)
    poll_from-Says n (suc fuel) i st o db h e =
        ended (poll c account agent_name run_id task_id w i st (w.load i))
          (λ st' k. poll_from-Says n fuel (suc i) st' o db k)
          (poll-EndsRight n i st (w.load i) refl h) e
      where
        ended :
            (r : Round)
            → ((st' : PollState)
                → IsPolling (suc i) st'
                → poll_from c account agent_name run_id task_id w fuel (suc i) st' ≡ some (o, db)
                → Says o)
            → EndsRight i r
            → after_round c account agent_name run_id task_id
                (λ st'. poll_from c account agent_name run_id task_id w fuel (suc i) st')
                r
              ≡ some (o, db)
            → Says o
        ended (stop o' db') rest k q = let same : o' ≡ o = ground arith in rw same at k
        ended (again st') rest k q = rest st' k q

eq_ignore-lowered :
    (name : String)
    → eq_ignore_ascii_case (codes name) (codes "mail-assistant") ≡ should_gate_db_completeness name
unfolding eq_ignore_ascii_case should_gate_db_completeness
eq_ignore-lowered name = refl

-- A result of the wait: at once and with the queue as it was, if the agent is not Mail Assistant, if the
-- wait is disabled, or for a chat turn; and otherwise never as pending. Then it is ready only after as
-- many rounds in a row as required read the same number of messages, the last without a backlog, and
-- fails with a time-out only when the time is over, with no kind of work requested twice.
pub wait-Says :
    (c : DbCompletenessPollConfig) (account agent_name run_id task_id : String) (w : Surroundings)
    (fuel : ℕ) (db db' : Db) (o : Waited)
    → wait_for_db_completeness c account agent_name run_id task_id w fuel db ≡ some (o, db')
    → ((((c.enabled && should_gate_db_completeness agent_name)
            && not (should_complete_db_pending_for_task task_id))
          ≡ false)
        × (o ≡ ready)
        × (db' ≡ db))
      ⊎ ((((c.enabled && should_gate_db_completeness agent_name)
              && not (should_complete_db_pending_for_task task_id))
            ≡ true)
          × Says w c account agent_name run_id task_id o)
unfolding wait_for_db_completeness should_wait_for_db_completeness
    should_use_partial_db_for_interactive_mail_assistant
wait-Says c account agent_name run_id task_id w fuel db db' o e =
    let lowered = eq_ignore-lowered agent_name in
    elim (Bool-cases (c.enabled && should_gate_db_completeness agent_name)) [
      | inr g ↦ let (a, b) : (o ≡ ready) × (db' ≡ db) = ground arith in inl (ground arith, a, b)
      | inl g ↦ elim (Bool-cases (should_complete_db_pending_for_task task_id)) [
        | inl t ↦ let (a, b) : (o ≡ ready) × (db' ≡ db) = ground arith in inl (ground arith, a, b)
        | inr t ↦ inr (
          ground arith,
          poll_from-Says w c account agent_name run_id task_id t fuel 0
              (first_poll c account agent_name run_id task_id db) o db'
              (record { recent = tt; once = refl }) (ground arith),
        )
      ]
    ]
