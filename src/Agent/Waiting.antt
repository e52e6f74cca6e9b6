-- ===== src/Agent/Waiting.antt =====
-- src/agent_harness/run_executor.rs: that the wait for the mailbox ends, and how.
use Prim.Native.String.{String}
use mail_subsystem.Prelude.{
  ℕ, zero, suc, ◌+◌, ◌*◌, ◌≤◌, ◌<◌, ◌≡◌, refl, inl, inr, true, Option, none, some, arith,
  Bool-cases, is_some,
}
use mail_subsystem.Completeness.{DbCompletenessSnapshot}
use mail_subsystem.CoreWork.{Db}
use mail_subsystem.Agent.Prerequisites.{
  DbCompletenessPollConfig, from_env, should_use_partial_db_for_interactive_mail_assistant,
  max_wait_for_task,
}
use mail_subsystem.Agent.Polling.{
  Waited, PollState, Round, stop, again, Surroundings, should_wait_for_db_completeness, poll,
  poll_from, after_round, first_poll, wait_for_db_completeness,
}

-- A round that goes on waits at least as long as the first, and has slept.
module _ (c : DbCompletenessPollConfig) (account agent_name run_id task_id : String)
    (w : Surroundings) where
  abbrev limit : ℕ
  limit = max_wait_for_task c task_id

  poll-goes_on :
      (b : ℕ) (i : ℕ) (st : PollState) (o : Option DbCompletenessSnapshot) (st' : PollState)
      → b ≤ c.max_backoff
      → b ≤ st.delay
      → poll c account agent_name run_id task_id w i st o ≡ again st'
      → (st.elapsed < limit) × (st'.elapsed ≡ st.elapsed + w.slept i st.delay) × (b ≤ st'.delay)
  unfolding poll
  poll-goes_on b i st none st' h k e = absurd (ground arith)
  poll-goes_on b i st (some s) st' h k e = ground arith

  after-some :
      (rest : PollState → Option (Waited × Db)) (r : Round)
      → ((st : PollState) → r ≡ again st → is_some (rest st) ≡ true)
      → is_some (after_round c account agent_name run_id task_id rest r) ≡ true
  after-some rest (stop o db) h = refl
  after-some rest (again st) h = h st refl

  -- Every round that goes on brings the wait nearer to its limit by the first delay at least.
  poll_from-ends :
      (b fuel i : ℕ) (st : PollState)
      → b ≤ c.max_backoff
      → ((j d : ℕ) → d ≤ w.slept j d)
      → b ≤ st.delay
      → limit ≤ st.elapsed + fuel * b
      → is_some (poll_from c account agent_name run_id task_id w (suc fuel) i st) ≡ true
  unfolding poll_from
  poll_from-ends b zero i st h sleeps k far = after-some _ _ (λ st' e.
      let (early, later, slow) = poll-goes_on b i st (w.load i) st' h k e in
      absurd (omega (arith, early, far)))
  poll_from-ends b (suc n) i st h sleeps k far = after-some _ _ (λ st' e.
      let (early, later, slow) = poll-goes_on b i st (w.load i) st' h k e in
      poll_from-ends b n (suc i) st' h sleeps slow
        (omega (arith, later, far, sleeps i st.delay, k)))

from_env-bounds :
    (var : String → Option String) (parse : String → Option ℕ)
    → (50 ≤ (from_env var parse).initial_backoff)
      × ((from_env var parse).initial_backoff ≤ (from_env var parse).max_backoff)
      × ((from_env var parse).interactive_max_wait ≤ (from_env var parse).max_wait)
      × (1 ≤ (from_env var parse).stable_polls_required)
unfolding from_env
from_env-bounds var parse = (omega arith, omega arith, omega arith, omega arith)

-- The wait ends, with a result or an error, if a sleep is not shorter than what was asked for: with a
-- configuration of from_env, after at most one round more than its time limit has intervals of 50 ms.
pub wait-ends :
    (var : String → Option String) (parse : String → Option ℕ)
    (account agent_name run_id task_id : String) (w : Surroundings) (fuel : ℕ) (db : Db)
    → ((i d : ℕ) → d ≤ w.slept i d)
    → max_wait_for_task (from_env var parse) task_id ≤ fuel * 50
    → is_some (
        wait_for_db_completeness
          (from_env var parse)
          account
          agent_name
          run_id
          task_id
          w
          (suc fuel)
          db)
      ≡ true
unfolding wait_for_db_completeness
wait-ends var parse account agent_name run_id task_id w fuel db sleeps enough =
    let c = from_env var parse in
    let (low, high, _, _) = from_env-bounds var parse in
    let polled =
      poll_from-ends c account agent_name run_id task_id w 50 fuel 0
        (first_poll c account agent_name run_id task_id db) (omega (arith, low, high)) sleeps low
        (omega (arith, enough)) in
    elim (Bool-cases (should_wait_for_db_completeness c agent_name)) [
      | inl e ↦
          rw e
            (elim (Bool-cases
              (should_use_partial_db_for_interactive_mail_assistant agent_name task_id)) [
                | inl d ↦ rw d refl
                | inr d ↦ rw d polled
              ])
      | inr e ↦ rw e refl
    ]
