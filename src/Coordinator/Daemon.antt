-- ===== src/Coordinator/Daemon.antt =====
-- src/core_work_queue.rs: run_core_coordinator_with_config, its loop and the background sync. Whether the
-- lease is acquired, when a shutdown is seen, and what the background sync meets are arguments. The loop
-- is the list of its iterations; between two of them the background sync may run, any number of times.
use mail_subsystem.Prelude.{ℕ, Bool, true, false, not, ◌||◌, List, [], ◌∷◌, if◌then◌else◌}
use mail_subsystem.Prelude.Text.{Text, codes}
use mail_subsystem.CoreWork.{sync_incremental, Db, DbError, Result, ok, err}
use mail_subsystem.CoreWork.Settle.{
  recover_orphaned_core_work_for_account, release_core_work_for_worker_for_account,
}
use mail_subsystem.CoreWork.Report.{has_active_sync_work_for_account}
use mail_subsystem.Coordinator.Run.{
  Config, World, enqueue_follow_up_work, enqueue_idle_work, seed_bootstrap_work, run_once,
}

-- An iteration of the background sync: whether the status and the account can be read, and the sync, which
-- tells whether it succeeded.
pub record BackgroundSync : Type 0 where
  pub status_known : Bool
  pub account_loads : Bool
  pub sync : Db → Db × Bool
  pub clock : ℕ → ℕ

-- An iteration of the loop: whether a shutdown is seen at its head and while it waits, the locks and the
-- times of its round, and what the background sync does before it.
pub record Iteration : Type 0 where
  pub stopped : Bool
  pub stopped_waiting : Bool
  pub skip : ℕ → Bool
  pub times : ℕ → ℕ
  pub clocks : ℕ → ℕ → ℕ
  pub idle_clock : ℕ → ℕ
  pub background : List BackgroundSync

pub data LoopEnd : Type 0 where
  shut_down still_running : LoopEnd
  round_failed : DbError → LoopEnd

pub data RunEnd : Type 0 where
  not_owner : RunEnd
  loop_ended : LoopEnd → RunEnd

module _ (world : World) (cfg : Config) (background_sync_enabled : Bool) where
  abbrev pub after_sync : (ℕ → ℕ) → Db × Bool → Db
  after_sync clock (db, true) = enqueue_follow_up_work world cfg sync_incremental clock 0 db
  after_sync clock (db, false) = db

  unfoldable pub background_round : BackgroundSync → Db → Db
  background_round b db =
      if not b.status_known
        || (has_active_sync_work_for_account cfg.account_id db || not b.account_loads)
      then db
      else after_sync b.clock (b.sync db)

  unfoldable pub run_background_sync_loop : List BackgroundSync → Db → Db
  unfolding background_round
  run_background_sync_loop [] db = db
  run_background_sync_loop (b ∷ bs) db = run_background_sync_loop bs (background_round b db)

  abbrev pub meanwhile : List BackgroundSync → Db → Db
  meanwhile bs db = if background_sync_enabled then run_background_sync_loop bs db else db

  -- After a round: the next iteration at once if there was work, and else after a wait.
  abbrev pub after_round : (Db → LoopEnd × Db) → Iteration → Db × Result Bool → LoopEnd × Db
  after_round next it (db, err e) = (round_failed e, db)
  after_round next it (db, ok true) = next db
  after_round next it (db, ok false) =
      if it.stopped_waiting
      then (shut_down, db)
      else next (enqueue_idle_work world cfg it.idle_clock db)

  unfoldable pub iterate : List Iteration → Db → LoopEnd × Db
  iterate [] db = (still_running, db)
  iterate (it ∷ its) db =
      let now_db = meanwhile it.background db in
      let went_on =
        after_round (λ db'. iterate its db') it
          (run_once world cfg it.skip it.times it.clocks now_db) in
      if it.stopped then (shut_down, now_db) else went_on

  unfoldable pub run_core_coordinator_loop : (ℕ → ℕ) → List Iteration → Db → LoopEnd × Db
  run_core_coordinator_loop seed_clock its db =
      iterate its (seed_bootstrap_work world cfg seed_clock db)

  unfoldable pub release_worker_claims : Text → ℕ → Db → Db
  release_worker_claims reason now db =
      (release_core_work_for_worker_for_account cfg.account_id cfg.worker_id reason now db).0

  -- The claims are released however the loop ends; a loop that is still running has not come to that.
  abbrev pub cleaned_up : ℕ → LoopEnd × Db → RunEnd × Db
  cleaned_up now (still_running, db) = (loop_ended still_running, db)
  cleaned_up now (shut_down, db) =
      (loop_ended shut_down, release_worker_claims (codes "core coordinator shutdown") now db)
  cleaned_up now (round_failed e, db) = (
    loop_ended (round_failed e),
    release_worker_claims (codes "core coordinator shutdown") now db,
  )

  abbrev pub recovered : ℕ → Db → Db
  recovered now db =
      (recover_orphaned_core_work_for_account cfg.account_id
        (codes "core startup recovered processing work without a live owner") now db).0

  unfoldable pub run_core_coordinator_with_config :
      Bool → ℕ → ℕ → (ℕ → ℕ) → List Iteration → Db → RunEnd × Db
  run_core_coordinator_with_config false started ended seed_clock its db = (not_owner, db)
  run_core_coordinator_with_config true started ended seed_clock its db =
      cleaned_up ended (run_core_coordinator_loop seed_clock its (recovered started db))
