-- ===== src/Coordinator/Lifetime.antt =====
-- src/core_work_queue.rs: which claims there are when the coordinator begins and when it ends.
use Prim.Native.String.{String}
use mail_subsystem.Prelude.{
  ℕ, ◌≡◌, refl, inl, inr, Bool, true, false, ◌&&◌, List, arith, All, Bool-cases, if◌then◌else◌, [],
}
use mail_subsystem.Prelude.Text.{codes}
use mail_subsystem.Json.{Json}
use mail_subsystem.Sql.Update.{All-upsert_where}
use mail_subsystem.Completeness.{needs_full_sync_backfill, has_body_backlog}
use mail_subsystem.CoreWork.{
  CoreWorkType, sync_full, sync_incremental, sync_body, assistant_heartbeat, Row, Db,
}
use mail_subsystem.CoreWork.Table.{has_key, requeue, new_row, enqueue_core_work_for_account}
use mail_subsystem.CoreWork.Settle.{is_claimed, is_claimed_by}
use mail_subsystem.CoreWork.Report.{has_active_core_work_type_for_account}
use mail_subsystem.CoreWork.Recovery.{recover-IsUnlocked, release-IsUnlocked}
use mail_subsystem.Coordinator.{should_coalesce_core_work, enqueue_core_work}
use mail_subsystem.Coordinator.Run.{Config, World, seed_bootstrap_work}
use mail_subsystem.Coordinator.Daemon.{
  Iteration, LoopEnd, shut_down, still_running, round_failed, RunEnd, not_owner, loop_ended,
  recovered, cleaned_up, release_worker_claims, run_core_coordinator_loop, iterate,
  run_core_coordinator_with_config,
}

-- No row of the account is being processed.
abbrev pub IsUnclaimed : String → Db → Type 0
IsUnclaimed account db = All (λ (r : Row). is_claimed account r ≡ false) db.rows

-- What other tasks do meanwhile claims no row of the account.
abbrev pub LeavesUnclaimed : String → World → Type 0
LeavesUnclaimed account world =
    (now : ℕ) (db : Db) → IsUnclaimed account db → IsUnclaimed account (world.others now db)

enqueue-IsUnclaimed :
    (world : World) (account owner : String) (t : CoreWorkType) (key : String) (payload : Json)
    (now : ℕ) (db : Db)
    → LeavesUnclaimed account world
    → IsUnclaimed account db
    → IsUnclaimed account (enqueue_core_work world.others owner t key payload now db)
unfolding enqueue_core_work enqueue_core_work_for_account
enqueue-IsUnclaimed world account owner t key payload now db quiet u =
    let test = should_coalesce_core_work t && has_active_core_work_type_for_account owner t db in
    elim (Bool-cases test) [
      | inl e ↦ rw (e, enqueue_core_work) u
      | inr e ↦
          rw (e, enqueue_core_work)
            (All-upsert_where (has_key owner t key) (requeue payload now)
              (new_row owner t key payload now (world.others now db).next_id)
              (λ r. is_claimed account r ≡ false) (λ r. is_claimed account r ≡ false)
              (world.others now db).rows (ground arith) (λ r k. k) (λ r h k. ground arith)
              (quiet now db u))
    ]

if-IsUnclaimed :
    (account : String) (test : Bool) (a b : Db)
    → IsUnclaimed account a
    → IsUnclaimed account b
    → IsUnclaimed account (if test then a else b)
if-IsUnclaimed account true a b u v = u
if-IsUnclaimed account false a b u v = v

seed-IsUnclaimed :
    (world : World) (cfg : Config) (clock : ℕ → ℕ) (account : String) (db : Db)
    → LeavesUnclaimed account world
    → IsUnclaimed account db
    → IsUnclaimed account (seed_bootstrap_work world cfg clock db)
unfolding seed_bootstrap_work
seed-IsUnclaimed world cfg clock account db quiet u =
    let s = world.snapshot db in
    let synced =
      if-IsUnclaimed account (needs_full_sync_backfill s) _ _
        (enqueue-IsUnclaimed world account cfg.account_id sync_full "bootstrap" _ (clock 0) db quiet
          u)
        (enqueue-IsUnclaimed world account cfg.account_id sync_incremental "periodic" _ (clock 0) db
          quiet u) in
    let bodies =
      if-IsUnclaimed account (has_body_backlog s) _ _
        (enqueue-IsUnclaimed world account cfg.account_id sync_body "body-backlog" _ (clock 1) _
          quiet synced)
        synced in
    if-IsUnclaimed account cfg.assistant_heartbeat_enabled _ _
      (enqueue-IsUnclaimed world account cfg.account_id assistant_heartbeat "assistant-heartbeat" _
        (clock 2) _ quiet bodies)
      bodies

module _ (world : World) (cfg : Config) (background_sync_enabled : Bool) where
  abbrev pub IsReleased : Db → Type 0
  IsReleased db = All (λ (r : Row). is_claimed_by cfg.account_id cfg.worker_id r ≡ false) db.rows

  -- What is left of the table that was there before.
  abbrev pub EndsReleased : Db → RunEnd × Db → Type 0
  EndsReleased before (not_owner, db) = db ≡ before
  EndsReleased before (loop_ended still_running, db) = Unit
  EndsReleased before (loop_ended shut_down, db) = IsReleased db
  EndsReleased before (loop_ended (round_failed e), db) = IsReleased db

  release-IsReleased :
      (now : ℕ) (db : Db)
      → IsReleased (
          release_worker_claims world cfg background_sync_enabled
            (codes "core coordinator shutdown")
            now
            db)
  unfolding release_worker_claims
  release-IsReleased now db =
      (release-IsUnlocked cfg.account_id cfg.worker_id (codes "core coordinator shutdown") now
        db).none_left

  cleaned_up-EndsReleased :
      (now : ℕ) (before : Db) (end : LoopEnd) (db : Db)
      → EndsReleased before (cleaned_up world cfg background_sync_enabled now (end, db))
  cleaned_up-EndsReleased now before still_running db = tt
  cleaned_up-EndsReleased now before shut_down db = release-IsReleased now db
  cleaned_up-EndsReleased now before (round_failed e) db = release-IsReleased now db

  begins-IsUnclaimed :
      (started ended : ℕ) (seed_clock : ℕ → ℕ) (db : Db)
      → LeavesUnclaimed cfg.account_id world
      → IsUnclaimed cfg.account_id
          (run_core_coordinator_with_config world cfg background_sync_enabled true started ended
            seed_clock [] db).1
  unfolding run_core_coordinator_with_config run_core_coordinator_loop iterate
  begins-IsUnclaimed started ended seed_clock db quiet =
      seed-IsUnclaimed world cfg seed_clock cfg.account_id
        (recovered world cfg background_sync_enabled started db) quiet
        (recover-IsUnlocked cfg.account_id
          (codes "core startup recovered processing work without a live owner") started
          db).none_left

  -- When the coordinator owns the account and comes to the first iteration of its loop, no row of the
  -- account is being processed, if other tasks claim none meanwhile; when its loop has ended, by a
  -- shutdown or by an error, its worker has no row in processing; when it does not own the account,
  -- the queue stays as it was.
  pub run-EndsReleased :
      (acquired : Bool) (started ended : ℕ) (seed_clock : ℕ → ℕ) (its : List Iteration) (db : Db)
      → LeavesUnclaimed cfg.account_id world
      → IsUnclaimed cfg.account_id
          (run_core_coordinator_with_config world cfg background_sync_enabled true started ended
            seed_clock [] db).1
        × EndsReleased db (
            run_core_coordinator_with_config world cfg background_sync_enabled acquired started
              ended seed_clock its db)
  unfolding run_core_coordinator_with_config
  run-EndsReleased acquired started ended seed_clock its db quiet =
      (begins-IsUnclaimed started ended seed_clock db quiet, ends acquired)
    where
      ends :
          (owned : Bool)
          → EndsReleased db (
              run_core_coordinator_with_config world cfg background_sync_enabled owned started ended
                seed_clock its db)
      ends false = refl
      ends true =
          cleaned_up-EndsReleased ended db _
            (run_core_coordinator_loop world cfg background_sync_enabled seed_clock its
              (recovered world cfg background_sync_enabled started db)).1
