-- ===== src/Coordinator/Unclaimed.antt =====
-- src/core_work_queue.rs: the queue between the rounds of the coordinator and when it ends.
use Prim.Native.String.{String}
use mail_subsystem.Prelude.{
  ℕ, ◌≡◌, refl, inl, inr, Bool, true, false, not, ◌&&◌, List, [], ◌∷◌, arith, All, All-mono,
  Bool-cases, if◌then◌else◌,
}
use mail_subsystem.Prelude.Text.{Text, codes}
use mail_subsystem.Json.{Json}
use mail_subsystem.Sql.{any_id}
use mail_subsystem.Sql.Update.{All-update_where, updated}
use mail_subsystem.Completeness.{needs_full_sync_backfill, has_body_backlog}
use mail_subsystem.CoreWork.{
  CoreWorkType, sync_full, sync_incremental, sync_body, assistant_heartbeat, Row, Db, Result, ok,
  err,
}
use mail_subsystem.CoreWork.Settle.{
  is_claimed, is_claimed_by, unlocked_row, left_4000, release_core_work_for_worker_for_account,
}
use mail_subsystem.CoreWork.Effects.{rows-unlock_where}
use mail_subsystem.CoreWork.Ops.{apply, recover, release}
use mail_subsystem.CoreWork.Invariant.{IsWellFormed, apply-IsWellFormed}
use mail_subsystem.CoreWork.Recovery.{recover-IsUnlocked}
use mail_subsystem.Coordinator.Run.{
  Config, World, enqueue_follow_up_work, enqueue_idle_work, seed_bootstrap_work,
}
use mail_subsystem.Coordinator.Claims.{
  ClaimsWithin, ClaimsNothing, enqueue-ClaimsWithin, enqueue_plan-ClaimsWithin,
}
use mail_subsystem.Coordinator.Round.{run_once-ClaimsWithin}
use mail_subsystem.Coordinator.Steps.{
  KeepsWellFormed, enqueue_core_work-IsWellFormed, enqueue_plan-IsWellFormed, run_once-IsWellFormed,
}
use mail_subsystem.Coordinator.{Plan, enqueue_core_work, enqueue_plan}
use mail_subsystem.Coordinator.Daemon.{
  BackgroundSync, Iteration, LoopEnd, shut_down, still_running, round_failed, after_sync,
  background_round, run_background_sync_loop, meanwhile, after_round, iterate,
  run_core_coordinator_loop, release_worker_claims, cleaned_up, recovered,
  run_core_coordinator_with_config,
}

-- The table is well formed, and no row of the account is being processed.
abbrev pub IsQuiet : String → Db → Type 0
IsQuiet account db = IsWellFormed db × ClaimsWithin account [] db

-- Each background sync before the iteration leaves the queue so.
abbrev pub SyncsQuietly : String → Iteration → Type 0
SyncsQuietly account it =
    All (λ (b : BackgroundSync). (db : Db) → IsQuiet account db → IsQuiet account (b.sync db).0)
      it.background

if-IsQuiet :
    (account : String) (test : Bool) (a b : Db)
    → IsQuiet account a
    → IsQuiet account b
    → IsQuiet account (if test then a else b)
if-IsQuiet account true a b u v = u
if-IsQuiet account false a b u v = v

module _ (world : World) (cfg : Config) (background_sync_enabled : Bool)
    (quiet : ClaimsNothing world) (keeps : KeepsWellFormed world) where
  enqueued-IsQuiet :
      (t : CoreWorkType) (key : String) (payload : Json) (now : ℕ) (db : Db)
      → IsQuiet cfg.account_id db
      → IsQuiet cfg.account_id (enqueue_core_work world.others cfg.account_id t key payload now db)
  enqueued-IsQuiet t key payload now db (w, c) = (
    enqueue_core_work-IsWellFormed world cfg keeps cfg.account_id t key payload now db w,
    enqueue-ClaimsWithin cfg.account_id [] world.others (quiet.1 cfg.account_id []) cfg.account_id t
        key payload now db c,
  )

  planned-IsQuiet :
      (key : String) (clock : ℕ → ℕ) (i : ℕ) (plan : Plan) (db : Db)
      → IsQuiet cfg.account_id db
      → IsQuiet cfg.account_id (enqueue_plan world.others cfg.account_id key clock i plan db)
  planned-IsQuiet key clock i plan db (w, c) = (
    enqueue_plan-IsWellFormed world cfg keeps cfg.account_id key clock i plan db w,
    enqueue_plan-ClaimsWithin cfg.account_id [] world.others (quiet.1 cfg.account_id [])
        cfg.account_id key clock i plan db c,
  )

  follow_up-IsQuiet :
      (t : CoreWorkType) (clock : ℕ → ℕ) (i : ℕ) (db : Db)
      → IsQuiet cfg.account_id db
      → IsQuiet cfg.account_id (enqueue_follow_up_work world cfg t clock i db)
  unfolding enqueue_follow_up_work
  follow_up-IsQuiet t clock i db q = planned-IsQuiet "pipeline" clock i _ db q

  idle-IsQuiet :
      (clock : ℕ → ℕ) (db : Db)
      → IsQuiet cfg.account_id db
      → IsQuiet cfg.account_id (enqueue_idle_work world cfg clock db)
  unfolding enqueue_idle_work
  idle-IsQuiet clock db q =
      let planned = planned-IsQuiet "periodic" clock 1 _ db q in
      if-IsQuiet cfg.account_id _ _ _
        (enqueued-IsQuiet assistant_heartbeat "assistant-heartbeat" _ (clock 0) _ planned) planned

  seed-IsQuiet :
      (clock : ℕ → ℕ) (db : Db)
      → IsQuiet cfg.account_id db
      → IsQuiet cfg.account_id (seed_bootstrap_work world cfg clock db)
  unfolding seed_bootstrap_work
  seed-IsQuiet clock db q =
      let s = world.snapshot db in
      let synced =
        if-IsQuiet cfg.account_id (needs_full_sync_backfill s) _ _
          (enqueued-IsQuiet sync_full "bootstrap" _ (clock 0) db q)
          (enqueued-IsQuiet sync_incremental "periodic" _ (clock 0) db q) in
      let bodies =
        if-IsQuiet cfg.account_id (has_body_backlog s) _ _
          (enqueued-IsQuiet sync_body "body-backlog" _ (clock 1) _ synced) synced in
      if-IsQuiet cfg.account_id cfg.assistant_heartbeat_enabled _ _
        (enqueued-IsQuiet assistant_heartbeat "assistant-heartbeat" _ (clock 2) _ bodies) bodies

  synced-IsQuiet :
      (clock : ℕ → ℕ) (db : Db) (succeeded : Bool)
      → IsQuiet cfg.account_id db
      → IsQuiet cfg.account_id (after_sync world cfg background_sync_enabled clock (db, succeeded))
  synced-IsQuiet clock db true q = follow_up-IsQuiet sync_incremental clock 0 db q
  synced-IsQuiet clock db false q = q

  background-IsQuiet :
      (bs : List BackgroundSync) (db : Db)
      → All
          (λ (b : BackgroundSync).
            (d : Db) → IsQuiet cfg.account_id d → IsQuiet cfg.account_id (b.sync d).0)
          bs
      → IsQuiet cfg.account_id db
      → IsQuiet cfg.account_id (run_background_sync_loop world cfg background_sync_enabled bs db)
  unfolding run_background_sync_loop background_round
  background-IsQuiet [] db h q = q
  background-IsQuiet (b ∷ bs) db (h, hs) q = background-IsQuiet bs _ hs (
      if-IsQuiet cfg.account_id _ db _ q
        (synced-IsQuiet b.clock (b.sync db).0 (b.sync db).1 (h db q)))

  abbrev LoopIsQuiet : LoopEnd × Db → Type 0
  LoopIsQuiet (end, db) = IsQuiet cfg.account_id db

  round-IsQuiet :
      (next : Db → LoopEnd × Db) (it : Iteration) (db : Db) (r : Result Bool)
      → ((d : Db) → IsQuiet cfg.account_id d → LoopIsQuiet (next d))
      → IsQuiet cfg.account_id db
      → LoopIsQuiet (after_round world cfg background_sync_enabled next it (db, r))
  round-IsQuiet next it db (err e) rest q = q
  round-IsQuiet next it db (ok true) rest q = rest db q
  round-IsQuiet next it db (ok false) rest q = elim (Bool-cases it.stopped_waiting) [
    | inl e ↦ rw e q
    | inr e ↦ rw e (rest _ (idle-IsQuiet it.idle_clock db q))
  ]

  iterate-IsQuiet :
      (its : List Iteration) (db : Db)
      → All (λ it. SyncsQuietly cfg.account_id it) its
      → IsQuiet cfg.account_id db
      → LoopIsQuiet (iterate world cfg background_sync_enabled its db)
  unfolding iterate
  iterate-IsQuiet [] db h q = q
  iterate-IsQuiet (it ∷ its) db (h, hs) q =
      let now_db = meanwhile world cfg background_sync_enabled it.background db in
      let before : IsQuiet cfg.account_id now_db =
        if-IsQuiet cfg.account_id background_sync_enabled _ db
          (background-IsQuiet it.background db h q) q in
      elim (Bool-cases it.stopped) [
        | inl e ↦ rw e before
        | inr e ↦ rw e (
            round-IsQuiet (λ d. iterate world cfg background_sync_enabled its d) it _ _
              (λ d q'. iterate-IsQuiet its d hs q')
              (
                run_once-IsWellFormed world cfg keeps it.skip it.times it.clocks now_db before.0,
                run_once-ClaimsWithin world cfg quiet it.skip it.times it.clocks now_db before.0
                    before.1,
              ))
      ]

  released :
      (fits : Row → Bool) (now : ℕ) (reason : Text) (r : Row)
      → (is_claimed cfg.account_id r && not (any_id [] r.id)) ≡ false
      → (is_claimed cfg.account_id (updated fits (unlocked_row (λ _. reason) now) r)
          && not (any_id [] (updated fits (unlocked_row (λ _. reason) now) r).id))
        ≡ false
  released fits now reason r k = elim (Bool-cases (fits r)) [
    | inl e ↦ rw e (ground arith)
    | inr e ↦ rw e k
  ]

  release-IsQuiet :
      (reason : Text) (now : ℕ) (db : Db)
      → IsQuiet cfg.account_id db
      → IsQuiet cfg.account_id
          (release_worker_claims world cfg background_sync_enabled reason now db)
  unfolding release_worker_claims release_core_work_for_worker_for_account apply
  release-IsQuiet reason now db (w, c) =
      let fits = is_claimed_by cfg.account_id cfg.worker_id in
      (
        apply-IsWellFormed (release cfg.account_id cfg.worker_id reason) now db w,
        rw (rows-unlock_where cfg.account_id fits reason now db) (
            All-update_where fits (unlocked_row (λ _. left_4000 reason) now) _ _ db.rows
              (λ r k. released fits now (left_4000 reason) r k) c),
      )

  cleaned_up-IsQuiet :
      (now : ℕ) (end : LoopEnd) (db : Db)
      → IsQuiet cfg.account_id db
      → IsQuiet cfg.account_id (cleaned_up world cfg background_sync_enabled now (end, db)).1
  cleaned_up-IsQuiet now still_running db q = q
  cleaned_up-IsQuiet now shut_down db q = release-IsQuiet _ now db q
  cleaned_up-IsQuiet now (round_failed e) db q = release-IsQuiet _ now db q

  -- If the coordinator owns the account and the table is well formed when it starts, then after any number
  -- of iterations, and when it has ended by a shutdown or by an error, the table is well formed and no row
  -- of the account is being processed; provided that executing work, the background syncs and what other
  -- tasks do meanwhile keep the table well formed and claim nothing.
  pub run-IsQuiet :
      (started ended : ℕ) (seed_clock : ℕ → ℕ) (its : List Iteration) (db : Db)
      → All (λ it. SyncsQuietly cfg.account_id it) its
      → IsWellFormed db
      → IsQuiet cfg.account_id
          (run_core_coordinator_with_config world cfg background_sync_enabled true started ended
            seed_clock its db).1
  unfolding run_core_coordinator_with_config run_core_coordinator_loop apply
  run-IsQuiet started ended seed_clock its db h w =
      let reason = codes "core startup recovered processing work without a live owner" in
      let begun = recovered world cfg background_sync_enabled started db in
      let none_left = (recover-IsUnlocked cfg.account_id reason started db).none_left in
      let quiet_begun : IsQuiet cfg.account_id begun = (
        apply-IsWellFormed (recover cfg.account_id reason) started db w,
        All-mono _ _ begun.rows (λ r e. rw e refl) none_left,
      ) in
      cleaned_up-IsQuiet ended _ _
        (iterate-IsQuiet its _ h (seed-IsQuiet seed_clock begun quiet_begun))
