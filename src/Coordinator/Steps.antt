-- ===== src/Coordinator/Steps.antt =====
-- src/core_work_queue.rs: a round of the coordinator keeps the table well formed.
use Prim.Native.String.{String}
use mail_subsystem.Prelude.{
  ℕ, ◌+◌, ◌-◌, inl, inr, Bool, ◌&&◌, List, [], ◌∷◌, Option, none, some, Bool-cases, Option-cases,
  ltb,
}
use mail_subsystem.Json.{Json}
use mail_subsystem.CoreWork.{
  CoreWorkType, subagent_task, same_type, Db, CoreWorkQueueEntry, Result, ok, err,
}
use mail_subsystem.CoreWork.Settle.{reset_stale_core_work_for_account}
use mail_subsystem.CoreWork.Report.{has_active_core_work_type_for_account}
use mail_subsystem.CoreWork.Ops.{
  apply, enqueue, claim, claim_batch, mark_done, mark_retry_or_dead, reset_stale,
}
use mail_subsystem.CoreWork.Invariant.{IsWellFormed, apply-IsWellFormed}
use mail_subsystem.Coordinator.{
  Plan, should_coalesce_core_work, enqueue_core_work, enqueue_plan, reason_payload,
}
use mail_subsystem.Coordinator.Run.{
  Config, World, enqueue_follow_up_work, process_claimed_work, process_batch, settle_batch,
  settle_claim, run_once,
}

-- What a kind of work does, and what other tasks do meanwhile, keeps the table well formed.
abbrev pub KeepsWellFormed : World → Type 0
KeepsWellFormed world =
    ((work : CoreWorkQueueEntry) (db : Db)
      → IsWellFormed db
      → IsWellFormed (world.execute work db).0)
    × ((now : ℕ) (db : Db) → IsWellFormed db → IsWellFormed (world.others now db))

module _ (world : World) (cfg : Config) (keeps : KeepsWellFormed world) where
  pub enqueue_core_work-IsWellFormed :
      (account : String) (t : CoreWorkType) (key : String) (payload : Json) (now : ℕ) (db : Db)
      → IsWellFormed db
      → IsWellFormed (enqueue_core_work world.others account t key payload now db)
  unfolding enqueue_core_work apply
  enqueue_core_work-IsWellFormed account t key payload now db w =
      elim (Bool-cases
        (should_coalesce_core_work t && has_active_core_work_type_for_account account t db)) [
          | inl e ↦ rw (e, enqueue_core_work) w
          | inr e ↦
              rw (e, enqueue_core_work)
                (apply-IsWellFormed (enqueue account t key payload) now (world.others now db)
                  (keeps.1 now db w))
        ]

  pub enqueue_plan-IsWellFormed :
      (account key : String) (clock : ℕ → ℕ) (i : ℕ) (plan : Plan) (db : Db)
      → IsWellFormed db
      → IsWellFormed (enqueue_plan world.others account key clock i plan db)
  unfolding enqueue_plan
  enqueue_plan-IsWellFormed account key clock i [] db w = w
  enqueue_plan-IsWellFormed account key clock i ((t, reason) ∷ rest) db w =
      enqueue_plan-IsWellFormed account key clock (i + 1) rest
        (enqueue_core_work world.others account t key (reason_payload reason) (clock i) db)
        (enqueue_core_work-IsWellFormed account t key (reason_payload reason) (clock i) db w)

  process_claimed_work-IsWellFormed :
      (clock : ℕ → ℕ) (work : CoreWorkQueueEntry) (db : Db)
      → IsWellFormed db
      → IsWellFormed (process_claimed_work world cfg clock work db).0
  unfolding process_claimed_work enqueue_follow_up_work apply
  process_claimed_work-IsWellFormed clock work db w =
      let account = cfg.account_id in
      let worked = (world.execute work db).0 in
      let k = keeps.0 work db w in
      elim (Option-cases (world.execute work db).1) [
        | inl e ↦
            rw (e, process_claimed_work)
              (enqueue_plan-IsWellFormed account "pipeline" clock 1 _ _
                (apply-IsWellFormed (mark_done account work.id) (clock 0) worked k))
        | inr (error, e) ↦
            rw (e, process_claimed_work)
              (apply-IsWellFormed
                (mark_retry_or_dead account work.id work.attempt_count work.max_attempts
                  cfg.retry_after_secs error)
                (clock 0) worked k)
      ]

  process_batch-IsWellFormed :
      (clocks : ℕ → ℕ → ℕ) (k : ℕ) (work : List CoreWorkQueueEntry) (db : Db)
      → IsWellFormed db
      → IsWellFormed (process_batch world cfg clocks k work db).0
  unfolding process_batch
  process_batch-IsWellFormed clocks k [] db w = w
  process_batch-IsWellFormed clocks k (x ∷ rest) db w =
      process_batch-IsWellFormed clocks (k + 1) rest
        (process_claimed_work world cfg (clocks k) x db).0
        (process_claimed_work-IsWellFormed (clocks k) x db w)

  settle_batch-IsWellFormed :
      (clocks : ℕ → ℕ → ℕ) (work : CoreWorkQueueEntry) (db : Db)
      (r : Result (List CoreWorkQueueEntry))
      → IsWellFormed db
      → IsWellFormed (settle_batch world cfg clocks work (db, r)).0
  unfolding settle_batch
  settle_batch-IsWellFormed clocks work db (err x) w = w
  settle_batch-IsWellFormed clocks work db (ok entries) w =
      process_batch-IsWellFormed clocks 0 (work ∷ entries) db w

  settle_claim-IsWellFormed :
      (skip : ℕ → Bool) (now : ℕ) (clocks : ℕ → ℕ → ℕ) (db : Db)
      (r : Result (Option CoreWorkQueueEntry))
      → IsWellFormed db
      → IsWellFormed (settle_claim world cfg skip now clocks (db, r)).0
  unfolding settle_claim apply
  settle_claim-IsWellFormed skip now clocks db (err x) w = w
  settle_claim-IsWellFormed skip now clocks db (ok none) w = w
  settle_claim-IsWellFormed skip now clocks db (ok (some work)) w =
      let limit = cfg.subagent_concurrency - 1 in
      elim (Bool-cases (same_type work.work_type subagent_task && ltb 1 cfg.subagent_concurrency)) [
        | inl e ↦ rw e (
            settle_batch-IsWellFormed clocks work _ _ (
              apply-IsWellFormed (claim_batch cfg.account_id cfg.worker_id subagent_task limit skip)
                now db w))
        | inr e ↦ rw e (process_claimed_work-IsWellFormed (clocks 0) work db w)
      ]

  pub run_once-IsWellFormed :
      (skip : ℕ → Bool) (times : ℕ → ℕ) (clocks : ℕ → ℕ → ℕ) (db : Db)
      → IsWellFormed db
      → IsWellFormed (run_once world cfg skip times clocks db).0
  unfolding run_once apply
  run_once-IsWellFormed skip times clocks db w =
      let reset =
        (reset_stale_core_work_for_account cfg.account_id cfg.stale_after_secs (times 0) db).0 in
      settle_claim-IsWellFormed skip (times 2) clocks _ _ (
        apply-IsWellFormed (claim cfg.account_id cfg.worker_id skip) (times 1) reset
          (apply-IsWellFormed (reset_stale cfg.account_id cfg.stale_after_secs) (times 0) db w))
