-- ===== src/Coordinator/Claims.antt =====
-- src/core_work_queue.rs: a round of the coordinator leaves no claim behind.
use Prim.Native.String.{String}
use mail_subsystem.Prelude.{
  ℕ, ◌+◌, ◌≡◌, refl, inl, inr, false, not, ◌&&◌, List, [], ◌∷◌, arith, All, Bool-cases,
  Option-cases,
}
use mail_subsystem.Json.{Json}
use mail_subsystem.Sql.{update_where, any_id}
use mail_subsystem.Sql.Update.{All-update_where, All-upsert_where}
use mail_subsystem.CoreWork.{CoreWorkType, Row, Db, CoreWorkQueueEntry, is_processing}
use mail_subsystem.CoreWork.Table.{has_key, new_row, requeue, enqueue_core_work_for_account}
use mail_subsystem.CoreWork.Settle.{has_id, done_row, is_claimed}
use mail_subsystem.CoreWork.Effects.{rows-mark_done, rows-mark_retry_or_dead}
use mail_subsystem.CoreWork.Report.{has_active_core_work_type_for_account}
use mail_subsystem.Coordinator.{
  Plan, should_coalesce_core_work, enqueue_core_work, enqueue_plan, reason_payload,
}
use mail_subsystem.Coordinator.Run.{Config, World, enqueue_follow_up_work, process_claimed_work}

-- The rows of the account that are being processed are among those with the given ids.
abbrev pub ClaimsWithin : String → List ℕ → Db → Type 0
ClaimsWithin account js db =
    All (λ r. (is_claimed account r && not (any_id js r.id)) ≡ false) db.rows

module _ (account : String) (js : List ℕ) (others : ℕ → Db → Db)
    (others_quiet : (now : ℕ) (db : Db)
      → ClaimsWithin account js db
      → ClaimsWithin account js (others now db)) where
  pub enqueue-ClaimsWithin :
      (a : String) (t : CoreWorkType) (key : String) (payload : Json) (now : ℕ) (db : Db)
      → ClaimsWithin account js db
      → ClaimsWithin account js (enqueue_core_work others a t key payload now db)
  unfolding enqueue_core_work enqueue_core_work_for_account
  enqueue-ClaimsWithin a t key payload now db h =
      elim (Bool-cases
        (should_coalesce_core_work t && has_active_core_work_type_for_account a t db)) [
          | inl e ↦ rw (e, enqueue_core_work) h
          | inr e ↦
              rw (e, enqueue_core_work)
                (All-upsert_where (has_key a t key) (requeue payload now)
                  (new_row a t key payload now (others now db).next_id) _ _ (others now db).rows
                  (ground arith) (λ x k. k) (λ x _ k. requeued payload now x k)
                  (others_quiet now db h))
        ]
    where
      requeued :
          (payload : Json) (now : ℕ) (r : Row)
          → (is_claimed account r && not (any_id js r.id)) ≡ false
          → (is_claimed account (requeue payload now r) && not (any_id js r.id)) ≡ false
      requeued payload now r k = ground arith

  pub enqueue_plan-ClaimsWithin :
      (a key : String) (clock : ℕ → ℕ) (i : ℕ) (plan : Plan) (db : Db)
      → ClaimsWithin account js db
      → ClaimsWithin account js (enqueue_plan others a key clock i plan db)
  unfolding enqueue_plan
  enqueue_plan-ClaimsWithin a key clock i [] db h = h
  enqueue_plan-ClaimsWithin a key clock i ((t, reason) ∷ rest) db h =
      enqueue_plan-ClaimsWithin a key clock (i + 1) rest
        (enqueue_core_work others a t key (reason_payload reason) (clock i) db)
        (enqueue-ClaimsWithin a t key (reason_payload reason) (clock i) db h)

module _ (account : String) (js : List ℕ) where
  -- A settled row is no longer among the claims.
  settled_out :
      (i : ℕ) (f : Row → Row) (rows : List Row)
      → ((r : Row) → is_processing (f r).status ≡ false)
      → All (λ r. (is_claimed account r && not (any_id (i ∷ js) r.id)) ≡ false) rows
      → All
          (λ r. (is_claimed account r && not (any_id js r.id)) ≡ false)
          (update_where (has_id account i) f rows)
  unfolding any_id
  settled_out i f rows h = All-update_where (has_id account i) f _ _ rows λ r k.
      elim (Bool-cases (has_id account i r)) [
        | inl e ↦ rw e (rw (h r) (ground arith))
        | inr e ↦ rw e (ground (arith, k))
      ]

-- Neither what a kind of work does nor what other tasks do between a test and its INSERT claims a row.
abbrev pub ClaimsNothing : World → Type 0
ClaimsNothing world =
    ((account : String) (js : List ℕ) (work : CoreWorkQueueEntry) (db : Db)
      → ClaimsWithin account js db
      → ClaimsWithin account js (world.execute work db).0)
    × ((account : String) (js : List ℕ) (now : ℕ) (db : Db)
        → ClaimsWithin account js db
        → ClaimsWithin account js (world.others now db))

module _ (world : World) (cfg : Config) (quiet : ClaimsNothing world) where
  -- Whether the work succeeds or fails, its own claim ends and no other claim appears.
  pub process_claimed_work-ClaimsWithin :
      (clock : ℕ → ℕ) (work : CoreWorkQueueEntry) (js : List ℕ) (db : Db)
      → ClaimsWithin cfg.account_id (work.id ∷ js) db
      → ClaimsWithin cfg.account_id js (process_claimed_work world cfg clock work db).0
  unfolding process_claimed_work enqueue_follow_up_work
  process_claimed_work-ClaimsWithin clock work js db h =
      let account = cfg.account_id in
      let worked = (world.execute work db).0 in
      let k = quiet.0 account (work.id ∷ js) work db h in
      elim (Option-cases (world.execute work db).1) [
        | inl e ↦
            rw (e, process_claimed_work)
              (enqueue_plan-ClaimsWithin account js world.others (quiet.1 account js) account
                "pipeline" clock 1 _ _
                (rw (rows-mark_done account work.id (clock 0) worked)
                  (settled_out account js work.id (done_row (clock 0)) worked.rows (λ r. refl) k)))
        | inr (error, e) ↦
            rw (e, process_claimed_work)
              (rw
                (rows-mark_retry_or_dead account work.id work.attempt_count work.max_attempts
                  cfg.retry_after_secs error (clock 0) worked)
                (settled_out account js work.id _ worked.rows (λ r. ground arith) k))
      ]
