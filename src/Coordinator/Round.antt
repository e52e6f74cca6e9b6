-- ===== src/Coordinator/Round.antt =====
-- src/core_work_queue.rs: run_once as a whole ends every claim that it makes.
use Prim.Native.String.{String}
use mail_subsystem.Prelude.{
  ℕ, ◌+◌, ◌-◌, ◌≡◌, refl, inl, inr, Bool, true, false, not, ◌&&◌, List, [], ◌∷◌, arith, In, All,
  All-In, All-of_In, Bool-cases, ◌==◌, ==_refl, map, ltb,
}
use mail_subsystem.Prelude.Int.{ℤ}
use mail_subsystem.Sql.{update_where, select_where, any_id}
use mail_subsystem.Sql.Update.{All-update_where, In-select_where}
use mail_subsystem.CoreWork.{subagent_task, same_type, Row, Db, CoreWorkQueueEntry}
use mail_subsystem.CoreWork.Table.{claim_row, is_chosen, claim_core_work_batch_for_account}
use mail_subsystem.CoreWork.Settle.{
  is_claimed, reset_row, is_stale, reset_stale_core_work_for_account,
}
use mail_subsystem.CoreWork.Invariant.{IsWellFormed, apply-IsWellFormed}
use mail_subsystem.CoreWork.Ops.{apply, claim, reset_stale}
use mail_subsystem.CoreWork.Claim.{claim-ClaimsFirst, nothing_due, first_due, entry}
use mail_subsystem.CoreWork.ClaimBatch.{claim_batch-IsBatchClaim, batch}
use mail_subsystem.Coordinator.Run.{
  Config, World, process_claimed_work, process_batch, settle_batch, settle_claim, run_once,
}
use mail_subsystem.Coordinator.Claims.{
  ClaimsWithin, ClaimsNothing, process_claimed_work-ClaimsWithin,
}

abbrev entry_ids : List CoreWorkQueueEntry → List ℕ
entry_ids = map (λ (e : CoreWorkQueueEntry). e.id)

entry_ids-any_id :
    (worker : String) (now : ℕ) (q : Row) (rs : List Row)
    → In q rs
    → any_id (entry_ids (map entry (map (claim_row worker now) rs))) q.id ≡ true
unfolding any_id
entry_ids-any_id worker now q [] m = absurd m
entry_ids-any_id worker now q (r ∷ rs) (inl e) = rw (e, ==_refl r.id, any_id) refl
entry_ids-any_id worker now q (r ∷ rs) (inr m) = ground (arith, entry_ids-any_id worker now q rs m)

any_id-head : (i x : ℕ) (js : List ℕ) → any_id (i ∷ []) x ≡ true → any_id (i ∷ js) x ≡ true
unfolding any_id
any_id-head i x js h = ground arith

any_id-tail : (i x : ℕ) (js : List ℕ) → any_id js x ≡ true → any_id (i ∷ js) x ≡ true
unfolding any_id
any_id-tail i x js h = ground arith

any_id-one : (x i : ℕ) → (x == i) ≡ true → any_id (i ∷ []) x ≡ true
unfolding any_id
any_id-one x i h = ground arith

-- Claims of rows with listed ids stay within the list.
claimed_within :
    (account worker : String) (now : ℕ) (p : Row → Bool) (js ks : List ℕ) (rows : List Row)
    → ((i : ℕ) → any_id js i ≡ true → any_id ks i ≡ true)
    → ((q : Row) → In q rows → p q ≡ true → any_id ks q.id ≡ true)
    → All (λ r. (is_claimed account r && not (any_id js r.id)) ≡ false) rows
    → All
        (λ r. (is_claimed account r && not (any_id ks r.id)) ≡ false)
        (update_where p (claim_row worker now) rows)
claimed_within account worker now p js ks rows sub listed h =
    All-update_where p (claim_row worker now) (λ r. In r rows) _ rows
      (λ r m. elim (Bool-cases (p r)) [
        | inl e ↦ rw (e, listed r m e) (ground arith)
        | inr e ↦ rw e (wider r (All-In _ rows h r m))
      ])
      (All-of_In _ rows (λ r m. m))
  where
    wider :
        (r : Row)
        → (is_claimed account r && not (any_id js r.id)) ≡ false
        → (is_claimed account r && not (any_id ks r.id)) ≡ false
    wider r k = elim (Bool-cases (any_id js r.id)) [
      | inl e ↦ rw (sub r.id e) (ground arith)
      | inr e ↦ ground arith
    ]

module _ (world : World) (cfg : Config) (quiet : ClaimsNothing world) where
  process_batch-ClaimsWithin :
      (clocks : ℕ → ℕ → ℕ) (k : ℕ) (work : List CoreWorkQueueEntry) (db : Db)
      → ClaimsWithin cfg.account_id (entry_ids work) db
      → ClaimsWithin cfg.account_id [] (process_batch world cfg clocks k work db).0
  unfolding process_batch
  process_batch-ClaimsWithin clocks k [] db h = h
  process_batch-ClaimsWithin clocks k (w ∷ rest) db h =
      process_batch-ClaimsWithin clocks (k + 1) rest
        (process_claimed_work world cfg (clocks k) w db).0
        (process_claimed_work-ClaimsWithin world cfg quiet (clocks k) w (entry_ids rest) db h)

  settle_batch-ClaimsWithin :
      (skip : ℕ → Bool) (now : ℕ) (clocks : ℕ → ℕ → ℕ) (work : CoreWorkQueueEntry) (db : Db)
      → IsWellFormed db
      → ClaimsWithin cfg.account_id (work.id ∷ []) db
      → ClaimsWithin cfg.account_id []
          (settle_batch world cfg clocks work (
            claim_core_work_batch_for_account cfg.account_id cfg.worker_id subagent_task
              (cfg.subagent_concurrency - 1)
              skip
              now
              db)).0
  unfolding settle_batch
  settle_batch-ClaimsWithin skip now clocks work db w h =
      let account = cfg.account_id in
      let limit = cfg.subagent_concurrency - 1 in
      let spec = claim_batch-IsBatchClaim account cfg.worker_id subagent_task limit skip now db w in
      let p = is_chosen account (batch account cfg.worker_id subagent_task limit skip now db) in
      let more = map entry (map (claim_row cfg.worker_id now) (select_where p db.rows)) in
      rw spec.outcome (
        process_batch-ClaimsWithin clocks 0 (work ∷ more) _ (
          claimed_within account cfg.worker_id now p (work.id ∷ []) (work.id ∷ entry_ids more)
            db.rows (λ i e. any_id-head work.id i (entry_ids more) e)
            (λ q m e. any_id-tail work.id q.id (entry_ids more) (
              entry_ids-any_id cfg.worker_id now q (select_where p db.rows)
                (In-select_where p q db.rows m e)))
            h))

  reset-ClaimsWithin :
      (secs : ℤ) (now : ℕ) (db : Db)
      → ClaimsWithin cfg.account_id [] db
      → ClaimsWithin cfg.account_id []
          (reset_stale_core_work_for_account cfg.account_id secs now db).0
  unfolding reset_stale_core_work_for_account
  reset-ClaimsWithin secs now db h =
      All-update_where (is_stale cfg.account_id secs now) (reset_row now)
        (λ r. (is_claimed cfg.account_id r && not (any_id [] r.id)) ≡ false)
        (λ r. (is_claimed cfg.account_id r && not (any_id [] r.id)) ≡ false) db.rows
        (λ r k. elim (Bool-cases (is_stale cfg.account_id secs now r)) [
          | inl e ↦ rw e (ground arith)
          | inr e ↦ rw e k
        ])
        h

  head-ClaimsWithin :
      (now : ℕ) (r : Row) (db : Db)
      → ClaimsWithin cfg.account_id [] db
      → ClaimsWithin cfg.account_id (r.id ∷ []) (record db {
        rows = update_where (λ q. q.id == r.id) (claim_row cfg.worker_id now) db.rows;
      })
  head-ClaimsWithin now r db h =
      claimed_within cfg.account_id cfg.worker_id now (λ q. q.id == r.id) [] (r.id ∷ []) db.rows
        (λ i e. any_id-tail r.id i [] e) (λ q m e. named q e) h
    where
      named : (q : Row) → (q.id == r.id) ≡ true → any_id (r.id ∷ []) q.id ≡ true
      named q e = any_id-one q.id r.id e

  -- If executing work claims nothing, nor other tasks between a test and its INSERT: a round on a
  -- well-formed table with no claimed row of the account ends with none, whether the work succeeds,
  -- fails or runs as a batch.
  pub run_once-ClaimsWithin :
      (skip : ℕ → Bool) (times : ℕ → ℕ) (clocks : ℕ → ℕ → ℕ) (db : Db)
      → IsWellFormed db
      → ClaimsWithin cfg.account_id [] db
      → ClaimsWithin cfg.account_id [] (run_once world cfg skip times clocks db).0
  unfolding run_once settle_claim apply
  run_once-ClaimsWithin skip times clocks db w h =
      let account = cfg.account_id in
      let op = reset_stale account cfg.stale_after_secs in
      let reset = (reset_stale_core_work_for_account account cfg.stale_after_secs (times 0) db).0 in
      let w' : IsWellFormed reset = apply-IsWellFormed op (times 0) db w in
      let h' : ClaimsWithin account [] reset =
        reset-ClaimsWithin cfg.stale_after_secs (times 0) db h in
      let w'' = apply-IsWellFormed (claim account cfg.worker_id skip) (times 1) reset w' in
      elim (claim-ClaimsFirst account cfg.worker_id skip (times 1) reset w') [
        | nothing_due none_due e ↦ rw e h'
        | first_due r m d first e ↦
            let k = head-ClaimsWithin (times 1) r reset h' in
            let named = entry (claim_row cfg.worker_id (times 1) r) in
            let wf : IsWellFormed (record reset {
              rows =
                  update_where (λ q. q.id == r.id) (claim_row cfg.worker_id (times 1)) reset.rows;
            }) =
              rw (e, apply) at w'' in
            rw e
              (elim (Bool-cases
                (same_type r.work_type subagent_task && ltb 1 cfg.subagent_concurrency)) [
                  | inl b ↦ rw b (settle_batch-ClaimsWithin skip (times 2) clocks named _ wf k)
                  | inr b ↦
                      rw b
                        (process_claimed_work-ClaimsWithin world cfg quiet (clocks 0) named [] _ k)
                ])
      ]
