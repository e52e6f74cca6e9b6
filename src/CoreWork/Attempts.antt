-- ===== src/CoreWork/Attempts.antt =====
-- src/database/core_work.rs: how attempt_count and max_attempts bound the claims of a row.
use Prim.Native.String.{String}
use mail_subsystem.Prelude.{
  ℕ, ◌+◌, ◌≤◌, ◌<◌, ◌≡◌, Bool, true, false, not, ◌&&◌, ◌||◌, List, [], ◌∷◌, arith, All,
  if◌then◌else◌, ◌==◌,
}
use mail_subsystem.Prelude.Int.{ℤ}
use mail_subsystem.Prelude.Text.{Text}
use mail_subsystem.Json.{Json}
use mail_subsystem.Sql.{update_where}
use mail_subsystem.Sql.Update.{All-update_where, All-upsert_where, updated}
use mail_subsystem.CoreWork.{Row, Db, is_claimable}
use mail_subsystem.CoreWork.Table.{
  has_key, new_row, requeue, enqueue_core_work_for_account, claim_row,
}
use mail_subsystem.CoreWork.Settle.{done_row, settled_row, next_status, has_id}
use mail_subsystem.CoreWork.Invariant.{IsWellFormed}
use mail_subsystem.CoreWork.ClaimEffect.{claim-ClaimsSome, claim_batch-ClaimsSome}
use mail_subsystem.CoreWork.Effects.{rows-mark_done, rows-mark_retry_or_dead}
use mail_subsystem.CoreWork.Ops.{
  Op, enqueue, claim, claim_batch, mark_done, mark_retry_or_dead, reset_stale, recover, release,
  apply,
}

-- A row that can be claimed has an attempt left, and no row has used more than it has.
pub record IsWithinBudget (r : Row) : Type 0 where
  pub some_attempts : 0 < r.max_attempts
  pub attempts : r.attempt_count + (if is_claimable r.status then 1 else 0) ≤ r.max_attempts

-- The operations that take a claim away from its holder.
abbrev pub takes_back : Op → Bool
takes_back (reset_stale account secs) = true
takes_back (recover account reason) = true
takes_back (release account worker reason) = true
takes_back _ = false

-- A failure is reported with the counts of the row, which the claim returned.
abbrev pub reports_counts : Op → Row → Bool
reports_counts (mark_retry_or_dead account i attempts max_attempts retry error) r =
    not (has_id account i r) || (attempts == r.attempt_count && max_attempts == r.max_attempts)
reports_counts _ r = true

claimed-IsWithinBudget :
    (p : Row → Bool) (worker : String) (now : ℕ) (rows : List Row)
    → All (λ r. (p r && not (is_claimable r.status)) ≡ false) rows
    → All IsWithinBudget rows
    → All IsWithinBudget (update_where p (claim_row worker now) rows)
unfolding update_where
claimed-IsWithinBudget p worker now [] q h = tt
claimed-IsWithinBudget p worker now (r ∷ rs) q h =
    (one r q.0 h.0, claimed-IsWithinBudget p worker now rs q.1 h.1)
  where
    one :
        (r : Row)
        → (p r && not (is_claimable r.status)) ≡ false
        → IsWithinBudget r
        → IsWithinBudget (updated p (claim_row worker now) r)
    one r q b = ground arith

settled-IsWithinBudget :
    (account : String) (i a m : ℕ) (retry : ℤ) (error : Text) (now : ℕ) (rows : List Row)
    → All (λ r. reports_counts (mark_retry_or_dead account i a m retry error) r ≡ true) rows
    → All IsWithinBudget rows
    → All IsWithinBudget
        (update_where (has_id account i) (settled_row (next_status a m) retry error now) rows)
unfolding update_where
settled-IsWithinBudget account i a m retry error now [] q h = tt
settled-IsWithinBudget account i a m retry error now (r ∷ rs) q h =
    (one r q.0 h.0, settled-IsWithinBudget account i a m retry error now rs q.1 h.1)
  where
    one :
        (r : Row)
        → reports_counts (mark_retry_or_dead account i a m retry error) r ≡ true
        → IsWithinBudget r
        → IsWithinBudget
            (updated (has_id account i) (settled_row (next_status a m) retry error now) r)
    one r q b = ground arith

requeue-IsWithinBudget :
    (payload : Json) (now : ℕ) (r : Row) → IsWithinBudget r → IsWithinBudget (requeue payload now r)
requeue-IsWithinBudget payload now r b = ground arith

done-IsWithinBudget :
    (account : String) (i now : ℕ) (r : Row)
    → IsWithinBudget r
    → IsWithinBudget (updated (has_id account i) (done_row now) r)
done-IsWithinBudget account i now r b = ground arith

-- On a well-formed table an operation that takes no claim back keeps every row within its budget of
-- attempts, if a failure is reported with the row's own counts: no row uses more than max_attempts,
-- and a row that can be claimed has an attempt left.
pub apply-IsWithinBudget :
    (op : Op) (now : ℕ) (db : Db)
    → IsWellFormed db
    → takes_back op ≡ false
    → All (λ r. reports_counts op r ≡ true) db.rows
    → All IsWithinBudget db.rows
    → All IsWithinBudget (apply op now db).rows
unfolding apply enqueue_core_work_for_account
apply-IsWithinBudget (enqueue account t key payload) now db w b q h =
    All-upsert_where (has_key account t key) (requeue payload now)
      (new_row account t key payload now db.next_id) IsWithinBudget IsWithinBudget db.rows
      (record { some_attempts = omega arith; attempts = omega arith }) (λ x k. k)
      (λ x _ k. requeue-IsWithinBudget payload now x k) h
apply-IsWithinBudget (claim account worker skip) now db w b q h =
    let (p, e, q') = claim-ClaimsSome account worker skip now db w in
    rw e (claimed-IsWithinBudget p worker now db.rows q' h)
apply-IsWithinBudget (claim_batch account worker t limit skip) now db w b q h =
    let (p, e, q') = claim_batch-ClaimsSome account worker skip now db w t limit in
    rw e (claimed-IsWithinBudget p worker now db.rows q' h)
apply-IsWithinBudget (mark_done account i) now db w b q h = rw (rows-mark_done account i now db) (
    All-update_where (has_id account i) (done_row now) IsWithinBudget IsWithinBudget db.rows
      (λ x k. done-IsWithinBudget account i now x k) h)
apply-IsWithinBudget (mark_retry_or_dead account i a m retry error) now db w b q h =
    rw (rows-mark_retry_or_dead account i a m retry error now db)
      (settled-IsWithinBudget account i a m retry error now db.rows q h)
apply-IsWithinBudget (reset_stale account secs) now db w b q h = cc
apply-IsWithinBudget (recover account reason) now db w b q h = cc
apply-IsWithinBudget (release account worker reason) now db w b q h = cc
