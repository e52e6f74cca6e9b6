-- ===== src/CoreWork/CrashLoop.antt =====
-- src/database/core_work.rs: a worker that dies holds its claim until the lock is stale; the reset
-- gives the row back whatever its attempts.
use Prim.Native.String.{String}
use text.Mathlib.Text.{◌==◌ as str_eq}
use mail_subsystem.Prelude.{
  ℕ, suc, ◌+◌, ◌*◌, ◌≡◌, refl, Bool, true, false, List, [], ◌∷◌, arith, ==_refl, &&-cases, length,
  ◌∙◌,
}
use mail_subsystem.Prelude.Int.{ℤ, at_least}
use mail_subsystem.Prelude.Text.{Text}
use mail_subsystem.Sql.{update_where, select_where, order_by, insert_by, any_id}
use mail_subsystem.CoreWork.{Row, Db, is_claimable, second}
use mail_subsystem.CoreWork.Table.{
  claim_core_work_for_account, claim_row, claim_chosen, claimable, is_due,
}
use mail_subsystem.CoreWork.Settle.{
  unlocked_row, reset_row, reset_stale_core_work_for_account,
  recover_orphaned_core_work_for_account, is_claimed, left_4000,
}
use mail_subsystem.CoreWork.Effects.{rows-unlock_where}
use mail_subsystem.CoreWork.Ops.{Op, claim, reset_stale, recover, apply, run}

abbrev pub no_locks : ℕ → Bool
no_locks i = false

-- The delay after which a lock taken at `now` is stale.
abbrev pub wait : ℤ → ℕ
wait secs = at_least 1 secs * second + 1

-- How the loss of a worker is found: its lock is stale, or the core starts again.
pub data Loss : Type 0 where
  stale_lock restart : Loss

abbrev pub taken_back : Loss → String → ℤ → Text → Op
taken_back stale_lock account secs reason = reset_stale account secs
taken_back restart account secs reason = recover account reason

-- A worker claims and dies, and its loss is found, once for each entry from `now` on.
unfoldable pub crash_rounds : String → String → ℤ → Text → List Loss → ℕ → List (Op × ℕ)
crash_rounds account worker secs reason [] now = []
crash_rounds account worker secs reason (loss ∷ losses) now =
    (claim account worker no_locks, now)
    ∷ (taken_back loss account secs reason, now + wait secs)
    ∷ crash_rounds account worker secs reason losses (now + wait secs)

module _ (account worker : String) (secs : ℤ) (reason : Text) where
  -- The row after one such round.
  abbrev crashed : Loss → ℕ → Row → Row
  crashed stale_lock now r = reset_row (now + wait secs) (claim_row worker now r)
  crashed restart now r =
      unlocked_row (λ _. left_4000 reason) (now + wait secs) (claim_row worker now r)

  claim-one :
      (now : ℕ) (db : Db) (r : Row)
      → db.rows ≡ r ∷ []
      → is_due account now no_locks r ≡ true
      → (apply (claim account worker no_locks) now db).rows ≡ claim_row worker now r ∷ []
  unfolding apply claim_core_work_for_account claim_chosen claimable select_where order_by insert_by
      update_where any_id
  claim-one now db r e d =
      let mine : str_eq r.account_id account ≡ true = (&&-cases _ _ d).0 in
      rw e (rw d (rw (mine, ==_refl r.id) refl))

  taken_back-one :
      (loss : Loss) (now : ℕ) (db : Db) (r : Row)
      → db.rows ≡ claim_row worker now r ∷ []
      → str_eq r.account_id account ≡ true
      → (apply (taken_back loss account secs reason) (now + wait secs) db).rows
        ≡ crashed loss now r ∷ []
  unfolding apply reset_stale_core_work_for_account recover_orphaned_core_work_for_account
      update_where
  taken_back-one stale_lock now db r e mine = rw e (ground arith)
  taken_back-one restart now db r e mine =
      rw (rows-unlock_where account (is_claimed account) reason (now + wait secs) db)
        (rw e (rw mine refl))

  crashed-is_due :
      (loss : Loss) (now : ℕ) (r : Row)
      → is_due account now no_locks r ≡ true
      → is_due account (now + wait secs) no_locks (crashed loss now r) ≡ true
  crashed-is_due stale_lock now r d = ground arith
  crashed-is_due restart now r d = ground arith

  -- However often the worker dies, and however that is found, a due row that stands alone in the
  -- table is due again: n losses use n attempts, beyond any max_attempts, and never end in `dead`.
  pub crash_loop :
      (losses : List Loss) (now : ℕ) (db : Db) (r : Row)
      → db.rows ≡ r ∷ []
      → is_due account now no_locks r ≡ true
      → (last : Row) × ((run (crash_rounds account worker secs reason losses now) db).rows
          ≡ last ∷ [])
        × (last.attempt_count ≡ r.attempt_count + length losses)
        × (last.max_attempts ≡ r.max_attempts)
        × (is_claimable last.status ≡ true)
  unfolding run crash_rounds
  crash_loop [] now db r e d = (r, e, omega arith, refl, ground arith)
  crash_loop (loss ∷ losses) now db r e d =
      let claimed = apply (claim account worker no_locks) now db in
      let back = apply (taken_back loss account secs reason) (now + wait secs) claimed in
      let one = claim-one now db r e d in
      let two = taken_back-one loss now claimed r one (&&-cases _ _ d).0 in
      let (last, rows, attempts, most, claimable_again) =
        crash_loop losses (now + wait secs) back (crashed loss now r) two
          (crashed-is_due loss now r d) in
      (
        last,
        rows,
        crashed_attempts loss now r last losses attempts,
        most ∙ crashed_most loss now r,
        claimable_again,
      )
    where
      crashed_attempts :
          (loss : Loss) (now : ℕ) (r last : Row) (losses : List Loss)
          → last.attempt_count ≡ (crashed loss now r).attempt_count + length losses
          → last.attempt_count ≡ r.attempt_count + suc (length losses)
      crashed_attempts stale_lock now r last losses h = omega arith
      crashed_attempts restart now r last losses h = omega arith

      crashed_most :
          (loss : Loss) (now : ℕ) (r : Row) → (crashed loss now r).max_attempts ≡ r.max_attempts
      crashed_most stale_lock now r = refl
      crashed_most restart now r = refl
