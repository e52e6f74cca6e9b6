-- ===== src/Coordinator/Coalesce.antt =====
-- src/core_work_queue.rs: the pipeline's work is coalesced, so that an account has at most one
-- active row of each kind.
use Prim.Native.String.{String}
use mail_subsystem.Prelude.Text.{Text}
use text.Mathlib.Text.{◌==◌ as str_eq}
use mail_subsystem.Prelude.{
  ℕ, ◌≡◌, refl, inl, inr, Bool, true, false, not, ◌&&◌, ◌||◌, List, [], ◌∷◌, arith, All, All-mono,
  Bool-cases,
}
use mail_subsystem.Sql.{update_where}
use mail_subsystem.Sql.Update.{Pairwise, updated, Pairwise-update_where}
use mail_subsystem.CoreWork.{same_type, is_active, is_claimable, Row, Db}
use mail_subsystem.CoreWork.Table.{
  claim_row, claim_core_work_for_account, claim_core_work_batch_for_account,
}
use mail_subsystem.CoreWork.Settle.{
  done_row, settled_row, next_status, unlocked_row, reset_row, has_id,
  reset_stale_core_work_for_account, recover_orphaned_core_work_for_account,
  release_core_work_for_worker_for_account, unlock_where, left_4000, is_claimed, is_claimed_by,
  is_stale,
}
use mail_subsystem.CoreWork.ClaimEffect.{ClaimsSome, claim-ClaimsSome, claim_batch-ClaimsSome}
use mail_subsystem.CoreWork.Effects.{rows-mark_done, rows-mark_retry_or_dead, rows-unlock_where}
use mail_subsystem.CoreWork.Invariant.{IsWellFormed, KeepsIdentity, same_identity}
use mail_subsystem.CoreWork.Ops.{
  Op, enqueue, claim, claim_batch, mark_done, mark_retry_or_dead, reset_stale, recover, release,
  apply,
}
use mail_subsystem.Coordinator.{should_coalesce_core_work}

-- Two active rows of one account and one kind that is coalesced.
abbrev pub clash : Row → Row → Bool
clash x y =
    should_coalesce_core_work x.work_type
    && (str_eq x.account_id y.account_id
        && (same_type x.work_type y.work_type && (is_active x.status && is_active y.status)))

abbrev pub OneActive : Db → Type 0
OneActive db = Pairwise (λ (x y : Row). clash x y ≡ false) db.rows

-- An UPDATE that makes no row active keeps this.
pub rows_updated-OneActive :
    (p : Row → Bool) (f : Row → Row) (rows : List Row)
    → KeepsIdentity f
    → All (λ r. (p r && (is_active (f r).status && not (is_active r.status))) ≡ false) rows
    → Pairwise (λ (x y : Row). clash x y ≡ false) rows
    → Pairwise (λ (x y : Row). clash x y ≡ false) (update_where p f rows)
rows_updated-OneActive p f rows k h =
    Pairwise-update_where p f
      (λ r. (p r && (is_active (f r).status && not (is_active r.status))) ≡ false)
      (λ x y. clash x y ≡ false) rows
      (λ x y hx hy c.
        let quiet_x = quiet x hx in
        let quiet_y = quiet y hy in
        rw (same_account x, same_account y, same_work_type x, same_work_type y)
          (smaller (should_coalesce_core_work x.work_type) (str_eq x.account_id y.account_id)
            (same_type x.work_type y.work_type) (is_active x.status) (is_active y.status)
            (is_active (updated p f x).status) (is_active (updated p f y).status) quiet_x quiet_y
            c))
      h
  where
    same_account : (r : Row) → (updated p f r).account_id ≡ r.account_id
    same_account r = ground (arith, k.account_id r)

    same_work_type : (r : Row) → (updated p f r).work_type ≡ r.work_type
    same_work_type r = ground (arith, k.work_type r)

    quiet :
        (r : Row)
        → (p r && (is_active (f r).status && not (is_active r.status))) ≡ false
        → (is_active (updated p f r).status && not (is_active r.status)) ≡ false
    quiet r e = elim (Bool-cases (p r)) [
      | inl t ↦ rw t (rw t at e)
      | inr t ↦ rw t (self (is_active r.status))
    ]
      where
        self : (b : Bool) → (b && not b) ≡ false
        self true = refl
        self false = refl

    smaller :
        (c s t a b a' b' : Bool)
        → (a' && not a) ≡ false
        → (b' && not b) ≡ false
        → (c && (s && (t && (a && b)))) ≡ false
        → (c && (s && (t && (a' && b')))) ≡ false
    smaller c s t a b a' b' ha hb h = ground arith

all_quiet :
    (p : Row → Bool) (f : Row → Row) (rows : List Row)
    → ((r : Row) → p r ≡ true → (is_active (f r).status && not (is_active r.status)) ≡ false)
    → All (λ r. (p r && (is_active (f r).status && not (is_active r.status))) ≡ false) rows
all_quiet p f [] h = tt
all_quiet p f (r ∷ rs) h =
    (elim (Bool-cases (p r)) [ inl e ↦ rw e (h r e) | inr e ↦ rw e refl ], all_quiet p f rs h)

-- A failure is reported only of a row that is still active.
abbrev pub reports_active : Op → Row → Bool
reports_active (mark_retry_or_dead account i a m retry error) r =
    not (has_id account i r) || is_active r.status
reports_active _ r = true

abbrev pub is_enqueue : Op → Bool
is_enqueue (enqueue account t key payload) = true
is_enqueue _ = false

claimed-OneActive :
    (worker : String) (now : ℕ) (db db' : Db)
    → ClaimsSome worker now db db'
    → OneActive db
    → OneActive db'
claimed-OneActive worker now db db' (p, e, q) o = rw e (
    rows_updated-OneActive p (claim_row worker now) db.rows
      (same_identity (λ r. refl) (λ r. refl) (λ r. refl) (λ r. refl))
      (All-mono _ _ db.rows (λ r h. quiet r h) q) o)
  where
    quiet :
        (r : Row)
        → (p r && not (is_claimable r.status)) ≡ false
        → (p r && (true && not (is_active r.status))) ≡ false
    quiet r h = ground arith

unlocked-OneActive :
    (account : String) (fits : Row → Bool) (reason : Text) (now : ℕ) (db : Db)
    → ((r : Row) → fits r ≡ true → (true && not (is_active r.status)) ≡ false)
    → OneActive db
    → OneActive (unlock_where account fits reason now db).0
unlocked-OneActive account fits reason now db h o =
    rw (rows-unlock_where account fits reason now db) (
      rows_updated-OneActive fits (unlocked_row (λ _. left_4000 reason) now) db.rows
        (same_identity (λ r. refl) (λ r. refl) (λ r. refl) (λ r. refl))
        (all_quiet fits (unlocked_row (λ _. left_4000 reason) now) db.rows h) o)

-- On a well-formed table every operation but an enqueue keeps at most one active row of each
-- coalesced kind in an account, if failures are reported only of rows that are still active.
pub apply-OneActive :
    (op : Op) (now : ℕ) (db : Db)
    → IsWellFormed db
    → is_enqueue op ≡ false
    → All (λ r. reports_active op r ≡ true) db.rows
    → OneActive db
    → OneActive (apply op now db)
unfolding apply reset_stale_core_work_for_account recover_orphaned_core_work_for_account
    release_core_work_for_worker_for_account
apply-OneActive (enqueue account t key payload) now db w n q o = cc
apply-OneActive (claim account worker skip) now db w n q o =
    claimed-OneActive worker now db (claim_core_work_for_account account worker skip now db).0
      (claim-ClaimsSome account worker skip now db w) o
apply-OneActive (claim_batch account worker t limit skip) now db w n q o =
    claimed-OneActive worker now db
      (claim_core_work_batch_for_account account worker t limit skip now db).0
      (claim_batch-ClaimsSome account worker skip now db w t limit) o
apply-OneActive (mark_done account i) now db w n q o = rw (rows-mark_done account i now db) (
    rows_updated-OneActive (has_id account i) (done_row now) db.rows
      (same_identity (λ r. refl) (λ r. refl) (λ r. refl) (λ r. refl))
      (all_quiet _ (done_row now) db.rows (λ r h. refl)) o)
apply-OneActive (mark_retry_or_dead account i a m retry error) now db w n q o =
    rw (rows-mark_retry_or_dead account i a m retry error now db) (
      rows_updated-OneActive (has_id account i) (settled_row (next_status a m) retry error now)
        db.rows (same_identity (λ r. refl) (λ r. refl) (λ r. refl) (λ r. refl))
        (All-mono _ _ db.rows (λ r h. reported r h) q) o)
  where
    reported :
        (r : Row)
        → (not (has_id account i r) || is_active r.status) ≡ true
        → (has_id account i r && (is_active (next_status a m) && not (is_active r.status))) ≡ false
    reported r h = ground arith
apply-OneActive (reset_stale account secs) now db w n q o =
    rows_updated-OneActive (is_stale account secs now) (reset_row now) db.rows
      (same_identity (λ r. refl) (λ r. refl) (λ r. refl) (λ r. refl))
      (all_quiet (is_stale account secs now) (reset_row now) db.rows (λ r h. stale_active r h)) o
  where
    stale_active :
        (r : Row) → is_stale account secs now r ≡ true → (true && not (is_active r.status)) ≡ false
    stale_active r h = ground arith
apply-OneActive (recover account reason) now db w n q o =
    unlocked-OneActive account (is_claimed account) reason now db (λ r h. ground arith) o
apply-OneActive (release account worker reason) now db w n q o =
    unlocked-OneActive account (is_claimed_by account worker) reason now db (λ r h. ground arith) o
