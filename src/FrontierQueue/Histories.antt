-- ===== src/FrontierQueue/Histories.antt =====
-- src/database/frontier_queue.rs: what every history of its statements keeps, and depth.
use Prim.Native.String.{String}
use mail_subsystem.Prelude.{
  ℕ, ◌≡◌, refl, inl, inr, Bool, false, List, [], ◌∷◌, arith, All, Bool-cases, is_some,
  if◌then◌else◌,
}
use mail_subsystem.Prelude.Int.{ℤ}
use mail_subsystem.Prelude.Text.{Text}
use mail_subsystem.Sql.{update_where, delete_where, upsert_where}
use mail_subsystem.Sql.Update.{
  Pairwise, All-update_where, Pairwise-update_where, All-upsert_where, Pairwise-upsert_where,
}
use mail_subsystem.CoreWork.{is_processing, is_done}
use mail_subsystem.CoreWork.Settle.{next_status}
use mail_subsystem.BodySync.{has_email}
use mail_subsystem.FrontierQueue.{
  FrontierRow, FrontierDb, has_message, new_frontier_row, restart_row, frontier_claim_row,
  frontier_settled_row, frontier_reset_row, enqueue_frontier_analysis_for_account,
  claim_frontier_queue_batch_for_account, mark_frontier_done_for_account,
  mark_frontier_retry_or_dead_for_account, reset_stale_frontier_processing_for_account,
}

pub data FrontierOp : Type 0 where
  enqueue : String → String → FrontierOp
  claim : String → String → ℕ → (String → Bool) → FrontierOp
  mark_done : String → String → FrontierOp
  mark_retry_or_dead : String → String → ℕ → ℕ → ℤ → Text → FrontierOp
  reset_stale : String → ℤ → FrontierOp

unfoldable pub frontier_apply : FrontierOp → ℕ → FrontierDb → FrontierDb
frontier_apply (enqueue account message) now db =
    (enqueue_frontier_analysis_for_account account message now db).0
frontier_apply (claim account worker limit skip) now db =
    (claim_frontier_queue_batch_for_account account worker limit skip now db).0
frontier_apply (mark_done account message) now db =
    (mark_frontier_done_for_account account message db).0
frontier_apply (mark_retry_or_dead account message attempts max_attempts retry error) now db =
    (mark_frontier_retry_or_dead_for_account account message attempts max_attempts retry error now
      db).0
frontier_apply (reset_stale account secs) now db =
    (reset_stale_frontier_processing_for_account account secs now db).0

unfoldable pub frontier_run : List (FrontierOp × ℕ) → FrontierDb → FrontierDb
frontier_run [] db = db
frontier_run ((op, now) ∷ ops) db = frontier_run ops (frontier_apply op now db)

-- A lock and an owner exactly while a row is being processed, and the CHECK of schema.sql: no row
-- of this table is done.
pub record IsFrontierRow (r : FrontierRow) : Type 0 where
  pub lock : is_some r.locked_at ≡ is_processing r.status
  pub owner : is_some r.worker_id ≡ is_processing r.status
  pub never_done : is_done r.status ≡ false

abbrev pub MessagesDiffer : FrontierRow → FrontierRow → Type 0
MessagesDiffer x y = has_message y.account_id y.message_id x ≡ false

pub record IsFrontierTable (rows : List FrontierRow) : Type 0 where
  pub keys_unique : Pairwise MessagesDiffer rows
  pub all_right : All IsFrontierRow rows

module _ (p : FrontierRow → Bool) where
  All-delete_where :
      (P : FrontierRow → Type 0) (rows : List FrontierRow)
      → All P rows
      → All P (delete_where p rows)
  unfolding delete_where
  All-delete_where P [] h = tt
  All-delete_where P (x ∷ xs) h = elim (Bool-cases (p x)) [
    | inl e ↦ rw e (All-delete_where P xs h.1)
    | inr e ↦ rw e (h.0, All-delete_where P xs h.1)
  ]

  delete_where-IsFrontierTable :
      (rows : List FrontierRow) → IsFrontierTable rows → IsFrontierTable (delete_where p rows)
  unfolding delete_where
  delete_where-IsFrontierTable rows w = record {
    keys_unique = go rows w.keys_unique;
    all_right = All-delete_where IsFrontierRow rows w.all_right;
  }
    where
      go :
          (xs : List FrontierRow)
          → Pairwise MessagesDiffer xs
          → Pairwise MessagesDiffer (delete_where p xs)
      go [] h = tt
      go (x ∷ xs) h = elim (Bool-cases (p x)) [
        | inl e ↦ rw e (go xs h.1)
        | inr e ↦ rw e (All-delete_where (λ y. MessagesDiffer x y) xs h.0, go xs h.1)
      ]

  module _ (f : FrontierRow → FrontierRow)
      (account : (r : FrontierRow) → (f r).account_id ≡ r.account_id)
      (message : (r : FrontierRow) → (f r).message_id ≡ r.message_id) where
    updated_account : (r : FrontierRow) → (if p r then f r else r).account_id ≡ r.account_id
    updated_account r = ground (arith, account r)

    updated_message : (r : FrontierRow) → (if p r then f r else r).message_id ≡ r.message_id
    updated_message r = ground (arith, message r)

    rows_updated-IsFrontierTable :
        (rows : List FrontierRow)
        → ((r : FrontierRow) → IsFrontierRow r → IsFrontierRow (f r))
        → IsFrontierTable rows
        → IsFrontierTable (update_where p f rows)
    rows_updated-IsFrontierTable rows right w = record {
      keys_unique =
          Pairwise-update_where p f IsFrontierRow MessagesDiffer rows
            (λ x y _ _ h.
              rw (updated_account x, updated_account y, updated_message x, updated_message y) h)
            w.all_right w.keys_unique;
      all_right =
          All-update_where p f IsFrontierRow IsFrontierRow rows
            (λ x h. elim (Bool-cases (p x)) [ inl e ↦ rw e (right x h) | inr e ↦ rw e h ])
            w.all_right;
    }

upserted-IsFrontierTable :
    (account message : String) (now : ℕ) (rows : List FrontierRow)
    → IsFrontierTable rows
    → IsFrontierTable (
        upsert_where
          (has_message account message)
          (restart_row now)
          (new_frontier_row account message now)
          rows)
upserted-IsFrontierTable account message now rows w =
    let p = has_message account message in
    let new = new_frontier_row account message now in
    record {
      keys_unique =
          Pairwise-upsert_where p (restart_row now) new IsFrontierRow MessagesDiffer rows
            (λ x _ h. h) (λ x y _ _ _ h. h) (λ x y _ _ _ h. h) w.all_right w.keys_unique;
      all_right =
          All-upsert_where p (restart_row now) new IsFrontierRow IsFrontierRow rows
            (record { lock = refl; owner = refl; never_done = refl }) (λ x h. h)
            (λ x _ h. record { lock = refl; owner = refl; never_done = refl }) w.all_right;
    }

enqueue-IsFrontierTable :
    (account message : String) (now : ℕ) (db : FrontierDb)
    → IsFrontierTable db.rows
    → IsFrontierTable (enqueue_frontier_analysis_for_account account message now db).0.rows
unfolding enqueue_frontier_analysis_for_account
enqueue-IsFrontierTable account message now db w =
    elim (Bool-cases (has_email account message db.emails)) [
      | inl e ↦ rw e (upserted-IsFrontierTable account message now db.rows w)
      | inr e ↦ rw e w
    ]

frontier_apply-IsFrontierTable :
    (op : FrontierOp) (now : ℕ) (db : FrontierDb)
    → IsFrontierTable db.rows
    → IsFrontierTable (frontier_apply op now db).rows
unfolding frontier_apply enqueue_frontier_analysis_for_account
    claim_frontier_queue_batch_for_account mark_frontier_done_for_account
    mark_frontier_retry_or_dead_for_account reset_stale_frontier_processing_for_account
frontier_apply-IsFrontierTable (enqueue account message) now db w =
    enqueue-IsFrontierTable account message now db w
frontier_apply-IsFrontierTable (claim account worker limit skip) now db w =
    rows_updated-IsFrontierTable _ (frontier_claim_row worker now) (λ r. refl) (λ r. refl) db.rows
      (λ r h. record { lock = refl; owner = refl; never_done = refl }) w
frontier_apply-IsFrontierTable (mark_done account message) now db w =
    delete_where-IsFrontierTable _ db.rows w
frontier_apply-IsFrontierTable (mark_retry_or_dead account message a m retry error) now db w =
    rows_updated-IsFrontierTable _ (frontier_settled_row (next_status a m) retry error now)
      (λ r. refl) (λ r. refl) db.rows
      (λ r h. record { lock = ground arith; owner = ground arith; never_done = ground arith }) w
frontier_apply-IsFrontierTable (reset_stale account secs) now db w =
    rows_updated-IsFrontierTable _ (frontier_reset_row now) (λ r. refl) (λ r. refl) db.rows
      (λ r h. record { lock = refl; owner = refl; never_done = refl }) w

-- Any history of statements keeps the table of frontier jobs right: no two rows have the same
-- account and message, a row has a lock and an owner exactly while it is being processed, and no
-- row has the status done, which the table's CHECK would refuse.
pub frontier_run-IsFrontierTable :
    (ops : List (FrontierOp × ℕ)) (db : FrontierDb)
    → IsFrontierTable db.rows
    → IsFrontierTable (frontier_run ops db).rows
unfolding frontier_run
frontier_run-IsFrontierTable [] db w = w
frontier_run-IsFrontierTable ((op, now) ∷ ops) db w =
    frontier_run-IsFrontierTable ops (frontier_apply op now db)
      (frontier_apply-IsFrontierTable op now db w)
