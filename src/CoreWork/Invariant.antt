-- ===== src/CoreWork/Invariant.antt =====
-- src/database/core_work.rs: what holds of core_work_queue between two statements.
use mail_subsystem.Prelude.{
  ℕ, ◌<◌, ◌≡◌, refl, inl, inr, Bool, false, List, [], ◌∷◌, arith, All, Bool-cases, is_some,
}
use Prim.Native.String.{String}
use mail_subsystem.Prelude.Text.{Text}
use mail_subsystem.Json.{Json}
use mail_subsystem.Sql.{update_where}
use mail_subsystem.Sql.Update.{
  Pairwise, updated, All-update_where, Pairwise-update_where, All-upsert_where,
  Pairwise-upsert_where,
}
use mail_subsystem.CoreWork.{CoreWorkType, Row, Db, is_processing}
use mail_subsystem.CoreWork.Table.{
  has_key, new_row, requeue, enqueue_core_work_for_account, claim_core_work_for_account,
  claim_core_work_batch_for_account, claim_row, claim_chosen,
}
use mail_subsystem.CoreWork.Settle.{
  reset_stale_core_work_for_account, unlock_where, recover_orphaned_core_work_for_account,
  release_core_work_for_worker_for_account, done_row, settled_row, next_status, unlocked_row,
  reset_row, left_4000,
}
use mail_subsystem.CoreWork.Effects.{
  rows-mark_done, rows-mark_retry_or_dead, rows-unlock_where, next_id-unlock_where,
}
use mail_subsystem.CoreWork.Ops.{
  Op, enqueue, claim, claim_batch, mark_done, mark_retry_or_dead, reset_stale, recover, release,
  apply, run,
}

-- A row has a lock and an owner exactly while it is being processed.
pub record IsLockedRight (r : Row) : Type 0 where
  pub lock : is_some r.locked_at ≡ is_processing r.status
  pub owner : is_some r.worker_id ≡ is_processing r.status

-- The later row does not have the earlier one's key.
abbrev pub KeysDiffer : Row → Row → Type 0
KeysDiffer x y = has_key y.account_id y.work_type y.idempotency_key x ≡ false

-- Ids grow in the order of insertion and stay below the sequence, keys are unique, and locks
-- are right.
pub record IsWellFormed (db : Db) : Type 0 where
  pub ids_grow : Pairwise (λ (x y : Row). x.id < y.id) db.rows
  pub ids_below : All (λ (r : Row). r.id < db.next_id) db.rows
  pub keys_unique : Pairwise KeysDiffer db.rows
  pub locks_right : All IsLockedRight db.rows

-- What each SET list leaves alone.
pub record KeepsIdentity (f : Row → Row) : Type 0 where
  pub id : (r : Row) → (f r).id ≡ r.id
  pub account_id : (r : Row) → (f r).account_id ≡ r.account_id
  pub work_type : (r : Row) → (f r).work_type ≡ r.work_type
  pub idempotency_key : (r : Row) → (f r).idempotency_key ≡ r.idempotency_key

pub same_identity :
    {f : Row → Row}
    → ((r : Row) → (f r).id ≡ r.id)
    → ((r : Row) → (f r).account_id ≡ r.account_id)
    → ((r : Row) → (f r).work_type ≡ r.work_type)
    → ((r : Row) → (f r).idempotency_key ≡ r.idempotency_key)
    → KeepsIdentity f
same_identity i a t k = record { id = i; account_id = a; work_type = t; idempotency_key = k }

module _ (p : Row → Bool) (f : Row → Row) (keeps : KeepsIdentity f) where
  updated-KeepsIdentity : KeepsIdentity (updated p f)
  updated-KeepsIdentity = record {
    id = λ r. ground (arith, keeps.id r);
    account_id = λ r. ground (arith, keeps.account_id r);
    work_type = λ r. ground (arith, keeps.work_type r);
    idempotency_key = λ r. ground (arith, keeps.idempotency_key r);
  }

  pub rows_updated-IsWellFormed :
      (db : Db)
      → ((r : Row) → IsLockedRight r → IsLockedRight (f r))
      → IsWellFormed db
      → IsWellFormed (record db { rows = update_where p f db.rows })
  rows_updated-IsWellFormed db locked w =
      let k = updated-KeepsIdentity in
      record {
        ids_grow =
            Pairwise-update_where p f (λ _. Unit) _ db.rows (λ x y _ _ h. rw (k.id x, k.id y) h)
              (trivial db.rows) w.ids_grow;
        ids_below =
            All-update_where p f (λ r. r.id < db.next_id) _ db.rows (λ x h. rw (k.id x) h)
              w.ids_below;
        keys_unique =
            Pairwise-update_where p f (λ _. Unit) KeysDiffer db.rows
              (λ x y _ _ h.
                rw
                  (
                    k.account_id x,
                    k.account_id y,
                    k.work_type x,
                    k.work_type y,
                    k.idempotency_key x,
                    k.idempotency_key y,
                  )
                  h)
              (trivial db.rows) w.keys_unique;
        locks_right =
            All-update_where p f IsLockedRight IsLockedRight db.rows
              (λ x h. elim (Bool-cases (p x)) [ inl e ↦ rw e (locked x h) | inr e ↦ rw e h ])
              w.locks_right;
      }
    where
      trivial : (xs : List Row) → All (λ (_ : Row). Unit) xs
      trivial [] = tt
      trivial (x ∷ xs) = (tt, trivial xs)

IsWellFormed-of_rows :
    (db db' : Db)
    → db'.next_id ≡ db.next_id
    → db'.rows ≡ db.rows
    → IsWellFormed db
    → IsWellFormed db'
IsWellFormed-of_rows db db' n r w = record {
  ids_grow = rw r w.ids_grow;
  ids_below = rw (n, r) w.ids_below;
  keys_unique = rw r w.keys_unique;
  locks_right = rw r w.locks_right;
}

requeue-IsLockedRight :
    (payload : Json) (now : ℕ) (r : Row) → IsLockedRight r → IsLockedRight (requeue payload now r)
requeue-IsLockedRight payload now r h = ground arith

enqueue-IsWellFormed :
    (account : String) (t : CoreWorkType) (key : String) (payload : Json) (now : ℕ) (db : Db)
    → IsWellFormed db
    → IsWellFormed (enqueue_core_work_for_account account t key payload now db).0
unfolding enqueue_core_work_for_account
enqueue-IsWellFormed account t key payload now db w =
    let p = has_key account t key in
    let f = requeue payload now in
    let new = new_row account t key payload now db.next_id in
    let below = λ (r : Row). r.id < db.next_id in
    record {
      ids_grow =
          Pairwise-upsert_where p f new below _ db.rows (λ x h _. h) (λ x y _ _ _ h. h)
            (λ x y _ _ _ h. h) w.ids_below w.ids_grow;
      ids_below =
          All-upsert_where p f new below _ db.rows (omega arith) (λ x h. omega arith)
            (λ x _ h. omega arith) w.ids_below;
      keys_unique =
          Pairwise-upsert_where p f new below KeysDiffer db.rows (λ x _ h. h) (λ x y _ _ _ h. h)
            (λ x y _ _ _ h. h) w.ids_below w.keys_unique;
      locks_right =
          All-upsert_where p f new IsLockedRight IsLockedRight db.rows
            (record { lock = refl; owner = refl }) (λ x h. h)
            (λ x _ h. requeue-IsLockedRight payload now x h) w.locks_right;
    }

unlock_where-IsWellFormed :
    (account : String) (fits : Row → Bool) (reason : Text) (now : ℕ) (db : Db)
    → IsWellFormed db
    → IsWellFormed (unlock_where account fits reason now db).0
unlock_where-IsWellFormed account fits reason now db w =
    IsWellFormed-of_rows
      (record db { rows = update_where fits (unlocked_row (λ _. left_4000 reason) now) db.rows }) _
      (next_id-unlock_where account fits reason now db)
      (rows-unlock_where account fits reason now db)
      (rows_updated-IsWellFormed fits (unlocked_row (λ _. left_4000 reason) now)
        (same_identity (λ r. refl) (λ r. refl) (λ r. refl) (λ r. refl)) db
        (λ r h. record { lock = refl; owner = refl }) w)

-- Every operation keeps the table well formed.
pub apply-IsWellFormed :
    (op : Op) (now : ℕ) (db : Db) → IsWellFormed db → IsWellFormed (apply op now db)
unfolding apply claim_chosen claim_core_work_for_account claim_core_work_batch_for_account
    reset_stale_core_work_for_account recover_orphaned_core_work_for_account
    release_core_work_for_worker_for_account
apply-IsWellFormed (enqueue account t key payload) now db w =
    enqueue-IsWellFormed account t key payload now db w
apply-IsWellFormed (claim account worker skip) now db w =
    rows_updated-IsWellFormed _ (claim_row worker now)
      (same_identity (λ r. refl) (λ r. refl) (λ r. refl) (λ r. refl)) db
      (λ r h. record { lock = refl; owner = refl }) w
apply-IsWellFormed (claim_batch account worker t limit skip) now db w =
    rows_updated-IsWellFormed _ (claim_row worker now)
      (same_identity (λ r. refl) (λ r. refl) (λ r. refl) (λ r. refl)) db
      (λ r h. record { lock = refl; owner = refl }) w
apply-IsWellFormed (mark_done account i) now db w = rw (rows-mark_done account i now db) (
    rows_updated-IsWellFormed _ (done_row now)
      (same_identity (λ r. refl) (λ r. refl) (λ r. refl) (λ r. refl)) db
      (λ r h. record { lock = refl; owner = refl }) w)
apply-IsWellFormed (mark_retry_or_dead account i attempts max_attempts retry error) now db w =
    rw (rows-mark_retry_or_dead account i attempts max_attempts retry error now db) (
      rows_updated-IsWellFormed _ (settled_row (next_status attempts max_attempts) retry error now)
        (same_identity (λ r. refl) (λ r. refl) (λ r. refl) (λ r. refl)) db (λ r h. ground arith) w)
apply-IsWellFormed (reset_stale account secs) now db w =
    rows_updated-IsWellFormed _ (reset_row now)
      (same_identity (λ r. refl) (λ r. refl) (λ r. refl) (λ r. refl)) db
      (λ r h. record { lock = refl; owner = refl }) w
apply-IsWellFormed (recover account reason) now db w =
    unlock_where-IsWellFormed account _ reason now db w
apply-IsWellFormed (release account worker reason) now db w =
    unlock_where-IsWellFormed account _ reason now db w

-- Any history of operations keeps the table well formed: ids grow in the order of insertion and stay
-- below the sequence, no two rows have the same account, kind and key, and a row has a lock and an
-- owner exactly while it is being processed.
pub run-IsWellFormed : (ops : List (Op × ℕ)) (db : Db) → IsWellFormed db → IsWellFormed (run ops db)
unfolding run
run-IsWellFormed [] db w = w
run-IsWellFormed ((op, now) ∷ ops) db w =
    run-IsWellFormed ops (apply op now db) (apply-IsWellFormed op now db w)
