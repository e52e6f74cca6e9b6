-- ===== src/CoreWork/Effects.antt =====
-- src/database/core_work.rs: the statements that end a claim return early where no row fits. Their
-- effect on the rows is one UPDATE in every case.
use Prim.Native.String.{String}
use mail_subsystem.Prelude.{ℕ, ◌≡◌, refl, sym, ap, ◌⊎◌, inl, inr, Bool, List, [], ◌∷◌, Option-cases}
use mail_subsystem.Prelude.Int.{ℤ}
use mail_subsystem.Prelude.Text.{Text}
use mail_subsystem.Sql.{update_where, select_where, find_where}
use mail_subsystem.Sql.Update.{update_where-none, find_where-none, select_where-nil}
use mail_subsystem.CoreWork.{Row, Db}
use mail_subsystem.CoreWork.Settle.{
  mark_core_work_done_for_account, mark_core_work_retry_or_dead_for_account, unlock_where, done_row,
  settled_row, next_status, unlocked_row, has_id, left_4000,
}

pub rows-mark_done :
    (account : String) (i now : ℕ) (db : Db)
    → (mark_core_work_done_for_account account i now db).0
      ≡ record db { rows = update_where (has_id account i) (done_row now) db.rows }
unfolding mark_core_work_done_for_account
rows-mark_done account i now db = elim (Option-cases (find_where (has_id account i) db.rows)) [
  | inl e ↦
      rw (e, mark_core_work_done_for_account)
        (ap (λ rs. record db { rows = rs })
          (sym (update_where-none _ (done_row now) _ (find_where-none _ db.rows e))))
  | inr (r, e) ↦ rw (e, mark_core_work_done_for_account) refl
]

pub rows-mark_retry_or_dead :
    (account : String) (i attempts max_attempts : ℕ) (retry : ℤ) (error : Text) (now : ℕ) (db : Db)
    → (mark_core_work_retry_or_dead_for_account account i attempts max_attempts retry error now
        db).0
      ≡ record db {
        rows =
            update_where
              (has_id account i)
              (settled_row (next_status attempts max_attempts) retry error now)
              db.rows;
      }
unfolding mark_core_work_retry_or_dead_for_account
rows-mark_retry_or_dead account i attempts max_attempts retry error now db =
    elim (Option-cases (find_where (has_id account i) db.rows)) [
      | inl e ↦
          rw (e, mark_core_work_retry_or_dead_for_account)
            (ap (λ rs. record db { rows = rs })
              (sym (
                update_where-none _
                  (settled_row (next_status attempts max_attempts) retry error now) _
                  (find_where-none _ db.rows e))))
      | inr (r, e) ↦ rw (e, mark_core_work_retry_or_dead_for_account) refl
    ]

List-cases : (xs : List Row) → (xs ≡ []) ⊎ ((y : Row) × (ys : List Row) × (xs ≡ y ∷ ys))
List-cases [] = inl refl
List-cases (y ∷ ys) = inr (y, ys, refl)

pub rows-unlock_where :
    (account : String) (fits : Row → Bool) (reason : Text) (now : ℕ) (db : Db)
    → (unlock_where account fits reason now db).0.rows
      ≡ update_where fits (unlocked_row (λ _. left_4000 reason) now) db.rows
unfolding unlock_where
rows-unlock_where account fits reason now db = elim (List-cases (select_where fits db.rows)) [
  | inl e ↦
      rw (e, unlock_where)
        (sym (update_where-none fits _ db.rows (select_where-nil fits db.rows e)))
  | inr (r, rs, e) ↦ rw (e, unlock_where) refl
]

pub next_id-unlock_where :
    (account : String) (fits : Row → Bool) (reason : Text) (now : ℕ) (db : Db)
    → (unlock_where account fits reason now db).0.next_id ≡ db.next_id
unfolding unlock_where
next_id-unlock_where account fits reason now db = elim (List-cases (select_where fits db.rows)) [
  | inl e ↦ rw (e, unlock_where) refl
  | inr (r, rs, e) ↦ rw (e, unlock_where) refl
]
