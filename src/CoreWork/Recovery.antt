-- ===== src/CoreWork/Recovery.antt =====
-- src/database/core_work.rs: what the recovery of orphaned work and the release of a worker's
-- claims leave behind.
use Prim.Native.String.{String}
use mail_subsystem.Prelude.{
  ℕ, ◌≡◌, refl, sym, ap, ◌∙◌, inl, inr, Bool, true, false, List, [], ◌∷◌, arith, All, Bool-cases,
  length,
}
use mail_subsystem.Prelude.Text.{Text}
use mail_subsystem.Sql.{update_where, select_where, count_where, any_id}
use mail_subsystem.Sql.Update.{update_where-none, updated}
use mail_subsystem.CoreWork.{Row, TaskRow, Db, is_active}
use mail_subsystem.CoreWork.Table.{ids}
use mail_subsystem.CoreWork.Settle.{
  unlock_where, unlocked_row, is_claimed, is_claimed_by, task_of, reopened_task, left_4000,
  recover_orphaned_core_work_for_account, release_core_work_for_worker_for_account,
}
use mail_subsystem.CoreWork.Effects.{rows-unlock_where}

count_where-select :
    {A : Type 0} (p : A → Bool) (xs : List A) → length (select_where p xs) ≡ count_where p xs
unfolding select_where count_where
count_where-select p [] = refl
count_where-select p (x ∷ xs) = ground (arith, count_where-select p xs)

count_where-update :
    {A : Type 0} (p q : A → Bool) (f : A → A) (xs : List A)
    → ((x : A) → q (updated p f x) ≡ q x)
    → count_where q (update_where p f xs) ≡ count_where q xs
unfolding count_where update_where
count_where-update p q f [] h = refl
count_where-update p q f (x ∷ xs) h = rw (h x, count_where-update p q f xs h) refl

module _ (account : String) (fits : Row → Bool) (reason : Text) (now : ℕ) (db : Db) where
  count-unlock_where : (unlock_where account fits reason now db).1 ≡ count_where fits db.rows
  unfolding unlock_where
  count-unlock_where = split (select_where fits db.rows) refl
    where
      split :
          (u : List Row)
          → select_where fits db.rows ≡ u
          → (unlock_where account fits reason now db).1 ≡ count_where fits db.rows
      split [] e = rw (e, unlock_where) (ap length (sym e) ∙ count_where-select fits db.rows)
      split (r ∷ rs) e = rw (e, unlock_where) (ap length (sym e) ∙ count_where-select fits db.rows)

  tasks-unlock_where :
      (unlock_where account fits reason now db).0.tasks
      ≡ update_where
          (task_of account (ids (select_where fits db.rows)))
          (reopened_task reason now)
          db.tasks
  unfolding unlock_where any_id
  tasks-unlock_where = split (select_where fits db.rows) refl
    where
      no_task : (ts : List TaskRow) → All (λ t. task_of account [] t ≡ false) ts
      no_task [] = tt
      no_task (t ∷ ts) = (ground arith, no_task ts)

      split :
          (u : List Row)
          → select_where fits db.rows ≡ u
          → (unlock_where account fits reason now db).0.tasks
            ≡ update_where
                (task_of account (ids (select_where fits db.rows)))
                (reopened_task reason now)
                db.tasks
      split [] e =
          rw (e, unlock_where)
            (sym (
              update_where-none (task_of account []) (reopened_task reason now) db.tasks
                (no_task db.tasks)))
      split (r ∷ rs) e = rw (e, unlock_where) refl

  -- The specification of both: no row that fitted is left claimed, every other row is as it was,
  -- no active row is lost, the running tasks of the rows are pending again, the rows are counted.
  pub record IsUnlocked (result : Db × ℕ) : Type 0 where
    pub none_left : All (λ r. fits r ≡ false) result.0.rows
    pub rows : result.0.rows ≡ update_where fits (unlocked_row (λ _. left_4000 reason) now) db.rows
    pub active :
        count_where (λ r. is_active r.status) result.0.rows
        ≡ count_where (λ r. is_active r.status) db.rows
    pub tasks :
        result.0.tasks
        ≡ update_where
            (task_of account (ids (select_where fits db.rows)))
            (reopened_task reason now)
            db.tasks
    pub affected : result.1 ≡ count_where fits db.rows

  module _ (leaves : (r : Row) → fits (unlocked_row (λ _. left_4000 reason) now r) ≡ false)
      (claimed : (r : Row) → fits r ≡ true → is_active r.status ≡ true) where
    none_left_of :
        (rs : List Row)
        → All
            (λ r. fits r ≡ false)
            (update_where fits (unlocked_row (λ _. left_4000 reason) now) rs)
    unfolding update_where
    none_left_of [] = tt
    none_left_of (r ∷ rs) =
        (elim (Bool-cases (fits r)) [ inl e ↦ rw e (leaves r) | inr e ↦ rw e e ], none_left_of rs)

    pub unlock_where-IsUnlocked : IsUnlocked (unlock_where account fits reason now db)
    unlock_where-IsUnlocked =
        let f = unlocked_row (λ _. left_4000 reason) now in
        let effect = rows-unlock_where account fits reason now db in
        record {
          none_left = rw effect (none_left_of db.rows);
          rows = effect;
          active = rw effect (
              count_where-update fits (λ r. is_active r.status) f db.rows
                λ r. elim (Bool-cases (fits r)) [
                  | inl e ↦ rw (e, claimed r e) refl
                  | inr e ↦ rw e refl
                ]);
          tasks = tasks-unlock_where;
          affected = count-unlock_where;
        }

-- Recovery at startup leaves no row of the account in processing, changes no other row, loses no
-- active row, reopens the running tasks of the recovered rows, and returns their number.
pub recover-IsUnlocked :
    (account : String) (reason : Text) (now : ℕ) (db : Db)
    → IsUnlocked account
        (is_claimed account)
        reason
        now
        db
        (recover_orphaned_core_work_for_account account reason now db)
unfolding recover_orphaned_core_work_for_account
recover-IsUnlocked account reason now db =
    unlock_where-IsUnlocked account (is_claimed account) reason now db (λ r. ground arith)
      (λ r h. ground arith)

-- The release of a worker's claims leaves the worker no row in processing, changes no other row,
-- loses no active row, reopens the running tasks of the released rows, and returns their number.
pub release-IsUnlocked :
    (account worker : String) (reason : Text) (now : ℕ) (db : Db)
    → IsUnlocked account
        (is_claimed_by account worker)
        reason
        now
        db
        (release_core_work_for_worker_for_account account worker reason now db)
unfolding release_core_work_for_worker_for_account
release-IsUnlocked account worker reason now db =
    unlock_where-IsUnlocked account (is_claimed_by account worker) reason now db (λ r. ground arith)
      (λ r h. ground arith)
