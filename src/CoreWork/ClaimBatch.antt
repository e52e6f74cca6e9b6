-- ===== src/CoreWork/ClaimBatch.antt =====
-- src/database/core_work.rs: what claim_core_work_batch_for_account promises.
use Prim.Native.String.{String}
use text.Mathlib.Text.{◌==◌ as str_eq}
use mail_subsystem.Prelude.{
  ℕ, ◌≤◌, ◌≡◌, refl, ◌⊎◌, inl, inr, Bool, true, false, List, [], ◌∷◌, arith, In, All, All-of_In,
  Bool-cases, &&-cases, map, length, length-take-le, ◌↔◌,
}
use mail_subsystem.Sql.{select_where, update_where, any_id}
use mail_subsystem.Sql.Update.{In-select_where, select_where-In}
use mail_subsystem.Sql.OrderBy.{order_by-In, limit-first, by_keys-IsSortOrder}
use mail_subsystem.Sql.Unique.{In-unique}
use mail_subsystem.Sql.Chosen.{In-take, any_id-In, In-any_id}
use mail_subsystem.CoreWork.{CoreWorkType, Row, CoreWorkQueueEntry, Db, Result, ok}
use mail_subsystem.CoreWork.Table.{
  is_due_of_type, is_chosen, ids, batch_before, claim_row, claimable_batch, claim_chosen,
  claim_core_work_batch_for_account, entries_of_rows,
}
use mail_subsystem.CoreWork.Invariant.{IsWellFormed}
use mail_subsystem.CoreWork.Claim.{entry, entry_of_row_lem}

entries_of_rows_lem : (rs : List Row) → entries_of_rows rs ≡ ok (map entry rs)
unfolding entries_of_rows
entries_of_rows_lem [] = refl
entries_of_rows_lem (r ∷ rs) = rw (entry_of_row_lem r, entries_of_rows_lem rs, entries_of_rows) refl

module _ (account worker : String) (t : CoreWorkType) (limit : ℕ) (skip : ℕ → Bool) (now : ℕ)
    (db : Db) where
  abbrev pub batch : List Row
  batch = claimable_batch account t limit skip now db

  -- The specification of a batch claim: at most `limit` rows, each due and of the kind, none left
  -- out that comes before one of them; they alone change, and they are what is returned.
  pub record IsBatchClaim (result : Db × Result (List CoreWorkQueueEntry)) : Type 0 where
    pub bounded : length batch ≤ limit
    pub all_due : All (λ r. is_due_of_type account t now skip r ≡ true) batch
    pub first :
        All
          (λ x.
            (is_due_of_type account t now skip x ≡ false)
            ⊎ (In x batch ⊎ All (λ c. batch_before x c ≡ false) batch))
          db.rows
    pub chosen : All (λ x. (is_chosen account batch x ≡ true) ↔ In x batch) db.rows
    pub outcome : result ≡ (
      record db { rows = update_where (is_chosen account batch) (claim_row worker now) db.rows },
      ok (map entry (map (claim_row worker now) (select_where (is_chosen account batch) db.rows))),
    )

  batch-In : (r : Row) → In r batch → In r db.rows × (is_due_of_type account t now skip r ≡ true)
  unfolding claimable_batch
  batch-In r m =
      let due = is_due_of_type account t now skip in
      select_where-In due r db.rows
        (order_by-In batch_before r (select_where due db.rows) (In-take limit r _ m))

  batch-first :
      (x : Row)
      → In x db.rows
      → is_due_of_type account t now skip x ≡ true
      → In x batch ⊎ All (λ c. batch_before x c ≡ false) batch
  unfolding claimable_batch
  batch-first x m d =
      let due = is_due_of_type account t now skip in
      limit-first batch_before (by_keys-IsSortOrder (λ r. r.available_at ∷ r.id ∷ [])) limit
        (select_where due db.rows) x (In-select_where due x db.rows m d)

  batch-bounded : length batch ≤ limit
  unfolding claimable_batch
  batch-bounded = length-take-le limit _

  module _ (w : IsWellFormed db) where
    is_chosen_iff : (x : Row) → In x db.rows → (is_chosen account batch x ≡ true) ↔ In x batch
    is_chosen_iff x m = (to, from)
      where
        to : is_chosen account batch x ≡ true → In x batch
        to h =
            let (r, k, e) =
              any_id-In (λ (r : Row). r.id) x.id batch
                (&&-cases (str_eq x.account_id account) (any_id (ids batch) x.id) h).1 in
            let same : x ≡ r =
              In-unique (λ (y : Row). y.id) x r db.rows w.ids_grow m (batch-In r k).0 e in
            rw same k

        from : In x batch → is_chosen account batch x ≡ true
        from k = ground (arith, batch-In x k, In-any_id (λ (r : Row). r.id) x batch k)

    -- On a well-formed table the batch claim takes at most `limit` rows, each due and of the kind,
    -- and leaves out no such row that comes before one it takes; exactly the rows taken are set to
    -- processing with one attempt more, and they are what is returned.
    pub claim_batch-IsBatchClaim :
        IsBatchClaim (claim_core_work_batch_for_account account worker t limit skip now db)
    unfolding claim_core_work_batch_for_account claim_chosen
    claim_batch-IsBatchClaim = record {
      bounded = batch-bounded;
      all_due = All-of_In _ batch (λ r m. (batch-In r m).1);
      first = All-of_In _ db.rows λ x m. elim (Bool-cases (is_due_of_type account t now skip x)) [
        | inl d ↦ inr (batch-first x m d)
        | inr d ↦ inl d
      ];
      chosen = All-of_In _ db.rows is_chosen_iff;
      outcome = rw (entries_of_rows_lem _) refl;
    }
