-- ===== src/BodySync/Claim.antt =====
-- src/database/body_sync_queue.rs: what claim_body_sync_batch_for_account promises.
use Prim.Native.String.{String}
use text.Mathlib.Text.{◌==◌ as str_eq}
use mail_subsystem.Prelude.{
  ℕ, ◌≤◌, ◌≡◌, refl, ◌⊎◌, inl, inr, Bool, true, false, List, [], ◌∷◌, arith, In, All, All-of_In,
  Bool-cases, &&-cases, map, length, length-take-le, ◌↔◌,
}
use mail_subsystem.Sql.{select_where, update_where, any_id}
use mail_subsystem.Sql.Update.{In-select_where, select_where-In}
use mail_subsystem.Sql.OrderBy.{order_by-In, limit-first, by_keys-IsSortOrder}
use mail_subsystem.Sql.Unique.{In-unique}
use mail_subsystem.Sql.Chosen.{In-take, any_id-In, In-any_id}
use mail_subsystem.BodySync.{BodyRow, BodySyncQueueEntry, BodyDb}
use mail_subsystem.BodySync.Stored.{
  body_is_due, body_before, body_claim_row, body_ids, has_any_id, body_entry, body_claimable,
  claim_body_sync_batch_for_account,
}
use mail_subsystem.BodySync.Invariant.{IsWellFormed}

module _ (account worker : String) (limit : ℕ) (skip : ℕ → Bool) (now : ℕ) (db : BodyDb) where
  abbrev pub batch : List BodyRow
  batch = body_claimable account limit skip now db

  -- The specification of a claim: at most `limit` rows, each due, none left out that comes before
  -- one of them; they alone change, and they are what is returned.
  pub record IsBodyClaim (result : BodyDb × List BodySyncQueueEntry) : Type 0 where
    pub bounded : length batch ≤ limit
    pub all_due : All (λ r. body_is_due account now skip r ≡ true) batch
    pub first :
        All
          (λ x.
            (body_is_due account now skip x ≡ false)
            ⊎ (In x batch ⊎ All (λ c. body_before x c ≡ false) batch))
          db.rows
    pub chosen : All (λ x. (has_any_id account (body_ids batch) x ≡ true) ↔ In x batch) db.rows
    pub outcome : result ≡ (
      record db {
        rows =
            update_where (has_any_id account (body_ids batch)) (body_claim_row worker now) db.rows;
      },
      map
          (λ r. body_entry (body_claim_row worker now r))
          (select_where (has_any_id account (body_ids batch)) db.rows),
    )

  batch-In : (r : BodyRow) → In r batch → In r db.rows × (body_is_due account now skip r ≡ true)
  unfolding body_claimable
  batch-In r m =
      let due = body_is_due account now skip in
      select_where-In due r db.rows
        (order_by-In body_before r (select_where due db.rows) (In-take limit r _ m))

  batch-first :
      (x : BodyRow)
      → In x db.rows
      → body_is_due account now skip x ≡ true
      → In x batch ⊎ All (λ c. body_before x c ≡ false) batch
  unfolding body_claimable
  batch-first x m d =
      let due = body_is_due account now skip in
      limit-first body_before (by_keys-IsSortOrder (λ r. r.available_at ∷ r.id ∷ [])) limit
        (select_where due db.rows) x (In-select_where due x db.rows m d)

  batch-bounded : length batch ≤ limit
  unfolding body_claimable
  batch-bounded = length-take-le limit _

  module _ (w : IsWellFormed db) where
    chosen_iff :
        (x : BodyRow) → In x db.rows → (has_any_id account (body_ids batch) x ≡ true) ↔ In x batch
    chosen_iff x m = (to, from)
      where
        to : has_any_id account (body_ids batch) x ≡ true → In x batch
        to h =
            let (r, k, e) =
              any_id-In (λ (y : BodyRow). y.id) x.id batch
                (&&-cases (str_eq x.account_id account) (any_id (body_ids batch) x.id) h).1 in
            let same : x ≡ r =
              In-unique (λ (y : BodyRow). y.id) x r db.rows w.ids_grow m (batch-In r k).0 e in
            rw same k

        from : In x batch → has_any_id account (body_ids batch) x ≡ true
        from k = ground (arith, batch-In x k, In-any_id (λ (y : BodyRow). y.id) x batch k)

    -- On a well-formed table the claim of body jobs takes at most `limit` rows, each due, and leaves
    -- out no due row that comes before one it takes; exactly the rows taken are set to processing
    -- with one attempt more, and they are what is returned.
    pub claim-IsBodyClaim :
        IsBodyClaim (claim_body_sync_batch_for_account account worker limit skip now db)
    unfolding claim_body_sync_batch_for_account
    claim-IsBodyClaim = record {
      bounded = batch-bounded;
      all_due = All-of_In _ batch (λ r m. (batch-In r m).1);
      first = All-of_In _ db.rows λ x m. elim (Bool-cases (body_is_due account now skip x)) [
        | inl d ↦ inr (batch-first x m d)
        | inr d ↦ inl d
      ];
      chosen = All-of_In _ db.rows chosen_iff;
      outcome = refl;
    }
