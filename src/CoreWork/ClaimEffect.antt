-- ===== src/CoreWork/ClaimEffect.antt =====
-- src/database/core_work.rs: both claims are one UPDATE of rows that are pending or failed.
use Prim.Native.String.{String}
use mail_subsystem.Prelude.{
  ℕ, ◌≡◌, refl, sym, inl, inr, Bool, true, false, not, ◌&&◌, List, arith, In, All, All-In,
  All-of_In, Bool-cases, &&-cases, ◌==◌, ==_iff, ap, ◌∙◌,
}
use mail_subsystem.Sql.{update_where}
use mail_subsystem.Sql.Update.{update_where-none}
use mail_subsystem.Sql.Unique.{In-unique}
use mail_subsystem.CoreWork.{CoreWorkType, same_type, Row, Db, is_claimable}
use mail_subsystem.CoreWork.Table.{
  is_due, is_due_of_type, is_chosen, claim_row, claim_core_work_for_account,
  claim_core_work_batch_for_account,
}
use mail_subsystem.CoreWork.Invariant.{IsWellFormed}
use mail_subsystem.CoreWork.Claim.{claim-ClaimsFirst, nothing_due, first_due}
use mail_subsystem.CoreWork.ClaimBatch.{claim_batch-IsBatchClaim, batch}

-- The rows that `p` selects are claimed, and all of them could be.
abbrev pub ClaimsSome : String → ℕ → Db → Db → Type 0
ClaimsSome worker now db db' =
    (p : Row → Bool) × (db'.rows ≡ update_where p (claim_row worker now) db.rows)
    × All (λ q. (p q && not (is_claimable q.status)) ≡ false) db.rows

due_is_claimable :
    (account : String) (skip : ℕ → Bool) (now : ℕ) (r : Row)
    → is_due account now skip r ≡ true
    → is_claimable r.status ≡ true
due_is_claimable account skip now r h = ground arith

only_claimable :
    (p : Row → Bool) (rows : List Row)
    → ((q : Row) → In q rows → p q ≡ true → is_claimable q.status ≡ true)
    → All (λ q. (p q && not (is_claimable q.status)) ≡ false) rows
only_claimable p rows h =
    All-of_In _ rows
      λ q m. elim (Bool-cases (p q)) [ inl e ↦ rw (e, h q m e) refl | inr e ↦ rw e refl ]

module _ (account worker : String) (skip : ℕ → Bool) (now : ℕ) (db : Db) (w : IsWellFormed db) where
  pub claim-ClaimsSome :
      ClaimsSome worker now db (claim_core_work_for_account account worker skip now db).0
  claim-ClaimsSome = elim (claim-ClaimsFirst account worker skip now db w) [
    | nothing_due none_due e ↦
        let nowhere = only_claimable (λ _. false) db.rows (λ q m h. cc) in
        (
          λ _. false,
          ap (λ d. d.0.rows) e
              ∙ sym (
                  update_where-none (λ _. false) (claim_row worker now) db.rows
                    (All-of_In _ db.rows (λ q m. refl))),
          nowhere,
        )
    | first_due r m d first e ↦ (
      λ q. q.id == r.id,
      ap (λ d. d.0.rows) e,
      only_claimable (λ q. q.id == r.id) db.rows
          λ q k named.
            let same : q ≡ r =
              In-unique (λ (x : Row). x.id) q r db.rows w.ids_grow k m
                ((==_iff q.id r.id).0 named) in
            rw same (due_is_claimable account skip now r d),
    )
  ]

  pub claim_batch-ClaimsSome :
      (t : CoreWorkType) (limit : ℕ)
      → ClaimsSome worker now db
          (claim_core_work_batch_for_account account worker t limit skip now db).0
  claim_batch-ClaimsSome t limit =
      let spec = claim_batch-IsBatchClaim account worker t limit skip now db w in
      let chosen = batch account worker t limit skip now db in
      let due = is_due_of_type account t now skip in
      (
        is_chosen account chosen,
        ap (λ d. d.0.rows) spec.outcome,
        only_claimable (is_chosen account chosen) db.rows λ q k named.
            let listed : In q chosen = (All-In _ db.rows spec.chosen q k).0 named in
            let d : due q ≡ true = All-In (λ r. due r ≡ true) chosen spec.all_due q listed in
            due_is_claimable account skip now q
              (&&-cases (same_type q.work_type t) (is_due account now skip q) d).1,
      )
