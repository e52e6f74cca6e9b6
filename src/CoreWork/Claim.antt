-- ===== src/CoreWork/Claim.antt =====
-- src/database/core_work.rs: what claim_core_work_for_account promises.
use Prim.Native.String.{String}
use text.Mathlib.Text.{◌==◌ as str_eq}
use mail_subsystem.Prelude.{
  ℕ, ◌≡◌, refl, ◌⊎◌, inl, inr, Bool, true, false, ◌&&◌, List, [], ◌∷◌, Option, none, some, arith,
  In, All, All-of_In, Bool-cases, &&-cases, ◌==◌, ==_iff, take,
}
use mail_subsystem.Sql.{select_where, update_where, order_by, any_id}
use mail_subsystem.Sql.Update.{
  In-select_where, select_where-In, select_where-none, update_where-none, update_where-ext,
}
use mail_subsystem.Sql.OrderBy.{
  In-order_by, order_by-In, limit-first, irreflexive, by_keys-IsSortOrder,
}
use mail_subsystem.Sql.Unique.{In-unique, select_where_unique}
use mail_subsystem.CoreWork.{Row, CoreWorkQueueEntry, Db, Result, ok}
use mail_subsystem.CoreWork.Kinds.{from_str-as_str}
use mail_subsystem.CoreWork.Table.{
  is_due, is_chosen, claim_before, claim_keys, claim_row, claimable, claim_chosen,
  claim_core_work_for_account, entry_of_row, entry_of_first,
}
use mail_subsystem.CoreWork.Invariant.{IsWellFormed}

abbrev pub entry : Row → CoreWorkQueueEntry
entry r = record {
  id = r.id;
  work_type = r.work_type;
  payload = r.payload;
  attempt_count = r.attempt_count;
  max_attempts = r.max_attempts;
}

pub entry_of_row_lem : (r : Row) → entry_of_row r ≡ ok (entry r)
unfolding entry_of_row
entry_of_row_lem r = rw (from_str-as_str r.work_type, entry_of_row) refl

-- The specification of a claim. Either no row is due and nothing changes, or the due row that is
-- first in the order is handed out, and it alone changes.
pub data ClaimsFirst (account worker : String) (skip : ℕ → Bool) (now : ℕ) (db : Db)
    (result : Db × Result (Option CoreWorkQueueEntry)) : Type 0 where
  nothing_due :
      All (λ r. is_due account now skip r ≡ false) db.rows
      → result ≡ (db, ok none)
      → ClaimsFirst account worker skip now db result
  first_due :
      (r : Row)
      → In r db.rows
      → is_due account now skip r ≡ true
      → All (λ x. (is_due account now skip x && claim_before x r) ≡ false) db.rows
      → result ≡ (
        record db { rows = update_where (λ q. q.id == r.id) (claim_row worker now) db.rows },
        ok (some (entry (claim_row worker now r))),
      )
      → ClaimsFirst account worker skip now db result

module _ (account worker : String) (skip : ℕ → Bool) (now : ℕ) (db : Db) (w : IsWellFormed db) where
  abbrev due : Row → Bool
  due = is_due account now skip

  -- The rows that are due, in the order of the claim.
  abbrev queue : List Row
  queue = order_by claim_before (select_where due db.rows)

  chosen_is_one :
      (r : Row)
      → In r db.rows
      → due r ≡ true
      → All (λ q. is_chosen account (r ∷ []) q ≡ (q.id == r.id)) db.rows
  unfolding any_id
  chosen_is_one r m d = All-of_In _ db.rows λ q k. elim (Bool-cases (q.id == r.id)) [
    | inl e ↦
        let same : q ≡ r =
          In-unique (λ (x : Row). x.id) q r db.rows w.ids_grow k m ((==_iff _ _).0 e) in
        let here : str_eq r.account_id account ≡ true = (&&-cases _ _ d).0 in
        let mine : str_eq q.account_id account ≡ true = rw same here in rw (mine, e) refl
    | inr e ↦ ground arith
  ]

  first_is_first :
      (r : Row) (rest : List Row)
      → queue ≡ r ∷ rest
      → All (λ x. (due x && claim_before x r) ≡ false) db.rows
  first_is_first r rest e = All-of_In _ db.rows λ x m. elim (Bool-cases (due x)) [
    | inr no_due ↦ rw no_due refl
    | inl is_due_now ↦
        let laws = by_keys-IsSortOrder claim_keys in
        let places : In x (take 1 queue) ⊎ All (λ c. claim_before x c ≡ false) (take 1 queue) =
          limit-first claim_before laws 1 (select_where due db.rows) x
            (In-select_where due x db.rows m is_due_now) in
        rw is_due_now (before_head x (rw e at places))
  ]
    where
      before_head :
          (x : Row)
          → In x (r ∷ []) ⊎ All (λ c. claim_before x c ≡ false) (r ∷ [])
          → claim_before x r ≡ false
      before_head x (inl (inl same)) =
          rw same (irreflexive claim_before (by_keys-IsSortOrder claim_keys) r)
      before_head x (inl (inr none_left)) = absurd none_left
      before_head x (inr k) = k.0

  abbrev claim_result : Db × Result (Option CoreWorkQueueEntry)
  claim_result = claim_core_work_for_account account worker skip now db

  claim-empty : queue ≡ [] → claim_result ≡ (db, ok none)
  unfolding claim_core_work_for_account claim_chosen claimable entry_of_first any_id
  claim-empty e =
      let no_row : All (λ r. is_chosen account [] r ≡ false) db.rows =
        All-of_In _ db.rows (λ r m. ground arith) in
      rw
        (
          e,
          update_where-none (is_chosen account []) (claim_row worker now) db.rows no_row,
          select_where-none (is_chosen account []) db.rows no_row,
        )
        refl

  claim-head : (r : Row) (rest : List Row) → queue ≡ r ∷ rest → In r db.rows × (due r ≡ true)
  claim-head r rest e =
      let listed : In r queue = rw e (inl refl) in
      select_where-In due r db.rows (order_by-In claim_before r (select_where due db.rows) listed)

  claim-some :
      (r : Row) (rest : List Row)
      → queue ≡ r ∷ rest
      → claim_result ≡ (
        record db { rows = update_where (λ q. q.id == r.id) (claim_row worker now) db.rows },
        ok (some (entry (claim_row worker now r))),
      )
  unfolding claim_core_work_for_account claim_chosen claimable entry_of_first
  claim-some r rest e =
      let (m, d) = claim-head r rest e in
      let one = chosen_is_one r m d in
      rw
        (
          e,
          update_where-ext (is_chosen account (r ∷ [])) (claim_row worker now) (λ q. q.id == r.id)
              db.rows one,
          select_where_unique (λ (x : Row). x.id) (is_chosen account (r ∷ [])) r db.rows w.ids_grow
              one m,
        )
        (rw (entry_of_row_lem (claim_row worker now r), entry_of_first) refl)

  claim-none_due : queue ≡ [] → All (λ r. due r ≡ false) db.rows
  claim-none_due e = All-of_In _ db.rows λ r m. elim (Bool-cases (due r)) [
    | inr f ↦ f
    | inl t ↦
        let listed : In r queue =
          In-order_by claim_before r (select_where due db.rows)
            (In-select_where due r db.rows m t) in
        let nowhere : In r [] = rw e at listed in absurd nowhere
  ]

  -- On a well-formed table the claim meets its specification: it hands out the due row that comes
  -- first, sets exactly that row to processing with one attempt more, and leaves the table as it
  -- is when no row is due. The stored work type is always read back.
  pub claim-ClaimsFirst : ClaimsFirst account worker skip now db claim_result
  claim-ClaimsFirst = split queue refl
    where
      split : (q : List Row) → queue ≡ q → ClaimsFirst account worker skip now db claim_result
      split [] e = nothing_due (claim-none_due e) (claim-empty e)
      split (r ∷ rest) e =
          let (m, d) = claim-head r rest e in
          first_due r m d (first_is_first r rest e) (claim-some r rest e)
