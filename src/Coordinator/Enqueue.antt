-- ===== src/Coordinator/Enqueue.antt =====
-- src/core_work_queue.rs: enqueue_core_work and the loops over a plan keep the rows coalesced.
use Prim.Native.String.{String}
use text.Mathlib.Text.{◌==◌ as str_eq}
use text.Mathlib.TextEquality.{eq_iff}
use mail_subsystem.Prelude.{
  ℕ, ◌+◌, ◌≡◌, refl, inl, inr, Bool, true, false, ◌&&◌, List, [], ◌∷◌, arith, All, All-mono,
  Bool-cases,
}
use mail_subsystem.Json.{Json}
use mail_subsystem.Sql.Update.{Pairwise-upsert_where, exists_where-false}
use mail_subsystem.CoreWork.{CoreWorkType, same_type, is_active, Row, Db}
use mail_subsystem.CoreWork.Kinds.{same_type_iff}
use mail_subsystem.CoreWork.Table.{has_key, new_row, requeue, enqueue_core_work_for_account}
use mail_subsystem.CoreWork.Report.{has_active_core_work_type_for_account}
use mail_subsystem.Coordinator.{
  Plan, should_coalesce_core_work, enqueue_core_work, enqueue_plan, reason_payload,
}
use mail_subsystem.Coordinator.Coalesce.{clash, OneActive}

-- What other tasks do meanwhile leaves at most one active row of a coalesced kind, and makes none active
-- of a kind that the account has none of.
pub record KeepsOneActive (account : String) (others : ℕ → Db → Db) : Type 0 where
  pub one_active : (now : ℕ) (db : Db) → OneActive db → OneActive (others now db)
  pub starts_none :
      (now : ℕ) (t : CoreWorkType) (db : Db)
      → should_coalesce_core_work t ≡ true
      → has_active_core_work_type_for_account account t db ≡ false
      → has_active_core_work_type_for_account account t (others now db) ≡ false

module _ (account : String) (t : CoreWorkType) (key : String) (payload : Json) (now : ℕ) (db : Db)
    (others : ℕ → Db → Db) where
  abbrev of_type : Row → Bool
  of_type x = str_eq x.account_id account && (same_type x.work_type t && is_active x.status)

  requeued-left :
      (x y : Row)
      → has_key account t key x ≡ true
      → (should_coalesce_core_work t && of_type y) ≡ false
      → clash (requeue payload now x) y ≡ false
  requeued-left x y e h = ground (
    arith,
    eq_iff x.account_id account,
    same_type_iff x.work_type t,
    eq_iff x.account_id y.account_id,
    eq_iff y.account_id account,
    same_type_iff x.work_type y.work_type,
    same_type_iff y.work_type t,
  )

  requeued-right :
      (x y : Row)
      → has_key account t key y ≡ true
      → (should_coalesce_core_work t && of_type x) ≡ false
      → clash x (requeue payload now y) ≡ false
  requeued-right x y e h = ground (
    arith,
    eq_iff y.account_id account,
    same_type_iff y.work_type t,
    eq_iff x.account_id y.account_id,
    eq_iff x.account_id account,
    same_type_iff x.work_type y.work_type,
    same_type_iff x.work_type t,
  )

  abbrev between : Db
  between = others now db

  added :
      (x : Row)
      → (should_coalesce_core_work t && of_type x) ≡ false
      → clash x (new_row account t key payload now between.next_id) ≡ false
  added x h = ground (arith, same_type_iff x.work_type t)

  no_active :
      (d : Db)
      → (should_coalesce_core_work t && has_active_core_work_type_for_account account t d) ≡ false
      → All (λ x. (should_coalesce_core_work t && of_type x) ≡ false) d.rows
  unfolding has_active_core_work_type_for_account
  no_active d h = elim (Bool-cases (should_coalesce_core_work t)) [
    | inl c ↦ All-mono _ _ d.rows (λ x e. rw c e) (exists_where-false of_type d.rows (rw c at h))
    | inr c ↦ rw c (trivial d.rows)
  ]
    where
      trivial : (xs : List Row) → All (λ (x : Row). false ≡ false) xs
      trivial [] = tt
      trivial (x ∷ xs) = (refl, trivial xs)

  still_none :
      KeepsOneActive account others
      → (should_coalesce_core_work t && has_active_core_work_type_for_account account t db) ≡ false
      → (should_coalesce_core_work t && has_active_core_work_type_for_account account t between)
        ≡ false
  still_none keeps h = elim (Bool-cases (should_coalesce_core_work t)) [
    | inl c ↦ rw c (keeps.starts_none now t db c (rw c at h))
    | inr c ↦ rw c refl
  ]

  -- Enqueueing through the coordinator adds no second active row of a kind that is coalesced.
  pub enqueue_core_work-OneActive :
      KeepsOneActive account others
      → OneActive db
      → OneActive (enqueue_core_work others account t key payload now db)
  unfolding enqueue_core_work enqueue_core_work_for_account
  enqueue_core_work-OneActive keeps o =
      elim (Bool-cases
        (should_coalesce_core_work t && has_active_core_work_type_for_account account t db)) [
          | inl e ↦ rw (e, enqueue_core_work) o
          | inr e ↦
              rw (e, enqueue_core_work)
                (Pairwise-upsert_where (has_key account t key) (requeue payload now)
                  (new_row account t key payload now between.next_id)
                  (λ x. (should_coalesce_core_work t && of_type x) ≡ false)
                  (λ x y. clash x y ≡ false) between.rows (λ x h _. added x h)
                  (λ x y k _ h _. requeued-left x y k h) (λ x y k h _ _. requeued-right x y k h)
                  (no_active between (still_none keeps e)) (keeps.one_active now db o))
        ]

-- Enqueueing the kinds of a plan one after another through the coordinator keeps at most one active
-- row of each coalesced kind in an account, if no other task makes such a row active between the test
-- for an active row and the INSERT that follows it.
pub enqueue_plan-OneActive :
    (others : ℕ → Db → Db) (account key : String) (clock : ℕ → ℕ) (i : ℕ) (plan : Plan) (db : Db)
    → KeepsOneActive account others
    → OneActive db
    → OneActive (enqueue_plan others account key clock i plan db)
unfolding enqueue_plan
enqueue_plan-OneActive others account key clock i [] db keeps o = o
enqueue_plan-OneActive others account key clock i ((t, reason) ∷ rest) db keeps o =
    enqueue_plan-OneActive others account key clock (i + 1) rest
      (enqueue_core_work others account t key (reason_payload reason) (clock i) db) keeps
      (enqueue_core_work-OneActive account t key (reason_payload reason) (clock i) db others keeps
        o)
