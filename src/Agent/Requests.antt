-- ===== src/Agent/Requests.antt =====
-- src/agent_harness/run_executor.rs with src/database/core_work.rs: what a request does to the queue.
use Prim.Native.String.{String}
use text.Mathlib.Text.{◌==◌ as str_eq}
use text.Mathlib.TextEquality.{eq_iff}
use mail_subsystem.Prelude.{
  ℕ, ◌≡◌, refl, inl, inr, Bool, true, ◌&&◌, List, [], ◌∷◌, arith, In, Bool-cases, &&-cases,
  if◌then◌else◌,
}
use mail_subsystem.Json.{Json}
use mail_subsystem.Sql.{exists_where, upsert_where}
use mail_subsystem.Sql.Upsert.{In-upsert_where, upsert_where-key}
use mail_subsystem.CoreWork.{
  CoreWorkType, same_type, Db, Row, is_active, is_processing, Status, pending,
}
use mail_subsystem.CoreWork.Kinds.{same_type_iff}
use mail_subsystem.CoreWork.Table.{has_key, requeue, new_row, enqueue_core_work_for_account}
use mail_subsystem.CoreWork.Ops.{apply, enqueue}
use mail_subsystem.CoreWork.Invariant.{IsWellFormed, apply-IsWellFormed}
use mail_subsystem.CoreWork.Report.{has_active_core_work_type_for_account}
use mail_subsystem.Agent.Prerequisites.{
  enqueue_each, prerequisite_key, request_db_prerequisite_work,
}

module _ {A : Type 0} (p : A → Bool) where
  In-exists_where : (x : A) (xs : List A) → In x xs → p x ≡ true → exists_where p xs ≡ true
  unfolding exists_where
  In-exists_where x [] m h = absurd m
  In-exists_where x (y ∷ ys) (inl e) h = rw (← e, h) refl
  In-exists_where x (y ∷ ys) (inr m) h = ground (arith, In-exists_where x ys m h)

  exists_where-In : (xs : List A) → exists_where p xs ≡ true → (x : A) × In x xs × (p x ≡ true)
  unfolding exists_where
  exists_where-In [] h = absurd (ground arith)
  exists_where-In (y ∷ ys) h = elim (Bool-cases (p y)) [
    | inl e ↦ (y, inl refl, e)
    | inr e ↦ let (x, m, k) = exists_where-In ys (rw e at h) in (x, inr m, k)
  ]

module _ (account : String) (payload : Json) (now : ℕ) where
  abbrev active : CoreWorkType → Row → Bool
  active t r = str_eq r.account_id account && (same_type r.work_type t && is_active r.status)

  -- Enqueueing again leaves a row active, and makes it so.
  requeued-active :
      (status : Status) → is_active (if is_processing status then status else pending) ≡ true
  requeued-active status = ground arith

  enqueued-active :
      (t : CoreWorkType) (db : Db)
      → has_active_core_work_type_for_account account t
          (enqueue_core_work_for_account account t (prerequisite_key t) payload now db).0
        ≡ true
  unfolding has_active_core_work_type_for_account enqueue_core_work_for_account
  enqueued-active t db =
      let p = has_key account t (prerequisite_key t) in
      let new = new_row account t (prerequisite_key t) payload now db.next_id in
      let rows = upsert_where p (requeue payload now) new db.rows in
      elim (upsert_where-key p (requeue payload now) new db.rows) [
        | inl m ↦
            In-exists_where (active t) new rows m
              (ground (arith, eq_iff account account, same_type_iff t t))
        | inr (x, h, m) ↦
            let (both, _) = &&-cases (str_eq x.account_id account && same_type x.work_type t) _ h in
            let (a, b) = &&-cases (str_eq x.account_id account) _ both in
            In-exists_where (active t) (requeue payload now x) rows m
              (rw (a, b) (requeued-active x.status))
      ]

  enqueue-keeps_active :
      (t u : CoreWorkType) (db : Db)
      → has_active_core_work_type_for_account account t db ≡ true
      → has_active_core_work_type_for_account account t
          (enqueue_core_work_for_account account u (prerequisite_key u) payload now db).0
        ≡ true
  unfolding has_active_core_work_type_for_account enqueue_core_work_for_account
  enqueue-keeps_active t u db h =
      let p = has_key account u (prerequisite_key u) in
      let new = new_row account u (prerequisite_key u) payload now db.next_id in
      let rows = upsert_where p (requeue payload now) new db.rows in
      let (x, m, k) = exists_where-In (active t) db.rows h in
      let (a, k') = &&-cases (str_eq x.account_id account) _ k in
      let (b, _) = &&-cases (same_type x.work_type t) _ k' in
      elim (In-upsert_where p (requeue payload now) new x db.rows m) [
        | inl n ↦ In-exists_where (active t) x rows n k
        | inr n ↦
            In-exists_where (active t) (requeue payload now x) rows n
              (rw (a, b) (requeued-active x.status))
      ]

  enqueue_each-keeps :
      (t : CoreWorkType) (work : List CoreWorkType) (db : Db)
      → has_active_core_work_type_for_account account t db ≡ true
      → has_active_core_work_type_for_account account t (enqueue_each account payload now work db)
        ≡ true
  unfolding enqueue_each
  enqueue_each-keeps t [] db h = h
  enqueue_each-keeps t (u ∷ us) db h =
      enqueue_each-keeps t us
        (enqueue_core_work_for_account account u (prerequisite_key u) payload now db).0
        (enqueue-keeps_active t u db h)

  enqueue_each-active :
      (t : CoreWorkType) (work : List CoreWorkType) (db : Db)
      → In t work
      → has_active_core_work_type_for_account account t (enqueue_each account payload now work db)
        ≡ true
  unfolding enqueue_each
  enqueue_each-active t [] db m = absurd m
  enqueue_each-active t (u ∷ us) db (inl e) = rw e (
      enqueue_each-keeps u us
        (enqueue_core_work_for_account account u (prerequisite_key u) payload now db).0
        (enqueued-active u db))
  enqueue_each-active t (u ∷ us) db (inr m) = enqueue_each-active t us _ m

  enqueue_each-IsWellFormed :
      (work : List CoreWorkType) (db : Db)
      → IsWellFormed db
      → IsWellFormed (enqueue_each account payload now work db)
  unfolding enqueue_each apply
  enqueue_each-IsWellFormed [] db w = w
  enqueue_each-IsWellFormed (u ∷ us) db w =
      enqueue_each-IsWellFormed us _
        (apply-IsWellFormed (enqueue account u (prerequisite_key u) payload) now db w)

-- If work is requested at all, every missing kind has an active row in the queue afterwards, and the
-- queue is still well formed.
pub request-queues :
    (account : String) (payload : Json) (now : ℕ) (missing_work : List CoreWorkType) (db : Db)
    → IsWellFormed db
    → ((t : CoreWorkType)
        → In t missing_work
        → has_active_core_work_type_for_account account t
            (request_db_prerequisite_work true account payload now missing_work db).1
          ≡ true)
      × IsWellFormed (request_db_prerequisite_work true account payload now missing_work db).1
unfolding request_db_prerequisite_work
request-queues account payload now missing_work db w = (
  λ t m. enqueue_each-active account payload now t missing_work db m,
  enqueue_each-IsWellFormed account payload now missing_work db w,
)
