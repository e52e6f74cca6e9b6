-- ===== src/CoreWork/Requeue.antt =====
-- src/database/core_work.rs: work that is enqueued again while it is being processed.
use Prim.Native.String.{String}
use mail_subsystem.Prelude.{ℕ, ◌≡◌, true, arith, In, ==_refl}
use mail_subsystem.Json.{Json}
use mail_subsystem.Sql.{update_where}
use mail_subsystem.Sql.Update.{In-update_where}
use mail_subsystem.Sql.Upsert.{In-upsert_where_key}
use mail_subsystem.CoreWork.{CoreWorkType, Row, Db, is_processing}
use text.Mathlib.TextEquality.{eq_iff}
use mail_subsystem.CoreWork.Kinds.{same_type_iff}
use mail_subsystem.CoreWork.Table.{has_key, new_row, requeue, enqueue_core_work_for_account}
use mail_subsystem.CoreWork.Settle.{has_id, done_row, mark_core_work_done_for_account}
use mail_subsystem.CoreWork.Effects.{rows-mark_done}
use mail_subsystem.CoreWork.Invariant.{IsWellFormed, KeysDiffer}

one_key :
    (account : String) (t : CoreWorkType) (key : String) (x r : Row)
    → has_key account t key x ≡ true
    → has_key account t key r ≡ true
    → KeysDiffer x r
    → ⊥
one_key account t key x r hx hr d = ground (
  arith,
  eq_iff x.account_id account,
  eq_iff r.account_id account,
  eq_iff x.account_id r.account_id,
  eq_iff x.idempotency_key key,
  eq_iff r.idempotency_key key,
  eq_iff x.idempotency_key r.idempotency_key,
  same_type_iff x.work_type t,
  same_type_iff r.work_type t,
  same_type_iff x.work_type r.work_type,
)

-- A request that comes while its row is being processed replaces the payload of the row; when the
-- running work ends, the row is done, and the new payload has not been claimed.
pub enqueue-mark_done_swallows :
    (account : String) (t : CoreWorkType) (key : String) (payload : Json) (requested ended : ℕ)
    (db : Db) (r : Row)
    → IsWellFormed db
    → In r db.rows
    → has_key account t key r ≡ true
    → is_processing r.status ≡ true
    → In
        (record (done_row ended r) { payload = payload })
        (mark_core_work_done_for_account account r.id ended
          (enqueue_core_work_for_account account t key payload requested db).0).0.rows
unfolding enqueue_core_work_for_account
enqueue-mark_done_swallows account t key payload requested ended db r w m h busy =
    let f = requeue payload requested in
    let p = has_id account r.id in
    let db' = (enqueue_core_work_for_account account t key payload requested db).0 in
    let here : In (f r) db'.rows =
      In-upsert_where_key (has_key account t key) f
        (new_row account t key payload requested db.next_id) KeysDiffer (one_key account t key) r
        db.rows w.keys_unique m h in
    let mine : p (f r) ≡ true = ground (arith, ==_refl r.id) in
    let there = In-update_where p (done_row ended) (f r) db'.rows here in
    let settled : In (done_row ended (f r)) (update_where p (done_row ended) db'.rows) =
      rw mine at there in
    let kept : done_row ended (f r) ≡ record (done_row ended r) { payload = payload } =
      ground arith in
    rw (rows-mark_done account r.id ended db') (rw kept at settled)
