-- ===== src/BodySync/Reclaim.antt =====
-- src/database/body_sync_queue.rs: an item that is enqueued again while a worker holds its job.
use Prim.Native.String.{String}
use text.Mathlib.TextEquality.{eq_iff}
use mail_subsystem.Prelude.{ℕ, ◌≡◌, true, false, [], ◌∷◌, arith, In, ==_iff, &&-cases, ap}
use mail_subsystem.Prelude.Int.{ℤ, pos, negsuc}
use mail_subsystem.Sql.Upsert.{In-upsert_where_key}
use mail_subsystem.CoreWork.{is_processing}
use mail_subsystem.BodySync.{
  BodyRow, BodySyncQueueItem, BodyDb, item_key, same_int, has_email, new_body_row, reopen_row,
  insert_items, insert_statement, enqueue_body_sync_items_for_account,
}
use mail_subsystem.BodySync.Stored.{body_is_due}
use mail_subsystem.BodySync.Invariant.{KeysDiffer, IsWellFormed}

same_int_eq : (a b : ℤ) → same_int a b ≡ true → a ≡ b
same_int_eq (pos a) (pos b) h = ap pos ((==_iff a b).0 h)
same_int_eq (negsuc a) (negsuc b) h = ap negsuc ((==_iff a b).0 h)
same_int_eq (pos a) (negsuc b) h = absurd (ground arith)
same_int_eq (negsuc a) (pos b) h = absurd (ground arith)

item_key-cases :
    (account : String) (i : BodySyncQueueItem) (r : BodyRow)
    → item_key account i r ≡ true
    → (r.account_id ≡ account)
      × (r.folder_name ≡ i.folder_name)
      × (r.uid ≡ i.uid)
      × (r.uid_validity ≡ i.uid_validity)
      × (r.message_id ≡ i.message_id)
item_key-cases account i r h =
    let (a, h1) = &&-cases _ _ h in
    let (b, h2) = &&-cases _ _ h1 in
    let (c, h3) = &&-cases _ _ h2 in
    let (d, e) = &&-cases _ _ h3 in
    (
      (eq_iff r.account_id account).0 a,
      (eq_iff r.folder_name i.folder_name).0 b,
      same_int_eq r.uid i.uid c,
      same_int_eq r.uid_validity i.uid_validity d,
      (eq_iff r.message_id i.message_id).0 e,
    )

one_key :
    (account : String) (i : BodySyncQueueItem) (x r : BodyRow)
    → item_key account i x ≡ true
    → item_key account i r ≡ true
    → KeysDiffer x r
    → ⊥
one_key account i x r hx hr d =
    let (a, b, c, e, f) = item_key-cases account i r hr in
    let fits : item_key account i x ≡ false = rw (a, b, c, e, f) at d in ground arith

-- On a well-formed table, when an item with a known email is enqueued while a worker is processing
-- its row, the row is pending, due and unlocked afterwards: the next claim may hand it out although
-- the worker has not ended.
pub enqueue-frees_claim :
    (account : String) (now : ℕ) (i : BodySyncQueueItem) (db : BodyDb) (r : BodyRow)
    → IsWellFormed db
    → In r db.rows
    → item_key account i r ≡ true
    → is_processing r.status ≡ true
    → has_email account i.message_id db.emails ≡ true
    → In (reopen_row now r) (enqueue_body_sync_items_for_account account now (i ∷ []) db).0.rows
      × (body_is_due account now (λ _. false) (reopen_row now r) ≡ true)
unfolding enqueue_body_sync_items_for_account insert_statement insert_items
enqueue-frees_claim account now i db r w m h busy known = (
  rw known (
      In-upsert_where_key (item_key account i) (reopen_row now)
        (new_body_row account i now db.next_id) KeysDiffer (one_key account i) r db.rows
        w.keys_unique m h),
  ground (arith, item_key-cases account i r h, eq_iff r.account_id account),
)
