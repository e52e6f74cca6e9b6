-- ===== src/BodySync.antt =====
-- src/database/body_sync_queue.rs: the table body_sync_queue (schema.sql) and its statements. The
-- statuses, the reading of a time and the texts of errors are those of CoreWork.
pub mod Stored
pub mod Enqueue
pub mod Ops
pub mod Invariant
pub mod Histories
pub mod Reclaim
pub mod Claim
mod Tests
use Prim.Native.String.{String}
use text.Mathlib.Text.{◌==◌ as str_eq}
use mail_subsystem.Prelude.{
  ℕ, ◌+◌, ◌*◌, ◌-◌, Bool, false, not, ◌&&◌, ◌||◌, List, [], ◌∷◌, Option, none, some, if◌then◌else◌,
  ◌==◌, leb, map, take, length,
}
use mail_subsystem.Prelude.Int.{ℤ, pos, negsuc, at_least}
use mail_subsystem.Prelude.Text.{Text}
use mail_subsystem.Sql.{
  select_where, update_where, upsert_where, count_where, keys_before, order_by, any_id,
}
use mail_subsystem.CoreWork.{
  Status, pending, processing, done, failed, is_pending, is_processing, is_failed, is_done, is_dead,
  is_claimable, second,
}
use mail_subsystem.CoreWork.Settle.{left_4000, next_status, locked_before}

pub record BodyRow : Type 0 where
  pub id : ℕ
  pub account_id : String
  pub folder_name : String
  pub uid : ℤ
  pub uid_validity : ℤ
  pub message_id : String
  pub status : Status
  pub attempt_count : ℕ
  pub available_at : ℕ
  pub locked_at : Option ℕ
  pub worker_id : Option String
  pub last_error : Option Text
  pub created_at : ℕ
  pub updated_at : ℕ

pub record BodySyncQueueItem : Type 0 where
  pub folder_name : String
  pub uid : ℤ
  pub uid_validity : ℤ
  pub message_id : String

pub record BodySyncQueueEntry : Type 0 where
  pub id : ℕ
  pub folder_name : String
  pub uid : ℤ
  pub uid_validity : ℤ
  pub message_id : String
  pub attempt_count : ℕ

-- The table with its sequence, and the keys (account, message) of the table emails, to which
-- its foreign key points.
pub record BodyDb : Type 0 where
  pub next_id : ℕ
  pub rows : List BodyRow
  pub emails : List (String × String)

pub data BodyError : Type 0 where
  row_affected_twice unknown_email item_not_found envelopes_rejected : BodyError

pub data BodyResult (A : Type 0) : Type 0 where
  ok : A → BodyResult A
  err : BodyError → BodyResult A

abbrev pub same_int : ℤ → ℤ → Bool
same_int (pos a) (pos b) = a == b
same_int (negsuc a) (negsuc b) = a == b
same_int _ _ = false

-- The unique key, for rows and for the items of one account.
abbrev pub item_key : String → BodySyncQueueItem → BodyRow → Bool
item_key account i r =
    str_eq r.account_id account
    && (str_eq r.folder_name i.folder_name
        && (same_int r.uid i.uid
            && (same_int r.uid_validity i.uid_validity && str_eq r.message_id i.message_id)))

abbrev pub same_item : BodySyncQueueItem → BodySyncQueueItem → Bool
same_item a b =
    str_eq a.folder_name b.folder_name
    && (same_int a.uid b.uid
        && (same_int a.uid_validity b.uid_validity && str_eq a.message_id b.message_id))

abbrev pub new_body_row : String → BodySyncQueueItem → ℕ → ℕ → BodyRow
new_body_row account i now id = record {
  id = id;
  account_id = account;
  folder_name = i.folder_name;
  uid = i.uid;
  uid_validity = i.uid_validity;
  message_id = i.message_id;
  status = pending;
  attempt_count = 0;
  available_at = now;
  locked_at = none;
  worker_id = none;
  last_error = none;
  created_at = now;
  updated_at = now;
}

-- DO UPDATE SET: a row that is done stays as it is.
abbrev pub reopen_row : ℕ → BodyRow → BodyRow
reopen_row now r =
    let finished = is_done r.status in
    record r {
      status = if finished then r.status else pending;
      available_at = if finished then r.available_at else now;
      locked_at = if finished then r.locked_at else none;
      worker_id = if finished then r.worker_id else none;
      last_error = if finished then r.last_error else none;
      updated_at = now;
    }

abbrev pub is_seen : BodySyncQueueItem → List BodySyncQueueItem → Bool
is_seen i [] = false
is_seen i (j ∷ js) = same_item i j || is_seen i js

abbrev pub has_email : String → String → List (String × String) → Bool
has_email account message [] = false
has_email account message ((a, m) ∷ es) =
    (str_eq a account && str_eq m message) || has_email account message es

abbrev pub emails_known : String → List (String × String) → List BodySyncQueueItem → Bool
emails_known account es [] = Bool.true
emails_known account es (i ∷ is') = has_email account i.message_id es && emails_known account es is'

abbrev pub insert_item : String → ℕ → BodySyncQueueItem → BodyDb → BodyDb
insert_item account now i db = record db {
  next_id = db.next_id + 1;
  rows =
      upsert_where (item_key account i) (reopen_row now) (new_body_row account i now db.next_id)
        db.rows;
}

-- The items of one INSERT in turn. PostgreSQL refuses a statement whose ON CONFLICT DO UPDATE would
-- touch a row that the statement itself has inserted or updated (`seen`).
unfoldable pub insert_items :
    String → ℕ → List BodySyncQueueItem → List BodySyncQueueItem → BodyDb → BodyDb × Bool
insert_items account now seen [] db = (db, Bool.true)
insert_items account now seen (i ∷ is') db =
    let rest = insert_items account now (i ∷ seen) is' (insert_item account now i db) in
    if is_seen i seen then (record db { next_id = db.next_id + 1 }, false) else rest

-- The INSERT as one statement: where it fails it leaves no row, but the sequence has moved on. The
-- foreign key is checked at its end.
unfoldable pub insert_statement :
    String → ℕ → List BodySyncQueueItem → BodyDb → BodyDb × BodyResult ℕ
insert_statement account now items db =
    let (db', touched_once) = insert_items account now [] items db in
    let undone = record db { next_id = db'.next_id } in
    if not touched_once
    then (undone, err row_affected_twice)
    else if emails_known account db.emails items
    then (db', ok (length items))
    else (undone, err unknown_email)

unfoldable pub enqueue_body_sync_items_for_account :
    String → ℕ → List BodySyncQueueItem → BodyDb → BodyDb × BodyResult ℕ
enqueue_body_sync_items_for_account account now [] db = (db, ok 0)
enqueue_body_sync_items_for_account account now (i ∷ is') db =
    insert_statement account now (i ∷ is') db

-- The second statement of the transaction, and its rollback.
abbrev pub commit_after_insert : BodyDb → BodyDb × BodyResult ℕ → BodyDb × BodyResult Unit
commit_after_insert before (db, ok n) = (db, ok tt)
commit_after_insert before (db, err e) = (record before { next_id = db.next_id }, err e)

abbrev pub enqueue_in_transaction :
    String → ℕ → List BodySyncQueueItem → BodyDb → BodyDb → BodyDb × BodyResult Unit
enqueue_in_transaction account now [] before db = (db, ok tt)
enqueue_in_transaction account now (i ∷ is') before db =
    commit_after_insert before (insert_statement account now (i ∷ is') db)

abbrev pub after_envelopes :
    String
    → ℕ
    → List BodySyncQueueItem
    → BodyDb
    → Option (List (String × String))
    → BodyDb × BodyResult Unit
after_envelopes account now items db none = (db, err envelopes_rejected)
after_envelopes account now items db (some es) =
    enqueue_in_transaction account now items db (record db { emails = es })

-- `upsert_emails` is the SQL function upsert_emails_from_envelope on the keys of emails; `none` is
-- its failure.
unfoldable pub upsert_envelopes_and_enqueue_body_sync_for_account :
    (List (String × String) → Option (List (String × String)))
    → String
    → ℕ
    → List BodySyncQueueItem
    → BodyDb
    → BodyDb × BodyResult Unit
upsert_envelopes_and_enqueue_body_sync_for_account upsert_emails account now items db =
    after_envelopes account now items db (upsert_emails db.emails)
