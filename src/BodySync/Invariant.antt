-- ===== src/BodySync/Invariant.antt =====
-- src/database/body_sync_queue.rs: what holds of body_sync_queue between two statements.
use Prim.Native.String.{String}
use mail_subsystem.Prelude.{
  ℕ, ◌+◌, ◌≤◌, ◌<◌, ◌≡◌, refl, inl, inr, Bool, false, List, [], ◌∷◌, arith, All, All-mono,
  Bool-cases, is_some, subst, sym,
}
use mail_subsystem.Sql.{update_where}
use mail_subsystem.Sql.Update.{
  Pairwise, updated, All-update_where, Pairwise-update_where, All-upsert_where,
  Pairwise-upsert_where,
}
use mail_subsystem.CoreWork.{is_processing}
use mail_subsystem.BodySync.{
  BodyRow, BodySyncQueueItem, BodyDb, item_key, new_body_row, reopen_row, is_seen, emails_known,
  insert_item, insert_items, insert_statement,
}

-- A row has a lock and an owner exactly while it is being processed.
pub record IsLockedRight (r : BodyRow) : Type 0 where
  pub lock : is_some r.locked_at ≡ is_processing r.status
  pub owner : is_some r.worker_id ≡ is_processing r.status

abbrev pub item_of : BodyRow → BodySyncQueueItem
item_of r = record {
  folder_name = r.folder_name;
  uid = r.uid;
  uid_validity = r.uid_validity;
  message_id = r.message_id;
}

-- The later row does not have the earlier one's key.
abbrev pub KeysDiffer : BodyRow → BodyRow → Type 0
KeysDiffer x y = item_key y.account_id (item_of y) x ≡ false

pub record IsWellFormed (db : BodyDb) : Type 0 where
  pub ids_grow : Pairwise (λ (x y : BodyRow). x.id < y.id) db.rows
  pub ids_below : All (λ (r : BodyRow). r.id < db.next_id) db.rows
  pub keys_unique : Pairwise KeysDiffer db.rows
  pub locks_right : All IsLockedRight db.rows

-- What every SET list leaves alone.
pub record KeepsIdentity (f : BodyRow → BodyRow) : Type 0 where
  pub id : (r : BodyRow) → (f r).id ≡ r.id
  pub account_id : (r : BodyRow) → (f r).account_id ≡ r.account_id
  pub item : (r : BodyRow) → item_of (f r) ≡ item_of r
  pub key :
      (account : String) (i : BodySyncQueueItem) (r : BodyRow)
      → item_key account i (f r) ≡ item_key account i r

module _ (p : BodyRow → Bool) (f : BodyRow → BodyRow) (keeps : KeepsIdentity f) where
  updated-KeepsIdentity : KeepsIdentity (updated p f)
  updated-KeepsIdentity = record {
    id = λ r. by_case (λ y. y.id ≡ r.id) r (keeps.id r) refl;
    account_id = λ r. by_case (λ y. y.account_id ≡ r.account_id) r (keeps.account_id r) refl;
    item = λ r. by_case (λ y. item_of y ≡ item_of r) r (keeps.item r) refl;
    key = λ a i r. by_case (λ y. item_key a i y ≡ item_key a i r) r (keeps.key a i r) refl;
  }
    where
      by_case : (P : BodyRow → Type 0) (r : BodyRow) → P (f r) → P r → P (updated p f r)
      by_case P r a b = elim (Bool-cases (p r)) [ inl e ↦ rw e a | inr e ↦ rw e b ]

  pub rows_updated-IsWellFormed :
      (db : BodyDb)
      → ((r : BodyRow) → IsLockedRight r → IsLockedRight (f r))
      → IsWellFormed db
      → IsWellFormed (record db { rows = update_where p f db.rows })
  rows_updated-IsWellFormed db locked w =
      let k = updated-KeepsIdentity in
      let any = All-mono IsLockedRight (λ _. Unit) db.rows (λ _ _. tt) w.locks_right in
      record {
        ids_grow =
            Pairwise-update_where p f (λ _. Unit) _ db.rows (λ x y _ _ h. rw (k.id x, k.id y) h) any
              w.ids_grow;
        ids_below =
            All-update_where p f (λ r. r.id < db.next_id) _ db.rows (λ x h. rw (k.id x) h)
              w.ids_below;
        keys_unique =
            Pairwise-update_where p f (λ _. Unit) KeysDiffer db.rows
              (λ x y _ _ h.
                subst (λ a. item_key a (item_of (updated p f y)) (updated p f x) ≡ false)
                  (sym (k.account_id y))
                  (subst (λ i. item_key y.account_id i (updated p f x) ≡ false) (sym (k.item y))
                    (rw (k.key y.account_id (item_of y) x) h)))
              any w.keys_unique;
        locks_right =
            All-update_where p f IsLockedRight IsLockedRight db.rows
              (λ x h. elim (Bool-cases (p x)) [ inl e ↦ rw e (locked x h) | inr e ↦ rw e h ])
              w.locks_right;
      }

pub next_id_raised-IsWellFormed :
    (db : BodyDb) (n : ℕ)
    → db.next_id ≤ n
    → IsWellFormed db
    → IsWellFormed (record db { next_id = n })
next_id_raised-IsWellFormed db n le w = record {
  ids_grow = w.ids_grow;
  ids_below =
      All-mono (λ (r : BodyRow). r.id < db.next_id) _ db.rows (λ r h. omega arith) w.ids_below;
  keys_unique = w.keys_unique;
  locks_right = w.locks_right;
}

module _ (account : String) (now : ℕ) where
  insert_item-IsWellFormed :
      (i : BodySyncQueueItem) (db : BodyDb)
      → IsWellFormed db
      → IsWellFormed (insert_item account now i db)
  insert_item-IsWellFormed i db w =
      let p = item_key account i in
      let f = reopen_row now in
      let new = new_body_row account i now db.next_id in
      let below = λ (r : BodyRow). r.id < db.next_id in
      record {
        ids_grow =
            Pairwise-upsert_where p f new below _ db.rows (λ x h _. h) (λ x y _ _ _ h. h)
              (λ x y _ _ _ h. h) w.ids_below w.ids_grow;
        ids_below =
            All-upsert_where p f new below _ db.rows (omega arith) (λ x h. omega arith)
              (λ x _ h. omega arith) w.ids_below;
        keys_unique =
            Pairwise-upsert_where p f new below KeysDiffer db.rows (λ x _ h. h) (λ x y _ _ _ h. h)
              (λ x y _ _ _ h. h) w.ids_below w.keys_unique;
        locks_right =
            All-upsert_where p f new IsLockedRight IsLockedRight db.rows
              (record { lock = refl; owner = refl }) (λ x h. h) (λ x _ h. ground arith)
              w.locks_right;
      }

  insert_items-IsWellFormed :
      (seen items : List BodySyncQueueItem) (db : BodyDb)
      → IsWellFormed db
      → IsWellFormed (insert_items account now seen items db).0
        × (db.next_id ≤ (insert_items account now seen items db).0.next_id)
  unfolding insert_items
  insert_items-IsWellFormed seen [] db w = (w, omega arith)
  insert_items-IsWellFormed seen (i ∷ is') db w = elim (Bool-cases (is_seen i seen)) [
    | inl e ↦ rw e (next_id_raised-IsWellFormed db (db.next_id + 1) (omega arith) w, omega arith)
    | inr e ↦
        let (a, b) =
          insert_items-IsWellFormed (i ∷ seen) is' (insert_item account now i db)
            (insert_item-IsWellFormed i db w) in
        rw e (a, omega arith)
  ]

  pub insert_statement-IsWellFormed :
      (items : List BodySyncQueueItem) (db : BodyDb)
      → IsWellFormed db
      → IsWellFormed (insert_statement account now items db).0
        × (db.next_id ≤ (insert_statement account now items db).0.next_id)
  unfolding insert_statement
  insert_statement-IsWellFormed items db w =
      let (a, b) = insert_items-IsWellFormed [] items db w in
      elim (Bool-cases (insert_items account now [] items db).1) [
        | inr e ↦ rw e (next_id_raised-IsWellFormed db _ b w, b)
        | inl e ↦ elim (Bool-cases (emails_known account db.emails items)) [
          | inr k ↦ rw (e, k) (next_id_raised-IsWellFormed db _ b w, b)
          | inl k ↦ rw (e, k) (a, b)
        ]
      ]
