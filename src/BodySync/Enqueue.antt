-- ===== src/BodySync/Enqueue.antt =====
-- src/database/body_sync_queue.rs: what enqueueing promises.
use Prim.Native.String.{String}
use text.Mathlib.TextEquality.{eq_iff}
use mail_subsystem.Prelude.{
  ℕ, ◌≡◌, refl, ◌⊎◌, inl, inr, true, List, [], ◌∷◌, none, arith, In, All, Bool-cases, ==_refl,
  length, subst, sym, All-of_In,
}
use mail_subsystem.Prelude.Int.{ℤ, pos, negsuc}
use mail_subsystem.Sql.Upsert.{In-upsert_where, upsert_where-key}
use mail_subsystem.CoreWork.{pending, is_done}
use mail_subsystem.BodySync.{
  BodyRow, BodySyncQueueItem, BodyDb, BodyResult, ok, err, item_key, same_int, new_body_row,
  reopen_row, is_seen, emails_known, insert_item, insert_items, insert_statement,
  enqueue_body_sync_items_for_account,
}

same_int_refl : (a : ℤ) → same_int a a ≡ true
same_int_refl (pos a) = ==_refl a
same_int_refl (negsuc a) = ==_refl a

-- The row is done, or it waits, is due at once and is locked by nobody.
abbrev pub IsSettledOrDue : ℕ → BodyRow → Type 0
IsSettledOrDue now r =
    (is_done r.status ≡ true)
    ⊎ ((r.status ≡ pending)
        × (r.available_at ≡ now)
        × (r.locked_at ≡ none)
        × (r.worker_id ≡ none)
        × (r.last_error ≡ none))

module _ (account : String) (now : ℕ) where
  -- Some row has the item's key, and it is done or due.
  abbrev pub IsQueued : List BodyRow → BodySyncQueueItem → Type 0
  IsQueued rows i = (r : BodyRow) × In r rows × (item_key account i r ≡ true) × IsSettledOrDue now r

  reopen_row-IsSettledOrDue : (r : BodyRow) → IsSettledOrDue now (reopen_row now r)
  reopen_row-IsSettledOrDue r = elim (Bool-cases (is_done r.status)) [
    | inl e ↦ inl (rw (e, e) refl)
    | inr e ↦ inr (rw e (refl, refl, refl, refl, refl))
  ]

  reopen_row_idem : (r : BodyRow) → reopen_row now (reopen_row now r) ≡ reopen_row now r
  reopen_row_idem r = elim (Bool-cases (is_done r.status)) [
    | inl e ↦ ground arith
    | inr e ↦ ground arith
  ]

  insert_item-queues :
      (i : BodySyncQueueItem) (db : BodyDb) → IsQueued (insert_item account now i db).rows i
  insert_item-queues i db =
      let new = new_body_row account i now db.next_id in
      elim (upsert_where-key (item_key account i) (reopen_row now) new db.rows) [
        | inl k ↦ (
          new,
          k,
          ground (
            arith,
            eq_iff account account,
            eq_iff i.folder_name i.folder_name,
            eq_iff i.message_id i.message_id,
            same_int_refl i.uid,
            same_int_refl i.uid_validity,
          ),
          inr (refl, refl, refl, refl, refl),
        )
        | inr (x, h, k) ↦ (reopen_row now x, k, h, reopen_row-IsSettledOrDue x)
      ]

  insert_item-IsQueued :
      (i j : BodySyncQueueItem) (db : BodyDb)
      → IsQueued db.rows j
      → IsQueued (insert_item account now i db).rows j
  insert_item-IsQueued i j db (r, m, h, s) =
      let new = new_body_row account i now db.next_id in
      elim (In-upsert_where (item_key account i) (reopen_row now) new r db.rows m) [
        | inl k ↦ (r, k, h, s)
        | inr k ↦ (reopen_row now r, k, h, reopen_row-IsSettledOrDue r)
      ]

  insert_items-IsQueued :
      (seen items : List BodySyncQueueItem) (j : BodySyncQueueItem) (db : BodyDb)
      → IsQueued db.rows j
      → IsQueued (insert_items account now seen items db).0.rows j
  unfolding insert_items
  insert_items-IsQueued seen [] j db h = h
  insert_items-IsQueued seen (i ∷ is') j db h = elim (Bool-cases (is_seen i seen)) [
    | inl e ↦ rw e h
    | inr e ↦ rw e (
        insert_items-IsQueued (i ∷ seen) is' j (insert_item account now i db)
          (insert_item-IsQueued i j db h))
  ]

  insert_items-queues :
      (seen items : List BodySyncQueueItem) (db : BodyDb)
      → (insert_items account now seen items db).1 ≡ true
      → All (IsQueued (insert_items account now seen items db).0.rows) items
  unfolding insert_items
  insert_items-queues seen [] db h = tt
  insert_items-queues seen (i ∷ is') db h = elim (Bool-cases (is_seen i seen)) [
    | inl e ↦ absurd (ground arith)
    | inr e ↦
        let next = insert_item account now i db in
        let same : insert_items account now seen (i ∷ is') db
            ≡ insert_items account now (i ∷ seen) is' next =
          rw e refl in
        subst (λ p. All (IsQueued p.0.rows) (i ∷ is')) (sym same)
          (
            insert_items-IsQueued (i ∷ seen) is' i next (insert_item-queues i db),
            insert_items-queues (i ∷ seen) is' next (rw e at h),
          )
  ]

  -- An old row stays, or is reopened.
  abbrev pub IsKept : List BodyRow → BodyRow → Type 0
  IsKept rows r = In r rows ⊎ In (reopen_row now r) rows

  insert_items-IsKept :
      (seen items : List BodySyncQueueItem) (db : BodyDb) (r : BodyRow)
      → IsKept db.rows r
      → IsKept (insert_items account now seen items db).0.rows r
  unfolding insert_items
  insert_items-IsKept seen [] db r h = h
  insert_items-IsKept seen (i ∷ is') db r h = elim (Bool-cases (is_seen i seen)) [
    | inl e ↦ rw e h
    | inr e ↦ rw e (insert_items-IsKept (i ∷ seen) is' (insert_item account now i db) r (step h))
  ]
    where
      step : IsKept db.rows r → IsKept (insert_item account now i db).rows r
      step (inl m) =
          In-upsert_where (item_key account i) (reopen_row now)
            (new_body_row account i now db.next_id) r db.rows m
      step (inr m) =
          let found =
            In-upsert_where (item_key account i) (reopen_row now)
              (new_body_row account i now db.next_id) (reopen_row now r) db.rows m in
          inr (elim found [ inl k ↦ k | inr k ↦ rw (reopen_row_idem r) at k ])

  -- The specification: a failure leaves the rows as they were; a success has each item in the
  -- table, done or due, and loses no row.
  abbrev pub IsEnqueued : List BodySyncQueueItem → BodyDb → BodyDb × BodyResult ℕ → Type 0
  IsEnqueued items db (db', err e) = (db'.rows ≡ db.rows) × (db'.emails ≡ db.emails)
  IsEnqueued items db (db', ok n) =
      (n ≡ length items) × All (IsQueued db'.rows) items × All (IsKept db'.rows) db.rows

  insert_statement-IsEnqueued :
      (items : List BodySyncQueueItem) (db : BodyDb)
      → IsEnqueued items db (insert_statement account now items db)
  unfolding insert_statement
  insert_statement-IsEnqueued items db =
      elim (Bool-cases (insert_items account now [] items db).1) [
        | inr e ↦ rw e (refl, refl)
        | inl e ↦ elim (Bool-cases (emails_known account db.emails items)) [
          | inr k ↦ rw (e, k) (refl, refl)
          | inl k ↦
              rw (e, k)
                (
                  refl,
                  insert_items-queues [] items db e,
                  All-of_In _ db.rows (λ r m. insert_items-IsKept [] items db r (inl m)),
                )
        ]
      ]

  -- Enqueueing items fails and leaves the rows as they were; or it returns the number of items,
  -- each item has a row that is done, or that is pending, due at once and unlocked, and each row
  -- from before stays as it is or is reopened, which changes nothing but the time of update in a
  -- row that is done.
  pub enqueue-IsEnqueued :
      (items : List BodySyncQueueItem) (db : BodyDb)
      → IsEnqueued items db (enqueue_body_sync_items_for_account account now items db)
  unfolding enqueue_body_sync_items_for_account
  enqueue-IsEnqueued [] db = (refl, tt, All-of_In _ db.rows (λ r m. inl m))
  enqueue-IsEnqueued (i ∷ is') db = insert_statement-IsEnqueued (i ∷ is') db
