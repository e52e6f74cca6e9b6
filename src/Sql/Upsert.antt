-- ===== src/Sql/Upsert.antt =====
-- INSERT ... ON CONFLICT DO UPDATE: which rows it leaves.
use mail_subsystem.Prelude.{
  ◌≡◌, refl, ◌⊎◌, inl, inr, Bool, true, List, [], ◌∷◌, In, All-In, Bool-cases,
}
use mail_subsystem.Sql.{upsert_where}
use mail_subsystem.Sql.Update.{Pairwise}

module _ {A : Type 0} (p : A → Bool) (f : A → A) (new : A) where
  -- An old row stays, or is the one that is updated.
  pub In-upsert_where :
      (r : A) (rows : List A)
      → In r rows
      → In r (upsert_where p f new rows) ⊎ In (f r) (upsert_where p f new rows)
  unfolding upsert_where
  In-upsert_where r [] m = absurd m
  In-upsert_where r (x ∷ xs) (inl e) = elim (Bool-cases (p x)) [
    | inl d ↦ rw (d, e) (inr (inl refl))
    | inr d ↦ rw d (inl (inl e))
  ]
  In-upsert_where r (x ∷ xs) (inr m) = elim (Bool-cases (p x)) [
    | inl d ↦ rw d (inl (inr m))
    | inr d ↦ elim (In-upsert_where r xs m) [
      | inl k ↦ rw d (inl (inr k))
      | inr k ↦ rw d (inr (inr k))
    ]
  ]

  -- The new row, or an old one that was updated.
  pub upsert_where-key :
      (rows : List A)
      → In new (upsert_where p f new rows)
        ⊎ ((x : A) × (p x ≡ true) × In (f x) (upsert_where p f new rows))
  unfolding upsert_where
  upsert_where-key [] = inl (inl refl)
  upsert_where-key (x ∷ xs) = elim (Bool-cases (p x)) [
    | inl d ↦ inr (x, d, rw d (inl refl))
    | inr d ↦ elim (upsert_where-key xs) [
      | inl k ↦ rw d (inl (inr k))
      | inr (y, e, k) ↦ inr (y, e, rw d (inr k))
    ]
  ]

  -- Where the condition is a key of the table, a row that fits is the one that is updated.
  pub In-upsert_where_key :
      (R : A → A → Type 0)
      → ((x y : A) → p x ≡ true → p y ≡ true → R x y → ⊥)
      → (r : A) (rows : List A) → Pairwise R rows
      → In r rows
      → p r ≡ true
      → In (f r) (upsert_where p f new rows)
  unfolding upsert_where
  In-upsert_where_key R once r [] w m h = absurd m
  In-upsert_where_key R once r (x ∷ xs) w (inl e) h =
      let here : p x ≡ true = rw (← e) h in rw (here, e) (inl refl)
  In-upsert_where_key R once r (x ∷ xs) w (inr m) h = elim (Bool-cases (p x)) [
    | inl e ↦ absurd (once x r e h (All-In _ xs w.0 r m))
    | inr e ↦ rw e (inr (In-upsert_where_key R once r xs w.1 m h))
  ]
