-- ===== src/Sql/OrderBy.antt =====
-- ORDER BY … LIMIT n returns the first n rows: no row that is left out comes before one of them.
use mail_subsystem.Prelude.{
  ℕ, zero, suc, ◌≡◌, refl, ◌⊎◌, inl, inr, Bool, true, false, List, [], ◌∷◌, arith, take, In, All,
  All-mono, Bool-cases,
}
use mail_subsystem.Sql.{insert_by, order_by, keys_before}

module _ {A : Type 0} (before : A → A → Bool) where
  pub In-insert_by : (x y : A) (xs : List A) → (x ≡ y) ⊎ In x xs → In x (insert_by before y xs)
  unfolding insert_by
  In-insert_by x y [] h = h
  In-insert_by x y (z ∷ zs) h = elim (Bool-cases (before z y)) [
    | inl e ↦ rw e (elim h [
      | inl same ↦ inr (In-insert_by x y zs (inl same))
      | inr m ↦ elim m [ inl here ↦ inl here | inr later ↦ inr (In-insert_by x y zs (inr later)) ]
    ])
    | inr e ↦ rw e h
  ]

  pub insert_by-In : (x y : A) (xs : List A) → In x (insert_by before y xs) → (x ≡ y) ⊎ In x xs
  unfolding insert_by
  insert_by-In x y [] h = h
  insert_by-In x y (z ∷ zs) h = elim (Bool-cases (before z y)) [
    | inl e ↦
        let h' : (x ≡ z) ⊎ In x (insert_by before y zs) = rw e at h in
        elim h' [
          | inl here ↦ inr (inl here)
          | inr m ↦ elim (insert_by-In x y zs m) [ inl same ↦ inl same | inr k ↦ inr (inr k) ]
        ]
    | inr e ↦ rw e at h
  ]

  pub In-order_by : (x : A) (xs : List A) → In x xs → In x (order_by before xs)
  unfolding order_by
  In-order_by x [] m = m
  In-order_by x (y ∷ ys) (inl e) = In-insert_by x y (order_by before ys) (inl e)
  In-order_by x (y ∷ ys) (inr m) = In-insert_by x y (order_by before ys) (inr (In-order_by x ys m))

  pub order_by-In : (x : A) (xs : List A) → In x (order_by before xs) → In x xs
  unfolding order_by
  order_by-In x [] m = m
  order_by-In x (y ∷ ys) m = elim (insert_by-In x y (order_by before ys) m) [
    | inl e ↦ inl e
    | inr k ↦ inr (order_by-In x ys k)
  ]

  -- No later row comes before an earlier one.
  abbrev pub IsOrdered : List A → Type 0
  IsOrdered [] = Unit
  IsOrdered (x ∷ xs) = All (λ y. before y x ≡ false) xs × IsOrdered xs

  -- What a lexicographic order of sort keys satisfies.
  pub record IsSortOrder : Type 0 where
    pub asymmetric : (x y : A) → before x y ≡ true → before y x ≡ false
    pub negative_trans : (x y z : A) → before y x ≡ false → before z y ≡ false → before z x ≡ false

  module _ (laws : IsSortOrder) where
    All-insert_by :
        (x y : A) (xs : List A)
        → before y x ≡ false
        → All (λ z. before z x ≡ false) xs
        → All (λ z. before z x ≡ false) (insert_by before y xs)
    unfolding insert_by
    All-insert_by x y [] h k = (h, tt)
    All-insert_by x y (z ∷ zs) h k = elim (Bool-cases (before z y)) [
      | inl e ↦ rw e (k.0, All-insert_by x y zs h k.1)
      | inr e ↦ rw e (h, k)
    ]

    insert_by-IsOrdered : (y : A) (xs : List A) → IsOrdered xs → IsOrdered (insert_by before y xs)
    unfolding insert_by
    insert_by-IsOrdered y [] h = (tt, tt)
    insert_by-IsOrdered y (z ∷ zs) h = elim (Bool-cases (before z y)) [
      | inl e ↦
          rw e (All-insert_by z y zs (laws.asymmetric z y e) h.0, insert_by-IsOrdered y zs h.1)
      | inr e ↦ rw e ((e, All-mono _ _ zs (λ w k. laws.negative_trans y z w e k) h.0), h)
    ]

    pub order_by-IsOrdered : (xs : List A) → IsOrdered (order_by before xs)
    unfolding order_by
    order_by-IsOrdered [] = tt
    order_by-IsOrdered (x ∷ xs) = insert_by-IsOrdered x (order_by before xs) (order_by-IsOrdered xs)

    -- An element of an ordered list stands among the first n, or before none of them.
    take-first :
        (n : ℕ) (xs : List A) (x : A)
        → IsOrdered xs
        → In x xs
        → In x (take n xs) ⊎ All (λ c. before x c ≡ false) (take n xs)
    take-first zero xs x o m = inr tt
    take-first (suc n) [] x o m = absurd m
    take-first (suc n) (y ∷ ys) x o (inl e) = inl (inl e)
    take-first (suc n) (y ∷ ys) x o (inr m) = elim (take-first n ys x o.1 m) [
      | inl k ↦ inl (inr k)
      | inr k ↦ inr (All-at ys o.0 m, k)
    ]
      where
        All-at : (zs : List A) → All (λ z. before z y ≡ false) zs → In x zs → before x y ≡ false
        All-at [] h k = absurd k
        All-at (z ∷ zs) h (inl e) = rw e h.0
        All-at (z ∷ zs) h (inr k) = All-at zs h.1 k

    pub irreflexive : (x : A) → before x x ≡ false
    irreflexive x = elim (Bool-cases (before x x)) [ inl e ↦ laws.asymmetric x x e | inr e ↦ e ]

    pub limit-first :
        (n : ℕ) (xs : List A) (x : A)
        → In x xs
        → In x (take n (order_by before xs))
          ⊎ All (λ c. before x c ≡ false) (take n (order_by before xs))
    limit-first n xs x m =
        take-first n (order_by before xs) x (order_by-IsOrdered xs) (In-order_by x xs m)

-- The order of a list of sort keys is such an order.
keys_before_asymmetric : (x y : List ℕ) → keys_before x y ≡ true → keys_before y x ≡ false
unfolding keys_before
keys_before_asymmetric [] [] h = refl
keys_before_asymmetric [] (y ∷ ys) h = refl
keys_before_asymmetric (x ∷ xs) [] h = ground arith
keys_before_asymmetric (x ∷ xs) (y ∷ ys) h = ground (arith, keys_before_asymmetric xs ys)

keys_before_negative_trans :
    (x y z : List ℕ) → keys_before y x ≡ false → keys_before z y ≡ false → keys_before z x ≡ false
unfolding keys_before
keys_before_negative_trans [] [] [] h k = refl
keys_before_negative_trans [] [] (z ∷ zs) h k = refl
keys_before_negative_trans [] (y ∷ ys) [] h k = ground arith
keys_before_negative_trans [] (y ∷ ys) (z ∷ zs) h k = refl
keys_before_negative_trans (x ∷ xs) [] z h k = ground arith
keys_before_negative_trans (x ∷ xs) (y ∷ ys) [] h k = ground arith
keys_before_negative_trans (x ∷ xs) (y ∷ ys) (z ∷ zs) h k =
    ground (arith, keys_before_negative_trans xs ys zs)

pub by_keys-IsSortOrder :
    {A : Type 0} (keys : A → List ℕ) → IsSortOrder (λ (a b : A). keys_before (keys a) (keys b))
by_keys-IsSortOrder keys = record {
  asymmetric = λ x y. keys_before_asymmetric (keys x) (keys y);
  negative_trans = λ x y z. keys_before_negative_trans (keys x) (keys y) (keys z);
}
