-- ===== src/Sql/Update.antt =====
-- Laws of the statements that the tables share.
use mail_subsystem.Prelude.{
  ◌≡◌, refl, ◌⊎◌, inl, inr, Bool, true, false, List, [], ◌∷◌, arith, In, All, Bool-cases, map, ap,
  if◌then◌else◌, none, some,
}
use mail_subsystem.Sql.{select_where, update_where, exists_where, upsert_where, find_where}

-- Each two rows are related, the earlier one first.
abbrev pub Pairwise : {A : Type 0} → (A → A → Type 0) → List A → Type 0
Pairwise R [] = Unit
Pairwise R (x ∷ xs) = All (λ y. R x y) xs × Pairwise R xs

module _ {A : Type 0} (p : A → Bool) where
  pub In-select_where : (x : A) (xs : List A) → In x xs → p x ≡ true → In x (select_where p xs)
  unfolding select_where
  In-select_where x [] m h = m
  In-select_where x (y ∷ ys) (inl e) h = let here : p y ≡ true = rw (← e) h in rw here (inl e)
  In-select_where x (y ∷ ys) (inr m) h = elim (Bool-cases (p y)) [
    | inl e ↦ rw e (inr (In-select_where x ys m h))
    | inr e ↦ rw e (In-select_where x ys m h)
  ]

  pub select_where-In : (x : A) (xs : List A) → In x (select_where p xs) → In x xs × (p x ≡ true)
  unfolding select_where
  select_where-In x [] m = absurd m
  select_where-In x (y ∷ ys) m = elim (Bool-cases (p y)) [
    | inl e ↦
        let m' : (x ≡ y) ⊎ In x (select_where p ys) = rw e at m in
        elim m' [
          | inl same ↦ (inl same, rw same e)
          | inr k ↦ let (a, b) = select_where-In x ys k in (inr a, b)
        ]
    | inr e ↦
        let m' : In x (select_where p ys) = rw e at m in
        let (a, b) = select_where-In x ys m' in (inr a, b)
  ]

  pub select_where-nil : (xs : List A) → select_where p xs ≡ [] → All (λ x. p x ≡ false) xs
  unfolding select_where
  select_where-nil [] h = tt
  select_where-nil (x ∷ xs) h = elim (Bool-cases (p x)) [
    | inl e ↦ absurd (ground arith)
    | inr e ↦ (e, select_where-nil xs (rw e at h))
  ]

  pub select_where-none : (xs : List A) → All (λ x. p x ≡ false) xs → select_where p xs ≡ []
  unfolding select_where
  select_where-none [] h = refl
  select_where-none (x ∷ xs) h = rw h.0 (select_where-none xs h.1)

  pub exists_where-false : (xs : List A) → exists_where p xs ≡ false → All (λ x. p x ≡ false) xs
  unfolding exists_where
  exists_where-false [] h = tt
  exists_where-false (x ∷ xs) h = elim (Bool-cases (p x)) [
    | inl e ↦ ground arith
    | inr e ↦ (e, exists_where-false xs (rw e at h))
  ]

  pub find_where-some : (xs : List A) (x : A) → find_where p xs ≡ some x → In x xs × (p x ≡ true)
  unfolding find_where
  find_where-some [] x h = absurd (ground arith)
  find_where-some (y ∷ ys) x h = elim (Bool-cases (p y)) [
    | inl e ↦ let same : x ≡ y = ground arith in (inl same, rw same e)
    | inr e ↦ let (a, b) = find_where-some ys x (rw e at h) in (inr a, b)
  ]

  pub find_where-none : (xs : List A) → find_where p xs ≡ none → All (λ x. p x ≡ false) xs
  unfolding find_where
  find_where-none [] h = tt
  find_where-none (y ∷ ys) h = elim (Bool-cases (p y)) [
    | inl e ↦ absurd (ground arith)
    | inr e ↦ (e, find_where-none ys (rw e at h))
  ]

  -- The row that an UPDATE leaves for `x`.
  abbrev pub updated : (A → A) → A → A
  updated f x = if p x then f x else x

  module _ (f : A → A) where
    pub In-update_where : (x : A) (xs : List A) → In x xs → In (updated f x) (update_where p f xs)
    unfolding update_where
    In-update_where x [] m = m
    In-update_where x (y ∷ ys) (inl e) = inl (ap (updated f) e)
    In-update_where x (y ∷ ys) (inr m) = inr (In-update_where x ys m)

    pub update_where-In :
        (y : A) (xs : List A) → In y (update_where p f xs) → (x : A) × In x xs × (y ≡ updated f x)
    unfolding update_where
    update_where-In y [] m = absurd m
    update_where-In y (x ∷ xs) (inl e) = (x, inl refl, e)
    update_where-In y (x ∷ xs) (inr m) = let (z, k, e) = update_where-In y xs m in (z, inr k, e)

    pub All-update_where :
        (P Q : A → Type 0) (xs : List A)
        → ((x : A) → P x → Q (updated f x))
        → All P xs
        → All Q (update_where p f xs)
    unfolding update_where
    All-update_where P Q [] h k = tt
    All-update_where P Q (x ∷ xs) h k = (h x k.0, All-update_where P Q xs h k.1)

    pub map-update_where :
        {B : Type 0} (key : A → B) (xs : List A)
        → ((x : A) → key (f x) ≡ key x)
        → map key (update_where p f xs) ≡ map key xs
    unfolding update_where
    map-update_where key [] h = refl
    map-update_where key (x ∷ xs) h = elim (Bool-cases (p x)) [
      | inl e ↦ rw e (cc (h x, map-update_where key xs h))
      | inr e ↦ rw e (cc (map-update_where key xs h))
    ]

    pub Pairwise-update_where :
        (P : A → Type 0) (R : A → A → Type 0) (xs : List A)
        → ((x y : A) → P x → P y → R x y → R (updated f x) (updated f y))
        → All P xs
        → Pairwise R xs
        → Pairwise R (update_where p f xs)
    unfolding update_where
    Pairwise-update_where P R [] h k w = tt
    Pairwise-update_where P R (x ∷ xs) h k w =
        (go xs k.1 w.0, Pairwise-update_where P R xs h k.1 w.1)
      where
        go :
            (ys : List A)
            → All P ys
            → All (λ y. R x y) ys
            → All (λ y. R (updated f x) y) (update_where p f ys)
        go [] a b = tt
        go (y ∷ ys) a b = (h x y k.0 a.0 b.0, go ys a.1 b.1)

    pub update_where-none : (xs : List A) → All (λ x. p x ≡ false) xs → update_where p f xs ≡ xs
    unfolding update_where
    update_where-none [] h = refl
    update_where-none (x ∷ xs) h = rw h.0 (ap (λ r. x ∷ r) (update_where-none xs h.1))

    pub update_where-ext :
        (q : A → Bool) (xs : List A)
        → All (λ x. p x ≡ q x) xs
        → update_where p f xs ≡ update_where q f xs
    unfolding update_where
    update_where-ext q [] h = refl
    update_where-ext q (x ∷ xs) h = rw (h.0, update_where-ext q xs h.1)

    module _ (new : A) where
      pub All-upsert_where :
          (P Q : A → Type 0) (xs : List A)
          → Q new
          → ((x : A) → P x → Q x)
          → ((x : A) → p x ≡ true → P x → Q (f x))
          → All P xs
          → All Q (upsert_where p f new xs)
      unfolding upsert_where
      All-upsert_where P Q [] n i u h = (n, tt)
      All-upsert_where P Q (x ∷ xs) n i u h = elim (Bool-cases (p x)) [
        | inl e ↦ rw e (u x e h.0, keep xs h.1)
        | inr e ↦ rw e (i x h.0, All-upsert_where P Q xs n i u h.1)
      ]
        where
          keep : (ys : List A) → All P ys → All Q ys
          keep [] k = tt
          keep (y ∷ ys) k = (i y k.0, keep ys k.1)

      pub Pairwise-upsert_where :
          (P : A → Type 0) (R : A → A → Type 0) (xs : List A)
          → ((x : A) → P x → p x ≡ false → R x new)
          → ((x y : A) → p x ≡ true → P x → P y → R x y → R (f x) y)
          → ((x y : A) → p y ≡ true → P x → P y → R x y → R x (f y))
          → All P xs
          → Pairwise R xs
          → Pairwise R (upsert_where p f new xs)
      unfolding upsert_where
      Pairwise-upsert_where P R [] n l r h w = (tt, tt)
      Pairwise-upsert_where P R (x ∷ xs) n l r h w = elim (Bool-cases (p x)) [
        | inl e ↦ rw e (left xs e h.1 w.0, w.1)
        | inr e ↦ rw e (right xs e h.1 w.0, Pairwise-upsert_where P R xs n l r h.1 w.1)
      ]
        where
          left :
              (ys : List A) → p x ≡ true → All P ys → All (λ y. R x y) ys → All (λ y. R (f x) y) ys
          left [] e a b = tt
          left (y ∷ ys) e a b = (l x y e h.0 a.0 b.0, left ys e a.1 b.1)

          right :
              (ys : List A)
              → p x ≡ false
              → All P ys
              → All (λ y. R x y) ys
              → All (λ y. R x y) (upsert_where p f new ys)
          right [] e a b = (n x h.0 e, tt)
          right (y ∷ ys) e a b = elim (Bool-cases (p y)) [
            | inl d ↦ rw d (r x y d h.0 a.0 b.0, b.1)
            | inr d ↦ rw d (b.0, right ys e a.1 b.1)
          ]
