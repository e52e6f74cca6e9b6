-- ===== src/Agent/Distinct.antt =====
-- Lists without repetition, by a Boolean equality: Vec::contains, and filtering by what is contained.
use mail_subsystem.Prelude.{
  ◌≡◌, refl, ◌↔◌, Bool, true, false, not, ◌&&◌, ◌||◌, List, [], ◌∷◌, ◌++◌, arith, Bool-cases,
  &&-cases, inl, inr,
}
use mail_subsystem.Sql.{select_where}

module _ {A : Type 0} (same : A → A → Bool) where
  abbrev pub has : A → List A → Bool
  has t [] = false
  has t (u ∷ us) = same u t || has t us

  abbrev pub distinct : List A → Bool
  distinct [] = true
  distinct (t ∷ ts) = not (has t ts) && distinct ts

  -- The elements of `us` that are not in `ts`.
  abbrev pub unseen : List A → List A → List A
  unseen ts us = select_where (λ t. not (has t ts)) us

  has-append : (t : A) (ts us : List A) → has t (ts ++ us) ≡ (has t ts || has t us)
  has-append t [] us = refl
  has-append t (x ∷ ts) us = ground (arith, has-append t ts us)

  has-unseen : (t : A) (ts us : List A) → has t (unseen ts us) ≡ true → has t us ≡ true
  unfolding select_where
  has-unseen t ts [] h = h
  has-unseen t ts (u ∷ us) h = elim (Bool-cases (has u ts)) [
    | inl e ↦ let rest = has-unseen t ts us (rw e at h) in ground arith
    | inr e ↦
        let here : (same u t || has t (unseen ts us)) ≡ true = rw e at h in
        ground (arith, has-unseen t ts us)
  ]

  distinct-unseen : (ts us : List A) → distinct us ≡ true → distinct (unseen ts us) ≡ true
  unfolding select_where
  distinct-unseen ts [] h = refl
  distinct-unseen ts (u ∷ us) h =
      let (fresh, later) = &&-cases (not (has u us)) (distinct us) h in
      let rest = distinct-unseen ts us later in
      elim (Bool-cases (has u ts)) [
        | inl e ↦ rw e rest
        | inr e ↦ rw e (ground (arith, has-unseen u ts us))
      ]

  module _ (iff : (a b : A) → (same a b ≡ true) ↔ (a ≡ b)) where
    unseen-new : (t : A) (ts us : List A) → has t ts ≡ true → has t (unseen ts us) ≡ false
    unfolding select_where
    unseen-new t ts [] h = refl
    unseen-new t ts (u ∷ us) h = elim (Bool-cases (has u ts)) [
      | inl e ↦ rw e (unseen-new t ts us h)
      | inr e ↦ rw e (ground (arith, iff u t, unseen-new t ts us h))
    ]

    distinct-append :
        (ts us : List A)
        → distinct ts ≡ true
        → distinct us ≡ true
        → ((t : A) → has t ts ≡ true → has t us ≡ false)
        → distinct (ts ++ us) ≡ true
    distinct-append [] us h k d = k
    distinct-append (t ∷ ts) us h k d =
        let rest = distinct-append ts us (ground arith) k (λ x m. d x (ground arith)) in
        ground (arith, has-append t ts us, d t, rest, iff t t)

    -- What has been asked for, with what is missing and has not, is still without repetition.
    pub distinct-unseen_added :
        (ts us : List A)
        → distinct ts ≡ true
        → distinct us ≡ true
        → distinct (ts ++ unseen ts us) ≡ true
    distinct-unseen_added ts us h k =
        distinct-append ts (unseen ts us) h (distinct-unseen ts us k) (λ t. unseen-new t ts us)
