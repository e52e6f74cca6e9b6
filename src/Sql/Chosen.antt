-- ===== src/Sql/Chosen.antt =====
-- LIMIT and `id = ANY(ids)`: the rows that a claim has chosen.
use mail_subsystem.Prelude.{
  ℕ, zero, suc, ◌≡◌, refl, inl, inr, true, List, [], ◌∷◌, arith, In, Bool-cases, ◌==◌, ==_iff,
  ==_refl, take, map,
}
use mail_subsystem.Sql.{any_id}

module _ {A : Type 0} where
  pub In-take : (n : ℕ) (x : A) (xs : List A) → In x (take n xs) → In x xs
  In-take zero x xs m = absurd m
  In-take (suc n) x [] m = m
  In-take (suc n) x (y ∷ ys) (inl e) = inl e
  In-take (suc n) x (y ∷ ys) (inr m) = inr (In-take n x ys m)

  module _ (key : A → ℕ) where
    pub any_id-In :
        (i : ℕ) (rs : List A) → any_id (map key rs) i ≡ true → (r : A) × In r rs × (i ≡ key r)
    unfolding any_id
    any_id-In i [] h = absurd (ground arith)
    any_id-In i (r ∷ rs) h = elim (Bool-cases (i == key r)) [
      | inl e ↦ (r, inl refl, (==_iff _ _).0 e)
      | inr e ↦ let (s, m, same) = any_id-In i rs (rw e at h) in (s, inr m, same)
    ]

    pub In-any_id : (r : A) (rs : List A) → In r rs → any_id (map key rs) (key r) ≡ true
    unfolding any_id
    In-any_id r [] m = absurd m
    In-any_id r (s ∷ rs) (inl e) = rw (e, ==_refl (key s), any_id) refl
    In-any_id r (s ∷ rs) (inr m) = ground (arith, In-any_id r rs m)
