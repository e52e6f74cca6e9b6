-- ===== src/Sql/Unique.antt =====
-- A table whose ids grow in the order of insertion: an id names one row.
use mail_subsystem.Prelude.{
  ℕ, ◌<◌, ◌≡◌, refl, inl, inr, Bool, true, false, List, [], ◌∷◌, arith, In, All, All-In, ==_refl,
  ◌==◌, ap,
}
use mail_subsystem.Sql.{select_where}
use mail_subsystem.Sql.Update.{Pairwise}

module _ {A : Type 0} (key : A → ℕ) where
  abbrev pub IsAscending : List A → Type 0
  IsAscending xs = Pairwise (λ (x y : A). key x < key y) xs

  pub In-unique :
      (x y : A) (xs : List A) → IsAscending xs → In x xs → In y xs → key x ≡ key y → x ≡ y
  In-unique x y [] w m n e = absurd m
  In-unique x y (z ∷ zs) w (inl a) (inl b) e = cc
  In-unique x y (z ∷ zs) w (inl a) (inr n) e =
      let lt : key z < key y = All-In (λ v. key z < key v) zs w.0 y n in
      absurd (omega (arith, ap key a))
  In-unique x y (z ∷ zs) w (inr m) (inl b) e =
      let lt : key z < key x = All-In (λ v. key z < key v) zs w.0 x m in
      absurd (omega (arith, ap key b))
  In-unique x y (z ∷ zs) w (inr m) (inr n) e = In-unique x y zs w.1 m n e

  select_where-above :
      (p : A → Bool) (r : A) (xs : List A)
      → All (λ x. p x ≡ (key x == key r)) xs
      → All (λ x. key r < key x) xs
      → select_where p xs ≡ []
  unfolding select_where
  select_where-above p r [] h k = refl
  select_where-above p r (x ∷ xs) h k =
      let no_match : p x ≡ false = ground (arith, h.0, k.0) in
      rw no_match (select_where-above p r xs h.1 k.1)

  -- A condition that singles out the id of a row selects that row alone.
  pub select_where_unique :
      (p : A → Bool) (r : A) (xs : List A)
      → IsAscending xs
      → All (λ x. p x ≡ (key x == key r)) xs
      → In r xs
      → select_where p xs ≡ r ∷ []
  unfolding select_where
  select_where_unique p r [] w h m = absurd m
  select_where_unique p r (x ∷ xs) w h (inl e) =
      let same : p x ≡ true = rw h.0 (rw e (==_refl (key x))) in
      let later : All (λ y. key r < key y) xs = rw e w.0 in
      rw (same, select_where-above p r xs h.1 later, e) refl
  select_where_unique p r (x ∷ xs) w h (inr m) =
      let lt : key x < key r = All-In (λ v. key x < key v) xs w.0 r m in
      let no_match : p x ≡ false = ground (arith, h.0) in
      rw no_match (select_where_unique p r xs w.1 h.1 m)
