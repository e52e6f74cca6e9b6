-- ===== src/Analysis/Trim.antt =====
-- src/email_analysis/result_normalization.rs: a trimmed text is trimmed, so that a value may be
-- trimmed before it is normalized.
use mail_subsystem.Strings.{is_empty, trim_by, trim_end_by, trim_start_by}
use mail_subsystem.Prelude.{
  ℕ, ◌≡◌, refl, inl, inr, Bool, true, ◌&&◌, not, [], ◌∷◌, arith, Bool-cases,
}
use mail_subsystem.Prelude.Text.{Text}
use mail_subsystem.Analysis.{Unicode, normalize_taxonomy_label}

module _ (p : ℕ → Bool) where
  abbrev starts_kept : Text → Bool
  starts_kept [] = true
  starts_kept (c ∷ cs) = not (p c)

  trim_start-starts_kept : (t : Text) → starts_kept (trim_start_by p t) ≡ true
  unfolding trim_start_by
  trim_start-starts_kept [] = refl
  trim_start-starts_kept (c ∷ cs) = elim (Bool-cases (p c)) [
    | inl e ↦ rw e (trim_start-starts_kept cs)
    | inr e ↦ rw (e, e) refl
  ]

  trim_end-starts_kept : (t : Text) → starts_kept t ≡ true → starts_kept (trim_end_by p t) ≡ true
  unfolding trim_end_by
  trim_end-starts_kept [] h = refl
  trim_end-starts_kept (c ∷ cs) h = elim (Bool-cases (is_empty (trim_end_by p cs) && p c)) [
    | inl e ↦ rw e refl
    | inr e ↦ rw e h
  ]

  trim_start-kept : (t : Text) → starts_kept t ≡ true → trim_start_by p t ≡ t
  unfolding trim_start_by
  trim_start-kept [] h = refl
  trim_start-kept (c ∷ cs) h = elim (Bool-cases (p c)) [
    | inl e ↦ absurd (ground arith)
    | inr e ↦ rw e refl
  ]

  trim_end_twice : (t : Text) → trim_end_by p (trim_end_by p t) ≡ trim_end_by p t
  unfolding trim_end_by
  trim_end_twice [] = refl
  trim_end_twice (c ∷ cs) = elim (Bool-cases (is_empty (trim_end_by p cs) && p c)) [
    | inl e ↦ rw e refl
    | inr e ↦ rw (e, trim_end_twice cs, e) refl
  ]

  pub trim_by_twice : (t : Text) → trim_by p (trim_by p t) ≡ trim_by p t
  trim_by_twice t =
      let kept = trim_end-starts_kept (trim_start_by p t) (trim_start-starts_kept t) in
      rw (trim_start-kept (trim_by p t) kept) (trim_end_twice (trim_start_by p t))

-- normalize_category and normalize_email_type trim before they normalize, which changes nothing.
pub normalize_taxonomy_label-trim :
    (u : Unicode) (value : Text)
    → normalize_taxonomy_label u (trim_by u.is_whitespace value) ≡ normalize_taxonomy_label u value
unfolding normalize_taxonomy_label
normalize_taxonomy_label-trim u value = rw (trim_by_twice u.is_whitespace value) refl
