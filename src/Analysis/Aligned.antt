-- ===== src/Analysis/Aligned.antt =====
-- src/email_analysis/result_normalization.rs: what alignment with a second result promises.
use mail_subsystem.Strings.Equality.{text_eq_iff}
use mail_subsystem.Strings.{is_empty, trim_by, trim_end_by, trim_start_by}
use mail_subsystem.Prelude.{
  ◌≡◌, refl, ◌⊎◌, inl, inr, Bool, true, false, not, ◌||◌, [], ◌∷◌, Option, none, some, arith,
  Bool-cases, Option-cases, is_some, ◌↔◌, ap,
}
use mail_subsystem.Prelude.Text.{Text}
use mail_subsystem.Analysis.{
  Unicode, find_allowed, category_allowed, normalize_taxonomy_label, normalize_category,
  normalize_email_type, lowercase_chars, separate,
}
use mail_subsystem.Analysis.Align.{
  AnalysisResult, is_category, or_else, is_blank, unaligned_category, proposed_subcategory,
  replace_weak, same_option, apply_schema_alignment_result,
}
use mail_subsystem.Analysis.Labels.{is_label, normalize_taxonomy_label-is_label}
use mail_subsystem.Analysis.Trim.{normalize_taxonomy_label-trim}

-- A label that is not the name of a category.
abbrev pub IsSubcategory : Option Text → Type 0
IsSubcategory o = (l : Text) × (o ≡ some l) × (is_label l ≡ true) × (is_category l ≡ false)

module _ (u : Unicode) where
  blank-no_label : (t : Text) → is_empty t ≡ true → normalize_taxonomy_label u t ≡ none
  unfolding normalize_taxonomy_label lowercase_chars separate trim_start_by trim_end_by
  blank-no_label [] h = refl
  blank-no_label (c ∷ cs) h = absurd (ground arith)

  -- A value whose category is not found has a label that is no category.
  no_category :
      (c l : Text)
      → normalize_category u (some c) ≡ none
      → normalize_taxonomy_label u c ≡ some l
      → is_category l ≡ false
  unfolding normalize_category
  no_category c l h k =
      let t = trim_by u.is_whitespace c in
      let found : normalize_taxonomy_label u t ≡ some l =
        rw (normalize_taxonomy_label-trim u c) k in
      elim (Bool-cases (is_empty t)) [
        | inl e ↦ absurd (ground (arith, blank-no_label t e, found))
        | inr e ↦
            let missing : find_allowed l category_allowed ≡ none = rw (e, found) at h in
            rw missing refl
      ]

  unaligned-IsSubcategory :
      (c : Option Text) → (unaligned_category u c ≡ none) ⊎ IsSubcategory (unaligned_category u c)
  unaligned-IsSubcategory none = inl refl
  unaligned-IsSubcategory (some c) = elim (Option-cases (normalize_category u (some c))) [
    | inr (v, e) ↦ inl (rw e refl)
    | inl e ↦ elim (Option-cases (normalize_taxonomy_label u c)) [
      | inl k ↦ inl (rw (e, k) refl)
      | inr (l, k) ↦
          inr (l, rw (e, k) refl, normalize_taxonomy_label-is_label u c l k, no_category c l e k)
    ]
  ]

  proposed-IsSubcategory :
      (s : Option Text)
      → (proposed_subcategory u s ≡ none) ⊎ IsSubcategory (proposed_subcategory u s)
  proposed-IsSubcategory none = inl refl
  proposed-IsSubcategory (some s) = elim (Option-cases (normalize_taxonomy_label u s)) [
    | inl e ↦ inl (rw e refl)
    | inr (l, e) ↦ elim (Bool-cases (is_category l)) [
      | inl k ↦ inl (rw (e, k) refl)
      | inr k ↦ inr (l, rw (e, k) refl, normalize_taxonomy_label-is_label u s l e, k)
    ]
  ]

  chosen-IsSubcategory :
      (proposed label old : Option Text)
      → (proposed ≡ none) ⊎ IsSubcategory proposed
      → (label ≡ none) ⊎ IsSubcategory label
      → (or_else proposed (replace_weak u label old) ≡ old)
        ⊎ IsSubcategory (or_else proposed (replace_weak u label old))
  chosen-IsSubcategory (some s) label old (inl e) b = absurd (ground arith)
  chosen-IsSubcategory (some s) label old (inr h) b = inr h
  chosen-IsSubcategory none none old a b = inl refl
  chosen-IsSubcategory none (some l) old a (inl e) = absurd (ground arith)
  chosen-IsSubcategory none (some l) old a (inr h) =
      elim (Bool-cases (is_blank u old || is_some (normalize_category u old))) [
        | inl e ↦ inr (rw e h)
        | inr e ↦ inl (rw e refl)
      ]

same_option_iff : (a b : Option Text) → (same_option a b ≡ true) ↔ (a ≡ b)
same_option_iff none none = (λ h. refl, λ h. refl)
same_option_iff none (some b) = (λ h. absurd (ground arith), λ h. absurd (ground arith))
same_option_iff (some a) none = (λ h. absurd (ground arith), λ h. absurd (ground arith))
same_option_iff (some a) (some b) =
    (λ h. ap some ((text_eq_iff a b).0 h), λ h. (text_eq_iff a b).1 (ground arith))

-- What alignment promises: the subcategory stays or becomes a label that is no category, nothing
-- but category, subcategory and type changes, and the result says truly whether anything did.
pub record IsAligned (r : AnalysisResult) (result : AnalysisResult × Bool) : Type 0 where
  pub subcategory : (result.0.subcategory ≡ r.subcategory) ⊎ IsSubcategory result.0.subcategory
  pub others : result.0 ≡ record r {
    category = result.0.category;
    subcategory = result.0.subcategory;
    email_type = result.0.email_type;
  }
  pub unchanged : (result.1 ≡ false) ↔ (result.0 ≡ r)

changed_iff :
    (r : AnalysisResult) (c s t : Option Text)
    → ((not (same_option c r.category)
          || (not (same_option s r.subcategory) || not (same_option t r.email_type)))
        ≡ false)
      ↔ (record r { category = c; subcategory = s; email_type = t } ≡ r)
changed_iff r c s t = (
  λ h.
      let e1 : same_option c r.category ≡ true = ground arith in
      let e2 : same_option s r.subcategory ≡ true = ground arith in
      let e3 : same_option t r.email_type ≡ true = ground arith in
      rw
        (
          (same_option_iff c r.category).0 e1,
          (same_option_iff s r.subcategory).0 e2,
          (same_option_iff t r.email_type).0 e3,
        )
        refl,
  λ e.
      rw
        (
          (same_option_iff c r.category).1 (ap (λ (x : AnalysisResult). x.category) e),
          (same_option_iff s r.subcategory).1 (ap (λ (x : AnalysisResult). x.subcategory) e),
          (same_option_iff t r.email_type).1 (ap (λ (x : AnalysisResult). x.email_type) e),
        )
        refl,
)

-- Aligning a result with a second one leaves the subcategory as it was or makes it a label that is
-- not the name of a category; it changes no field but category, subcategory and type; and it
-- returns false exactly if it changed nothing.
pub alignment-IsAligned :
    (u : Unicode) (r alignment : AnalysisResult)
    → IsAligned r (apply_schema_alignment_result u r alignment)
unfolding apply_schema_alignment_result
alignment-IsAligned u r alignment =
    let c = or_else (normalize_category u alignment.category) r.category in
    let s =
      or_else (proposed_subcategory u alignment.subcategory)
        (replace_weak u (unaligned_category u r.category) r.subcategory) in
    let t = or_else (normalize_email_type u alignment.email_type) r.email_type in
    record {
      subcategory =
          chosen-IsSubcategory u _ _ r.subcategory (proposed-IsSubcategory u alignment.subcategory)
            (unaligned-IsSubcategory u r.category);
      others = refl;
      unchanged = changed_iff r c s t;
    }
