-- ===== src/Analysis/Fixed.antt =====
-- src/email_analysis/result_normalization.rs: a normalized label is not changed by normalizing again.
use mail_subsystem.Strings.{is_between, is_empty, trim_by, trim_end_by, trim_start_by}
use mail_subsystem.Prelude.{
  ℕ, ◌≡◌, refl, inl, inr, Bool, true, false, ◌&&◌, ◌||◌, [], ◌∷◌, some, arith, All, All-mono, subst,
  All-append, Bool-cases, ap,
}
use mail_subsystem.Prelude.Text.{Text}
use mail_subsystem.Analysis.{
  Unicode, is_ascii_alphanumeric, underscore, is_underscore, separate, lowercase_chars,
  unless_empty, normalize_taxonomy_label,
}
use mail_subsystem.Analysis.Labels.{
  alphanumeric-no_underscore, is_separated, is_label_from, is_label, trim_start-id,
  label_from-is_empty, trim_end_cons, trim_end_empty, unless_empty-some,
  normalize_taxonomy_label-is_label,
}

abbrev pub is_upper : ℕ → Bool
is_upper c = is_between 65 90 c

-- The characters of a label in lower case: digits, a to z, the underscore.
abbrev pub is_label_char : ℕ → Bool
is_label_char c = is_between 48 57 c || is_between 97 122 c || is_underscore c

-- What the standard library documents of lower-casing and of White_Space, on ASCII.
pub record AsciiLaws (u : Unicode) : Type 0 where
  pub keeps_label_char : (c : ℕ) → is_label_char c ≡ true → u.lowercase_char c ≡ c ∷ []
  pub no_whitespace : (c : ℕ) → is_label_char c ≡ true → u.is_whitespace c ≡ false
  pub no_upper : (c : ℕ) → All (λ d. is_upper d ≡ false) (u.lowercase_char c)

abbrev pub NoUpper : Text → Type 0
NoUpper t = All (λ d. is_upper d ≡ false) t

module _ (u : Unicode) (laws : AsciiLaws u) where
  lowercase_chars-NoUpper : (t : Text) → NoUpper (lowercase_chars u t)
  unfolding lowercase_chars
  lowercase_chars-NoUpper [] = tt
  lowercase_chars-NoUpper (c ∷ cs) =
      All-append (λ d. is_upper d ≡ false) (u.lowercase_char c) (lowercase_chars u cs)
        (laws.no_upper c) (lowercase_chars-NoUpper cs)

  lowercase_chars-id : (t : Text) → All (λ c. is_label_char c ≡ true) t → lowercase_chars u t ≡ t
  unfolding lowercase_chars
  lowercase_chars-id [] h = refl
  lowercase_chars-id (c ∷ cs) h = rw (laws.keeps_label_char c h.0, lowercase_chars-id cs h.1) refl

separate-NoUpper : (p : Bool) (t : Text) → NoUpper t → NoUpper (separate p t)
unfolding separate
separate-NoUpper p [] h = tt
separate-NoUpper true (c ∷ cs) h = elim (Bool-cases (is_ascii_alphanumeric c)) [
  | inl e ↦ rw e (h.0, separate-NoUpper false cs h.1)
  | inr e ↦ rw e (separate-NoUpper true cs h.1)
]
separate-NoUpper false (c ∷ cs) h = elim (Bool-cases (is_ascii_alphanumeric c)) [
  | inl e ↦ rw e (h.0, separate-NoUpper false cs h.1)
  | inr e ↦ rw e (refl, separate-NoUpper true cs h.1)
]

module _ (p : ℕ → Bool) where
  trim_start-All : (P : ℕ → Type 0) (t : Text) → All P t → All P (trim_start_by p t)
  unfolding trim_start_by
  trim_start-All P [] h = tt
  trim_start-All P (c ∷ cs) h = elim (Bool-cases (p c)) [
    | inl e ↦ rw e (trim_start-All P cs h.1)
    | inr e ↦ rw e h
  ]

  trim_end-All : (P : ℕ → Type 0) (t : Text) → All P t → All P (trim_end_by p t)
  unfolding trim_end_by
  trim_end-All P [] h = tt
  trim_end-All P (c ∷ cs) h = elim (Bool-cases (is_empty (trim_end_by p cs) && p c)) [
    | inl e ↦ rw e tt
    | inr e ↦ rw e (h.0, trim_end-All P cs h.1)
  ]

  all_kept_at_start : (t : Text) → All (λ c. p c ≡ false) t → trim_start_by p t ≡ t
  unfolding trim_start_by
  all_kept_at_start [] h = refl
  all_kept_at_start (c ∷ cs) h = rw h.0 refl

  all_kept_at_end : (t : Text) → All (λ c. p c ≡ false) t → trim_end_by p t ≡ t
  unfolding trim_end_by
  all_kept_at_end [] h = refl
  all_kept_at_end (c ∷ cs) h = elim (Bool-cases (is_empty cs)) [
    | inl e ↦ rw (all_kept_at_end cs h.1, e, h.0) refl
    | inr e ↦ rw (all_kept_at_end cs h.1, e) refl
  ]

  trim_by-id : (t : Text) → All (λ c. p c ≡ false) t → trim_by p t ≡ t
  trim_by-id t h = rw (all_kept_at_start t h) (all_kept_at_end t h)

separate-id : (p : Bool) (t : Text) → is_label_from p t ≡ true → separate p t ≡ t
unfolding separate
separate-id p [] h = refl
separate-id p (c ∷ cs) h = elim (Bool-cases (is_ascii_alphanumeric c)) [
  | inl e ↦ rw e (ap (λ r. c ∷ r) (separate-id false cs (rw e at h)))
  | inr e ↦
      let allowed : p ≡ false = ground arith in
      let same : c ≡ underscore = ground arith in
      rw (e, allowed) (cc (same, separate-id true cs (ground arith)))
]

label-is_separated : (p : Bool) (t : Text) → is_label_from p t ≡ true → is_separated p t ≡ true
label-is_separated p [] h = refl
label-is_separated p (c ∷ cs) h = elim (Bool-cases (is_ascii_alphanumeric c)) [
  | inl e ↦ rw e (label-is_separated false cs (rw e at h))
  | inr e ↦ ground (arith, label-is_separated true cs)
]

trim_end-id : (p : Bool) (t : Text) → is_label_from p t ≡ true → trim_end_by is_underscore t ≡ t
trim_end-id p [] h = trim_end_empty
trim_end-id p (c ∷ cs) h = elim (Bool-cases (is_ascii_alphanumeric c)) [
  | inl e ↦
      rw (trim_end_cons c cs (inr (alphanumeric-no_underscore c e)))
        (ap (λ r. c ∷ r) (trim_end-id false cs (rw e at h)))
  | inr e ↦
      let rest : is_label_from true cs ≡ true = ground arith in
      let same = trim_end-id true cs rest in
      let full : is_empty (trim_end_by is_underscore cs) ≡ false =
        rw same (label_from-is_empty cs rest) in
      rw (trim_end_cons c cs (inl full)) (ap (λ r. c ∷ r) same)
]

alphanumeric-is_label_char :
    (c : ℕ) → is_ascii_alphanumeric c ≡ true → is_upper c ≡ false → is_label_char c ≡ true
unfolding is_ascii_alphanumeric
alphanumeric-is_label_char c h n = ground arith

underscore-is_label_char : (c : ℕ) → is_underscore c ≡ true → is_label_char c ≡ true
underscore-is_label_char c h = ground arith

label_chars :
    (p : Bool) (t : Text)
    → is_label_from p t ≡ true
    → NoUpper t
    → All (λ c. is_label_char c ≡ true) t
label_chars p [] h n = tt
label_chars p (c ∷ cs) h n = elim (Bool-cases (is_ascii_alphanumeric c)) [
  | inl e ↦ (alphanumeric-is_label_char c e n.0, label_chars false cs (rw e at h) n.1)
  | inr e ↦ (underscore-is_label_char c (ground arith), label_chars true cs (ground arith) n.1)
]

label_from-weaken : (t : Text) → is_label_from true t ≡ true → is_label_from false t ≡ true
label_from-weaken [] h = absurd (ground arith)
label_from-weaken (c ∷ cs) h = ground arith

unless_empty-full : (t : Text) → is_empty t ≡ false → unless_empty t ≡ some t
unless_empty-full [] h = absurd (ground arith)
unless_empty-full (c ∷ cs) h = refl

module _ (u : Unicode) (laws : AsciiLaws u) where
  normalize_taxonomy_label-NoUpper :
      (value l : Text) → normalize_taxonomy_label u value ≡ some l → NoUpper l
  unfolding normalize_taxonomy_label
  normalize_taxonomy_label-NoUpper value l h =
      let chars = lowercase_chars u (trim_by u.is_whitespace value) in
      let t = separate false chars in
      let all : NoUpper t = separate-NoUpper false chars (lowercase_chars-NoUpper u laws _) in
      subst NoUpper (unless_empty-some (trim_by is_underscore t) l h).0 (
        trim_end-All is_underscore (λ d. is_upper d ≡ false) (trim_start_by is_underscore t)
          (trim_start-All is_underscore (λ d. is_upper d ≡ false) t all))

  -- A label without upper case is what it normalizes to, if the Unicode functions leave the
  -- characters of such a label alone.
  pub normalize_taxonomy_label-id :
      (l : Text) → is_label l ≡ true → NoUpper l → normalize_taxonomy_label u l ≡ some l
  unfolding normalize_taxonomy_label
  normalize_taxonomy_label-id l h n =
      let chars = label_chars true l h n in
      let plain =
        All-mono (λ c. is_label_char c ≡ true) (λ c. u.is_whitespace c ≡ false) l laws.no_whitespace
          chars in
      let separated = label-is_separated true l h in
      rw
        (
          trim_by-id u.is_whitespace l plain,
          lowercase_chars-id u laws l chars,
          separate-id false l (label_from-weaken l h),
          trim_start-id l separated,
          trim_end-id true l h,
        )
        (unless_empty-full l (label_from-is_empty l h))

  -- Normalizing is idempotent: a label that a value was normalized to normalizes to itself. The
  -- condition is what the standard library documents of lower-casing and white space on ASCII.
  pub normalize_taxonomy_label-idempotent :
      (value l : Text)
      → normalize_taxonomy_label u value ≡ some l
      → normalize_taxonomy_label u l ≡ some l
  normalize_taxonomy_label-idempotent value l h =
      normalize_taxonomy_label-id l (normalize_taxonomy_label-is_label u value l h)
        (normalize_taxonomy_label-NoUpper value l h)
