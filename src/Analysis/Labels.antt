-- ===== src/Analysis/Labels.antt =====
-- src/email_analysis/result_normalization.rs: the form of a normalized label.
use mail_subsystem.Strings.{is_empty, trim_by, trim_end_by, trim_start_by}
use mail_subsystem.Prelude.{
  ℕ, ◌≡◌, refl, ◌⊎◌, inl, inr, Bool, true, false, not, ◌&&◌, [], ◌∷◌, some, arith, Bool-cases,
  if◌then◌else◌,
}
use mail_subsystem.Prelude.Text.{Text}
use mail_subsystem.Analysis.{
  Unicode, is_ascii_alphanumeric, underscore, is_underscore, separate, lowercase_chars,
  unless_empty, normalize_taxonomy_label,
}

-- Letters and digits, and single underscores; `after_separator` forbids an underscore next.
abbrev pub is_separated : Bool → Text → Bool
is_separated after_separator [] = true
is_separated after_separator (c ∷ cs) =
    if is_ascii_alphanumeric c
    then is_separated false cs
    else is_underscore c && (not after_separator && is_separated true cs)

-- The same, without an underscore at the end.
abbrev pub is_label_from : Bool → Text → Bool
is_label_from after_separator [] = not after_separator
is_label_from after_separator (c ∷ cs) =
    if is_ascii_alphanumeric c
    then is_label_from false cs
    else is_underscore c && (not after_separator && is_label_from true cs)

-- A label: not empty, letters and digits of ASCII, in words with one underscore between two.
abbrev pub is_label : Text → Bool
is_label t = is_label_from true t

pub alphanumeric-no_underscore : (c : ℕ) → is_ascii_alphanumeric c ≡ true → is_underscore c ≡ false
unfolding is_ascii_alphanumeric
alphanumeric-no_underscore c h = ground arith

pub underscore-not_alphanumeric : is_ascii_alphanumeric underscore ≡ false
unfolding is_ascii_alphanumeric
underscore-not_alphanumeric = refl

separate-is_separated : (p : Bool) (t : Text) → is_separated p (separate p t) ≡ true
unfolding separate
separate-is_separated p [] = refl
separate-is_separated true (c ∷ cs) = elim (Bool-cases (is_ascii_alphanumeric c)) [
  | inl e ↦ rw (e, e) (separate-is_separated false cs)
  | inr e ↦ rw e (separate-is_separated true cs)
]
separate-is_separated false (c ∷ cs) = elim (Bool-cases (is_ascii_alphanumeric c)) [
  | inl e ↦ rw (e, e) (separate-is_separated false cs)
  | inr e ↦ rw (e, underscore-not_alphanumeric) (separate-is_separated true cs)
]

-- What a separated text that may not begin with an underscore begins with, stays.
pub trim_start-id : (t : Text) → is_separated true t ≡ true → trim_start_by is_underscore t ≡ t
unfolding trim_start_by
trim_start-id [] h = refl
trim_start-id (c ∷ cs) h = elim (Bool-cases (is_ascii_alphanumeric c)) [
  | inl e ↦ rw (alphanumeric-no_underscore c e) refl
  | inr e ↦ absurd (ground arith)
]

trim_start-is_separated :
    (t : Text)
    → is_separated false t ≡ true
    → is_separated true (trim_start_by is_underscore t) ≡ true
unfolding trim_start_by
trim_start-is_separated [] h = refl
trim_start-is_separated (c ∷ cs) h = elim (Bool-cases (is_ascii_alphanumeric c)) [
  | inl e ↦ rw (alphanumeric-no_underscore c e, e) (rw e at h)
  | inr e ↦
      let is_sep : is_underscore c ≡ true = ground arith in
      let rest : is_separated true cs ≡ true = ground arith in
      rw (is_sep, trim_start-id cs rest) rest
]

pub label_from-is_empty : (t : Text) → is_label_from true t ≡ true → is_empty t ≡ false
label_from-is_empty [] h = absurd (ground arith)
label_from-is_empty (c ∷ cs) h = refl

-- A character stays at the end unless it is an underscore with nothing left behind it.
pub trim_end_cons :
    (c : ℕ) (cs : Text)
    → (is_empty (trim_end_by is_underscore cs) ≡ false) ⊎ (is_underscore c ≡ false)
    → trim_end_by is_underscore (c ∷ cs) ≡ c ∷ trim_end_by is_underscore cs
unfolding trim_end_by
trim_end_cons c cs (inl e) = rw e refl
trim_end_cons c cs (inr e) = elim (Bool-cases (is_empty (trim_end_by is_underscore cs))) [
  | inl k ↦ rw (k, e) refl
  | inr k ↦ rw k refl
]

trim_end_nil :
    (c : ℕ) (cs : Text)
    → trim_end_by is_underscore cs ≡ []
    → is_underscore c ≡ true
    → trim_end_by is_underscore (c ∷ cs) ≡ []
unfolding trim_end_by
trim_end_nil c cs k e = rw (k, e) refl

pub trim_end_empty : trim_end_by is_underscore [] ≡ []
unfolding trim_end_by
trim_end_empty = refl

trim_end-is_label_from :
    (p : Bool) (t : Text)
    → is_separated p t ≡ true
    → (trim_end_by is_underscore t ≡ []) ⊎ (is_label_from p (trim_end_by is_underscore t) ≡ true)
trim_end-is_label_from p [] h = inl trim_end_empty
trim_end-is_label_from p (c ∷ cs) h = elim (Bool-cases (is_ascii_alphanumeric c)) [
  | inl e ↦
      let kept = trim_end_cons c cs (inr (alphanumeric-no_underscore c e)) in
      elim (trim_end-is_label_from false cs (rw e at h)) [
        | inl k ↦ inr (rw (kept, e, k) refl)
        | inr k ↦ inr (rw (kept, e) k)
      ]
  | inr e ↦
      let is_sep : is_underscore c ≡ true = ground arith in
      let allowed : p ≡ false = ground arith in
      elim (trim_end-is_label_from true cs (ground arith)) [
        | inl k ↦ inl (trim_end_nil c cs k is_sep)
        | inr k ↦
            let kept = trim_end_cons c cs (inl (label_from-is_empty _ k)) in
            inr (rw (kept, e, is_sep, allowed) k)
      ]
]

pub unless_empty-some : (t l : Text) → unless_empty t ≡ some l → (t ≡ l) × (is_empty t ≡ false)
unless_empty-some [] l h = absurd (ground arith)
unless_empty-some (c ∷ cs) l h = (ground arith, refl)

-- Whatever the Unicode functions, the value that a label is made of: the result is a label.
pub normalize_taxonomy_label-is_label :
    (u : Unicode) (value l : Text) → normalize_taxonomy_label u value ≡ some l → is_label l ≡ true
unfolding normalize_taxonomy_label
normalize_taxonomy_label-is_label u value l h =
    let t = separate false (lowercase_chars u (trim_by u.is_whitespace value)) in
    let (same, full) = unless_empty-some (trim_by is_underscore t) l h in
    elim (trim_end-is_label_from true (trim_start_by is_underscore t)
      (trim_start-is_separated t (separate-is_separated false _))) [
        | inl k ↦ absurd (ground (arith, k, full))
        | inr k ↦ rw same at k
      ]
