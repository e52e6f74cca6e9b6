-- ===== src/Analysis.antt =====
-- src/email_analysis/result_normalization.rs: the normalizers of what a model returns. A text is the
-- list of its code points. The Unicode functions of the standard library are a record of arguments.
pub mod Labels
pub mod Fixed
pub mod Statuses
pub mod Schema
pub mod Allowed
pub mod Align
pub mod Trim
pub mod Aligned
mod Tests
use mail_subsystem.Strings.{is_between, trim_by, is_empty, text_eq}
use mail_subsystem.Prelude.{
  ℕ, Bool, true, false, not, ◌&&◌, ◌||◌, List, [], ◌∷◌, ◌++◌, Option, none, some, leb, ◌==◌,
  if◌then◌else◌,
}
use mail_subsystem.Prelude.Text.{Text, codes}

-- `lowercase_char` is char::to_lowercase, `lowercase` is str::to_lowercase, which reads the context
-- of a character too.
pub record Unicode : Type 0 where
  pub is_whitespace : ℕ → Bool
  pub lowercase_char : ℕ → List ℕ
  pub lowercase : Text → Text

-- char::is_ascii_alphanumeric: 0 to 9, A to Z, a to z.
unfoldable pub is_ascii_alphanumeric : ℕ → Bool
is_ascii_alphanumeric c = is_between 48 57 c || is_between 65 90 c || is_between 97 122 c

abbrev pub underscore : ℕ
underscore = 95

abbrev pub is_underscore : ℕ → Bool
is_underscore c = c == underscore

unfoldable pub lowercase_chars : Unicode → Text → Text
lowercase_chars u [] = []
lowercase_chars u (c ∷ cs) = u.lowercase_char c ++ lowercase_chars u cs

-- One character: `rest` is what the loop makes of those behind it, given previous_was_separator.
abbrev pub push_char : (Bool → Text) → ℕ → Bool → Bool → Text
push_char rest c true previous_was_separator = c ∷ rest false
push_char rest c false true = rest true
push_char rest c false false = underscore ∷ rest true

-- The loop: each run of other characters becomes one underscore.
unfoldable pub separate : Bool → Text → Text
separate previous_was_separator [] = []
separate previous_was_separator (c ∷ cs) =
    push_char (λ q. separate q cs) c (is_ascii_alphanumeric c) previous_was_separator

abbrev pub unless_empty : Text → Option Text
unless_empty [] = none
unless_empty (c ∷ cs) = some (c ∷ cs)

unfoldable pub normalize_taxonomy_label : Unicode → Text → Option Text
normalize_taxonomy_label u value =
    unless_empty
      (trim_by is_underscore (separate false (lowercase_chars u (trim_by u.is_whitespace value))))

-- `ALLOWED.iter().find(|v| v == s)`.
unfoldable pub find_allowed : Text → List Text → Option Text
find_allowed s [] = none
find_allowed s (v ∷ vs) = let rest = find_allowed s vs in if text_eq v s then some v else rest

abbrev pub category_allowed : List Text
category_allowed =
    codes "personal"
    ∷ codes "work"
    ∷ codes "volunteering"
    ∷ codes "financial"
    ∷ codes "shopping"
    ∷ codes "social"
    ∷ codes "travel"
    ∷ codes "health"
    ∷ codes "education"
    ∷ []

abbrev pub email_type_allowed : List Text
email_type_allowed =
    codes "newsletter"
    ∷ codes "announcement"
    ∷ codes "notification"
    ∷ codes "actionable"
    ∷ codes "conversation"
    ∷ codes "transactional"
    ∷ codes "receipt"
    ∷ codes "reference"
    ∷ []

-- What normalize_category and normalize_email_type do alike.
abbrev pub label_among : List Text → Option Text → Option Text
label_among allowed none = none
label_among allowed (some l) = find_allowed l allowed

abbrev pub normalize_label : Unicode → List Text → Text → Option Text
normalize_label u allowed trimmed =
    if is_empty trimmed then none else label_among allowed (normalize_taxonomy_label u trimmed)

unfoldable pub normalize_category : Unicode → Option Text → Option Text
normalize_category u none = none
normalize_category u (some s) = normalize_label u category_allowed (trim_by u.is_whitespace s)

unfoldable pub normalize_email_type : Unicode → Option Text → Option Text
normalize_email_type u none = none
normalize_email_type u (some s) = normalize_label u email_type_allowed (trim_by u.is_whitespace s)
