-- ===== src/Analysis/Tests.antt =====
-- Runs of the normalizers of src/email_analysis/result_normalization.rs, with the Unicode functions
-- on ASCII.
use mail_subsystem.Strings.{contains, contains_any}
use mail_subsystem.Strings.{is_between, trim_end_by, trim_start_by}
use mail_subsystem.Prelude.{
  Option, ℕ, ◌+◌, ◌≡◌, refl, true, false, ◌||◌, [], ◌∷◌, none, some, map, arith, ◌==◌,
  if◌then◌else◌, Bool-cases, inl, inr,
}
use mail_subsystem.Prelude.Text.{Text, codes}
use mail_subsystem.Analysis.{
  Unicode, is_ascii_alphanumeric, separate, lowercase_chars, normalize_taxonomy_label,
  normalize_category, normalize_email_type, find_allowed,
}
use mail_subsystem.Analysis.Statuses.{normalize_spam_status, normalize_otp_status}
use mail_subsystem.Analysis.Labels.{is_label, normalize_taxonomy_label-is_label}
use mail_subsystem.Analysis.Fixed.{
  AsciiLaws, is_label_char, is_upper, normalize_taxonomy_label-idempotent,
}
use mail_subsystem.Analysis.Align.{AnalysisResult, apply_schema_alignment_result}
use mail_subsystem.Analysis.Aligned.{IsAligned, alignment-IsAligned}

abbrev lowercase_ascii : ℕ → ℕ
lowercase_ascii c = if is_between 65 90 c then c + 32 else c

abbrev ascii : Unicode
ascii = record {
  is_whitespace = λ c. is_between 9 13 c || c == 32;
  lowercase_char = λ c. lowercase_ascii c ∷ [];
  lowercase = map lowercase_ascii;
}

lowercase_ascii-keeps : (c : ℕ) → is_label_char c ≡ true → lowercase_ascii c ≡ c
lowercase_ascii-keeps c h = ground arith

lowercase_ascii-no_upper : (c : ℕ) → is_upper (lowercase_ascii c) ≡ false
lowercase_ascii-no_upper c = elim (Bool-cases (is_between 65 90 c)) [
  | inl e ↦ rw e (ground arith)
  | inr e ↦ rw (e, e) refl
]

ascii-AsciiLaws : AsciiLaws ascii
ascii-AsciiLaws = record {
  keeps_label_char = λ c h. rw (lowercase_ascii-keeps c h) refl;
  no_whitespace = λ c h. ground arith;
  no_upper = λ c. (lowercase_ascii-no_upper c, tt);
}

label_made :
    normalize_taxonomy_label ascii (codes " Health & Fitness! ") ≡ some (codes "health_fitness")
unfolding normalize_taxonomy_label lowercase_chars separate trim_start_by trim_end_by
    is_ascii_alphanumeric
label_made = refl

normalize_taxonomy_label-is_label_example : is_label (codes "health_fitness") ≡ true
normalize_taxonomy_label-is_label_example =
    normalize_taxonomy_label-is_label ascii (codes " Health & Fitness! ") (codes "health_fitness")
      label_made

normalize_taxonomy_label-idempotent_example :
    normalize_taxonomy_label ascii (codes "health_fitness") ≡ some (codes "health_fitness")
normalize_taxonomy_label-idempotent_example =
    normalize_taxonomy_label-idempotent ascii ascii-AsciiLaws (codes " Health & Fitness! ")
      (codes "health_fitness") label_made

-- A result in which nothing is set.
abbrev unset : AnalysisResult
unset = record {
  spam_status = none;
  phishing_status = none;
  marketing_status = none;
  otp_status = none;
  otp_code = none;
  otp_expires = none;
  threat_level = none;
  threat_indicators = none;
  ai_summary = none;
  human_summary = none;
  category = none;
  subcategory = none;
  organization = none;
  topic = none;
  email_type = none;
  location_recommendation = none;
  offer_expires = none;
  confidence = none;
  analyzed_by = none;
  token_usage = none;
  queued_for_frontier = false;
}

abbrev gardening : AnalysisResult
gardening = record unset {
  spam_status = some (codes "not-spam");
  category = some (codes "Home Gardening");
  subcategory = some (codes "shopping");
  email_type = some (codes "newsletter");
}

abbrev second_opinion : AnalysisResult
second_opinion = record unset { category = some (codes "Personal") }

-- The category that was none of the allowed ones takes the place of the misplaced subcategory.
gardening_aligned : apply_schema_alignment_result ascii gardening second_opinion ≡ (
  record gardening {
    category = some (codes "personal");
    subcategory = some (codes "home_gardening");
  },
  true,
)
unfolding apply_schema_alignment_result normalize_category normalize_email_type find_allowed
    normalize_taxonomy_label lowercase_chars separate trim_start_by trim_end_by
    is_ascii_alphanumeric
gardening_aligned = refl

alignment-IsAligned_example :
    IsAligned gardening (apply_schema_alignment_result ascii gardening second_opinion)
alignment-IsAligned_example = alignment-IsAligned ascii gardening second_opinion

abbrev no_otp : Option Text
no_otp = some (codes " Not-OTP ")

hyphen_read : normalize_otp_status ascii no_otp ≡ some (codes "not_otp")
unfolding normalize_otp_status find_allowed trim_start_by trim_end_by contains_any contains
hyphen_read = refl

-- The underscore is read as the hyphen.
spam_read : normalize_spam_status ascii (some (codes " Not_Spam ")) ≡ some (codes "not-spam")
unfolding normalize_spam_status find_allowed trim_start_by trim_end_by
spam_read = refl
