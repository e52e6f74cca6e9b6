-- ===== src/Analysis/Statuses.antt =====
-- src/email_analysis/result_normalization.rs: the statuses and the threat level.
use mail_subsystem.Strings.{contains_any}
use mail_subsystem.Strings.{is_empty, text_eq, trim_by}
use mail_subsystem.Prelude.{List, [], ◌∷◌, Option, none, some, if◌then◌else◌, map, ◌==◌}
use mail_subsystem.Prelude.Text.{Text, codes}
use mail_subsystem.Analysis.{Unicode, find_allowed}

abbrev pub spam_status_allowed : List Text
spam_status_allowed = codes "spam" ∷ codes "not-spam" ∷ []

abbrev pub phishing_status_allowed : List Text
phishing_status_allowed = codes "phishing" ∷ codes "not-phishing" ∷ []

abbrev pub marketing_status_allowed : List Text
marketing_status_allowed = codes "marketing" ∷ codes "not-marketing" ∷ []

abbrev pub otp_status_allowed : List Text
otp_status_allowed =
    codes "otp" ∷ codes "magic_link" ∷ codes "password_reset" ∷ codes "not_otp" ∷ []

abbrev pub threat_level_allowed : List Text
threat_level_allowed =
    codes "none" ∷ codes "low" ∷ codes "medium" ∷ codes "high" ∷ codes "critical" ∷ []

-- The spelling with an underscore is read as the one with a hyphen.
abbrev pub respell : Text → Text → Text → Text
respell wrong right s = if text_eq s wrong then right else s

abbrev pub find_unless_empty : (Text → Option Text) → Text → Option Text
find_unless_empty find s = if is_empty s then none else find s

module _ (u : Unicode) where
  unfoldable pub normalize_spam_status : Option Text → Option Text
  normalize_spam_status none = none
  normalize_spam_status (some s) =
      find_unless_empty
        (λ v. find_allowed (respell (codes "not_spam") (codes "not-spam") v) spam_status_allowed)
        (u.lowercase (trim_by u.is_whitespace s))

  unfoldable pub normalize_phishing_status : Option Text → Option Text
  normalize_phishing_status none = none
  normalize_phishing_status (some s) =
      find_unless_empty
        (λ v.
          find_allowed (respell (codes "not_phishing") (codes "not-phishing") v)
            phishing_status_allowed)
        (u.lowercase (trim_by u.is_whitespace s))

  unfoldable pub normalize_marketing_status : Option Text → Option Text
  normalize_marketing_status none = none
  normalize_marketing_status (some s) =
      find_unless_empty
        (λ v.
          find_allowed (respell (codes "not_marketing") (codes "not-marketing") v)
            marketing_status_allowed)
        (u.lowercase (trim_by u.is_whitespace s))

  unfoldable pub normalize_threat_level : Option Text → Option Text
  normalize_threat_level none = none
  normalize_threat_level (some s) =
      find_unless_empty (λ v. find_allowed v threat_level_allowed)
        (u.lowercase (trim_by u.is_whitespace s))

-- replace('-', "_").
abbrev pub hyphens_replaced : Text → Text
hyphens_replaced = map (λ c. if c == 45 then 95 else c)

abbrev pub no_otp_words : List Text
no_otp_words =
    codes "none"
    ∷ codes "null"
    ∷ codes "na"
    ∷ codes "n/a"
    ∷ codes "not_applicable"
    ∷ codes "not applicable"
    ∷ codes "no otp"
    ∷ codes "not otp"
    ∷ codes "non_otp"
    ∷ []

abbrev pub otp_status_of : Text → Option Text
otp_status_of n =
    if contains_any n no_otp_words
    then some (codes "not_otp")
    else find_allowed n otp_status_allowed

unfoldable pub normalize_otp_status : Unicode → Option Text → Option Text
normalize_otp_status u none = none
normalize_otp_status u (some s) =
    find_unless_empty (λ t. otp_status_of (hyphens_replaced (u.lowercase t)))
      (trim_by u.is_whitespace s)
