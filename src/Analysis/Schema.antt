-- ===== src/Analysis/Schema.antt =====
-- schema.sql: the values that the CHECKs of the table emails allow in the columns of statuses and of the
-- threat level, and the spellings that its migration repairs.
use mail_subsystem.Strings.{text_eq, trim_by}
use mail_subsystem.Prelude.{List, [], ◌∷◌, Option, none, some, if◌then◌else◌, In}
use mail_subsystem.Prelude.Text.{Text, codes}
use mail_subsystem.Analysis.{Unicode}

abbrev pub spam_status_check : List Text
spam_status_check = codes "spam" ∷ codes "not-spam" ∷ []

abbrev pub phishing_status_check : List Text
phishing_status_check = codes "phishing" ∷ codes "not-phishing" ∷ []

abbrev pub marketing_status_check : List Text
marketing_status_check = codes "marketing" ∷ codes "not-marketing" ∷ []

abbrev pub otp_status_check : List Text
otp_status_check = codes "otp" ∷ codes "magic_link" ∷ codes "password_reset" ∷ codes "not_otp" ∷ []

abbrev pub threat_level_check : List Text
threat_level_check =
    codes "none" ∷ codes "low" ∷ codes "medium" ∷ codes "high" ∷ codes "critical" ∷ []

-- What a CHECK says of a column: it is null or among the values listed.
abbrev pub IsAllowed : List Text → Option Text → Type 0
IsAllowed allowed none = Unit
IsAllowed allowed (some v) = In v allowed

-- The CASEs of the migration, one spelling and its value for each column.
abbrev pub spam_status_repair : Text × Text
spam_status_repair = (codes "not_spam", codes "not-spam")

abbrev pub phishing_status_repair : Text × Text
phishing_status_repair = (codes "not_phishing", codes "not-phishing")

abbrev pub marketing_status_repair : Text × Text
marketing_status_repair = (codes "not_marketing", codes "not-marketing")

-- A text among the allowed values is that value.
abbrev pub value_among : List Text → Text → Option Text
value_among [] t = none
value_among (v ∷ vs) t = if text_eq t v then some v else value_among vs t

abbrev pub repaired : Text × Text → Text → Option Text → Option Text
repaired (spelling, value) t read = if text_eq t spelling then some value else read

-- A value as a column takes it, in lower case and without the white space around it.
abbrev pub stored_value : Unicode → List Text → Option Text → Option Text
stored_value u check none = none
stored_value u check (some s) = value_among check (u.lowercase (trim_by u.is_whitespace s))

abbrev pub repaired_value : Unicode → Text × Text → List Text → Option Text → Option Text
repaired_value u repair check none = none
repaired_value u repair check (some s) =
    let t = u.lowercase (trim_by u.is_whitespace s) in repaired repair t (value_among check t)
