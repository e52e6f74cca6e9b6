-- ===== src/Analysis/Allowed.antt =====
-- src/email_analysis/result_normalization.rs against schema.sql: which statuses and threat levels come out.
use mail_subsystem.Prelude.{◌≡◌, List, Option}
use mail_subsystem.Prelude.Text.{Text}
use mail_subsystem.Analysis.{Unicode}
use mail_subsystem.Analysis.Schema.{IsAllowed, stored_value, repaired_value}

module _ (u : Unicode) where
  -- What is returned is what the column takes of the value, after the repair; the CHECK allows it.
  abbrev pub IsRepaired :
      Text × Text → List Text → (Option Text → Option Text) → Option Text → Type 0
  IsRepaired repair check normalize s =
      (normalize s ≡ repaired_value u repair check s) × IsAllowed check (normalize s)

  abbrev pub IsStored : List Text → (Option Text → Option Text) → Option Text → Type 0
  IsStored check normalize s =
      (normalize s ≡ stored_value u check s) × IsAllowed check (normalize s)
