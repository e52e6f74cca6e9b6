-- ===== src/Analysis/Align.antt =====
-- src/email_analysis/result_normalization.rs: category, subcategory and type of a result, and their
-- alignment with a second result.
use mail_subsystem.Strings.{is_empty, text_eq, trim_by}
use Prim.Native.String.{String}
use mail_subsystem.Json.{Json}
use mail_subsystem.Prelude.{
  ℕ, Bool, true, false, not, ◌||◌, List, [], ◌∷◌, Option, none, some, if◌then◌else◌, is_some,
}
use mail_subsystem.Prelude.Text.{Text, codes}
use mail_subsystem.Analysis.{
  Unicode, find_allowed, category_allowed, normalize_taxonomy_label, normalize_category,
  normalize_email_type,
}

pub record TokenUsage : Type 0 where
  pub input_tokens : Option ℕ
  pub output_tokens : Option ℕ

-- A date is a number of microseconds, the confidence the text of a number.
pub record AnalysisResult : Type 0 where
  pub spam_status : Option Text
  pub phishing_status : Option Text
  pub marketing_status : Option Text
  pub otp_status : Option Text
  pub otp_code : Option Text
  pub otp_expires : Option ℕ
  pub threat_level : Option Text
  pub threat_indicators : Option (List Text)
  pub ai_summary : Option Json
  pub human_summary : Option Text
  pub category : Option Text
  pub subcategory : Option Text
  pub organization : Option Text
  pub topic : Option Text
  pub email_type : Option Text
  pub location_recommendation : Option Text
  pub offer_expires : Option ℕ
  pub confidence : Option String
  pub analyzed_by : Option Text
  pub token_usage : Option TokenUsage
  pub queued_for_frontier : Bool

abbrev pub is_category : Text → Bool
is_category l = is_some (find_allowed l category_allowed)

-- `if let Some(v) = new { field = Some(v) }`.
abbrev pub or_else : Option Text → Option Text → Option Text
or_else none old = old
or_else (some v) old = some v

-- The `for` over the candidates that are there.
unfoldable pub first_normalized : (Option Text → Option Text) → List (Option Text) → Option Text
first_normalized normalize [] = none
first_normalized normalize (none ∷ cs) = first_normalized normalize cs
first_normalized normalize (some c ∷ cs) =
    or_else (normalize (some c)) (first_normalized normalize cs)

abbrev pub same_option : Option Text → Option Text → Bool
same_option none none = true
same_option (some a) (some b) = text_eq a b
same_option _ _ = false

-- None, or only white space.
abbrev pub is_blank : Unicode → Option Text → Bool
is_blank u none = true
is_blank u (some s) = is_empty (trim_by u.is_whitespace s)

module _ (u : Unicode) where
  unfoldable pub infer_category_from_result : AnalysisResult → Option Text
  infer_category_from_result r =
      first_normalized (normalize_category u) (r.category ∷ r.subcategory ∷ r.topic ∷ [])

  unfoldable pub infer_email_type_from_result : AnalysisResult → Option Text
  infer_email_type_from_result r =
      first_normalized (normalize_email_type u)
        (r.email_type ∷ r.subcategory ∷ r.topic ∷ r.organization ∷ r.human_summary ∷ [])

  abbrev differs_from : Option Text → Option Text → Bool
  differs_from category none = false
  differs_from category (some s) = not (same_option (some s) category)

  unfoldable pub needs_taxonomy_alignment_review : AnalysisResult → Bool
  needs_taxonomy_alignment_review r =
      let category = normalize_category u r.category in
      if not (is_some category) || same_option category (some (codes "personal"))
      then true
      else differs_from category (normalize_category u r.subcategory)

  abbrev is_broad_type : Option Text → Bool
  is_broad_type none = true
  is_broad_type (some t) =
      text_eq t (codes "newsletter")
      || (text_eq t (codes "notification") || text_eq t (codes "transactional"))

  unfoldable pub needs_email_type_alignment_review : AnalysisResult → Bool
  needs_email_type_alignment_review r = is_broad_type (normalize_email_type u r.email_type)

  unfoldable pub needs_schema_alignment_review : AnalysisResult → Bool
  needs_schema_alignment_review r =
      needs_taxonomy_alignment_review r || needs_email_type_alignment_review r

  -- The label of a category that is none of the allowed ones.
  abbrev pub unaligned_category : Option Text → Option Text
  unaligned_category none = none
  unaligned_category (some c) =
      if is_some (normalize_category u (some c)) then none else normalize_taxonomy_label u c

  abbrev pub unless_category : Option Text → Option Text
  unless_category none = none
  unless_category (some l) = if is_category l then none else some l

  abbrev pub proposed_subcategory : Option Text → Option Text
  proposed_subcategory none = none
  proposed_subcategory (some s) = unless_category (normalize_taxonomy_label u s)

  -- A subcategory that is blank or a misplaced category gives way.
  abbrev pub replace_weak : Option Text → Option Text → Option Text
  replace_weak none old = old
  replace_weak (some label) old =
      if is_blank u old || is_some (normalize_category u old) then some label else old

  unfoldable pub apply_schema_alignment_result :
      AnalysisResult → AnalysisResult → AnalysisResult × Bool
  apply_schema_alignment_result r alignment =
      let category = or_else (normalize_category u alignment.category) r.category in
      let subcategory =
        or_else (proposed_subcategory alignment.subcategory)
          (replace_weak (unaligned_category r.category) r.subcategory) in
      let email_type = or_else (normalize_email_type u alignment.email_type) r.email_type in
      (
        record r { category = category; subcategory = subcategory; email_type = email_type },
        not (same_option category r.category)
            || (not (same_option subcategory r.subcategory)
                || not (same_option email_type r.email_type)),
      )

  unfoldable pub preserve_unaligned_category_as_subcategory : AnalysisResult → AnalysisResult
  preserve_unaligned_category_as_subcategory r = record r {
    subcategory = replace_weak (unless_category (unaligned_category r.category)) r.subcategory;
  }
