-- ===== src/Agent/Spec.antt =====
-- src/agent_harness/agent_spec.rs: what a specification of an agent allows, and the validation of an
-- output; src/agent_harness/run_executor.rs: the repair of enum values and the escalation. A floating-point
-- number is kept as a text: `as_f64` is Value::as_f64, and `below` the order of numbers.
use Prim.Native.String.{String}
use text.Mathlib.Text.{◌==◌ as str_eq}
use mail_subsystem.Prelude.{
  ℕ, Bool, true, false, not, ◌&&◌, ◌||◌, List, [], ◌∷◌, Option, none, some, if◌then◌else◌, ◌==◌,
  map,
}
use mail_subsystem.Prelude.Text.{Text, codes}
use mail_subsystem.Strings.{trim_by, text_eq, to_ascii_lowercase}
use mail_subsystem.Json.{Json, Fields, end, field, obj, str, null, bool, get, get_field, as_str}

-- Of the configurations those fields that a run reads, the limits and rates of the provider left out.
pub record ExecutionConfig : Type 0 where
  pub max_iterations : ℕ
  pub checkpoint_every : ℕ

pub record BudgetConfig : Type 0 where
  pub max_llm_calls : ℕ
  pub max_tool_calls : ℕ

pub record StateConfig : Type 0 where
  pub schema : List String
  pub ttl_hours : ℕ

pub record FieldValidation : Type 0 where
  pub enum_values : Option (List String)
  pub field_type : Option String
  pub min : Option String
  pub max : Option String

-- The map of validations is the list of its entries, in the order in which it is iterated.
pub record OutputConfig : Type 0 where
  pub required_fields : List String
  pub validation : List (String × FieldValidation)

pub record EscalationConfig : Type 0 where
  pub confidence_threshold : String
  pub always_escalate_on_phishing : Bool
  pub always_escalate_on_threat : List String

pub record AgentSpec : Type 0 where
  pub name : String
  pub version : Text
  pub system_prompt : Text
  pub execution : ExecutionConfig
  pub budget : BudgetConfig
  pub escalation : EscalationConfig
  pub state : StateConfig
  pub output : OutputConfig

-- The errors of a validation, each with the field it names.
pub data Invalid : Type 0 where
  not_json not_object : Invalid
  is_null missing not_enum_string bad_enum_value not_number too_small too_large : String → Invalid
  not_string not_boolean unsupported_type : String → Invalid

abbrev pub has_text : String → List String → Bool
has_text t [] = false
has_text t (u ∷ us) = str_eq u t || has_text t us

-- The checks return the first error.
abbrev pub then_check : Option Invalid → Option Invalid → Option Invalid
then_check (some e) later = some e
then_check none later = later

abbrev pub check : Bool → Invalid → Option Invalid
check holds e = if holds then none else some e

abbrev pub required_field : String → Option Json → Option Invalid
required_field f none = some (missing f)
required_field f (some null) = some (is_null f)
required_field f (some _) = none

abbrev pub required : List String → Fields → Option Invalid
required [] object = none
required (f ∷ fs) object = then_check (required_field f (get_field f object)) (required fs object)

abbrev pub is_string : Json → Bool
is_string (str t) = true
is_string _ = false

abbrev pub is_boolean : Json → Bool
is_boolean (bool b) = true
is_boolean _ = false

abbrev pub enum_error : String → Option (List String) → Option String → Option Invalid
enum_error f none value = none
enum_error f (some allowed) none = some (not_enum_string f)
enum_error f (some allowed) (some t) = check (has_text t allowed) (bad_enum_value f)

-- Why an output is escalated: the confidence and the threshold it is below, and whether that one is
-- the calibrated one; phishing; the level of the threat.
pub data Escalation : Type 0 where
  low_confidence : String → String → Bool → Escalation
  phishing : Escalation
  threat : String → Escalation

module _ (as_f64 : Json → Option String) (below : String → String → Bool) where
  abbrev pub lower_error : String → Option String → String → Option Invalid
  lower_error f none n = none
  lower_error f (some bound) n = check (not (below n bound)) (too_small f)

  abbrev pub upper_error : String → Option String → String → Option Invalid
  upper_error f none n = none
  upper_error f (some bound) n = check (not (below bound n)) (too_large f)

  abbrev pub number_error : String → FieldValidation → Option String → Option Invalid
  number_error f v none = some (not_number f)
  number_error f v (some n) = then_check (lower_error f v.min n) (upper_error f v.max n)

  abbrev pub type_error : String → FieldValidation → Json → Option String → Option Invalid
  type_error f v value none = none
  type_error f v value (some t) =
      if str_eq t "number"
      then number_error f v (as_f64 value)
      else if str_eq t "string"
      then check (is_string value) (not_string f)
      else if str_eq t "boolean"
      then check (is_boolean value) (not_boolean f)
      else some (unsupported_type f)

  -- A field that is absent is not checked.
  abbrev pub field_error : String → FieldValidation → Option Json → Option Invalid
  field_error f v none = none
  field_error f v (some value) =
      then_check (enum_error f v.enum_values (as_str (some value)))
        (type_error f v value v.field_type)

  abbrev pub fields_error : List (String × FieldValidation) → Fields → Option Invalid
  fields_error [] object = none
  fields_error ((f, v) ∷ rest) object =
      then_check (field_error f v (get_field f object)) (fields_error rest object)

  -- OutputConfig::validate; `none` is Ok.
  unfoldable pub validate : OutputConfig → Json → Option Invalid
  validate c (obj object) =
      then_check (required c.required_fields object) (fields_error c.validation object)
  validate c _ = some not_object

  abbrev pub or_default : String → Option String → String
  or_default default none = default
  or_default default (some t) = t

  abbrev pub is_given : Option String → Bool
  is_given none = false
  is_given (some t) = true

  abbrev pub confidence_escalates : String → Bool → Option String → Option Escalation
  confidence_escalates threshold calibrated none = none
  confidence_escalates threshold calibrated (some confidence) =
      if below confidence threshold
      then some (low_confidence confidence threshold calibrated)
      else none

  abbrev pub is_phishing : Option String → Bool
  is_phishing none = false
  is_phishing (some status) = str_eq status "phishing"

  abbrev pub threat_escalates : List String → Option String → Option Escalation
  threat_escalates levels none = none
  threat_escalates levels (some level) = if has_text level levels then some (threat level) else none

  abbrev pub first_escalation : Option Escalation → Option Escalation → Option Escalation
  first_escalation (some e) later = some e
  first_escalation none later = later

  abbrev pub and_then_f64 : Option Json → Option String
  and_then_f64 none = none
  and_then_f64 (some v) = as_f64 v

  unfoldable pub evaluate_escalation_with_threshold :
      EscalationConfig → Json → Option String → Option Escalation
  evaluate_escalation_with_threshold c output calibrated_threshold =
      let effective_threshold = or_default c.confidence_threshold calibrated_threshold in
      first_escalation
        (confidence_escalates effective_threshold (is_given calibrated_threshold)
          (and_then_f64 (get "confidence" output)))
        (first_escalation
          (if c.always_escalate_on_phishing && is_phishing (as_str (get "phishing_status" output))
            then some phishing
            else none)
          (threat_escalates c.always_escalate_on_threat (as_str (get "threat_level" output))))

abbrev pub dashes_to_spaces : Text → Text
dashes_to_spaces = map (λ (c : ℕ). if c == 95 || c == 45 then 32 else c)

module _ (w : ℕ → Bool) where
  unfoldable pub canonicalize_enum_value : String → Text
  canonicalize_enum_value value = dashes_to_spaces (to_ascii_lowercase (trim_by w (codes value)))

  unfoldable pub normalize_known_enum_value : String → List String → Option String
  unfolding canonicalize_enum_value
  normalize_known_enum_value raw [] = none
  normalize_known_enum_value raw (candidate ∷ rest) =
      let later = normalize_known_enum_value raw rest in
      if text_eq (canonicalize_enum_value candidate) (canonicalize_enum_value raw)
      then some candidate
      else later

  -- `*value = Value::String(normalized)` on the member of the object that `get_mut` finds.
  abbrev pub set_field : String → Json → Fields → Fields
  set_field k v end = end
  set_field k v (field j u fs) =
      let rest = set_field k v fs in if str_eq j k then field j v fs else field j u rest

  abbrev pub repaired : String → Fields → Option String → Fields
  repaired f object none = object
  repaired f object (some normalized) = set_field f (str normalized) object

  abbrev pub repair_field : String → Option (List String) → Option String → Fields → Fields
  repair_field f none raw object = object
  repair_field f (some allowed) none object = object
  repair_field f (some allowed) (some raw) object =
      if has_text raw allowed
      then object
      else repaired f object (normalize_known_enum_value raw allowed)

  abbrev pub repair_fields : List (String × FieldValidation) → Fields → Fields
  repair_fields [] object = object
  repair_fields ((f, v) ∷ rest) object =
      repair_fields rest (repair_field f v.enum_values (as_str (get_field f object)) object)

  unfoldable pub normalize_common_output_enums : OutputConfig → Json → Json
  normalize_common_output_enums c (obj object) = obj (repair_fields c.validation object)
  normalize_common_output_enums c v = v
