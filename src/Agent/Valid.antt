-- ===== src/Agent/Valid.antt =====
-- src/agent_harness/agent_spec.rs: what a valid output looks like.
use Prim.Native.String.{String}
use mail_subsystem.Prelude.{
  ◌≡◌, refl, Bool, true, false, List, [], ◌∷◌, Option, none, some, arith, All,
}
use mail_subsystem.Json.{Json, Fields, null, bool, int, real, str, arr, obj, get_field, as_str}
use mail_subsystem.Agent.Spec.{
  OutputConfig, FieldValidation, Invalid, has_text, then_check, check, required_field, required,
  enum_error, field_error, fields_error, type_error, validate,
}

-- A member that is there and is not null.
abbrev pub IsPresent : Option Json → Type 0
IsPresent none = ⊥
IsPresent (some null) = ⊥
IsPresent (some _) = Unit

-- A member is one of the allowed texts, if it is there and if there are such.
abbrev pub IsAllowedText : Option (List String) → Option Json → Type 0
IsAllowedText none value = Unit
IsAllowedText (some allowed) none = Unit
IsAllowedText (some allowed) (some value) =
    (t : String) × (value ≡ str t) × (has_text t allowed ≡ true)

-- The members that a configuration asks for.
pub record IsTyped (c : OutputConfig) (output : Json) (object : Fields) : Type 0 where
  pub is_object : output ≡ obj object
  pub present : All (λ (f : String). IsPresent (get_field f object)) c.required_fields
  pub allowed :
      All
        (λ (fv : String × FieldValidation). IsAllowedText fv.1.enum_values (get_field fv.0 object))
        c.validation

then_check-none : (a b : Option Invalid) → then_check a b ≡ none → (a ≡ none) × (b ≡ none)
then_check-none none b e = (refl, e)
then_check-none (some i) b e = absurd (ground arith)

required_field-IsPresent : (f : String) (o : Option Json) → required_field f o ≡ none → IsPresent o
required_field-IsPresent f none e = absurd (ground arith)
required_field-IsPresent f (some null) e = absurd (ground arith)
required_field-IsPresent f (some (bool b)) e = tt
required_field-IsPresent f (some (int n)) e = tt
required_field-IsPresent f (some (real t)) e = tt
required_field-IsPresent f (some (str t)) e = tt
required_field-IsPresent f (some (arr xs)) e = tt
required_field-IsPresent f (some (obj fs)) e = tt

required-IsPresent :
    (fs : List String) (object : Fields)
    → required fs object ≡ none
    → All (λ (f : String). IsPresent (get_field f object)) fs
required-IsPresent [] object e = tt
required-IsPresent (f ∷ fs) object e =
    let (here, later) =
      then_check-none (required_field f (get_field f object)) (required fs object) e in
    (required_field-IsPresent f (get_field f object) here, required-IsPresent fs object later)

check-holds : (b : Bool) (i : Invalid) → check b i ≡ none → b ≡ true
check-holds true i e = refl
check-holds false i e = absurd (ground arith)

enum-IsAllowedText :
    (f : String) (allowed : List String) (value : Json)
    → enum_error f (some allowed) (as_str (some value)) ≡ none
    → IsAllowedText (some allowed) (some value)
enum-IsAllowedText f allowed (str t) e = (t, refl, check-holds (has_text t allowed) _ e)
enum-IsAllowedText f allowed null e = absurd (ground arith)
enum-IsAllowedText f allowed (bool b) e = absurd (ground arith)
enum-IsAllowedText f allowed (int n) e = absurd (ground arith)
enum-IsAllowedText f allowed (real t) e = absurd (ground arith)
enum-IsAllowedText f allowed (arr xs) e = absurd (ground arith)
enum-IsAllowedText f allowed (obj fs) e = absurd (ground arith)

module _ (as_f64 : Json → Option String) (below : String → String → Bool) where
  field-IsAllowedText :
      (f : String) (v : FieldValidation) (enum_values : Option (List String)) (o : Option Json)
      → v.enum_values ≡ enum_values
      → field_error as_f64 below f v o ≡ none
      → IsAllowedText enum_values o
  field-IsAllowedText f v none o s e = tt
  field-IsAllowedText f v (some allowed) none s e = tt
  field-IsAllowedText f v (some allowed) (some value) s e =
      let (here, _) =
        then_check-none (enum_error f v.enum_values (as_str (some value)))
          (type_error as_f64 below f v value v.field_type) e in
      enum-IsAllowedText f allowed value (rw s at here)

  fields-IsAllowedText :
      (vs : List (String × FieldValidation)) (object : Fields)
      → fields_error as_f64 below vs object ≡ none
      → All
          (λ (fv : String × FieldValidation).
            IsAllowedText fv.1.enum_values (get_field fv.0 object))
          vs
  fields-IsAllowedText [] object e = tt
  fields-IsAllowedText ((f, v) ∷ vs) object e =
      let (here, later) =
        then_check-none (field_error as_f64 below f v (get_field f object))
          (fields_error as_f64 below vs object) e in
      (
        field-IsAllowedText f v v.enum_values (get_field f object) refl here,
        fields-IsAllowedText vs object later,
      )

  -- An output that is validated is an object in which every required member is there and not null, and
  -- every member that is there and has enum values is one of them.
  pub validate-IsTyped :
      (c : OutputConfig) (output : Json)
      → validate as_f64 below c output ≡ none
      → (object : Fields) × IsTyped c output object
  unfolding validate
  validate-IsTyped c (obj object) e =
      let (here, later) =
        then_check-none (required c.required_fields object)
          (fields_error as_f64 below c.validation object) e in
      (
        object,
        record {
          is_object = refl;
          present = required-IsPresent c.required_fields object here;
          allowed = fields-IsAllowedText c.validation object later;
        },
      )
  validate-IsTyped c null e = absurd (ground arith)
  validate-IsTyped c (bool b) e = absurd (ground arith)
  validate-IsTyped c (int n) e = absurd (ground arith)
  validate-IsTyped c (real t) e = absurd (ground arith)
  validate-IsTyped c (str t) e = absurd (ground arith)
  validate-IsTyped c (arr xs) e = absurd (ground arith)
