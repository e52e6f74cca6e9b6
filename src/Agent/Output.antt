-- ===== src/Agent/Output.antt =====
-- src/agent_harness/run_executor.rs: what a response of the model says: a call of a tool, an action on the
-- scratchpad, or an output. `from_str` is serde_json::from_str.
use Prim.Native.String.{String}
use text.Mathlib.Text.{◌==◌ as str_eq}
use mail_subsystem.Prelude.{
  ℕ, zero, suc, Bool, true, false, ◌&&◌, List, [], ◌∷◌, ◌++◌, Option, none, some, if◌then◌else◌,
  ◌==◌, is_some,
}
use mail_subsystem.Prelude.Text.{Text, codes}
use mail_subsystem.Strings.{trim_by, starts_with, text_eq}
use mail_subsystem.Json.{Json, null, obj, end, get, as_str}
use mail_subsystem.Agent.Spec.{
  OutputConfig, FieldValidation, Invalid, not_json, has_text, validate,
  normalize_common_output_enums,
}

-- A call without its id, which only a provider reads.
pub record ToolCall : Type 0 where
  pub name : String
  pub arguments : Json

pub data ScratchpadAction : Type 0 where
  read : String → ScratchpadAction
  write : String → Json → ScratchpadAction

abbrev pub json_fence : Text
json_fence = codes "```json"

abbrev pub fence : Text
fence = codes "```"

abbrev pub strip_opening : Text → Text
strip_opening t =
    if starts_with json_fence t then drop 7 t else if starts_with fence t then drop 3 t else t
  where
    drop : ℕ → Text → Text
    drop zero u = u
    drop (suc n) [] = []
    drop (suc n) (c ∷ cs) = drop n cs

-- str::strip_suffix.
abbrev pub strip_closing : Text → Text
strip_closing [] = []
strip_closing (c ∷ cs) =
    let rest = strip_closing cs in if text_eq fence (c ∷ cs) then [] else c ∷ rest

-- The text up to its last '}', none if there is no '}' in it.
abbrev pub up_to_last : ℕ → Text → Option Text
up_to_last e [] = none
up_to_last e (c ∷ cs) = keep (up_to_last e cs) (c == e)
  where
    keep : Option Text → Bool → Option Text
    keep (some t) at_end = some (c ∷ t)
    keep none true = some (c ∷ [])
    keep none false = none

-- From the first '{' to the last '}', which is none if that comes before.
unfoldable pub extract_json_object : Text → Option Text
extract_json_object [] = none
extract_json_object (c ∷ cs) =
    let later = extract_json_object cs in if c == 123 then up_to_last 125 (c ∷ cs) else later

abbrev pub or_empty : Option Text → Text
or_empty none = []
or_empty (some t) = t

pub data Validated : Type 0 where
  valid : Json → Validated
  invalid : Invalid → Validated

abbrev pub or_error : Json → Option Invalid → Validated
or_error output none = valid output
or_error output (some e) = invalid e

abbrev pub value_or_null : Option Json → Json
value_or_null none = null
value_or_null (some v) = v

module _ (w : ℕ → Bool) (from_str : Text → Option Json) where
  unfoldable pub strip_markdown_fences : Text → Text
  strip_markdown_fences content =
      let trimmed = trim_by w (strip_opening (trim_by w content)) in
      trim_by w (strip_closing trimmed)

  -- The text as it is, or else the object within it.
  abbrev pub or_candidate : Text → Option Json → Option Json
  or_candidate stripped (some v) = some v
  or_candidate stripped none = from_str (or_empty (extract_json_object stripped))

  unfoldable pub parse_embedded_json : Text → Option Json
  parse_embedded_json content =
      let stripped = strip_markdown_fences content in or_candidate stripped (from_str stripped)

  abbrev pub arguments_or_empty : Option Json → Json
  arguments_or_empty none = obj end
  arguments_or_empty (some v) = v

  abbrev pub call_of : Json → Option String → Option ToolCall
  call_of parsed none = none
  call_of parsed (some tool) =
      some (record { name = tool; arguments = arguments_or_empty (get "args" parsed) })

  abbrev pub call_of_action : Json → Option String → Option ToolCall
  call_of_action parsed none = none
  call_of_action parsed (some action) =
      if str_eq action "use_tool" then call_of parsed (as_str (get "tool" parsed)) else none

  abbrev pub parsed_call : Option Json → Option ToolCall
  parsed_call none = none
  parsed_call (some parsed) = call_of_action parsed (as_str (get "action" parsed))

  unfoldable pub parse_json_tool_call : Text → Option ToolCall
  parse_json_tool_call content = parsed_call (parse_embedded_json content)

  abbrev pub read_of : Option String → Option ScratchpadAction
  read_of none = none
  read_of (some key) = some (read key)

  abbrev pub write_of : Json → Option String → Option ScratchpadAction
  write_of parsed none = none
  write_of parsed (some key) = some (write key (value_or_null (get "value" parsed)))

  abbrev pub scratchpad_of : Json → Option String → Option ScratchpadAction
  scratchpad_of parsed none = none
  scratchpad_of parsed (some action) =
      if str_eq action "read_scratchpad"
      then read_of (as_str (get "key" parsed))
      else if str_eq action "write_scratchpad"
      then write_of parsed (as_str (get "key" parsed))
      else none

  abbrev pub parsed_action : Option Json → Option ScratchpadAction
  parsed_action none = none
  parsed_action (some parsed) = scratchpad_of parsed (as_str (get "action" parsed))

  unfoldable pub parse_scratchpad_action : Text → Option ScratchpadAction
  parse_scratchpad_action content = parsed_action (parse_embedded_json content)

  module _ (as_f64 : Json → Option String) (below : String → String → Bool) (c : OutputConfig) where
    abbrev pub validated : Option Json → Validated
    validated none = invalid not_json
    validated (some parsed) =
        let output = normalize_common_output_enums w c parsed in
        or_error output (validate as_f64 below c output)

    unfoldable pub validate_output : Text → Validated
    validate_output content =
        let stripped = trim_by w (strip_markdown_fences content) in
        validated (or_candidate stripped (from_str stripped))

abbrev pub has_enum : String → List (String × FieldValidation) → Bool
has_enum f [] = false
has_enum f ((g, v) ∷ rest) =
    let later = has_enum f rest in if str_eq g f then is_some v.enum_values else later

unfoldable pub output_validation_repair_hint : OutputConfig → Text
output_validation_repair_hint c =
    hint (has_enum "category" c.validation && has_text "subcategory" c.required_fields)
      (has_enum "email_type" c.validation)
  where
    for_category : Text
    for_category =
        codes
          " For category, choose one allowed top-level enum value exactly. If your intended category is novel or more specific than the enum, keep the nearest allowed top-level value in category and move the novel/specific label into subcategory."

    for_email_type : Text
    for_email_type =
        codes
          " For email_type, choose one allowed enum value by meaning; do not invent values such as marketing, promotional, personal, or security."

    hint : Bool → Bool → Text
    hint true true = for_category ++ for_email_type
    hint true false = for_category
    hint false true = for_email_type
    hint false false = []
