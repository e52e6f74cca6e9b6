-- ===== src/Agent/Arguments.antt =====
-- src/agent_harness/run_executor.rs: the arguments that the harness gives the tools it calls by itself.
-- `w` is the White_Space property, `parse` is str::parse::<usize>, and `string_of` makes a string of text.
use Prim.Native.String.{String}
use mail_subsystem.Prelude.{
  ℕ, zero, suc, Bool, false, not, ◌&&◌, ◌||◌, List, [], ◌∷◌, ◌++◌, Option, none, some,
  if◌then◌else◌, ◌==◌, is_some, min, max,
}
use mail_subsystem.Prelude.Text.{Text, codes}
use mail_subsystem.Strings.{
  trim_by, is_between, is_empty, text_eq, starts_with, contains_any, to_ascii_lowercase,
  eq_ignore_ascii_case, join,
}
use mail_subsystem.Json.{Json, str}
use mail_subsystem.Agent.Prerequisites.{object, count}
use mail_subsystem.Agent.Questions.{
  message_text, mail_assistant_input_text, mail_assistant_recent_history_text,
  is_count_question_text, has_followup_reference, is_mailbox_preparation_count_text,
  is_unfiltered_count_text, should_require_synced_email_list_tool,
  extract_spam_status_filter_from_text, extract_contextual_spam_status_filter_from_input,
}

abbrev pub is_ascii_alphanumeric : ℕ → Bool
is_ascii_alphanumeric c = is_between 48 57 c || (is_between 65 90 c || is_between 97 122 c)

abbrev pub is_ascii_punctuation : ℕ → Bool
is_ascii_punctuation c =
    is_between 33 47 c || (is_between 58 64 c || (is_between 91 96 c || is_between 123 126 c))

-- str::split_whitespace: the word at the head of the text, empty if there is none, and the ones after it.
abbrev pub end_word : Text → List Text → List Text
end_word word words = if is_empty word then words else word ∷ words

abbrev pub words_from : (ℕ → Bool) → Text → Text × List Text
words_from w [] = ([], [])
words_from w (c ∷ cs) =
    let (word, words) = words_from w cs in
    if w c then ([], end_word word words) else (c ∷ word, words)

abbrev pub split_whitespace : (ℕ → Bool) → Text → List Text
split_whitespace w t = let (word, words) = words_from w t in end_word word words

abbrev pub clamp : ℕ → ℕ
clamp n = min (max n 1) 10

abbrev pub word_limits : List (Text × ℕ)
word_limits =
    (codes "one", 1)
    ∷ (codes "two", 2)
    ∷ (codes "three", 3)
    ∷ (codes "four", 4)
    ∷ (codes "five", 5)
    ∷ (codes "six", 6)
    ∷ (codes "seven", 7)
    ∷ (codes "eight", 8)
    ∷ (codes "nine", 9)
    ∷ (codes "ten", 10)
    ∷ []

abbrev pub find_limit : List (Text × ℕ) → Text → Option ℕ
find_limit [] lowered = none
find_limit ((word, value) ∷ rest) lowered =
    let later = find_limit rest lowered in if text_eq word lowered then some value else later

-- What one word says, and else what the words after it say.
abbrev pub limit_of_word : Option ℕ → Option ℕ → Option ℕ → Option ℕ
limit_of_word (some value) named later = some (clamp value)
limit_of_word none (some value) later = some value
limit_of_word none none later = later

abbrev pub limit_of_words : (Text → Option ℕ) → List Text → Option ℕ
limit_of_words parse [] = none
limit_of_words parse (word ∷ words) =
    let later = limit_of_words parse words in
    let trimmed = trim_by (λ c. not (is_ascii_alphanumeric c)) word in
    limit_of_word (parse trimmed) (find_limit word_limits (to_ascii_lowercase trimmed)) later

unfoldable pub extract_requested_list_limit : (ℕ → Bool) → (Text → Option ℕ) → Text → Option ℕ
extract_requested_list_limit w parse message = limit_of_words parse (split_whitespace w message)

-- What stands in `message` after the first place at which `lower`, the same text in lower case, has the
-- marker.
abbrev pub drop : ℕ → Text → Text
drop zero t = t
drop (suc n) [] = []
drop (suc n) (c ∷ cs) = drop n cs

abbrev pub after_first : Text → ℕ → Text → Text → Option Text
after_first marker size [] message = none
after_first marker size (c ∷ cs) [] = none
after_first marker size (c ∷ cs) (d ∷ ds) =
    let later = after_first marker size cs ds in
    if starts_with marker (c ∷ cs) then some (drop size (d ∷ ds)) else later

abbrev pub or_prefix : Text → Text → Option Text → Option Text
or_prefix lower message (some tail) = some tail
or_prefix lower message none =
    if starts_with (codes "from ") lower then some (drop 5 message) else none

abbrev pub ends_sender : Text → Bool
ends_sender word = is_one_of (
    codes "to"
    ∷ codes "for"
    ∷ codes "since"
    ∷ codes "in"
    ∷ codes "this"
    ∷ codes "last"
    ∷ codes "past"
    ∷ codes "between"
    ∷ codes "with"
    ∷ codes "please"
    ∷ codes "overall"
    ∷ codes "total"
    ∷ codes "today"
    ∷ codes "yesterday"
    ∷ [])
  where
    is_one_of : List Text → Bool
    is_one_of [] = false
    is_one_of (t ∷ ts) = text_eq t word || is_one_of ts

abbrev pub trims_from_sender : ℕ → Bool
trims_from_sender c =
    is_ascii_punctuation c && (not (c == 64) && (not (c == 46) && (not (c == 45) && not (c == 95))))

-- The loop over the words, up to one that ends the sender.
abbrev pub sender_words : List Text → List Text
sender_words [] = []
sender_words (raw_word ∷ rest) =
    let later = sender_words rest in
    let word = trim_by trims_from_sender raw_word in
    if is_empty word
    then later
    else if ends_sender (to_ascii_lowercase word)
    then []
    else word ∷ later

abbrev pub sender_of : (ℕ → Bool) → Option Text → Option Text
sender_of w none = none
sender_of w (some tail) =
    let sender = join (codes " ") (sender_words (split_whitespace w (trim_by w tail))) in
    if is_empty sender then none else some sender

unfoldable pub extract_sender_filter_from_count_text : (ℕ → Bool) → Text → Option Text
extract_sender_filter_from_count_text w message =
    let lower = to_ascii_lowercase message in
    sender_of w (or_prefix lower message (after_first (codes " from ") 6 lower message))

unfoldable pub should_require_count_emails_tool : (ℕ → Bool) → Text → Json → Bool
should_require_count_emails_tool w agent_name input =
    let text = mail_assistant_input_text w input in
    let asks_for_count = is_count_question_text text in
    let has_sender_filter = is_some (extract_sender_filter_from_count_text w text) in
    let has_mail_context =
      contains_any (mail_assistant_recent_history_text w input 4)
        (codes "email" ∷ codes "message" ∷ codes "mailbox" ∷ codes "spam" ∷ []) in
    if not (eq_ignore_ascii_case agent_name (codes "mail-assistant"))
    then false
    else if is_mailbox_preparation_count_text text
        || should_require_synced_email_list_tool w agent_name input
    then false
    else contains_any text (
        codes "emails from"
        ∷ codes "email from"
        ∷ codes "messages from"
        ∷ codes "message from"
        ∷ codes "mail from"
        ∷ [])
      || ((asks_for_count && (has_sender_filter && has_followup_reference text))
          || ((asks_for_count && (has_followup_reference text && has_mail_context))
              || ((asks_for_count && is_some (extract_spam_status_filter_from_text text))
                  || (asks_for_count
                      && contains_any text (
                          codes "email"
                          ∷ codes "message"
                          ∷ codes "mail"
                          ∷ codes "sender"
                          ∷ codes "inbox"
                          ∷ [])))))

module _ (w : ℕ → Bool) (parse : Text → Option ℕ) (string_of : Text → String) where
  abbrev pub member : String → Option Text → List (String × Json)
  member key none = []
  member key (some t) = (key, str (string_of t)) ∷ []

  abbrev pub or_some : Option Text → Option Text → Option Text
  or_some (some t) other = some t
  or_some none other = other

  abbrev pub limit_or_five : Option ℕ → ℕ
  limit_or_five none = 5
  limit_or_five (some n) = n

  unfoldable pub synced_email_list_tool_args_for_input : Json → Json
  synced_email_list_tool_args_for_input input =
      let message = message_text input in
      object (
        ("limit", count (limit_or_five (extract_requested_list_limit w parse message)))
        ∷ member "spam_status" (extract_spam_status_filter_from_text message))

  unfoldable pub count_emails_tool_args_for_input : Json → Json
  count_emails_tool_args_for_input input =
      let message = message_text input in
      let sender = extract_sender_filter_from_count_text w message in
      let spam_status =
        or_some (extract_spam_status_filter_from_text message)
          (extract_contextual_spam_status_filter_from_input w input) in
      let query =
        if is_some sender
          || (is_some spam_status || is_unfiltered_count_text (to_ascii_lowercase message))
        then none
        else some message in
      object (
        ("sample_limit", count 5)
        ∷ (member "sender" sender ++ (member "spam_status" spam_status ++ member "query" query)))
