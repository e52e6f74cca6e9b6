-- ===== src/Strings.antt =====
-- The functions of str that the program calls, on the list of a text's code points. Which characters
-- are white space is an argument where a function depends on it.
pub mod Equality
use mail_subsystem.Prelude.{
  ℕ, ◌+◌, Bool, true, false, not, ◌&&◌, ◌||◌, List, [], ◌∷◌, ◌++◌, leb, ◌==◌, if◌then◌else◌, map,
}
use mail_subsystem.Prelude.Text.{Text}

abbrev pub is_between : ℕ → ℕ → ℕ → Bool
is_between low high c = leb low c && leb c high

unfoldable pub trim_start_by : (ℕ → Bool) → Text → Text
trim_start_by p [] = []
trim_start_by p (c ∷ cs) = let rest = trim_start_by p cs in if p c then rest else c ∷ cs

abbrev pub is_empty : Text → Bool
is_empty [] = true
is_empty (c ∷ cs) = false

unfoldable pub trim_end_by : (ℕ → Bool) → Text → Text
trim_end_by p [] = []
trim_end_by p (c ∷ cs) =
    let rest = trim_end_by p cs in if is_empty rest && p c then [] else c ∷ rest

-- str::trim_matches and, for white space, str::trim.
abbrev pub trim_by : (ℕ → Bool) → Text → Text
trim_by p t = trim_end_by p (trim_start_by p t)

abbrev pub text_eq : Text → Text → Bool
text_eq [] [] = true
text_eq [] (b ∷ bs) = false
text_eq (a ∷ as') [] = false
text_eq (a ∷ as') (b ∷ bs) = a == b && text_eq as' bs

-- str::starts_with and str::contains.
abbrev pub starts_with : Text → Text → Bool
starts_with [] t = true
starts_with (n ∷ ns) [] = false
starts_with (n ∷ ns) (c ∷ cs) = n == c && starts_with ns cs

unfoldable pub contains : Text → Text → Bool
contains needle [] = starts_with needle []
contains needle (c ∷ cs) = starts_with needle (c ∷ cs) || contains needle cs

unfoldable pub contains_any : Text → List Text → Bool
contains_any haystack [] = false
contains_any haystack (n ∷ ns) = contains n haystack || contains_any haystack ns

-- str::ends_with.
unfoldable pub ends_with : Text → Text → Bool
ends_with suffix [] = text_eq suffix []
ends_with suffix (c ∷ cs) = text_eq suffix (c ∷ cs) || ends_with suffix cs

-- to_ascii_lowercase, and eq_ignore_ascii_case.
abbrev pub lowercase_byte : ℕ → ℕ
lowercase_byte c = if is_between 65 90 c then c + 32 else c

abbrev pub to_ascii_lowercase : Text → Text
to_ascii_lowercase = map lowercase_byte

unfoldable pub eq_ignore_ascii_case : Text → Text → Bool
eq_ignore_ascii_case a b = text_eq (to_ascii_lowercase a) (to_ascii_lowercase b)

-- [Text]::join.
unfoldable pub join : Text → List Text → Text
join separator [] = []
join separator (t ∷ []) = t
join separator (t ∷ u ∷ us) = t ++ (separator ++ join separator (u ∷ us))
