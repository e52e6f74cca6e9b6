-- ===== src/Json.antt =====
-- serde_json::Value, as far as the program reads it: objects by key, strings, whole numbers.
-- A number with a fraction is kept as its text.
use Prim.Native.String.{String}
use text.Mathlib.Text.{◌==◌}
use mail_subsystem.Prelude.{ℕ, Bool, Option, none, some, if◌then◌else◌}
use mail_subsystem.Prelude.Int.{ℤ, pos}

mutual
  pub data Json : Type 0 where
    null : Json
    bool : Bool → Json
    int : ℤ → Json
    real : String → Json
    str : String → Json
    arr : Items → Json
    obj : Fields → Json

  pub data Items : Type 0 where
    nil : Items
    cons : Json → Items → Items

  pub data Fields : Type 0 where
    end : Fields
    field : String → Json → Fields → Fields

-- `Value::get(key)`: the member of an object, and nothing of any other value.
abbrev pub get_field : String → Fields → Option Json
get_field k end = none
get_field k (field j v fs) = let rest = get_field k fs in if j == k then some v else rest

abbrev pub get : String → Json → Option Json
get k (obj fs) = get_field k fs
get k null = none
get k (bool b) = none
get k (int n) = none
get k (real t) = none
get k (str s) = none
get k (arr xs) = none

-- `Value::as_str`, `Value::as_u64` behind a `get`.
abbrev pub as_str : Option Json → Option String
as_str (some (str s)) = some s
as_str _ = none

abbrev pub as_u64 : Option Json → Option ℕ
as_u64 (some (int (pos n))) = some n
as_u64 _ = none
