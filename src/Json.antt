-- ===== src/Json.antt =====
-- What the crate uses of `serde_json::Value` (not under src/), as an interface, and the coercion of a
-- claim to a list of strings that src/middleware.rs and src/strategy.rs share.
use armature_auth.Prelude.{String, List, [], ◌∷◌, Option, none, some, ◌≡◌}

pub record Json : Type 1 where
  pub Value : Type 0
  pub null : Value
  -- `Value::get` at a name, `Value::as_str`, and the items of a `Value::Array`.
  pub get : String → Value → Option Value
  pub as_str : Value → Option String
  pub as_array : Value → Option (List Value)
  -- `Value::String`.
  pub of_str : String → Value
  pub as_str-of_str : (s : String) → as_str (of_str s) ≡ some s

module _ (j : Json) where
  -- `and_then(Value::as_str)` after `get`.
  unfoldable pub get_str : String → j.Value → Option String
  get_str name v = elim (j.get name v) [ none ↦ none | some w ↦ j.as_str w ]

  abbrev pub strings : List j.Value → List String
  strings [] = []
  strings (v ∷ vs) = elim (j.as_str v) [ none ↦ strings vs | some s ↦ s ∷ strings vs ]

  unfoldable pub string_list : Option j.Value → List String
  string_list none = []
  string_list (some v) = elim (j.as_array v) [
    | some items ↦ strings items
    | none ↦ elim (j.as_str v) [ some s ↦ s ∷ [] | none ↦ [] ]
  ]
