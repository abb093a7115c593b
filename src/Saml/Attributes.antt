-- ===== src/Saml/Attributes.antt =====
-- `extract_saml_attributes` of src/saml.rs against a description of each attribute on its own.
use mathlib.Core.List.{append_assoc}
use armature_auth.Prelude.{
  String, Bool, false, ◌≡◌, refl, sym, ap, ◌∙◌, inl, inr, Bool-cases, List, [], ◌∷◌, ◌++◌, Option,
  none, some, if◌then◌else◌, str_eq, eq_iff, Option-cases, Table,
}
use armature_auth.Saml.Schema.{Assertion, Attribute, AttributeStatement, AttributeValue}
use armature_auth.Saml.Response.{
  add_attributes, add_named, add_statements, extract_saml_attributes, name_of, or_default, present,
}

-- The values found first, then those found later.
abbrev pub followed_by : Option (List String) → Option (List String) → Option (List String)
followed_by none later = later
followed_by (some values) none = some values
followed_by (some values) (some later) = some (values ++ later)

followed_by-none : (o : Option (List String)) → followed_by o none ≡ o
followed_by-none none = refl
followed_by-none (some values) = refl

followed_by_assoc :
    (a b c : Option (List String))
    → followed_by (followed_by a b) c ≡ followed_by a (followed_by b c)
followed_by_assoc none b c = refl
followed_by_assoc (some u) none c = refl
followed_by_assoc (some u) (some v) none = refl
followed_by_assoc (some u) (some v) (some w) = ap some (append_assoc u v w)

-- Whether an attribute with this name and this friendly name is known by the name that is asked for:
-- its own name decides, if it has one.
abbrev pub is_known_by : String → Option String → Option String → Bool
is_known_by name (some own) friendly = str_eq own name
is_known_by name none (some friendly) = str_eq friendly name
is_known_by name none none = false

-- The texts of a value that has one, in a list.
abbrev pub texts : Option String → List String
texts none = []
texts (some s) = s ∷ []

-- The texts of all values, in order.
abbrev pub texts_in : List AttributeValue → List String
texts_in [] = []
texts_in (v ∷ vs) = texts v.value ++ texts_in vs

-- The values that one attribute has under a name, and those that a list of attributes has.
abbrev pub values_in : String → Attribute → Option (List String)
values_in name a =
    if is_known_by name a.name a.friendly_name then some (texts_in a.values) else none

abbrev pub values_of : String → List Attribute → Option (List String)
values_of name [] = none
values_of name (a ∷ rest) = followed_by (values_in name a) (values_of name rest)

-- The attributes of all statements, in order.
abbrev pub attributes_in : List AttributeStatement → List Attribute
attributes_in [] = []
attributes_in (s ∷ rest) = s.attributes ++ attributes_in rest

abbrev pub attributes_of : Option (List AttributeStatement) → List Attribute
attributes_of none = []
attributes_of (some statements) = attributes_in statements

values_of-++ :
    (name : String) (first second : List Attribute)
    → values_of name (first ++ second) ≡ followed_by (values_of name first) (values_of name second)
values_of-++ name [] second = refl
values_of-++ name (a ∷ first) second =
    ap (followed_by (values_in name a)) (values_of-++ name first second)
    ∙ sym (followed_by_assoc (values_in name a) (values_of name first) (values_of name second))

present-eq-texts_in : (vs : List AttributeValue) → present vs ≡ texts_in vs
present-eq-texts_in [] = refl
present-eq-texts_in (v ∷ vs) = elim (Option-cases v.value) [
  | inl missing ↦ rw missing (present-eq-texts_in vs)
  | inr (s, e) ↦ rw e (ap (λ rest. s ∷ rest) (present-eq-texts_in vs))
]

-- The code's name and values of an attribute say the same of a name.
named-values :
    (name : String) (a : Attribute)
    → elim (name_of a) [
      | none ↦ none
      | some found ↦ if str_eq found name then some (present a.values) else none
    ]
      ≡ values_in name a
named-values name a =
    let texts_same = present-eq-texts_in a.values in
    elim (Option-cases a.name) [
      | inl missing ↦ elim (Option-cases a.friendly_name) [
        | inl neither ↦ rw (missing, neither) refl
        | inr (friendly, f) ↦
            rw (missing, f) (ap (λ vs. if str_eq friendly name then some vs else none) texts_same)
      ]
      | inr (own, e) ↦ rw e (ap (λ vs. if str_eq own name then some vs else none) texts_same)
    ]

module _ (t : Table (List String)) where
  get-add :
      (name : String) (values : List String) (o : Option String) (m : t.Map)
      → t.get name (add_named t o values m)
        ≡ followed_by
            (t.get name m)
            (elim o [ none ↦ none | some found ↦ if str_eq found name then some values else none ])
  get-add name values none m = sym (followed_by-none (t.get name m))
  get-add name values (some found) m =
      rw (t.get-insert name found (or_default (t.get found m) ++ values) m)
        (elim (Bool-cases (str_eq found name)) [
          | inl e ↦ rw (e, (eq_iff found name).0 e) (or_default-followed_by (t.get name m))
          | inr e ↦ rw e (sym (followed_by-none (t.get name m)))
        ])
    where
      or_default-followed_by :
          (o : Option (List String)) → some (or_default o ++ values) ≡ followed_by o (some values)
      or_default-followed_by none = refl
      or_default-followed_by (some old) = refl

  get-add_attributes :
      (name : String) (attributes : List Attribute) (m : t.Map)
      → t.get name (add_attributes t attributes m)
        ≡ followed_by (t.get name m) (values_of name attributes)
  get-add_attributes name [] m = sym (followed_by-none (t.get name m))
  get-add_attributes name (a ∷ rest) m =
      get-add_attributes name rest (add_named t (name_of a) (present a.values) m)
      ∙ ap (λ o. followed_by o (values_of name rest))
          (get-add name (present a.values) (name_of a) m
            ∙ ap (followed_by (t.get name m)) (named-values name a))
      ∙ followed_by_assoc (t.get name m) (values_in name a) (values_of name rest)

  get-add_statements :
      (name : String) (statements : List AttributeStatement) (m : t.Map)
      → t.get name (add_statements t statements m)
        ≡ followed_by (t.get name m) (values_of name (attributes_in statements))
  get-add_statements name [] m = sym (followed_by-none (t.get name m))
  get-add_statements name (s ∷ rest) m =
      get-add_statements name rest (add_attributes t s.attributes m)
      ∙ ap (λ o. followed_by o (values_of name (attributes_in rest)))
          (get-add_attributes name s.attributes m)
      ∙ followed_by_assoc (t.get name m) (values_of name s.attributes)
          (values_of name (attributes_in rest))
      ∙ ap (followed_by (t.get name m)) (sym (values_of-++ name s.attributes (attributes_in rest)))

  -- Under each name the map has the values of all attributes of that name in the assertion, in the
  -- order of the statements, of their attributes and of their values, without the values that have no
  -- text. An attribute is known by its name, and one without a name by its friendly name; a name that
  -- no attribute is known by is absent.
  pub get-extract_saml_attributes :
      (name : String) (assertion : Assertion)
      → t.get name (extract_saml_attributes t assertion)
        ≡ values_of name (attributes_of assertion.attribute_statements)
  unfolding extract_saml_attributes
  get-extract_saml_attributes name assertion = elim (Option-cases assertion.attribute_statements) [
    | inl missing ↦ rw (extract_saml_attributes, missing) (t.get-empty name)
    | inr (statements, e) ↦
        rw (extract_saml_attributes, e)
          (get-add_statements name statements t.empty
            ∙ ap (λ o. followed_by o (values_of name (attributes_in statements)))
                (t.get-empty name))
  ]
