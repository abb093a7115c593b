-- ===== src/OAuth2/Template.antt =====
-- src/oauth2.rs: an issuer that is a template for a tenant, described without `contains` and
-- `replace`.
use mathlib.Core.List.{append-nil}
use armature_auth.Prelude.{
  Text, codes, strip_prefix, subst, ℕ, zero, suc, ◌≤◌, Bool-cases, Option-cases, true, false, ◌≡◌,
  refl, sym, ap, ◌∙◌, inl, inr, List, [], ◌∷◌, ◌++◌, some, length, All, arith,
}
use armature_auth.OAuth2.{is_configured}
use armature_auth.OAuth2.IdToken.{contains, is_prefix, replace_from, tenant}

-- The placeholder `{tenantid}` stands somewhere in the text.
abbrev pub HasTenant : Text → Type 0
HasTenant s = (before : Text) × (after : Text) × (s ≡ before ++ codes "{tenantid}" ++ after)

-- A piece and the pieces after it, with a text in between.
abbrev pub joined : Text → Text → List Text → Text
joined between piece [] = piece
joined between piece (next ∷ rest) = piece ++ (between ++ joined between next rest)

-- The text `out` has `tid` for each placeholder of the template: the pieces around the placeholders,
-- which have none themselves, are the same.
abbrev pub IsFilled : Text → Text → Text → Type 0
IsFilled tid template out =
    (piece : Text) × (rest : List Text) × (template ≡ joined (codes "{tenantid}") piece rest)
    × (out ≡ joined tid piece rest)
    × All (λ q. ¬ HasTenant q) (piece ∷ rest)

strip_prefix-eq-some :
    (pattern s rest : Text) → strip_prefix pattern s ≡ some rest → s ≡ pattern ++ rest
unfolding strip_prefix
strip_prefix-eq-some [] s rest h = ground arith
strip_prefix-eq-some (a ∷ pattern) [] rest h = cc
strip_prefix-eq-some (a ∷ pattern) (b ∷ s) rest h =
    ground (arith, strip_prefix-eq-some pattern s rest)

strip_prefix-++ : (pattern rest : Text) → strip_prefix pattern (pattern ++ rest) ≡ some rest
unfolding strip_prefix
strip_prefix-++ [] rest = refl
strip_prefix-++ (a ∷ pattern) rest = ground (arith, strip_prefix-++ pattern rest)

is_prefix-eq-true :
    (pattern s : Text) → is_prefix pattern s ≡ true → (rest : Text) × (s ≡ pattern ++ rest)
is_prefix-eq-true pattern s h = elim (Option-cases (strip_prefix pattern s)) [
  | inl missing ↦ (let stop = rw missing at h in cc)
  | inr (rest, e) ↦ (rest, strip_prefix-eq-some pattern s rest e)
]

is_prefix-++ : (pattern rest : Text) → is_prefix pattern (pattern ++ rest) ≡ true
is_prefix-++ pattern rest = ap is_configured (strip_prefix-++ pattern rest)

pub contains-HasTenant : (s : Text) → contains tenant s ≡ true → HasTenant s
unfolding strip_prefix
contains-HasTenant [] h = cc
contains-HasTenant (ch ∷ s) h = elim (Bool-cases (is_prefix tenant (ch ∷ s))) [
  | inl here ↦ let (rest, e) = is_prefix-eq-true tenant (ch ∷ s) here in ([], rest, e)
  | inr other ↦
      let (before, after, e) = contains-HasTenant s (rw other at h) in
      (ch ∷ before, after, ap (λ r. ch ∷ r) e)
]

contains-++ : (before after : Text) → contains tenant (before ++ tenant ++ after) ≡ true
contains-++ [] after = rw (is_prefix-++ tenant after) refl
contains-++ (ch ∷ before) after =
    elim (Bool-cases (is_prefix tenant (ch ∷ before ++ tenant ++ after))) [
      | inl here ↦ rw here refl
      | inr other ↦ rw other (contains-++ before after)
    ]

pub contains-eq-false : (s : Text) → contains tenant s ≡ false → ¬ HasTenant s
contains-eq-false s h (before, after, e) =
    let stop = sym (ap (contains tenant) e ∙ contains-++ before after) ∙ h in cc

not-HasTenant-empty : ¬ HasTenant []
not-HasTenant-empty ([], after, e) = cc
not-HasTenant-empty (ch ∷ before, after, e) = cc

joined-cons :
    (between : Text) (ch : ℕ) (piece : Text) (rest : List Text)
    → joined between (ch ∷ piece) rest ≡ ch ∷ joined between piece rest
joined-cons between ch piece [] = refl
joined-cons between ch piece (next ∷ rest) = refl

joined-prefix :
    (between piece : Text) (rest : List Text)
    → (tail : Text) × (joined between piece rest ≡ piece ++ tail)
joined-prefix between piece [] = ([], sym (append-nil piece))
joined-prefix between piece (next ∷ rest) = (between ++ joined between next rest, refl)

-- A character at which no placeholder starts makes none with a piece that follows.
not-HasTenant-cons :
    (ch : ℕ) (piece tail : Text)
    → is_prefix tenant (ch ∷ piece ++ tail) ≡ false
    → ¬ HasTenant piece
    → ¬ HasTenant (ch ∷ piece)
not-HasTenant-cons ch piece tail other free ([], after, e) =
    let starts : is_prefix tenant (ch ∷ piece ++ tail) ≡ true =
      ap (λ s. is_prefix tenant (s ++ tail)) e ∙ is_prefix-++ tenant (after ++ tail) in
    (let stop = sym starts ∙ other in cc)
not-HasTenant-cons ch piece tail other free (b ∷ before, after, e) = free (before, after, cc)

IsFilled-cons :
    (tid : Text) (ch : ℕ) (s out : Text)
    → is_prefix tenant (ch ∷ s) ≡ false
    → IsFilled tid s out
    → IsFilled tid (ch ∷ s) (ch ∷ out)
IsFilled-cons tid ch s out other (piece, rest, e, f, (free, frees)) =
    let (tail, g) = joined-prefix tenant piece rest in
    (
      ch ∷ piece,
      rest,
      ap (λ r. ch ∷ r) e ∙ sym (joined-cons tenant ch piece rest),
      ap (λ r. ch ∷ r) f ∙ sym (joined-cons tid ch piece rest),
      (
        not-HasTenant-cons ch piece tail (ap (λ r. is_prefix tenant (ch ∷ r)) (sym (e ∙ g)) ∙ other)
            free,
        frees,
      ),
    )

IsFilled-tenant : (tid s out : Text) → IsFilled tid s out → IsFilled tid (tenant ++ s) (tid ++ out)
IsFilled-tenant tid s out (piece, rest, e, f, free) =
    ([], piece ∷ rest, ap (λ r. tenant ++ r) e, ap (λ r. tid ++ r) f, (not-HasTenant-empty, free))

replace_upto : (n : ℕ) (tid s : Text) → length s ≤ n → IsFilled tid s (replace_from tenant tid 0 s)
unfolding strip_prefix
replace_upto n tid [] h = ([], [], refl, refl, (not-HasTenant-empty, tt))
replace_upto zero tid (ch ∷ s) h = absurd (omega arith)
replace_upto (suc n) tid (ch ∷ s) h = elim (Bool-cases (is_prefix tenant (ch ∷ s))) [
  | inl here ↦
      let (rest, e) = is_prefix-eq-true tenant (ch ∷ s) here in
      let shorter : length rest ≤ n = let same = ap length e in omega arith in
      subst (λ z. IsFilled tid z (replace_from tenant tid 0 z)) (sym e)
        (IsFilled-tenant tid rest (replace_from tenant tid 0 rest)
          (replace_upto n tid rest shorter))
  | inr other ↦ rw other (
      IsFilled-cons tid ch s (replace_from tenant tid 0 s) other
        (replace_upto n tid s (omega arith)))
]

-- `replace` fills the template.
pub replace_from-IsFilled : (tid s : Text) → IsFilled tid s (replace_from tenant tid 0 s)
replace_from-IsFilled tid s = replace_upto (length s) tid s (omega arith)
