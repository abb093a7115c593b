-- ===== src/Saml/Pem.antt =====
-- `pem_body` of src/saml.rs on the lines of a document.
use armature_auth.Prelude.{
  Text, codes, Bool, ◌≡◌, ◌≢◌, refl, ap, ◌∙◌, List, [], ◌∷◌, ◌++◌, map, if◌then◌else◌, All,
  IsTrimmed, trim_of_trimmed, is_empty_plain, arith, Bool-cases, inl, inr,
}
use armature_auth.Password.{split, starts_with}
use armature_auth.Saml.Request.{chomp, drop_last_empty, join_lines, pem_body, pem_line}

-- A line, and whether it ends in a carriage return and a line feed or in a line feed.
pub record Line : Type 0 where
  pub text : Text
  pub has_return : Bool

abbrev pub with_return : Line → Text
with_return l = if l.has_return then l.text ++ (13 ∷ []) else l.text

abbrev pub document : List Line → Text
document [] = []
document (l ∷ ls) = with_return l ++ (10 ∷ document ls)

-- What is kept: the texts of the lines but for those that start with five dashes.
abbrev pub body_of : List Line → Text
body_of [] = []
body_of (l ∷ ls) = (if starts_with (codes "-----") l.text then [] else l.text) ++ body_of ls

-- A line without white space at its ends, and so not empty, and without line breaks in it.
abbrev pub IsPlain : Line → Type 0
IsPlain l = IsTrimmed l.text × All (λ ch. (ch ≢ 10) × (ch ≢ 13)) l.text

chomp-return : (s : Text) → chomp (s ++ (13 ∷ [])) ≡ s
chomp-return [] = refl
chomp-return (a ∷ []) = refl
chomp-return (a ∷ b ∷ s) = ap (◌∷◌ a) (chomp-return (b ∷ s))

chomp_of_unbroken : (s : Text) → All (λ ch. (ch ≢ 10) × (ch ≢ 13)) s → chomp s ≡ s
chomp_of_unbroken [] h = refl
chomp_of_unbroken (a ∷ []) ((h, k), hs) = ground arith
chomp_of_unbroken (a ∷ b ∷ s) (h, hs) = ap (◌∷◌ a) (chomp_of_unbroken (b ∷ s) hs)

chomp-with_return : (l : Line) → IsPlain l → chomp (with_return l) ≡ l.text
chomp-with_return l (h, unbroken) = elim (Bool-cases l.has_return) [
  | inl e ↦ rw e (chomp-return l.text)
  | inr e ↦ rw e (chomp_of_unbroken l.text unbroken)
]

pem_line-with_return :
    (l : Line)
    → IsPlain l
    → pem_line (with_return l) ≡ (if starts_with (codes "-----") l.text then [] else l.text)
unfolding pem_line
pem_line-with_return l h =
    rw (pem_line, chomp-with_return l h, trim_of_trimmed l.text h.0, is_empty_plain l.text h.0.0)
      refl

abbrev HasNoFeed : Text → Type 0
HasNoFeed s = All (λ ch. ch ≢ 10) s

return-HasNoFeed : (s : Text) → All (λ ch. (ch ≢ 10) × (ch ≢ 13)) s → HasNoFeed (s ++ (13 ∷ []))
return-HasNoFeed [] h = (λ e. omega (arith, e), tt)
return-HasNoFeed (a ∷ s) (h, hs) = (h.0, return-HasNoFeed s hs)

unbroken-HasNoFeed : (s : Text) → All (λ ch. (ch ≢ 10) × (ch ≢ 13)) s → HasNoFeed s
unbroken-HasNoFeed [] h = tt
unbroken-HasNoFeed (a ∷ s) (h, hs) = (h.0, unbroken-HasNoFeed s hs)

with_return-HasNoFeed : (l : Line) → IsPlain l → HasNoFeed (with_return l)
with_return-HasNoFeed l (h, unbroken) = elim (Bool-cases l.has_return) [
  | inl e ↦ rw e (return-HasNoFeed l.text unbroken)
  | inr e ↦ rw e (unbroken-HasNoFeed l.text unbroken)
]

split-feed : (s rest : Text) → HasNoFeed s → split 10 (s ++ (10 ∷ rest)) ≡ s ∷ split 10 rest
unfolding split
split-feed [] rest h = refl
split-feed (a ∷ s) rest (h, hs) = rw (split-feed s rest hs) (ground arith)

-- The pieces of a document: its lines, and the empty text after the last line feed.
abbrev pieces : List Line → List Text
pieces [] = [] ∷ []
pieces (l ∷ ls) = with_return l ∷ pieces ls

split-document : (ls : List Line) → All IsPlain ls → split 10 (document ls) ≡ pieces ls
unfolding split
split-document [] h = refl
split-document (l ∷ ls) (h, hs) =
    split-feed (with_return l) (document ls) (with_return-HasNoFeed l h)
    ∙ ap (◌∷◌ (with_return l)) (split-document ls hs)

drop_last_empty-pieces : (ls : List Line) → drop_last_empty (pieces ls) ≡ map with_return ls
drop_last_empty-pieces [] = refl
drop_last_empty-pieces (l ∷ []) = refl
drop_last_empty-pieces (l ∷ m ∷ ls) = ap (◌∷◌ (with_return l)) (drop_last_empty-pieces (m ∷ ls))

join_lines-document :
    (ls : List Line) → All IsPlain ls → join_lines (map with_return ls) ≡ body_of ls
join_lines-document [] h = refl
join_lines-document (l ∷ ls) (h, hs) = rw (pem_line-with_return l h, join_lines-document ls hs) refl

-- Of a document whose lines have no white space at their ends, each ended by a line feed or by a
-- carriage return and a line feed, `pem_body` is the concatenation of the lines that do not start with
-- five dashes: an encoding that is split over lines between armour lines is read back whole.
pub pem_body-document : (ls : List Line) → All IsPlain ls → pem_body (document ls) ≡ body_of ls
unfolding pem_body
pem_body-document ls h =
    ap (λ ts. join_lines (drop_last_empty ts)) (split-document ls h)
    ∙ ap join_lines (drop_last_empty-pieces ls)
    ∙ join_lines-document ls h
