-- ===== src/TwoFactor/Writings.antt =====
-- src/two_factor.rs: the writings of a backup code that differ in their hyphens, and lists of hashes.
use armature_auth.Prelude.{
  String, Text, codes, subst, ℕ, ◌+◌, ◌≡◌, ◌≢◌, refl, sym, ap, ◌∙◌, inl, inr, List, [], ◌∷◌, map,
  All, Any, Has, if◌then◌else◌, ◌==◌, str_eq, eq_iff, eq_refl, arith, to_ascii_lowercase,
}
use armature_auth.Crypto.{Crypto}
use armature_auth.TwoFactor.{groups, hash_code, is_significant, keep}

-- How often a hash stands in the list.
abbrev pub count : String → List String → ℕ
count h [] = 0
count h (x ∷ xs) = (if str_eq x h then 1 else 0) + count h xs

-- No two entries of the list are equal.
abbrev pub IsDistinct : List String → Type 0
IsDistinct [] = Unit
IsDistinct (x ∷ xs) = All (λ y. y ≢ x) xs × IsDistinct xs

count-All : (h : String) (hs : List String) → All (λ y. y ≢ h) hs → count h hs ≡ 0
count-All h [] d = refl
count-All h (x ∷ xs) d = ground (arith, eq_iff x h, count-All h xs d.1)

All-Has : (x h : String) (hs : List String) → All (λ y. y ≢ x) hs → Has h hs → h ≢ x
All-Has x h [] d here = absurd here
All-Has x h (y ∷ hs) d (inl same) = subst (λ z. z ≢ x) same d.0
All-Has x h (y ∷ hs) d (inr later) = All-Has x h hs d.1 later

pub count-IsDistinct : (h : String) (hs : List String) → IsDistinct hs → Has h hs → count h hs ≡ 1
count-IsDistinct h [] d here = absurd here
count-IsDistinct h (x ∷ xs) d (inl same) =
    let rest = count-All x xs d.0 in rw (← same) (ground (arith, eq_refl x))
count-IsDistinct h (x ∷ xs) d (inr later) =
    let other = All-Has x h xs d.0 later in
    let rest = count-IsDistinct h xs d.1 later in ground (arith, eq_iff x h)

-- What is left of a text without its hyphens.
abbrev pub without_hyphens : Text → Text
without_hyphens [] = []
without_hyphens (ch ∷ s) = if ch == b'-' then without_hyphens s else ch ∷ without_hyphens s

-- A text that differs from `shown` at most in its hyphens.
abbrev pub IsWriting : Text → Text → Type 0
IsWriting shown text = without_hyphens text ≡ without_hyphens shown

keep-without_hyphens : (s : Text) → keep is_significant (without_hyphens s) ≡ keep is_significant s
keep-without_hyphens [] = refl
keep-without_hyphens (ch ∷ s) = ground (arith, keep-without_hyphens s)

pub hash_code-IsWriting :
    (c : Crypto) (shown text : Text) → IsWriting shown text → hash_code c text ≡ hash_code c shown
unfolding hash_code
hash_code-IsWriting c shown text h =
    ap (λ r. c.hex_encode (c.sha256 (map to_ascii_lowercase r)))
      (sym (keep-without_hyphens text) ∙ ap (keep is_significant) h ∙ keep-without_hyphens shown)

-- One character in front of a text without hyphens.
abbrev without_one : ℕ → Text → Text
without_one ch s = if ch == b'-' then s else ch ∷ s

groups-IsWriting : (s : Text) → IsWriting s (groups s)
groups-IsWriting [] = refl
groups-IsWriting (a ∷ []) = refl
groups-IsWriting (a ∷ b ∷ []) = refl
groups-IsWriting (a ∷ b ∷ d ∷ []) = refl
groups-IsWriting (a ∷ b ∷ d ∷ e ∷ []) = refl
groups-IsWriting (a ∷ b ∷ d ∷ e ∷ f ∷ rest) =
    ap (λ r. without_one a (without_one b (without_one d (without_one e r))))
      (groups-IsWriting (f ∷ rest))

-- A code that is shown is the encoding of one of the draws, up to its hyphens.
pub shown-IsWriting :
    (c : Crypto) (shown : Text) (draws : List (List ℕ))
    → Any (λ code. code ≡ shown) (map (λ bytes. groups (codes (c.hex_encode bytes))) draws)
    → Any (λ bytes. IsWriting shown (codes (c.hex_encode bytes))) draws
shown-IsWriting c shown [] here = here
shown-IsWriting c shown (bytes ∷ draws) (inl e) =
    inl (sym (groups-IsWriting (codes (c.hex_encode bytes))) ∙ ap without_hyphens e)
shown-IsWriting c shown (bytes ∷ draws) (inr later) = inr (shown-IsWriting c shown draws later)

-- The hash of a code that is shown is stored.
pub Has-hash_code :
    (c : Crypto) (shown : Text) (codes_shown : List Text)
    → Any (λ code. code ≡ shown) codes_shown
    → Has (hash_code c shown) (map (hash_code c) codes_shown)
Has-hash_code c shown [] here = here
Has-hash_code c shown (code ∷ rest) (inl e) = inl (ap (hash_code c) e)
Has-hash_code c shown (code ∷ rest) (inr later) = inr (Has-hash_code c shown rest later)
