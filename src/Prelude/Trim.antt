-- ===== src/Prelude/Trim.antt =====
-- Texts that `str::trim` leaves as they are.
use mathlib.Core.Path.{◌≡◌, refl}
use mathlib.Core.Bool.{false}
use mathlib.Core.List.{[], ◌∷◌, reverse, reverse-reverse}
use armature_auth.Prelude.Strings.{Text, is_whitespace, trim, trim_start}
use armature_auth.Prelude.Lists.{is_empty}

-- Neither end is white space.
abbrev pub StartsPlain : Text → Type 0
StartsPlain [] = ⊥
StartsPlain (ch ∷ s) = is_whitespace ch ≡ false

abbrev pub IsTrimmed : Text → Type 0
IsTrimmed s = StartsPlain s × StartsPlain (reverse s)

trim_start_of_plain : (s : Text) → StartsPlain s → trim_start s ≡ s
unfolding trim_start
trim_start_of_plain [] h = refl
trim_start_of_plain (ch ∷ s) h = rw h

pub trim_of_trimmed : (s : Text) → IsTrimmed s → trim s ≡ s
unfolding trim
trim_of_trimmed s (a, b) =
    rw (trim_start_of_plain s a, trim_start_of_plain (reverse s) b) (reverse-reverse s)

pub is_empty_plain : (s : Text) → StartsPlain s → is_empty s ≡ false
is_empty_plain [] h = absurd h
is_empty_plain (ch ∷ s) h = refl
