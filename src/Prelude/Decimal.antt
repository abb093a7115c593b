-- ===== src/Prelude/Decimal.antt =====
-- `to_string` and `parse::<u32>` of the standard library, for the numbers in messages and hashes.
use Prim.Native.Nat.{ℕ, zero, suc, ◌+◌, ◌-◌, ◌*◌, ◌/◌, ◌%◌, ◌^◌}
use Prim.Native.String
use Prim.Native.String.{String}
use mathlib.Core.Bool.{◌&&◌}
use mathlib.Core.List.{[], ◌∷◌}
use mathlib.Core.Option.{Option, none, some}
use armature_auth.Prelude.Tests.{ltb, leb, if◌then◌else◌, ◌==◌}
use armature_auth.Prelude.Strings.{Text}

abbrev digit : ℕ → String
digit zero = "0"
digit (suc zero) = "1"
digit (suc (suc zero)) = "2"
digit (suc (suc (suc zero))) = "3"
digit (suc (suc (suc (suc zero)))) = "4"
digit (suc (suc (suc (suc (suc zero))))) = "5"
digit (suc (suc (suc (suc (suc (suc zero)))))) = "6"
digit (suc (suc (suc (suc (suc (suc (suc zero))))))) = "7"
digit (suc (suc (suc (suc (suc (suc (suc (suc zero)))))))) = "8"
digit (suc (suc (suc (suc (suc (suc (suc (suc (suc n))))))))) = "9"

decimal_from : ℕ → ℕ → String → String
decimal_from zero n out = out
decimal_from (suc f) n out =
    let longer = decimal_from f (n / 10) (String.◌++◌ (digit (n % 10)) out) in
    if ltb n 10 then String.◌++◌ (digit n) out else longer

-- `usize` and `u32` have at most twenty digits.
unfoldable pub decimal : ℕ → String
unfolding decimal_from
decimal n = decimal_from 20 n ""

-- The digits of a number, most significant first; `none` on another character or past `u32::MAX`.
parse_digits : ℕ → Text → Option ℕ
parse_digits acc [] = some acc
parse_digits acc (c ∷ s) =
    let next = acc * 10 + (c - b'0') in
    let rest = parse_digits next s in
    if leb b'0' c && leb c b'9' && ltb next (2 ^ 32) then rest else none

parse_unsigned : Text → Option ℕ
unfolding parse_digits
parse_unsigned [] = none
parse_unsigned (c ∷ s) = parse_digits 0 (c ∷ s)

-- A leading plus sign is accepted.
unfoldable pub parse_u32 : Text → Option ℕ
unfolding parse_unsigned
parse_u32 [] = none
parse_u32 (c ∷ s) = if c == b'+' then parse_unsigned s else parse_unsigned (c ∷ s)
