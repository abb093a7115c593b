-- ===== src/Prelude/Utf8.antt =====
-- `str::from_utf8`: well-formed UTF-8, as the Unicode standard's table of byte sequences has it.
use Prim.Native.Nat.{ℕ, zero, suc, ◌+◌, ◌-◌, ◌*◌, ◌<◌}
use mathlib.Core.Path.{◌≡◌, refl}
use mathlib.Core.Bool.{◌&&◌}
use mathlib.Core.List.{List, [], ◌∷◌}
use mathlib.Core.Option.{Option, none, some}
use native.Mathlib.Omega.{arith}
use armature_auth.Prelude.Tests.{ltb, leb, ◌==◌, if◌then◌else◌}
use armature_auth.Prelude.Lists.{All}
use armature_auth.Prelude.Strings.{Text}

-- What a first byte starts: how many more bytes, the bits so far, and the range of the next byte.
pub record Lead : Type 0 where
  pub more : ℕ
  pub bits : ℕ
  pub lowest : ℕ
  pub highest : ℕ

abbrev pub lead_of : ℕ → ℕ → ℕ → ℕ → Option Lead
lead_of more bits lowest highest =
    some (record { more = more; bits = bits; lowest = lowest; highest = highest })

unfoldable pub lead : ℕ → Option Lead
lead b =
    if ltb b 0x80
    then lead_of 0 b 0x80 0xbf
    else if leb 0xc2 b && leb b 0xdf
    then lead_of 1 (b - 0xc0) 0x80 0xbf
    else if b == 0xe0
    then lead_of 2 0 0xa0 0xbf
    else if b == 0xed
    then lead_of 2 0xd 0x80 0x9f
    else if leb 0xe1 b && leb b 0xef
    then lead_of 2 (b - 0xe0) 0x80 0xbf
    else if b == 0xf0
    then lead_of 3 0 0x90 0xbf
    else if leb 0xf1 b && leb b 0xf3
    then lead_of 3 (b - 0xf0) 0x80 0xbf
    else if b == 0xf4
    then lead_of 3 4 0x80 0x8f
    else none

abbrev emit : ℕ → ℕ → Option Text → Option Text
emit zero ch none = none
emit zero ch (some s) = some (ch ∷ s)
emit (suc n) ch rest = rest

-- The bytes that are still expected, the bits so far and the range of the next byte come first.
unfoldable pub decode : ℕ → ℕ → ℕ → ℕ → List ℕ → Option Text
decode zero bits lowest highest [] = some []
decode (suc more) bits lowest highest [] = none
decode zero bits lowest highest (b ∷ bytes) = elim (lead b) [
  | none ↦ none
  | some l ↦ emit l.more l.bits (decode l.more l.bits l.lowest l.highest bytes)
]
decode (suc more) bits lowest highest (b ∷ bytes) =
    let next = bits * 64 + (b - 0x80) in
    let rest = emit more next (decode more next 0x80 0xbf bytes) in
    if leb lowest b && leb b highest then rest else none

unfoldable pub from_utf8 : List ℕ → Option Text
unfolding decode lead
from_utf8 bytes = decode 0 0 0 0 bytes

-- ASCII bytes are their own code points.
decode_ascii :
    (a l h : ℕ) (bytes : List ℕ) → All (λ b. b < 0x80) bytes → decode 0 a l h bytes ≡ some bytes
unfolding decode lead
decode_ascii a l h [] k = refl
decode_ascii a l h (b ∷ bytes) (k, ks) = ground (arith, decode_ascii b 0x80 0xbf bytes ks)

pub from_utf8_ascii : (bytes : List ℕ) → All (λ b. b < 0x80) bytes → from_utf8 bytes ≡ some bytes
unfolding from_utf8
from_utf8_ascii bytes k = decode_ascii 0 0 0 bytes k

euro : from_utf8 (0xe2 ∷ 0x82 ∷ 0xac ∷ []) ≡ some (0x20ac ∷ [])
unfolding from_utf8
euro = refl

surrogate : from_utf8 (0xed ∷ 0xa0 ∷ 0x80 ∷ []) ≡ none
unfolding from_utf8
surrogate = refl
