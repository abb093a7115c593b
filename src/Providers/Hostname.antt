-- ===== src/Providers/Hostname.antt =====
-- `validate_hostname` of src/providers/mod.rs. A byte of a character outside ASCII is at least 0x80, so
-- a test for ASCII bytes is the same test on code points.
use armature_auth.Prelude.{
  String, Text, codes, ℕ, ◌+◌, Bool, false, not, ◌&&◌, ◌||◌, ltb, leb, ◌==◌, [], ◌∷◌, ok, err,
  if◌then◌else◌, all, is_empty,
}
use armature_auth.Error.{AuthResult, concat, configuration}
use armature_auth.Password.{split}

-- `str::len`: the bytes of a text in UTF-8.
abbrev pub utf8_width : ℕ → ℕ
utf8_width ch =
    if ltb ch 0x80 then 1 else if ltb ch 0x800 then 2 else if ltb ch 0x10000 then 3 else 4

abbrev pub byte_len : Text → ℕ
byte_len [] = 0
byte_len (ch ∷ s) = utf8_width ch + byte_len s

abbrev pub is_ascii_digit : ℕ → Bool
is_ascii_digit ch = leb b'0' ch && leb ch b'9'

abbrev pub is_ascii_lowercase : ℕ → Bool
is_ascii_lowercase ch = leb b'a' ch && leb ch b'z'

abbrev pub is_ascii_alphanumeric : ℕ → Bool
is_ascii_alphanumeric ch =
    is_ascii_lowercase ch || (leb b'A' ch && leb ch b'Z') || is_ascii_digit ch

abbrev pub starts_with_dash : Text → Bool
starts_with_dash [] = false
starts_with_dash (ch ∷ s) = ch == b'-'

abbrev pub ends_with_dash : Text → Bool
ends_with_dash [] = false
ends_with_dash (ch ∷ []) = ch == b'-'
ends_with_dash (ch ∷ next ∷ s) = ends_with_dash (next ∷ s)

abbrev pub is_label_byte : ℕ → Bool
is_label_byte ch = is_ascii_alphanumeric ch || ch == b'-'

unfoldable pub is_label : Text → Bool
is_label label =
    not (is_empty label)
    && leb (byte_len label) 63
    && not (starts_with_dash label)
    && not (ends_with_dash label)
    && all is_label_byte label

-- `format!("https://{}..", domain)`.
abbrev pub on_domain : String → String → String
on_domain domain path = concat "https://" (concat domain path)

-- `debug` is `{:?}` of a text.
module _ (J : Type 0) (debug : String → String) where
  unfoldable pub validate_hostname : String → String → AuthResult J (Unit {0})
  unfolding is_label
  validate_hostname kind host =
      let labels_ok = all is_label (split b'.' (codes host)) in
      if is_empty (codes host) || ltb 253 (byte_len (codes host)) || not labels_ok
      then err (
          configuration (
            concat kind (
              concat " must be a bare hostname such as `example.com` (got "
                (concat (debug host) ")"))))
      else ok tt
