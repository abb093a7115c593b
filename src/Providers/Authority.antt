-- ===== src/Providers/Authority.antt =====
-- The authority of a URL (RFC 3986), and the host names that src/providers/mod.rs lets through.
use armature_auth.Prelude.{
  String, Text, codes, ℕ, Bool, true, false, not, ◌&&◌, ◌||◌, ltb, ◌==◌, ◌≡◌, refl, ap, ◌∙◌, inl,
  inr, List, [], ◌∷◌, ◌++◌, Option, none, some, ok, if◌then◌else◌, all, is_empty, strip_prefix,
  arith, Bool-cases,
}
use Prim.Native.Char.{code}
use text.Mathlib.TextLemmas.{nil-append, cons-append}
use armature_auth.Error.{concat}
use armature_auth.Password.{glue, split}
use armature_auth.Providers.Hostname.{byte_len, is_label, is_label_byte, validate_hostname}

pub codes-concat : (s t : String) → codes (concat s t) ≡ codes s ++ codes t
codes-concat String.[] t = ap codes (nil-append t)
codes-concat (String.◌∷◌ ch s) t =
    ap codes (cons-append ch s t) ∙ ap (◌∷◌ (code ch)) (codes-concat s t)

-- What ends an authority: a slash, a question mark, a number sign or a backslash.
abbrev pub ends_authority : ℕ → Bool
ends_authority ch = ch == b'/' || ch == b'?' || ch == b'#' || ch == 0x5c

abbrev pub up_to_end : Text → Text
up_to_end [] = []
up_to_end (ch ∷ s) = let rest = up_to_end s in if ends_authority ch then [] else ch ∷ rest

-- The authority of an `https` URL: the user information, the host and the port.
abbrev pub authority_of : Text → Option Text
authority_of url = elim (strip_prefix (codes "https://") url) [
  | none ↦ none
  | some rest ↦ some (up_to_end rest)
]

-- The characters of a host name, without `@` and `:`, so that an authority of such characters has
-- neither user information nor a port.
abbrev pub is_host_char : ℕ → Bool
is_host_char ch = is_label_byte ch || ch == b'.'

not_end : (ch : ℕ) → is_host_char ch ≡ true → ends_authority ch ≡ false
not_end ch h = ground arith

pub up_to_end-host :
    (host rest : Text) → all is_host_char host ≡ true → up_to_end (host ++ (b'/' ∷ rest)) ≡ host
up_to_end-host [] rest h = refl
up_to_end-host (ch ∷ host) rest h = elim (Bool-cases (is_host_char ch)) [
  | inl e ↦ rw (not_end ch e) (ap (◌∷◌ ch) (up_to_end-host host rest (rw e at h)))
  | inr e ↦ (let stop = rw e at h in cc)
]

-- The authority of a text `https://` with a host and a slash after it.
pub authority_of-text :
    (url host rest : Text)
    → url ≡ codes "https://" ++ (host ++ (b'/' ∷ rest))
    → all is_host_char host ≡ true
    → authority_of url ≡ some host
unfolding strip_prefix
authority_of-text url host rest e h = ap authority_of e ∙ ap some (up_to_end-host host rest h)

-- The authority of `https://{host}{path}`, where the path starts with a slash.
pub authority_of-https :
    (host path : String) (rest : Text)
    → codes path ≡ b'/' ∷ rest
    → all is_host_char (codes host) ≡ true
    → authority_of (codes (concat "https://" (concat host path))) ≡ some (codes host)
authority_of-https host path rest e h =
    authority_of-text (codes (concat "https://" (concat host path))) (codes host) rest
      (rw (codes-concat "https://" (concat host path), codes-concat host path, e) refl) h

abbrev has_label_bytes : Text → Bool
has_label_bytes label = all is_label_byte label

all_label_bytes :
    (labels : List Text) → all is_label labels ≡ true → all has_label_bytes labels ≡ true
unfolding is_label
all_label_bytes [] h = refl
all_label_bytes (label ∷ labels) h = ground (arith, all_label_bytes labels)

glue_bytes :
    (ch : ℕ) (labels : List Text)
    → all has_label_bytes (glue ch labels) ≡ (is_label_byte ch && all has_label_bytes labels)
glue_bytes ch [] = ground arith
glue_bytes ch (label ∷ labels) = ground arith

split_bytes : (s : Text) → all has_label_bytes (split b'.' s) ≡ true → all is_host_char s ≡ true
unfolding split
split_bytes [] h = refl
split_bytes (ch ∷ s) h = ground (arith, glue_bytes ch (split b'.' s), split_bytes s)

-- A name that passes has host characters only.
pub validate_hostname-eq-ok :
    (J : Type 0) (debug : String → String) (kind host : String)
    → validate_hostname J debug kind host ≡ ok tt
    → all is_host_char (codes host) ≡ true
unfolding validate_hostname
validate_hostname-eq-ok J debug kind host h =
    elim (Bool-cases (all is_label (split b'.' (codes host)))) [
      | inl e ↦ split_bytes (codes host) (all_label_bytes (split b'.' (codes host)) e)
      | inr e ↦
          elim (Bool-cases (
            is_empty (codes host)
            || ltb 253 (byte_len (codes host))
            || not (all is_label (split b'.' (codes host))))) [
              | inl f ↦ (let stop = rw (validate_hostname, f) at h in cc)
              | inr f ↦ (let stop = f in ground (arith))
            ]
    ]
