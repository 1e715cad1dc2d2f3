-- ===== src/FieldCrypto/Envelope.antt =====
-- internal/infrastructure/fieldcrypto/envelope.go. A byte is an element of a type into which the
-- code does not look.
pub mod Format
use Prim.Native.Char.{code}
use Prim.Native.String.{[], ◌∷◌}
use bff_api_go_collection_ac.Base.{
  ℕ, String, Bool, true, false, not, ◌&&◌, ◌||◌, ◌==◌, List, Option, none, some, length, eqb, ltb,
  if◌then◌else◌,
}
use mathlib.Core.List
use bff_api_go_collection_ac.Base.Results.{Result, ok, err, guard, ◌>>=◌, ◌>>◌}
use bff_api_go_collection_ac.Base.Texts.{split, join}
use bff_api_go_collection_ac.Json.{Json, str}
use bff_api_go_collection_ac.FieldCrypto.Errors.{
  FieldCryptoError, invalid_envelope, unsupported_version,
}

pub record Envelope (Byte : Type 0) : Type 0 where
  pub kid : String
  pub nonce : List Byte
  pub ciphertext : List Byte
  pub tag : List Byte

-- strings.ContainsAny(s, "\n\r")
abbrev pub has_line_break : String → Bool
has_line_break [] = false
has_line_break (c ∷ s) = if eqb (code c) 10 || eqb (code c) 13 then true else has_line_break s

-- base64.RawURLEncoding
pub record Base64 (Byte : Type 0) : Type 0 where
  pub encode : List Byte → String
  pub decode : String → Option (List Byte)

module _ {Byte : Type 0} (b64 : Base64 Byte) where
  abbrev pub decoded : Option (List Byte) → Result FieldCryptoError (List Byte)
  decoded none = err invalid_envelope
  decoded (some raw) = ok raw

  unfoldable pub b64_url_decode : String → Result FieldCryptoError (List Byte)
  b64_url_decode text = if text == "" then err invalid_envelope else decoded (b64.decode text)

  unfoldable pub to_string : Envelope Byte → String
  to_string e = join ":" (
      List.◌∷◌ "enc" (
        List.◌∷◌ "v1" (
          List.◌∷◌ e.kid (
            List.◌∷◌ (b64.encode e.nonce)
              (List.◌∷◌ (b64.encode e.ciphertext) (List.◌∷◌ (b64.encode e.tag) List.[]))))))

  -- What follows the split at the colons.
  unfoldable pub parse_parts : List String → Result FieldCryptoError (Envelope Byte)
  parse_parts
        (List.◌∷◌ prefix
          (List.◌∷◌ version (List.◌∷◌ kid (List.◌∷◌ n (List.◌∷◌ c (List.◌∷◌ t List.[])))))) =
      do
        guard (prefix == "enc") invalid_envelope
        guard (version == "v1") unsupported_version
        guard (not (kid == "")) invalid_envelope
        nonce ← b64_url_decode n
        ciphertext ← b64_url_decode c
        tag ← b64_url_decode t
        guard (eqb (length nonce) 12 && eqb (length tag) 16 && ltb 0 (length ciphertext))
            invalid_envelope
        ok (record { kid = kid; nonce = nonce; ciphertext = ciphertext; tag = tag })
  parse_parts parts = err invalid_envelope

  unfoldable pub parse_envelope : Json → Result FieldCryptoError (Envelope Byte)
  unfolding parse_parts
  parse_envelope (str s) =
      if has_line_break s then err invalid_envelope else parse_parts (split b':' s)
  parse_envelope value = err invalid_envelope

-- strings.HasPrefix
unfoldable pub has_prefix : String → String → Bool
has_prefix s [] = true
has_prefix [] (d ∷ p) = false
has_prefix (c ∷ s) (d ∷ p) = if eqb (code c) (code d) then has_prefix s p else false

unfoldable pub is_envelope : Json → Bool
unfolding has_prefix
is_envelope (str s) = has_prefix s "enc:v1:"
is_envelope value = false
