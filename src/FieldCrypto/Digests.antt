-- ===== src/FieldCrypto/Digests.antt =====
-- internal/infrastructure/fieldcrypto/stateless_helpers.go: the checks on texts.
use Prim.Native.Char.{code}
use Prim.Native.String.{[], ◌∷◌, len}
use bff_api_go_collection_ac.Base.{
  ℕ, zero, suc, String, Bool, true, false, ◌&&◌, ◌||◌, ◌==◌, List, Option, none, some, leb, eqb,
  ltb, if◌then◌else◌,
}
use bff_api_go_collection_ac.Base.Results.{Result, ok, err}
use bff_api_go_collection_ac.Base.Texts.{trim_space, to_lower}
use bff_api_go_collection_ac.FieldCrypto.Errors.{FieldCryptoError, session_invalid}
use bff_api_go_collection_ac.FieldCrypto.Envelope.{Base64, has_prefix}

abbrev pub member_of : String → List String → Bool
member_of s List.[] = false
member_of s (List.◌∷◌ t ts) = if t == s then true else member_of s ts

-- forbiddenDigests, and forbiddenSelectors of tenant_authority.go, which has the same texts.
abbrev pub forbidden : List String
forbidden = List.◌∷◌ "" (
    List.◌∷◌ "default" (
      List.◌∷◌ "all" (
        List.◌∷◌ "*" (
          List.◌∷◌ "null"
            (List.◌∷◌ "none" (List.◌∷◌ "undefined" (List.◌∷◌ "anonymous" List.[])))))))

unfoldable pub assert_tenant_digest_explicit : String → Result FieldCryptoError String
assert_tenant_digest_explicit tenant_digest =
    let digest = trim_space tenant_digest in
    if member_of (to_lower digest) forbidden || ltb (len digest) 16
    then err session_invalid
    else ok digest

abbrev is_hex_digit : ℕ → Bool
is_hex_digit c = leb b'0' c && leb c b'9' || leb b'a' c && leb c b'f'

unfoldable pub is_hex : String → Bool
is_hex [] = true
is_hex (c ∷ s) = if is_hex_digit (code c) then is_hex s else false

-- token[7:], behind seven characters of one byte.
abbrev pub drop_chars : ℕ → String → String
drop_chars zero s = s
drop_chars (suc n) [] = []
drop_chars (suc n) (c ∷ s) = drop_chars n s

-- The bearer token of a header.
unfoldable pub bearer_token : String → String
unfolding has_prefix
bearer_token authorization =
    let token = trim_space authorization in
    if has_prefix (to_lower token) "bearer " then trim_space (drop_chars 7 token) else token

-- HashAccessToken, with SHA-256 in hex as a parameter.
unfoldable pub hash_access_token : (String → String) → String → Result FieldCryptoError String
unfolding bearer_token
hash_access_token sha256_hex authorization =
    let token = bearer_token authorization in
    if token == "" then err session_invalid else ok (sha256_hex token)

abbrev is_url_char : ℕ → Bool
is_url_char c =
    leb b'A' c && leb c b'Z'
    || leb b'a' c && leb c b'z'
    || leb b'0' c && leb c b'9'
    || eqb c b'_'
    || eqb c b'-'

-- Every character is one of the pattern, so no space and no '='.
abbrev pub is_url_text : String → Bool
is_url_text [] = true
is_url_text (c ∷ s) = if is_url_char (code c) then is_url_text s else false

module _ {Byte : Type 0} (b64 : Base64 Byte) where
  abbrev pub if_canonical : String → Option (List Byte) → Result FieldCryptoError (List Byte)
  if_canonical text none = err session_invalid
  if_canonical text (some raw) = if b64.encode raw == text then ok raw else err session_invalid

  -- canonicalB64URLDecode
  unfoldable pub canonical_b64_url_decode : String → Result FieldCryptoError (List Byte)
  canonical_b64_url_decode text =
      if text == ""
      then err session_invalid
      else if is_url_text text
      then if_canonical text (b64.decode text)
      else err session_invalid
