-- ===== src/Tests/Keys.antt =====
-- The keys of an identity provider at a concrete document; a byte is written as a character.
use bff_api_go_collection_ac.Base.{
  ℕ, String, ◌≡◌, refl, List, [], ◌∷◌, Option, none, some, ◌==◌, if◌then◌else◌,
}
use bff_api_go_collection_ac.Base.Ints.{pos, wrap, ◌+ℤ◌, ◌*ℤ◌}
use bff_api_go_collection_ac.Base.Maps.{find, store}
use bff_api_go_collection_ac.Auth.Jwks.{
  JwkKey, PublicKey, JwksCache, keys_onto, exponent_onto, set_bytes, key,
}
use bff_api_go_collection_ac.Auth.Jwks.Rotated.{key-rotated, key-stale}

abbrev decode_string : String → Option (List ℕ)
decode_string s = if s == "AQAB" then some (1 ∷ 0 ∷ 1 ∷ []) else some (12 ∷ 7 ∷ [])

abbrev jwk : (kid kty : String) → JwkKey
jwk kid kty = record { kid = kid; kty = kty; n = "DAc"; e = "AQAB" }

abbrev document : List JwkKey
document = jwk "a" "EC" ∷ jwk "b" "RSA" ∷ []

abbrev public_key : PublicKey
public_key = record { modulus = 3079; exponent = pos 65537 }

document_has : find "b" (keys_onto decode_string [] document) ≡ some public_key
unfolding find keys_onto store exponent_onto set_bytes wrap ◌+ℤ◌ ◌*ℤ◌
document_has = refl

abbrev old_cache : JwksCache
old_cache = record {
  url = "https://idp.test/keys";
  keys = ("o", public_key) ∷ [];
  fetched_at = some 5;
}

old_unknown : find "b" old_cache.keys ≡ none
unfolding find
old_unknown = refl

old_known : find "o" old_cache.keys ≡ some public_key
unfolding find
old_known = refl

key-rotated_example : key decode_string old_cache "b" 9 (some document) (some document) ≡ (
  record old_cache { keys = keys_onto decode_string [] document; fetched_at = some 9 },
  some public_key,
)
key-rotated_example =
    key-rotated decode_string old_cache "b" 9 document public_key refl old_unknown document_has

key-stale_example :
    key decode_string old_cache "o" 9000000000000 none none ≡ (old_cache, some public_key)
key-stale_example = key-stale decode_string old_cache "o" 9000000000000 public_key refl old_known
