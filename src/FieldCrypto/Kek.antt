-- ===== src/FieldCrypto/Kek.antt =====
-- internal/infrastructure/fieldcrypto/kek_ring.go, and the check of secrets of
-- stateless_helpers.go. The environment is a function; a variable that is not set is the empty
-- text. A plain error is its message. Of a byte the code asks whether it is zero.
pub mod Strong
use Prim.Native.Char.{code}
use Prim.Native.String
use Prim.Native.String.{String, [], ◌∷◌, len}
use mathlib.Core.List
use bff_api_go_collection_ac.Base.{
  Bool, true, false, not, ◌&&◌, ◌||◌, ◌==◌, List, Option, none, some, length, eqb, ltb, is_some,
  if◌then◌else◌,
}
use bff_api_go_collection_ac.Base.Maps.{Map, find, store}
use bff_api_go_collection_ac.Base.Results.{Result, ok, err, guard, ◌>>=◌, ◌>>◌}
use bff_api_go_collection_ac.Base.Texts.{trim_space, to_lower}
use bff_api_go_collection_ac.FieldCrypto.Errors.{FieldCryptoError}
use bff_api_go_collection_ac.FieldCrypto.Envelope.{Base64, has_prefix}
use bff_api_go_collection_ac.FieldCrypto.Digests.{member_of, canonical_b64_url_decode}
use bff_api_go_collection_ac.FieldCrypto.Stateless.{KekRing}

-- strings.Contains
unfoldable pub contains_text : String → String → Bool
unfolding has_prefix
contains_text [] marker = has_prefix [] marker
contains_text (c ∷ s) marker =
    let rest = contains_text s marker in if has_prefix (c ∷ s) marker then true else rest

abbrev pub forbidden_secret_markers : List String
forbidden_secret_markers = List.◌∷◌ "bootstrap-crypto" (
    List.◌∷◌ "bootstrap-v1" (
      List.◌∷◌ "pending_rotation" (
        List.◌∷◌ "replace_via_approved"
          (List.◌∷◌ "aaaaaaaaaaaaaaaaaaaaaaaaaaaaaaaaaaaaaaaaaaa" List.[]))))

unfoldable pub has_marker : String → List String → Bool
unfolding contains_text
has_marker s List.[] = false
has_marker s (List.◌∷◌ m ms) = if contains_text s m then true else has_marker s ms

-- AssertSigningOrDigestSecretNotWeak
unfoldable pub assert_signing_or_digest_secret_not_weak : String → String → Result String String
assert_signing_or_digest_secret_not_weak name value = do
  let raw = trim_space value
  guard (not (raw == "")) (String.◌++◌ name " is required when CRYPTO_SESSION_MODE=stateless")
  guard (not (ltb (len raw) 32)) (String.◌++◌ name " must be at least 32 bytes")
  guard (not (has_marker (to_lower raw) forbidden_secret_markers))
      (String.◌++◌ name " looks like a non-usable bootstrap placeholder")
  ok raw

abbrev pub forbidden_kek_kids : List String
forbidden_kek_kids = List.◌∷◌ "" (
    List.◌∷◌ "pending"
      (List.◌∷◌ "bootstrap" (List.◌∷◌ "bootstrap-v1" (List.◌∷◌ "bootstrap-v0" List.[]))))

abbrev pub all_zero_kek_b64 : String
all_zero_kek_b64 = "AAAAAAAAAAAAAAAAAAAAAAAAAAAAAAAAAAAAAAAAAAA"

abbrev pub not_canonical : String
not_canonical = "CRYPTO_SESSION_KEK materials must be canonical base64url"

unfoldable pub all_zero : {Byte : Type 0} → (Byte → Bool) → List Byte → Bool
all_zero is_zero List.[] = true
all_zero is_zero (List.◌∷◌ b bs) = if is_zero b then all_zero is_zero bs else false

unfoldable pub is_bootstrap_kid : String → Bool
is_bootstrap_kid kid =
    let normalized = to_lower (trim_space kid) in
    member_of normalized forbidden_kek_kids || has_prefix normalized "bootstrap"

-- Every key has 32 bytes.
unfoldable pub all_kek_length : {Byte : Type 0} → Map (List Byte) → Bool
all_kek_length List.[] = true
all_kek_length (List.◌∷◌ (kid, key) m) = if eqb (length key) 32 then all_kek_length m else false

module _ {Byte : Type 0} (is_zero : Byte → Bool) (b64 : Base64 Byte) where
  -- assertSessionMaterialNotWeak
  unfoldable pub assert_session_material_not_weak :
      (kid : String) (key : List Byte) (key_b64 : String) → Result String (Unit {0})
  assert_session_material_not_weak kid key key_b64 = do
    guard (not (is_bootstrap_kid kid))
        "CRYPTO_SESSION_KEK kid is missing or non-usable bootstrap marker"
    guard (eqb (length key) 32) "CRYPTO_SESSION_KEK materials must decode to 32 bytes"
    guard (not (all_zero is_zero key || trim_space key_b64 == all_zero_kek_b64))
        "CRYPTO_SESSION_KEK must not be all-zero"
    guard (not (has_marker (to_lower (trim_space key_b64)) forbidden_secret_markers))
        "CRYPTO_SESSION_KEK material looks like a non-usable placeholder"

  -- NewKekRing. A key that is there is not nil, as every key comes from a decoder that gives some
  -- bytes. (The error names the first bad key id.)
  unfoldable pub new_kek_ring : Map (List Byte) → String → Result String (KekRing Byte)
  new_kek_ring keys active_kid = do
    guard (not (active_kid == "") && is_some (find active_kid keys))
        "CRYPTO_SESSION_KEK active kid missing from ring"
    guard (all_kek_length keys) "CRYPTO_SESSION_KEK kid length invalid"
    ok (record { keys = keys; active = active_kid })

  abbrev or_not_canonical : Result FieldCryptoError (List Byte) → Result String (List Byte)
  or_not_canonical (ok key) = ok key
  or_not_canonical (err e) = err not_canonical

  -- A key of the environment that is not weak.
  unfoldable pub material : (kid key_b64 : String) → Result String (List Byte)
  material kid key_b64 = do
    key ← or_not_canonical (canonical_b64_url_decode b64 key_b64)
    assert_session_material_not_weak kid key key_b64
    ok key

  abbrev pub with_previous :
      Map (List Byte) → (kid key_b64 : String) → Result String (Map (List Byte))
  with_previous keys kid key_b64 = if kid == "" && key_b64 == "" then ok keys else do
    guard (not (kid == "") && not (key_b64 == ""))
        "CRYPTO_SESSION_KEK_PREVIOUS_KID and CRYPTO_SESSION_KEK_PREVIOUS_B64 must both be set when using previous KEK grace"
    key ← material kid key_b64
    ok (store kid key keys)

  -- KekRingFromEnv
  unfoldable pub kek_ring_from_env : (String → String) → Result String (KekRing Byte)
  kek_ring_from_env env = do
    let active_kid = trim_space (env "CRYPTO_SESSION_KEK_ACTIVE_KID")
    let active_b64 = trim_space (env "CRYPTO_SESSION_KEK_ACTIVE_B64")
    guard (not (active_kid == "") && not (active_b64 == ""))
        "CRYPTO_SESSION_KEK_ACTIVE_KID and CRYPTO_SESSION_KEK_ACTIVE_B64 are required when CRYPTO_SESSION_MODE=stateless"
    active_key ← material active_kid active_b64
    keys ←
        with_previous (List.◌∷◌ (active_kid, active_key) List.[])
          (trim_space (env "CRYPTO_SESSION_KEK_PREVIOUS_KID"))
          (trim_space (env "CRYPTO_SESSION_KEK_PREVIOUS_B64"))
    new_kek_ring keys active_kid
