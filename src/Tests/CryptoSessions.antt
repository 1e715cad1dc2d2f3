-- ===== src/Tests/CryptoSessions.antt =====
-- The sessions of the field encryption at concrete inputs: a token is its claims, and every bearer
-- token has the same hash.
use Prim.Native.Nat.{◌<◌}
use bff_api_go_collection_ac.Base.{
  String, ◌≡◌, ◌≢◌, refl, ◌∙◌, true, false, Bool, List, Option, none, some, length, ◌==◌,
  if◌then◌else◌, arith,
}
use bff_api_go_collection_ac.Base.Ints.{pos, wrap, ◌+ℤ◌}
use bff_api_go_collection_ac.Base.Maps.{find}
use bff_api_go_collection_ac.Base.Results.{Result, ok}
use bff_api_go_collection_ac.Base.Texts.{
  trim_space, trim_left, trim_right, is_space, to_lower, lower_char,
}
use bff_api_go_collection_ac.Json.{Fields}
use bff_api_go_collection_ac.FieldCrypto.Errors.{FieldCryptoError}
use bff_api_go_collection_ac.FieldCrypto.Envelope.{has_prefix}
use bff_api_go_collection_ac.FieldCrypto.Digests.{
  is_hex, is_url_text, hash_access_token, assert_tenant_digest_explicit, canonical_b64_url_decode,
  bearer_token,
}
use bff_api_go_collection_ac.FieldCrypto.Stateless.{
  Externals, Exchange, Manager, HandshakeResult, new_stateless_crypto_session_manager, handshake,
  resolve, session_claims, key_for,
}
use bff_api_go_collection_ac.FieldCrypto.Stateless.Lifetime.{IsSound}
use bff_api_go_collection_ac.FieldCrypto.Stateless.Resolved.{
  Succeeds, Lifetime, resolve-handshake, resolve_bound,
}
use bff_api_go_collection_ac.FieldCrypto.Kek.{
  all_zero, kek_ring_from_env, is_bootstrap_kid, assert_session_material_not_weak, material,
  new_kek_ring, all_kek_length, has_marker, contains_text,
}
use bff_api_go_collection_ac.FieldCrypto.Kek.Strong.{AreUsable, kek_ring_from_env-AreUsable}
use bff_api_go_collection_ac.Tests.FieldCrypto.{bits_text, bits_base64, bits_of-bits_text, twelve}

abbrev eight : List Bool → List Bool
eight bs = List.◌∷◌ true (
    List.◌∷◌ true (
      List.◌∷◌ true
        (List.◌∷◌ true (List.◌∷◌ true (List.◌∷◌ true (List.◌∷◌ true (List.◌∷◌ true bs)))))))

abbrev pub thirty_two : List Bool
thirty_two = eight (eight (eight (eight List.[])))

abbrev agreed : Exchange Bool
agreed = record { server_public_key = twelve; salt = twelve; session_key = thirty_two }

abbrev hash : String
hash = "aaaaaaaaaaaaaaaabbbbbbbbbbbbbbbbccccccccccccccccdddddddddddddddd"

abbrev behind_first : List Bool → Option (List Bool)
behind_first List.[] = none
behind_first (List.◌∷◌ b bs) = some bs

abbrev pub packages : Externals Bool Fields
packages = record {
  b64 = bits_base64;
  sign = λ secret claims. claims;
  parse = λ o now claims. some claims;
  seal = λ key nonce plain ad. some (List.◌∷◌ true plain);
  open_sealed = λ key nonce sealed ad. behind_first sealed;
  sha256_hex = λ token. hash;
  bytes = λ s. List.[];
  exchange = λ client. ok agreed;
}

is_url_text-bits_text : (bs : List Bool) → is_url_text (bits_text bs) ≡ true
is_url_text-bits_text List.[] = refl
is_url_text-bits_text (List.◌∷◌ true bs) = is_url_text-bits_text bs
is_url_text-bits_text (List.◌∷◌ false bs) = is_url_text-bits_text bs

filled : (bs : List Bool) → 0 < length bs → bits_text bs ≢ ""
filled List.[] h e = absurd (omega arith)
filled (List.◌∷◌ b bs) h e = cc

some_inj : {A : Type 0} {a b : A} → some a ≡ some b → b ≡ a
some_inj h = cc

ok_inj :
    {a b : Exchange Bool} (r : Result FieldCryptoError (Exchange Bool))
    → r ≡ ok a
    → r ≡ ok b
    → b ≡ a
ok_inj r h k = cc

opened :
    (plain : List Bool) {sealed : List Bool}
    → some (List.◌∷◌ true plain) ≡ some sealed
    → (behind_first sealed ≡ some plain) × (0 < length sealed)
opened plain h = rw (some_inj h) (refl, omega arith)

long :
    (client : List Bool) {a : Exchange Bool}
    → packages.exchange client ≡ ok a
    → length a.session_key ≡ 32
long client {a} h = rw (ok_inj {a = agreed} {b = a} (packages.exchange client) refl h)

packages-IsSound : IsSound packages
packages-IsSound = record {
  parse_sign = λ o claims now expires_at a i n e k. refl;
  parse_signed = λ o secret claims now h. some_inj h;
  url_text = is_url_text-bits_text;
  filled = filled;
  back = bits_of-bits_text;
  open_seal = λ key nonce plain ad h. opened plain h;
  key_length = λ client h. long client h;
}

abbrev first_kek : Manager Bool
first_kek =
    new_stateless_crypto_session_manager
      (record { keys = List.◌∷◌ ("k1", thirty_two) List.[]; active = "k1" }) "s3cr3t" "bff" ""
      (pos 120)

-- Another key has become the active one.
abbrev second_kek : Manager Bool
second_kek =
    new_stateless_crypto_session_manager
      (record {
        keys =
            List.◌∷◌ ("k2", eight (eight (eight (eight List.[]))))
              (List.◌∷◌ ("k1", thirty_two) List.[]);
        active = "k2";
      })
      "s3cr3t" "bff" "" (pos 300)

abbrev sid : String
sid = "s1"

abbrev digest : String
digest = "tenant-0123456789"

abbrev session : HandshakeResult Fields
session = record {
  server_public_key = bits_text twelve;
  salt = bits_text twelve;
  crypto_session_id = "s1";
  crypto_access_token =
      session_claims packages first_kek "ana" "activities" digest hash "s1" 1000 twelve
        (List.◌∷◌ true thirty_two);
  expires_in = pos 120;
}

session_opened :
    handshake packages first_kek "1011" "ana" "activities" digest hash "s1" (some twelve) 1000
    ≡ ok session
unfolding handshake assert_tenant_digest_explicit trim_space trim_left trim_right is_space to_lower
    lower_char is_hex canonical_b64_url_decode key_for find new_stateless_crypto_session_manager
session_opened = refl

lifetime : Lifetime first_kek 1000 1100 1120
unfolding new_stateless_crypto_session_manager wrap ◌+ℤ◌
lifetime = record {
  ends = refl;
  starts = omega arith;
  short = omega arith;
  fits = omega arith;
  after_start = omega arith;
  early = omega arith;
}

succeeds : Succeeds packages first_kek second_kek
unfolding new_stateless_crypto_session_manager trim_space trim_left trim_right is_space key_for find
succeeds = record {
  same_secret = refl;
  same_issuer = refl;
  same_namespace = refl;
  trimmed = refl;
  key_kept = refl;
}

bearer : hash_access_token packages.sha256_hex "Bearer tok" ≡ ok (to_lower (trim_space hash))
unfolding hash_access_token bearer_token has_prefix trim_space trim_left trim_right is_space
    to_lower lower_char
bearer = refl

resolve-handshake_example :
    (client : List Bool) × (a : Exchange Bool) × (canonical_b64_url_decode packages.b64 "1011"
      ≡ ok client)
    × (packages.exchange client ≡ ok a)
    × (resolve packages second_kek session.crypto_access_token "s1" digest "Bearer tok"
          second_kek.namespace 1100
        ≡ ok (record { session_id = "s1"; session_key = a.session_key }))
resolve-handshake_example =
    resolve-handshake packages packages-IsSound first_kek second_kek "1011" "ana" "activities"
      digest hash "s1" twelve 1000 session session_opened refl 1100 1120 "Bearer tok" succeeds
      lifetime bearer

resolved :
    resolve packages second_kek session.crypto_access_token "s1" digest "Bearer tok"
      second_kek.namespace 1100
    ≡ ok (record { session_id = "s1"; session_key = thirty_two })
resolved =
    let (client, a, e, f, g) =
      resolve-handshake packages packages-IsSound first_kek second_kek "1011" "ana" "activities"
        digest hash "s1" twelve 1000 session session_opened refl 1100 1120 "Bearer tok" succeeds
        lifetime bearer in
    g ∙ rw (ok_inj {a = agreed} {b = a} (packages.exchange client) refl f)

resolve_bound_example :
    (sid ≡ sid)
    × (assert_tenant_digest_explicit digest ≡ assert_tenant_digest_explicit digest)
    × (hash_access_token packages.sha256_hex "Bearer tok" ≡ ok (to_lower (trim_space hash)))
resolve_bound_example =
    resolve_bound packages packages-IsSound first_kek second_kek "1011" "ana" "activities" digest
      hash "s1" twelve 1000 session session_opened refl "s1" digest "Bearer tok"
      second_kek.namespace 1100 (record { session_id = "s1"; session_key = thirty_two }) resolved

abbrev key_text : String
key_text = bits_text thirty_two

abbrev environment : String → String
environment name =
    if name == "CRYPTO_SESSION_KEK_ACTIVE_KID"
    then " k1 "
    else if name == "CRYPTO_SESSION_KEK_ACTIVE_B64"
    then key_text
    else ""

ring_of_environment :
    kek_ring_from_env (λ b. if b then false else true) bits_base64 environment
    ≡ ok (record { keys = List.◌∷◌ ("k1", thirty_two) List.[]; active = "k1" })
unfolding kek_ring_from_env material new_kek_ring assert_session_material_not_weak all_zero
    is_bootstrap_kid all_kek_length has_marker contains_text has_prefix canonical_b64_url_decode
    find trim_space trim_left trim_right is_space to_lower lower_char
ring_of_environment = refl

kek_ring_from_env-AreUsable_example :
    ((key : List Bool) × (find "k1" (List.◌∷◌ ("k1", thirty_two) List.[]) ≡ some key))
    × AreUsable (λ b. if b then false else true) bits_base64 (List.◌∷◌ ("k1", thirty_two) List.[])
kek_ring_from_env-AreUsable_example =
    kek_ring_from_env-AreUsable (λ b. if b then false else true) bits_base64 environment
      (record { keys = List.◌∷◌ ("k1", thirty_two) List.[]; active = "k1" }) ring_of_environment
