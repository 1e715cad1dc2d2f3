-- ===== src/FieldCrypto/Stateless.antt =====
-- internal/infrastructure/fieldcrypto/stateless.go, and the KekRing of kek_ring.go. Times are
-- seconds of Unix time. `Externals` is what the packages of Go do: JSON web tokens, base64,
-- AES-GCM, SHA-256, and the key agreement over P-256 with its random values. The code does not look
-- into a token, which is an element of a type.
pub mod Lifetime
pub mod Resolved
use Prim.Native.String.{len}
use bff_api_go_collection_ac.Base.{
  ℕ, ◌+◌, String, Bool, true, false, not, ◌&&◌, ◌||◌, ◌==◌, List, [], ◌∷◌, Option, none, some,
  length, eqb, ltb, if◌then◌else◌,
}
use bff_api_go_collection_ac.Base.Ints.{ℤ, pos, wrap, ltb_ℤ, ◌-ℤ◌, ◌+ℤ◌}
use bff_api_go_collection_ac.Base.Maps.{Map, find}
use bff_api_go_collection_ac.Base.Results.{Result, ok, err, guard, ◌>>=◌, ◌>>◌}
use bff_api_go_collection_ac.Base.Texts.{trim_space, to_lower, join}
use bff_api_go_collection_ac.Base.Texts.Decimal.{itoa_ℤ}
use bff_api_go_collection_ac.Json.{Json, null, num, str, obj, Fields, end, field, get}
use bff_api_go_collection_ac.Json.Print.{sprint}
use bff_api_go_collection_ac.FieldCrypto.Errors.{FieldCryptoError, session_invalid, unknown_error}
use bff_api_go_collection_ac.FieldCrypto.Envelope.{Base64}
use bff_api_go_collection_ac.FieldCrypto.Digests.{
  assert_tenant_digest_explicit, is_hex, hash_access_token, canonical_b64_url_decode,
}

pub record KekRing (Byte : Type 0) : Type 0 where
  pub keys : Map (List Byte)
  pub active : String

-- StatelessCryptoSessionManager
pub record Manager (Byte : Type 0) : Type 0 where
  pub kek : KekRing Byte
  pub secret : String
  pub issuer : String
  pub namespace : String
  pub ttl : ℤ

-- NewStatelessCryptoSessionManager: a ttl that is not from 1 to 300 seconds counts as 300.
unfoldable pub new_stateless_crypto_session_manager :
    {Byte : Type 0}
    → KekRing Byte
    → (secret issuer namespace : String) → (ttl_seconds : ℤ) → Manager Byte
new_stateless_crypto_session_manager kek secret issuer namespace ttl_seconds =
    let ns = trim_space namespace in
    record {
      kek = kek;
      secret = secret;
      issuer = issuer;
      namespace = (if ns == "" then "activity-log" else ns);
      ttl =
          if ltb_ℤ (pos 0) ttl_seconds
          then if ltb_ℤ (pos 300) ttl_seconds then pos 300 else ttl_seconds
          else pos 300;
    }

-- What a key agreement with a client gives.
pub record Exchange (Byte : Type 0) : Type 0 where
  pub server_public_key : List Byte
  pub salt : List Byte
  pub session_key : List Byte

-- What jwt.Parse is told: the secret, whether only HS256 is taken, the audience, the issuer if it
-- is checked, and the leeway in seconds.
pub record ParserOptions : Type 0 where
  pub secret : String
  pub only_hs256 : Bool
  pub audience : String
  pub issuer : Option String
  pub leeway : ℕ

pub record Externals (Byte Token : Type 0) : Type 0 where
  pub b64 : Base64 Byte
  -- SignedString, with HS256.
  pub sign : (secret : String) → Fields → Token
  -- jwt.Parse at a time: the claims of a token that is valid.
  pub parse : ParserOptions → (now : ℕ) → Token → Option Fields
  pub seal : (key nonce plain additional_data : List Byte) → Option (List Byte)
  pub open_sealed : (key nonce sealed additional_data : List Byte) → Option (List Byte)
  pub sha256_hex : String → String
  pub bytes : String → List Byte
  pub exchange : List Byte → Result FieldCryptoError (Exchange Byte)

pub record HandshakeResult (Token : Type 0) : Type 0 where
  pub server_public_key : String
  pub salt : String
  pub crypto_session_id : String
  pub crypto_access_token : Token
  pub expires_in : ℤ

pub record VerifiedSession (Byte : Type 0) : Type 0 where
  pub session_id : String
  pub session_key : List Byte

-- sessionAAD, before it is read as bytes.
abbrev pub session_aad :
    (namespace tenant_digest session_id sub scope version : String)
    → (issued_at expires_at : ℤ) → (kek_kid access_token_hash : String) → String
session_aad namespace tenant_digest session_id sub scope version issued_at expires_at kek_kid ath =
    join "|" (
      namespace
      ∷ tenant_digest
      ∷ session_id
      ∷ sub
      ∷ scope
      ∷ version
      ∷ itoa_ℤ issued_at
      ∷ itoa_ℤ expires_at
      ∷ kek_kid
      ∷ ath
      ∷ [])

abbrev pub or_invalid {ℓ} : {A : Type ℓ} → Option A → Result FieldCryptoError A
or_invalid none = err session_invalid
or_invalid (some a) = ok a

-- fmt.Sprint(claims[key])
abbrev pub or_null : Option Json → Json
or_null none = null
or_null (some v) = v

abbrev pub claim_text : Fields → String → String
claim_text claims key = sprint (or_null (get key claims))

abbrev pub int64_of : Option Json → Result FieldCryptoError ℤ
int64_of (some (num n)) = ok n
int64_of v = err session_invalid

abbrev pub object_of : Option Json → Result FieldCryptoError Fields
object_of (some (obj m)) = ok m
object_of v = err session_invalid

module _ {Byte Token : Type 0} (x : Externals Byte Token) where
  -- (r *KekRing) KeyFor
  unfoldable pub key_for : KekRing Byte → String → Result FieldCryptoError (List Byte)
  key_for ring kid = or_invalid (find kid ring.keys)

  unfoldable pub session_claims :
      (m : Manager Byte) (subject scope digest ath session_id : String) (now : ℕ)
      (nonce sealed : List Byte)
      → Fields
  session_claims m subject scope digest ath session_id now nonce sealed =
      field "iss" (str m.issuer) (
        field "aud" (str "crypto-session") (
          field "sub" (str subject) (
            field "scope" (str scope) (
              field "crypto_session_id" (str session_id) (
                field "namespace" (str m.namespace) (
                  field "tenant_digest" (str digest) (
                    field "crypto_version" (str "v1") (
                      field "iat" (num (pos now)) (
                        field "exp" (num (wrap (pos now +ℤ m.ttl))) (
                          field "kek_kid" (str m.kek.active) (
                            field "access_token_hash" (str ath) (
                              field "session_envelope"
                                (obj (
                                  field "nonce" (str (x.b64.encode nonce))
                                    (field "ciphertext" (str (x.b64.encode sealed)) end)))
                                end))))))))))))

  -- Handshake, with the random session id and nonce (if crypto/rand gives one).
  unfoldable pub handshake :
      (m : Manager Byte) (client_public subject scope tenant_digest access_token_hash : String)
      (session_id : String) (nonce : Option (List Byte)) (now : ℕ)
      → Result FieldCryptoError (HandshakeResult Token)
  handshake m client_public subject scope tenant_digest access_token_hash session_id nonce now = do
    digest ← assert_tenant_digest_explicit tenant_digest
    let ath = to_lower (trim_space access_token_hash)
    guard (eqb (len ath) 64 && is_hex ath) session_invalid
    client ← canonical_b64_url_decode x.b64 client_public
    agreed ← x.exchange client
    random ← (elim nonce [ none ↦ err unknown_error | some n ↦ ok n ])
    kek ← key_for m.kek m.kek.active
    let expires_at = wrap (pos now +ℤ m.ttl)
    sealed ← or_invalid (
        x.seal kek random agreed.session_key (
          x.bytes (
            session_aad m.namespace digest session_id subject scope "v1" (pos now) expires_at
              m.kek.active ath)))
    ok (record {
      server_public_key = x.b64.encode agreed.server_public_key;
      salt = x.b64.encode agreed.salt;
      crypto_session_id = session_id;
      crypto_access_token =
          x.sign m.secret (session_claims m subject scope digest ath session_id now random sealed);
      expires_in = m.ttl;
    })

  -- The claims of a session that is not over, for its session id, tenant and bearer token.
  unfoldable pub check_claims :
      (claims : Fields) (session_id expected_ns digest bearer_hash : String) (now : ℕ)
      → Result FieldCryptoError (ℤ × ℤ)
  check_claims claims session_id expected_ns digest bearer_hash now = do
    guard (claim_text claims "crypto_session_id" == session_id) session_invalid
    guard (claim_text claims "namespace" == expected_ns) session_invalid
    guard (claim_text claims "tenant_digest" == digest) session_invalid
    guard (claim_text claims "crypto_version" == "v1") session_invalid
    guard (to_lower (claim_text claims "access_token_hash") == bearer_hash) session_invalid
    issued_at ← int64_of (get "iat" claims)
    expires_at ← int64_of (get "exp" claims)
    guard (not (ltb_ℤ (pos 300) (wrap (expires_at -ℤ issued_at)))) session_invalid
    guard (ltb_ℤ (wrap (pos now -ℤ pos 5)) expires_at) session_invalid
    ok (issued_at, expires_at)

  -- The session key that the claims hold.
  unfoldable pub unwrap_key :
      (m : Manager Byte) (claims : Fields) (session_id : String) (issued_at expires_at : ℤ)
      → Result FieldCryptoError (List Byte)
  unwrap_key m claims session_id issued_at expires_at = do
    envelope ← object_of (get "session_envelope" claims)
    nonce ← canonical_b64_url_decode x.b64 (claim_text envelope "nonce")
    ciphertext ← canonical_b64_url_decode x.b64 (claim_text envelope "ciphertext")
    guard (eqb (length nonce) 12 && ltb 0 (length ciphertext)) session_invalid
    kek ← key_for m.kek (claim_text claims "kek_kid")
    key ← or_invalid (
        x.open_sealed kek nonce ciphertext (
          x.bytes (
            session_aad (claim_text claims "namespace") (claim_text claims "tenant_digest")
              session_id (claim_text claims "sub") (claim_text claims "scope")
              (claim_text claims "crypto_version") issued_at expires_at
              (claim_text claims "kek_kid") (to_lower (claim_text claims "access_token_hash")))))
    guard (eqb (length key) 32) session_invalid
    ok key

  -- The options of parseToken.
  abbrev pub parser_of : Manager Byte → ParserOptions
  parser_of m = record {
    secret = m.secret;
    only_hs256 = true;
    audience = "crypto-session";
    issuer = some m.issuer;
    leeway = 5;
  }

  -- Resolve
  unfoldable pub resolve :
      (m : Manager Byte) (token : Token) (session_id tenant_digest authorization namespace : String)
      (now : ℕ)
      → Result FieldCryptoError (VerifiedSession Byte)
  resolve m token session_id tenant_digest authorization namespace now = do
    let ns = trim_space namespace
    let expected_ns = (if ns == "" then m.namespace else ns)
    digest ← assert_tenant_digest_explicit tenant_digest
    bearer_hash ← hash_access_token x.sha256_hex authorization
    claims ← or_invalid (x.parse (parser_of m) now token)
    times ← check_claims claims session_id expected_ns digest bearer_hash now
    key ← unwrap_key m claims session_id times.0 times.1
    ok (record { session_id = session_id; session_key = key })
