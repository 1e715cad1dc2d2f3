-- ===== src/FieldCrypto/Service.antt =====
-- internal/infrastructure/fieldcrypto: service.go, valuecodec.go, and the key providers of keys.go
-- as one function. What crypto/aes, crypto/cipher, encoding/json and crypto/rand do is `Cipher`,
-- `Codec` and the nonces; the calls of crypto/rand are counted, as each gives the next nonce.
-- A JSON number is a whole one, which float64 holds.
use bff_api_go_collection_ac.Base.{
  ℕ, suc, ◌+◌, String, Bool, true, false, ◌==◌, List, Option, none, some, length, leb, take, drop,
  ◌-◌, ◌++◌, if◌then◌else◌,
}
pub mod Sealed
pub mod Roundtrip
use Prim.Native.String
use bff_api_go_collection_ac.Base.Results.{Result, ok, err, guard, ◌>>=◌, ◌>>◌}
use bff_api_go_collection_ac.Json.{
  Json, null, bool, num, str, texts, arr, obj, Items, nil, cons, Fields, end, field,
}
use bff_api_go_collection_ac.FieldCrypto.Errors.{
  FieldCryptoError, invalid_tag, plaintext_rejected, unsupported_type, encryption_failed,
}
use bff_api_go_collection_ac.FieldCrypto.Envelope.{
  Base64, Envelope, to_string, parse_envelope, is_envelope,
}

-- crypto/aes and cipher.NewGCM: which keys aes.NewCipher takes, gcm.Seal and gcm.Open.
pub record Cipher (Byte : Type 0) : Type 0 where
  pub takes : List Byte → Bool
  pub seal : (key nonce plain additional_data : List Byte) → List Byte
  pub open_sealed : (key nonce sealed additional_data : List Byte) → Option (List Byte)

-- taggedValue
pub record TaggedValue : Type 0 where
  pub t : String
  pub v : Json

-- json.Marshal and json.Unmarshal of a tagged value, and []byte(s).
pub record Codec (Byte : Type 0) : Type 0 where
  pub marshal : TaggedValue → List Byte
  pub unmarshal : List Byte → Option TaggedValue
  pub bytes : String → List Byte

-- The tag of a scalar, for EncodeValue.
unfoldable pub tagged : Json → Result FieldCryptoError TaggedValue
tagged null = ok (record { t = "null"; v = null })
tagged (bool b) = ok (record { t = "bool"; v = bool b })
tagged (num n) = ok (record { t = "num"; v = num n })
tagged (str s) = ok (record { t = "str"; v = str s })
tagged v = err unsupported_type

abbrev is_bool : Json → Bool
is_bool (bool b) = true
is_bool v = false

abbrev is_num : Json → Bool
is_num (num n) = true
is_num v = false

abbrev is_str : Json → Bool
is_str (str s) = true
is_str v = false

abbrev is_nil : Json → Bool
is_nil null = true
is_nil v = false

-- What DecodeValue makes of a tagged value.
unfoldable pub untagged : TaggedValue → Result FieldCryptoError Json
untagged tv =
    let fits =
      if tv.t == "null"
      then is_nil tv.v
      else if tv.t == "bool"
      then is_bool tv.v
      else if tv.t == "num"
      then is_num tv.v
      else if tv.t == "str"
      then is_str tv.v
      else false in
    if fits then ok tv.v else err unsupported_type

unfoldable mutual
  -- CountScalars
  pub count_scalars : Json → ℕ
  count_scalars (obj m) = count_fields m
  count_scalars (arr vs) = count_items vs
  count_scalars (texts l) = 1
  count_scalars null = 1
  count_scalars (bool b) = 1
  count_scalars (num n) = 1
  count_scalars (str s) = 1

  pub count_items : Items → ℕ
  count_items nil = 0
  count_items (cons v vs) = count_scalars v + count_items vs

  pub count_fields : Fields → ℕ
  count_fields end = 0
  count_fields (field k v m) = count_scalars v + count_fields m

-- A FieldCryptoService with its environment.
pub record FieldCryptoService (Byte : Type 0) : Type 0 where
  pub b64 : Base64 Byte
  pub aead : Cipher Byte
  pub codec : Codec Byte
  -- The next nonce of crypto/rand, if that does not fail.
  pub nonce_at : ℕ → Option (List Byte)
  pub active_kid : String
  pub key_for : String → Result FieldCryptoError (List Byte)

module _ {Byte : Type 0} (s : FieldCryptoService Byte) where
  abbrev pub encode_value : Json → Result FieldCryptoError (List Byte)
  encode_value value = do tv ← tagged value; ok (s.codec.marshal tv)

  abbrev decode_tagged : Option TaggedValue → Result FieldCryptoError Json
  decode_tagged none = err unsupported_type
  decode_tagged (some tv) = untagged tv

  abbrev pub decode_value : List Byte → Result FieldCryptoError Json
  decode_value raw = decode_tagged (s.codec.unmarshal raw)

  abbrev pub aad : String → List Byte
  aad kid = s.codec.bytes (String.◌++◌ "enc:v1:" kid)

  -- The envelope of a sealed value: the tag is its last 16 bytes.
  abbrev pub envelope_of : String → List Byte → List Byte → Envelope Byte
  envelope_of kid nonce sealed = record {
    kid = kid;
    nonce = nonce;
    ciphertext = take (length sealed - 16) sealed;
    tag = drop (length sealed - 16) sealed;
  }

  unfoldable pub encrypt_with_aead :
      (kid : String) (key additional_data nonce : List Byte) → Json → Result FieldCryptoError String
  encrypt_with_aead kid key additional_data nonce value = do
    plain ← encode_value value
    let sealed = s.aead.seal key nonce plain additional_data
    guard (leb 16 (length sealed)) encryption_failed
    ok (to_string s.b64 (envelope_of kid nonce sealed))

  -- Each step takes the number of the next nonce, and gives it back.
  abbrev pub encrypt_scalar :
      (kid : String) (key : List Byte)
      → Json
      → (next : ℕ) → Option (List Byte)
      → Result FieldCryptoError (Json × ℕ)
  encrypt_scalar kid key value next none = err encryption_failed
  encrypt_scalar kid key value next (some nonce) = do
    text ← encrypt_with_aead kid key (aad kid) nonce value
    ok (str text, suc next)

  -- The names in the pieces of a body stay as they are.
  unfoldable mutual
    pub encrypt_node :
        (kid : String) (key : List Byte) → Json → ℕ → Result FieldCryptoError (Json × ℕ)
    encrypt_node kid key (obj m) next = do
      (out, after) ← encrypt_fields kid key m next
      ok (obj out, after)
    encrypt_node kid key (arr vs) next = do
      (out, after) ← encrypt_items kid key vs next
      ok (arr out, after)
    encrypt_node kid key null next = encrypt_scalar kid key null next (s.nonce_at next)
    encrypt_node kid key (bool b) next = encrypt_scalar kid key (bool b) next (s.nonce_at next)
    encrypt_node kid key (num n) next = encrypt_scalar kid key (num n) next (s.nonce_at next)
    encrypt_node kid key (str t) next = encrypt_scalar kid key (str t) next (s.nonce_at next)
    encrypt_node kid key (texts l) next = encrypt_scalar kid key (texts l) next (s.nonce_at next)

    pub encrypt_items :
        (kid : String) (key : List Byte) → Items → ℕ → Result FieldCryptoError (Items × ℕ)
    encrypt_items kid key nil next = ok (nil, next)
    encrypt_items kid key (cons v vs) next = do
      (w, after) ← encrypt_node kid key v next
      (ws, last) ← encrypt_items kid key vs after
      ok (cons w ws, last)

    pub encrypt_fields :
        (kid : String) (key : List Byte) → Fields → ℕ → Result FieldCryptoError (Fields × ℕ)
    encrypt_fields kid key end next = ok (end, next)
    encrypt_fields kid key (field k v m) next = do
      (w, after) ← encrypt_node kid key v next
      (n, last) ← encrypt_fields kid key m after
      ok (field k w n, last)

  abbrev pub kid_or_active : String → String
  kid_or_active kid = if kid == "" then s.active_kid else kid

  -- EncryptJSON
  unfoldable pub encrypt_json : Json → (kid : String) → ℕ → Result FieldCryptoError (Json × ℕ)
  encrypt_json payload context_kid next = do
    let kid = kid_or_active context_kid
    key ← s.key_for kid
    guard (s.aead.takes key) encryption_failed
    encrypt_node kid key payload next

  abbrev opened : Option (List Byte) → Result FieldCryptoError Json
  opened none = err invalid_tag
  opened (some plain) = decode_value plain

  unfoldable pub decrypt_with_key : Envelope Byte → List Byte → Result FieldCryptoError Json
  decrypt_with_key env key = do
    guard (s.aead.takes key) invalid_tag
    opened (s.aead.open_sealed key env.nonce (env.ciphertext ++ env.tag) (aad env.kid))

  -- DecryptValue
  unfoldable pub decrypt_value : Json → Result FieldCryptoError Json
  decrypt_value ciphertext = do
    env ← parse_envelope s.b64 ciphertext
    key ← s.key_for env.kid
    decrypt_with_key env key

  abbrev pub decrypt_scalar : Json → Result FieldCryptoError Json
  decrypt_scalar v = if is_envelope v then decrypt_value v else err plaintext_rejected

  -- DecryptJSON
  unfoldable mutual
    pub decrypt_json : Json → Result FieldCryptoError Json
    decrypt_json (obj m) = do out ← decrypt_fields m; ok (obj out)
    decrypt_json (arr vs) = do out ← decrypt_items vs; ok (arr out)
    decrypt_json null = decrypt_scalar null
    decrypt_json (bool b) = decrypt_scalar (bool b)
    decrypt_json (num n) = decrypt_scalar (num n)
    decrypt_json (str t) = decrypt_scalar (str t)
    decrypt_json (texts l) = decrypt_scalar (texts l)

    pub decrypt_items : Items → Result FieldCryptoError Items
    decrypt_items nil = ok nil
    decrypt_items (cons v vs) = do w ← decrypt_json v; ws ← decrypt_items vs; ok (cons w ws)

    pub decrypt_fields : Fields → Result FieldCryptoError Fields
    decrypt_fields end = ok end
    decrypt_fields (field k v m) = do w ← decrypt_json v; n ← decrypt_fields m; ok (field k w n)
