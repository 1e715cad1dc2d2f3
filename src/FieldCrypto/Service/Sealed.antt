-- ===== src/FieldCrypto/Service/Sealed.antt =====
-- No value passes that came in plaintext.
use bff_api_go_collection_ac.Base.{
  ℕ, suc, ◌≡◌, String, true, Bool-cases, inl, inr, List, Option, none, some, leb, length,
}
use bff_api_go_collection_ac.Base.Results.{ok, >>=-eq-ok, guard->>-eq-ok}
use bff_api_go_collection_ac.Json.{
  Json, null, bool, num, str, texts, arr, obj, Items, nil, cons, Fields, end, field,
}
use bff_api_go_collection_ac.FieldCrypto.Envelope.{is_envelope, to_string}
use bff_api_go_collection_ac.FieldCrypto.Envelope.Format.{is_envelope-to_string}
use bff_api_go_collection_ac.FieldCrypto.Service.{
  FieldCryptoService, decrypt_json, decrypt_items, decrypt_fields, decrypt_scalar, encrypt_json,
  encrypt_node, encrypt_items, encrypt_fields, encrypt_scalar, encrypt_with_aead, encode_value, aad,
  kid_or_active, envelope_of,
}

abbrev mutual
  -- Every leaf of a body is the text of an envelope.
  pub IsSealed : Json → Type 0
  IsSealed (obj m) = AreSealedFields m
  IsSealed (arr vs) = AreSealed vs
  IsSealed null = is_envelope null ≡ true
  IsSealed (bool b) = is_envelope (bool b) ≡ true
  IsSealed (num n) = is_envelope (num n) ≡ true
  IsSealed (str t) = is_envelope (str t) ≡ true
  IsSealed (texts l) = is_envelope (texts l) ≡ true

  pub AreSealed : Items → Type 0
  AreSealed nil = Unit
  AreSealed (cons v vs) = IsSealed v × AreSealed vs

  pub AreSealedFields : Fields → Type 0
  AreSealedFields end = Unit
  AreSealedFields (field k v m) = IsSealed v × AreSealedFields m

module _ {Byte : Type 0} (s : FieldCryptoService Byte) where
  decrypt_scalar-sealed : (v : Json) {w : Json} → decrypt_scalar s v ≡ ok w → is_envelope v ≡ true
  decrypt_scalar-sealed v h = elim (Bool-cases (is_envelope v)) [
    | inl e ↦ e
    | inr e ↦ cc (rw e at h)
  ]

  mutual
    unfolding decrypt_json decrypt_items decrypt_fields

    decrypt_json-IsSealed' : (v : Json) {w : Json} → decrypt_json s v ≡ ok w → IsSealed v
    decrypt_json-IsSealed' (obj m) h =
        let (out, e, rest) = >>=-eq-ok (decrypt_fields s m) _ h in decrypt_fields-sealed m e
    decrypt_json-IsSealed' (arr vs) h =
        let (out, e, rest) = >>=-eq-ok (decrypt_items s vs) _ h in decrypt_items-sealed vs e
    decrypt_json-IsSealed' null h = decrypt_scalar-sealed null h
    decrypt_json-IsSealed' (bool b) h = decrypt_scalar-sealed (bool b) h
    decrypt_json-IsSealed' (num n) h = decrypt_scalar-sealed (num n) h
    decrypt_json-IsSealed' (str t) h = decrypt_scalar-sealed (str t) h
    decrypt_json-IsSealed' (texts l) h = decrypt_scalar-sealed (texts l) h

    decrypt_items-sealed : (vs : Items) {ws : Items} → decrypt_items s vs ≡ ok ws → AreSealed vs
    decrypt_items-sealed nil h = tt
    decrypt_items-sealed (cons v vs) h =
        let (w, e, rest) = >>=-eq-ok (decrypt_json s v) _ h in
        let (ws, f, last) = >>=-eq-ok (decrypt_items s vs) _ rest in
        (decrypt_json-IsSealed' v e, decrypt_items-sealed vs f)

    decrypt_fields-sealed :
        (m : Fields) {n : Fields} → decrypt_fields s m ≡ ok n → AreSealedFields m
    decrypt_fields-sealed end h = tt
    decrypt_fields-sealed (field k v m) h =
        let (w, e, rest) = >>=-eq-ok (decrypt_json s v) _ h in
        let (n, f, last) = >>=-eq-ok (decrypt_fields s m) _ rest in
        (decrypt_json-IsSealed' v e, decrypt_fields-sealed m f)

  -- A body of which one leaf stands in plaintext is refused, wherever in the body it stands.
  pub decrypt_json-IsSealed : (v w : Json) → decrypt_json s v ≡ ok w → IsSealed v
  decrypt_json-IsSealed v w h = decrypt_json-IsSealed' v h

  encrypt_scalar-IsSealed :
      (kid : String) (key : List Byte) (v : Json) (i : ℕ) (o : Option (List Byte)) (r : Json × ℕ)
      → encrypt_scalar s kid key v i o ≡ ok r
      → IsSealed r.0
  unfolding encrypt_with_aead
  encrypt_scalar-IsSealed kid key v i none r h = absurd (cc h)
  encrypt_scalar-IsSealed kid key v i (some nonce) r h =
      let (text, e, last) = >>=-eq-ok (encrypt_with_aead s kid key (aad s kid) nonce v) _ h in
      let (plain, f, g) = >>=-eq-ok (encode_value s v) _ e in
      let sealed = s.aead.seal key nonce plain (aad s kid) in
      let (long, k) = guard->>-eq-ok (leb 16 (length sealed)) _ _ g in
      let same : r ≡ (str (to_string s.b64 (envelope_of s kid nonce sealed)), suc i) = cc in
      rw same (is_envelope-to_string s.b64 (envelope_of s kid nonce sealed))

  mutual
    unfolding encrypt_node encrypt_items encrypt_fields

    encrypt_node-IsSealed :
        (kid : String) (key : List Byte) (v : Json) (i : ℕ) (r : Json × ℕ)
        → encrypt_node s kid key v i ≡ ok r
        → IsSealed r.0
    encrypt_node-IsSealed kid key (obj m) i r h =
        let (q, e, last) = >>=-eq-ok (encrypt_fields s kid key m i) _ h in
        let same : r ≡ (obj q.0, q.1) = cc in rw same (encrypt_fields-AreSealed kid key m i q e)
    encrypt_node-IsSealed kid key (arr vs) i r h =
        let (q, e, last) = >>=-eq-ok (encrypt_items s kid key vs i) _ h in
        let same : r ≡ (arr q.0, q.1) = cc in rw same (encrypt_items-AreSealed kid key vs i q e)
    encrypt_node-IsSealed kid key null i r h = encrypt_scalar-IsSealed kid key null i _ r h
    encrypt_node-IsSealed kid key (bool b) i r h = encrypt_scalar-IsSealed kid key (bool b) i _ r h
    encrypt_node-IsSealed kid key (num n) i r h = encrypt_scalar-IsSealed kid key (num n) i _ r h
    encrypt_node-IsSealed kid key (str t) i r h = encrypt_scalar-IsSealed kid key (str t) i _ r h
    encrypt_node-IsSealed kid key (texts l) i r h =
        encrypt_scalar-IsSealed kid key (texts l) i _ r h

    encrypt_items-AreSealed :
        (kid : String) (key : List Byte) (vs : Items) (i : ℕ) (r : Items × ℕ)
        → encrypt_items s kid key vs i ≡ ok r
        → AreSealed r.0
    encrypt_items-AreSealed kid key nil i r h = let same : r ≡ (nil, i) = cc in rw same tt
    encrypt_items-AreSealed kid key (cons v vs) i r h =
        let (p, e, rest) = >>=-eq-ok (encrypt_node s kid key v i) _ h in
        let (q, f, last) = >>=-eq-ok (encrypt_items s kid key vs p.1) _ rest in
        let same : r ≡ (cons p.0 q.0, q.1) = cc in
        rw same (encrypt_node-IsSealed kid key v i p e, encrypt_items-AreSealed kid key vs p.1 q f)

    encrypt_fields-AreSealed :
        (kid : String) (key : List Byte) (m : Fields) (i : ℕ) (r : Fields × ℕ)
        → encrypt_fields s kid key m i ≡ ok r
        → AreSealedFields r.0
    encrypt_fields-AreSealed kid key end i r h = let same : r ≡ (end, i) = cc in rw same tt
    encrypt_fields-AreSealed kid key (field k v m) i r h =
        let (p, e, rest) = >>=-eq-ok (encrypt_node s kid key v i) _ h in
        let (q, f, last) = >>=-eq-ok (encrypt_fields s kid key m p.1) _ rest in
        let same : r ≡ (field k p.0 q.0, q.1) = cc in
        rw same (encrypt_node-IsSealed kid key v i p e, encrypt_fields-AreSealed kid key m p.1 q f)

  -- In a body that was encrypted no leaf stands in plaintext, whatever the key, the cipher and the
  -- nonces are.
  pub encrypt_json-IsSealed :
      (v : Json) (kid : String) (i : ℕ) (w : Json) (last : ℕ)
      → encrypt_json s v kid i ≡ ok (w, last)
      → IsSealed w
  unfolding encrypt_json
  encrypt_json-IsSealed v kid i w last h =
      let (key, e, h1) = >>=-eq-ok (s.key_for (kid_or_active s kid)) _ h in
      let (fits, h2) = guard->>-eq-ok (s.aead.takes key) _ _ h1 in
      encrypt_node-IsSealed (kid_or_active s kid) key v i (w, last) h2
