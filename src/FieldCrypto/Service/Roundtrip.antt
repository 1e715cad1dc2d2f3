-- ===== src/FieldCrypto/Service/Roundtrip.antt =====
-- What EncryptJSON seals, DecryptJSON opens.
use Prim.Native.Nat.{ℕ, zero, suc, ◌+◌, ◌-◌, ◌<◌}
use bff_api_go_collection_ac.Base.{
  ◌≡◌, ◌≢◌, refl, ap, ◌++◌, ◌∙◌, String, true, false, List, some, length, take-append-drop,
  length-take, length-drop, arith, leb, le→leb,
}
use bff_api_go_collection_ac.Base.Results.{Result, ok, err}
use bff_api_go_collection_ac.Base.Texts.{IsFree, eq_false_of_ne}
use bff_api_go_collection_ac.Json.{
  Json, null, bool, num, str, texts, arr, obj, Items, nil, cons, Fields, end, field,
}
use bff_api_go_collection_ac.FieldCrypto.Envelope.{
  Envelope, has_line_break, to_string, parse_envelope,
}
use bff_api_go_collection_ac.FieldCrypto.Envelope.Format.{
  IsBase64, IsValid, parse_envelope-to_string, is_envelope-to_string,
}
use bff_api_go_collection_ac.FieldCrypto.Errors.{FieldCryptoError}
use bff_api_go_collection_ac.FieldCrypto.Service.{
  FieldCryptoService, TaggedValue, tagged, untagged, aad, envelope_of, encrypt_with_aead,
  encrypt_scalar, encrypt_node, encrypt_items, encrypt_fields, encrypt_json, decrypt_with_key,
  decrypt_value, decrypt_json, decrypt_items, decrypt_fields, count_scalars, count_items,
  count_fields,
}

-- What the packages say of AES-GCM with a tag of 16 bytes, of JSON, and of random bytes that can
-- be had.
pub record IsSound {Byte : Type 0} (s : FieldCryptoService Byte) : Type 0 where
  pub base : IsBase64 s.b64
  pub open_seal :
      (key nonce plain ad : List Byte)
      → s.aead.open_sealed key nonce (s.aead.seal key nonce plain ad) ad ≡ some plain
  pub length_seal :
      (key nonce plain ad : List Byte) → length (s.aead.seal key nonce plain ad) ≡ length plain + 16
  pub nonce : ℕ → List Byte
  pub nonce_at_lem : (i : ℕ) → s.nonce_at i ≡ some (nonce i)
  pub nonce_length : (i : ℕ) → length (nonce i) ≡ 12

-- A key id, not empty and without colons and ends of lines, that names a key for AES.
pub record IsKey {Byte : Type 0} (s : FieldCryptoService Byte) (kid : String) (key : List Byte)
    : Type 0 where
  pub filled : kid ≢ ""
  pub free : IsFree b':' kid
  pub one_line : has_line_break kid ≡ false
  pub found : s.key_for kid ≡ ok key
  pub fits : s.aead.takes key ≡ true

-- A tagged value that encoding/json reads back, as it does where the texts are valid UTF-8.
pub record ReadsBack {Byte : Type 0} (s : FieldCryptoService Byte) (tv : TaggedValue) : Type 0 where
  pub back : s.codec.unmarshal (s.codec.marshal tv) ≡ some tv
  pub filled : 0 < length (s.codec.marshal tv)

module _ {Byte : Type 0} (s : FieldCryptoService Byte) where
  abbrev mutual
    -- A body of which every leaf is read back; it holds no []string.
    pub IsPlain : Json → Type 0
    IsPlain (obj m) = ArePlainFields m
    IsPlain (arr vs) = ArePlain vs
    IsPlain (texts l) = ⊥
    IsPlain null = ReadsBack s (record { t = "null"; v = null })
    IsPlain (bool b) = ReadsBack s (record { t = "bool"; v = bool b })
    IsPlain (num n) = ReadsBack s (record { t = "num"; v = num n })
    IsPlain (str t) = ReadsBack s (record { t = "str"; v = str t })

    pub ArePlain : Items → Type 0
    ArePlain nil = Unit
    ArePlain (cons v vs) = IsPlain v × ArePlain vs

    pub ArePlainFields : Fields → Type 0
    ArePlainFields end = Unit
    ArePlainFields (field k v m) = IsPlain v × ArePlainFields m

-- The nonces in a sealed value, from left to right; of what is no envelope there is none.
module _ {Byte : Type 0} (s : FieldCryptoService Byte) where
  abbrev nonce_of : Result FieldCryptoError (Envelope Byte) → List (List Byte)
  nonce_of (err e) = List.[]
  nonce_of (ok env) = List.◌∷◌ env.nonce List.[]

  unfoldable mutual
    pub nonces_of : Json → List (List Byte)
    nonces_of (obj m) = nonces_of_fields m
    nonces_of (arr vs) = nonces_of_items vs
    nonces_of (str t) = nonce_of (parse_envelope s.b64 (str t))
    nonces_of null = List.[]
    nonces_of (bool b) = List.[]
    nonces_of (num n) = List.[]
    nonces_of (texts l) = List.[]

    pub nonces_of_items : Items → List (List Byte)
    nonces_of_items nil = List.[]
    nonces_of_items (cons v vs) = nonces_of v ++ nonces_of_items vs

    pub nonces_of_fields : Fields → List (List Byte)
    nonces_of_fields end = List.[]
    nonces_of_fields (field k v m) = nonces_of v ++ nonces_of_fields m

-- So many values of a sequence, from a place on.
abbrev pub run_of {ℓ} : {A : Type ℓ} → (ℕ → A) → (start count : ℕ) → List A
run_of f start zero = List.[]
run_of f start (suc count) = List.◌∷◌ (f start) (run_of f (suc start) count)

run_of-append {ℓ} :
    {A : Type ℓ} (f : ℕ → A) (start m n : ℕ)
    → run_of f start m ++ run_of f (start + m) n ≡ run_of f start (m + n)
run_of-append f start zero n =
    ap (λ k. run_of f k n) (omega arith) ∙ ap (λ k. run_of f start k) (omega arith)
run_of-append f start (suc m) n =
    let moved : start + suc m ≡ suc start + m = omega arith in
    let more : suc m + n ≡ suc (m + n) = omega arith in
    rw (moved, more) (ap (λ l. List.◌∷◌ (f start) l) (run_of-append f (suc start) m n))

module _ {Byte : Type 0} (s : FieldCryptoService Byte) (sound : IsSound s) (kid : String)
    (key : List Byte) (known : IsKey s kid key) where
  -- The text of a sealed value.
  sealed_of : TaggedValue → ℕ → List Byte
  sealed_of tv i = s.aead.seal key (sound.nonce i) (s.codec.marshal tv) (aad s kid)

  text_of : TaggedValue → ℕ → String
  text_of tv i = to_string s.b64 (envelope_of s kid (sound.nonce i) (sealed_of tv i))

  length-sealed_of : (tv : TaggedValue) (i : ℕ) → ReadsBack s tv → 16 < length (sealed_of tv i)
  unfolding sealed_of
  length-sealed_of tv i reads =
      omega (
        arith,
        sound.length_seal key (sound.nonce i) (s.codec.marshal tv) (aad s kid),
        reads.filled,
      )

  long_enough :
      (tv : TaggedValue) (i : ℕ) → ReadsBack s tv → leb 16 (length (sealed_of tv i)) ≡ true
  long_enough tv i reads =
      le→leb 16 (length (sealed_of tv i)) (omega (arith, length-sealed_of tv i reads))

  envelope-IsValid :
      (tv : TaggedValue) (i : ℕ)
      → ReadsBack s tv
      → IsValid (envelope_of s kid (sound.nonce i) (sealed_of tv i))
  envelope-IsValid tv i reads =
      let long = length-sealed_of tv i reads in
      let sealed = sealed_of tv i in
      record {
        kid_filled = known.filled;
        kid_free = known.free;
        kid_line = known.one_line;
        nonce_length = sound.nonce_length i;
        tag_length = omega (arith, length-drop (length sealed - 16) sealed);
        sealed = omega (arith, length-take (length sealed - 16) sealed);
      }

  encrypt_scalar_lem :
      (v : Json) (tv : TaggedValue) (i : ℕ)
      → ReadsBack s tv
      → tagged v ≡ ok tv
      → encrypt_scalar s kid key v i (s.nonce_at i) ≡ ok (str (text_of tv i), suc i)
  unfolding encrypt_with_aead text_of sealed_of
  encrypt_scalar_lem v tv i reads h = rw (sound.nonce_at_lem i, h, long_enough tv i reads)

  decrypt_value-text_of :
      (v : Json) (tv : TaggedValue) (i : ℕ)
      → ReadsBack s tv
      → untagged tv ≡ ok v
      → decrypt_json s (str (text_of tv i)) ≡ ok v
  unfolding decrypt_json decrypt_value decrypt_with_key text_of
  decrypt_value-text_of v tv i reads h =
      let env = envelope_of s kid (sound.nonce i) (sealed_of tv i) in
      rw
        (
          is_envelope-to_string s.b64 env,
          parse_envelope-to_string s.b64 sound.base env (envelope-IsValid tv i reads),
          known.found,
          known.fits,
          take-append-drop (length (sealed_of tv i) - 16) (sealed_of tv i),
        )
        (unfold sealed_of in rw (sound.open_seal _ _ _ _, reads.back) h)

  nonces_of-text_of :
      (tv : TaggedValue) (i : ℕ)
      → ReadsBack s tv
      → nonces_of s (str (text_of tv i)) ≡ run_of sound.nonce i 1
  unfolding nonces_of text_of
  nonces_of-text_of tv i reads =
      let env = envelope_of s kid (sound.nonce i) (sealed_of tv i) in
      rw (parse_envelope-to_string s.b64 sound.base env (envelope-IsValid tv i reads)) refl

  -- The value's ciphertext, in which the next `count_scalars` nonces are.
  abbrev Sealed : Json → ℕ → Type 0
  Sealed v i =
      (w : Json) × (encrypt_node s kid key v i ≡ ok (w, i + count_scalars v))
      × (decrypt_json s w ≡ ok v)
      × (nonces_of s w ≡ run_of sound.nonce i (count_scalars v))

  seal_scalar :
      (v : Json) (tv : TaggedValue) (i : ℕ)
      → ReadsBack s tv
      → tagged v ≡ ok tv
      → untagged tv ≡ ok v
      → encrypt_node s kid key v i ≡ encrypt_scalar s kid key v i (s.nonce_at i)
      → count_scalars v ≡ 1
      → Sealed v i
  seal_scalar v tv i reads h u e c = (
    str (text_of tv i),
    e
        ∙ encrypt_scalar_lem v tv i reads h
        ∙ ap (λ (k : ℕ). ok (str (text_of tv i), k)) (omega (arith, c)),
    decrypt_value-text_of v tv i reads u,
    rw c (nonces_of-text_of tv i reads),
  )

  mutual
    unfolding encrypt_node encrypt_items encrypt_fields decrypt_json decrypt_items decrypt_fields
        count_scalars count_items count_fields tagged untagged nonces_of

    seal : (v : Json) (i : ℕ) → IsPlain s v → Sealed v i
    seal (obj m) i p = let (n, e, d, u) = seal_fields m i p in (obj n, rw e, rw d, u)
    seal (arr vs) i p = let (ws, e, d, u) = seal_items vs i p in (arr ws, rw e, rw d, u)
    seal (texts l) i p = elim p [ ]
    seal null i p = seal_scalar null (record { t = "null"; v = null }) i p refl refl refl refl
    seal (bool b) i p =
        seal_scalar (bool b) (record { t = "bool"; v = bool b }) i p refl refl refl refl
    seal (num n) i p = seal_scalar (num n) (record { t = "num"; v = num n }) i p refl refl refl refl
    seal (str t) i p = seal_scalar (str t) (record { t = "str"; v = str t }) i p refl refl refl refl

    seal_items :
        (vs : Items) (i : ℕ)
        → ArePlain s vs
        → (ws : Items) × (encrypt_items s kid key vs i ≡ ok (ws, i + count_items vs))
          × (decrypt_items s ws ≡ ok vs)
          × (nonces_of_items s ws ≡ run_of sound.nonce i (count_items vs))
    seal_items nil i p = (nil, ap (λ (k : ℕ). ok (nil, k)) (omega arith), refl, refl)
    seal_items (cons v vs) i (p, ps) =
        let (w, e, d, u) = seal v i p in
        let (ws, es, ds, us) = seal_items vs (i + count_scalars v) ps in
        (
          cons w ws,
          rw (e, es) (ap (λ (k : ℕ). ok (cons w ws, k)) (omega arith)),
          rw (d, ds),
          rw (u, us) (run_of-append sound.nonce i (count_scalars v) (count_items vs)),
        )

    seal_fields :
        (m : Fields) (i : ℕ)
        → ArePlainFields s m
        → (n : Fields) × (encrypt_fields s kid key m i ≡ ok (n, i + count_fields m))
          × (decrypt_fields s n ≡ ok m)
          × (nonces_of_fields s n ≡ run_of sound.nonce i (count_fields m))
    seal_fields end i p = (end, ap (λ (k : ℕ). ok (end, k)) (omega arith), refl, refl)
    seal_fields (field k v m) i (p, ps) =
        let (w, e, d, u) = seal v i p in
        let (n, es, ds, us) = seal_fields m (i + count_scalars v) ps in
        (
          field k w n,
          rw (e, es) (ap (λ (j : ℕ). ok (field k w n, j)) (omega arith)),
          rw (d, ds),
          rw (u, us) (run_of-append sound.nonce i (count_scalars v) (count_fields m)),
        )

  -- Every body that encoding/json reads is sealed under the session's key, and DecryptJSON gives it
  -- back. The nonces in what is sealed are, from left to right, the next ones that crypto/rand gives,
  -- as many as `count_scalars` says: none is used for two leaves, and none is left out.
  pub decrypt_json-encrypt_json :
      (v : Json) (i : ℕ)
      → IsPlain s v
      → (w : Json) × (encrypt_json s v kid i ≡ ok (w, i + count_scalars v))
        × (decrypt_json s w ≡ ok v)
        × (nonces_of s w ≡ run_of sound.nonce i (count_scalars v))
  unfolding encrypt_json
  decrypt_json-encrypt_json v i p =
      let (w, e, d, u) = seal v i p in
      (w, rw (eq_false_of_ne kid "" known.filled, known.found, known.fits) e, d, u)
