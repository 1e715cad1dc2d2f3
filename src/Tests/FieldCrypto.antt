-- ===== src/Tests/FieldCrypto.antt =====
-- The field encryption at concrete inputs: bytes are bits, base64 writes them as digits, and a
-- sealed text is the text behind sixteen bytes.
use Prim.Native.Char.{code}
use Prim.Native.String.{[], ◌∷◌}
use bff_api_go_collection_ac.Base.{
  ◌+◌, String, ◌≡◌, ◌≢◌, ◌==◌, refl, true, false, Bool, List, Option, none, some, length, eqb,
  if◌then◌else◌, arith,
}
use bff_api_go_collection_ac.Base.Results.{Result, ok, err}
use bff_api_go_collection_ac.Base.Texts.{IsFree, IsFree-of, ne_of_eq_false}
use bff_api_go_collection_ac.Json.{
  Json, null, bool, num, str, texts, obj, arr, nil, cons, field, end,
}
use bff_api_go_collection_ac.FieldCrypto.Errors.{unknown_kid, FieldCryptoError}
use bff_api_go_collection_ac.FieldCrypto.Envelope.{
  Envelope, Base64, has_line_break, to_string, parse_envelope,
}
use bff_api_go_collection_ac.FieldCrypto.Envelope.Format.{IsBase64, parse_envelope-to_string}
use bff_api_go_collection_ac.FieldCrypto.Service.{
  FieldCryptoService, TaggedValue, encrypt_json, decrypt_json, count_scalars,
}
use bff_api_go_collection_ac.FieldCrypto.Service.Roundtrip.{
  nonces_of, run_of, IsSound, IsKey, decrypt_json-encrypt_json,
}

abbrev pub bits_text : List Bool → String
bits_text List.[] = []
bits_text (List.◌∷◌ b bs) = (if b then "1" else "0") ∷ bits_text bs

abbrev pub bits_of : String → Option (List Bool)
bits_of [] = some List.[]
bits_of (c ∷ s) = elim (bits_of s) [
  | none ↦ none
  | some bs ↦ some (List.◌∷◌ (eqb (code c) b'1') bs)
]

abbrev pub bits_base64 : Base64 Bool
bits_base64 = record { encode = bits_text; decode = bits_of }

pub bits_of-bits_text : (bs : List Bool) → bits_of (bits_text bs) ≡ some bs
bits_of-bits_text List.[] = refl
bits_of-bits_text (List.◌∷◌ true bs) = rw (bits_of-bits_text bs)
bits_of-bits_text (List.◌∷◌ false bs) = rw (bits_of-bits_text bs)

bits_text-IsFree : (bs : List Bool) → IsFree b':' (bits_text bs)
bits_text-IsFree List.[] = tt
bits_text-IsFree (List.◌∷◌ true bs) = (omega arith, bits_text-IsFree bs)
bits_text-IsFree (List.◌∷◌ false bs) = (omega arith, bits_text-IsFree bs)

has_line_break-bits_text : (bs : List Bool) → has_line_break (bits_text bs) ≡ false
has_line_break-bits_text List.[] = refl
has_line_break-bits_text (List.◌∷◌ true bs) = has_line_break-bits_text bs
has_line_break-bits_text (List.◌∷◌ false bs) = has_line_break-bits_text bs

pub bits_text_filled : (bs : List Bool) → bs ≢ List.[] → bits_text bs ≢ ""
bits_text_filled List.[] h e = h refl
bits_text_filled (List.◌∷◌ b bs) h e = cc

bits_base64-IsBase64 : IsBase64 bits_base64
bits_base64-IsBase64 = record {
  back = bits_of-bits_text;
  free = bits_text-IsFree;
  one_line = has_line_break-bits_text;
  filled = bits_text_filled;
}

abbrev four : List Bool
four = List.◌∷◌ true (List.◌∷◌ false (List.◌∷◌ true (List.◌∷◌ true List.[])))

abbrev with_four : List Bool → List Bool
with_four bs = List.◌∷◌ true (List.◌∷◌ true (List.◌∷◌ true (List.◌∷◌ true bs)))

abbrev pub twelve : List Bool
twelve = with_four (with_four four)

abbrev with_sixteen : List Bool → List Bool
with_sixteen bs = with_four (with_four (with_four (with_four bs)))

abbrev without_four : List Bool → List Bool
without_four (List.◌∷◌ a (List.◌∷◌ b (List.◌∷◌ c (List.◌∷◌ d bs)))) = bs
without_four bs = List.[]

abbrev pub sealed_envelope : Envelope Bool
sealed_envelope = record {
  kid = "k1";
  nonce = twelve;
  ciphertext = four;
  tag = with_sixteen List.[];
}

parse_envelope-to_string_example :
    parse_envelope bits_base64 (str (to_string bits_base64 sealed_envelope)) ≡ ok sealed_envelope
parse_envelope-to_string_example =
    parse_envelope-to_string bits_base64 bits_base64-IsBase64 sealed_envelope (record {
      kid_filled = ne_of_eq_false "k1" "" refl;
      kid_free = IsFree-of b':' "k1" refl;
      kid_line = refl;
      nonce_length = refl;
      tag_length = refl;
      sealed = omega arith;
    })

-- The codec of null and the truth values.
abbrev marshal : TaggedValue → List Bool
marshal tv = elim tv.v [
  | null ↦ List.◌∷◌ true List.[]
  | bool b ↦ List.◌∷◌ false (List.◌∷◌ b List.[])
  | num n ↦ List.[]
  | str s ↦ List.[]
  | texts l ↦ List.[]
  | arr vs ↦ List.[]
  | obj m ↦ List.[]
]

abbrev unmarshal : List Bool → Option TaggedValue
unmarshal (List.◌∷◌ true List.[]) = some (record { t = "null"; v = null })
unmarshal (List.◌∷◌ false (List.◌∷◌ b List.[])) = some (record { t = "bool"; v = bool b })
unmarshal _ = none

abbrev key_named : String → Result FieldCryptoError (List Bool)
key_named kid = if kid == "k1" then ok twelve else err unknown_kid

abbrev pub service : FieldCryptoService Bool
service = record {
  b64 = bits_base64;
  aead = record {
    takes = λ key. eqb (length key) 12;
    seal = λ key nonce plain ad. with_sixteen plain;
    open_sealed = λ key nonce sealed ad.
        some (without_four (without_four (without_four (without_four sealed))));
  };
  codec = record { marshal = marshal; unmarshal = unmarshal; bytes = λ s. List.[] };
  nonce_at = λ i. some twelve;
  active_kid = "k1";
  key_for = key_named;
}

pub service-IsSound : IsSound service
service-IsSound = record {
  base = bits_base64-IsBase64;
  open_seal = λ key nonce plain ad. refl;
  length_seal = λ key nonce plain ad. omega arith;
  nonce = λ i. twelve;
  nonce_at_lem = λ i. refl;
  nonce_length = λ i. refl;
}

pub twelve-IsKey : IsKey service "k1" twelve
twelve-IsKey = record {
  filled = ne_of_eq_false "k1" "" refl;
  free = IsFree-of b':' "k1" refl;
  one_line = refl;
  found = refl;
  fits = refl;
}

abbrev pub body : Json
body = obj (field "paid" (bool true) (field "notes" (arr (cons null nil)) end))

decrypt_json-encrypt_json_example :
    (w : Json) × (encrypt_json service body "k1" 0 ≡ ok (w, 0 + count_scalars body))
    × (decrypt_json service w ≡ ok body)
    × (nonces_of service w ≡ run_of service-IsSound.nonce 0 (count_scalars body))
decrypt_json-encrypt_json_example =
    decrypt_json-encrypt_json service service-IsSound "k1" twelve twelve-IsKey body 0 (
      record { back = refl; filled = omega arith },
      ((record { back = refl; filled = omega arith }, tt), tt),
    )
