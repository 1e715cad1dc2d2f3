-- ===== src/FieldCrypto/Envelope/Format.antt =====
-- An envelope is read back from its text.
use Prim.Native.Nat.{◌<◌}
use Prim.Native.String
use Prim.Native.String.{String, [], ◌∷◌}
use text.Mathlib.TextLemmas.{nil-append, cons-append}
use bff_api_go_collection_ac.Base.{
  ◌≡◌, ◌≢◌, refl, ◌∙◌, List, true, false, ◌||◌, some, length, arith,
}
use bff_api_go_collection_ac.Base.Results.{ok}
use bff_api_go_collection_ac.Base.Texts.{
  join, split-join, IsFree, AllFree, eq_false_of_ne, IsFree-of,
}
use bff_api_go_collection_ac.Json.{str}
use bff_api_go_collection_ac.FieldCrypto.Envelope.{
  Envelope, Base64, has_line_break, to_string, parse_envelope, b64_url_decode, is_envelope,
  has_prefix,
}

-- What encoding/base64 says of its URL alphabet without padding: it is read back, and holds
-- neither a colon nor the end of a line.
pub record IsBase64 {Byte : Type 0} (b64 : Base64 Byte) : Type 0 where
  pub back : (bs : List Byte) → b64.decode (b64.encode bs) ≡ some bs
  pub free : (bs : List Byte) → IsFree b':' (b64.encode bs)
  pub one_line : (bs : List Byte) → has_line_break (b64.encode bs) ≡ false
  pub filled : (bs : List Byte) → bs ≢ List.[] → b64.encode bs ≢ ""

-- What parse_envelope wants of an envelope.
pub record IsValid {Byte : Type 0} (e : Envelope Byte) : Type 0 where
  pub kid_filled : e.kid ≢ ""
  pub kid_free : IsFree b':' e.kid
  pub kid_line : has_line_break e.kid ≡ false
  pub nonce_length : length e.nonce ≡ 12
  pub tag_length : length e.tag ≡ 16
  pub sealed : 0 < length e.ciphertext

has_line_break-append :
    (s t : String) → has_line_break (String.◌++◌ s t) ≡ (has_line_break s || has_line_break t)
has_line_break-append [] t = rw nil-append
has_line_break-append (c ∷ s) t = rw cons-append (ground (arith, has_line_break-append s t))

abbrev OneLine : List String → Type 0
OneLine List.[] = Unit
OneLine (List.◌∷◌ p ps) = (has_line_break p ≡ false) × OneLine ps

has_line_break-join :
    (p : String) (ps : List String)
    → OneLine (List.◌∷◌ p ps)
    → has_line_break (join ":" (List.◌∷◌ p ps)) ≡ false
unfolding join
has_line_break-join p List.[] h = h.0
has_line_break-join p (List.◌∷◌ q ps) (h, hs) =
    rw has_line_break-append (rw (h, has_line_break-join q ps hs))

has_prefix-append :
    (p s q : String) → has_prefix (String.◌++◌ p s) (String.◌++◌ p q) ≡ has_prefix s q
unfolding has_prefix
has_prefix-append [] s q = rw (nil-append, nil-append)
has_prefix-append (c ∷ p) s q =
    rw (cons-append, cons-append) (ground (arith, has_prefix-append p s q))

ne_of_length : {Byte : Type 0} (bs : List Byte) → 0 < length bs → bs ≢ List.[]
ne_of_length List.[] h e = absurd (omega arith)
ne_of_length (List.◌∷◌ b bs) h e = cc

module _ {Byte : Type 0} (b64 : Base64 Byte) (base : IsBase64 b64) where
  b64_url_decode-encode :
      (bs : List Byte) → 0 < length bs → b64_url_decode b64 (b64.encode bs) ≡ ok bs
  unfolding b64_url_decode
  b64_url_decode-encode bs h =
      rw (eq_false_of_ne (b64.encode bs) "" (base.filled bs (ne_of_length bs h)), base.back bs)

  -- An envelope with a key id that is not empty and holds no colon and no end of a line, a nonce
  -- of 12 bytes, a tag of 16 and a ciphertext is read back from its text.
  pub parse_envelope-to_string :
      (e : Envelope Byte) → IsValid e → parse_envelope b64 (str (to_string b64 e)) ≡ ok e
  unfolding parse_envelope to_string
  parse_envelope-to_string e v =
      let parts : List String =
        (List.◌∷◌ "v1" (
          List.◌∷◌ e.kid (
            List.◌∷◌ (b64.encode e.nonce)
              (List.◌∷◌ (b64.encode e.ciphertext) (List.◌∷◌ (b64.encode e.tag) List.[]))))) in
      let free : AllFree b':' (List.◌∷◌ "enc" parts) = (
        IsFree-of b':' "enc" refl,
        (
          IsFree-of b':' "v1" refl,
          (v.kid_free, (base.free e.nonce, (base.free e.ciphertext, (base.free e.tag, tt)))),
        ),
      ) in
      let lines : OneLine (List.◌∷◌ "enc" parts) =
        (refl, (refl, (v.kid_line, (base.one_line _, (base.one_line _, (base.one_line _, tt)))))) in
      rw
        (
          has_line_break-join "enc" parts lines,
          split-join ":" "enc" parts free,
          eq_false_of_ne e.kid "" v.kid_filled,
          b64_url_decode-encode e.nonce (omega (arith, v.nonce_length)),
          b64_url_decode-encode e.ciphertext v.sealed,
          b64_url_decode-encode e.tag (omega (arith, v.tag_length)),
        )
        (ground (arith, v.nonce_length, v.tag_length, v.sealed))

module _ {Byte : Type 0} (b64 : Base64 Byte) where
  pub is_envelope-to_string : (e : Envelope Byte) → is_envelope (str (to_string b64 e)) ≡ true
  unfolding is_envelope to_string join
  is_envelope-to_string e =
      let rest = join ":" (
        List.◌∷◌ e.kid (
          List.◌∷◌ (b64.encode e.nonce)
            (List.◌∷◌ (b64.encode e.ciphertext) (List.◌∷◌ (b64.encode e.tag) List.[])))) in
      has_prefix-append "enc" (":" ∷ String.◌++◌ "v1" (":" ∷ rest)) (":" ∷ "v1:")
      ∙ has_prefix-append "v1" (":" ∷ rest) ":"
