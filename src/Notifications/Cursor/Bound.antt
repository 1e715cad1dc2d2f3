-- ===== src/Notifications/Cursor/Bound.antt =====
-- A cursor is read back by the list that it was made for, and by no other one.
use Prim.Native.Char.{code}
use Prim.Native.String
use Prim.Native.String.{[], ◌∷◌, len}
use Prim.Native.Nat.{◌<◌}
use text.Mathlib.TextLemmas.{nil-append, cons-append}
use bff_api_go_collection_ac.Base.{
  ℕ, ◌%◌, String, ◌≡◌, ◌≢◌, refl, true, false, ◌||◌, ◌==◌, List, some, length, eqb, if◌then◌else◌,
  Bool-cases, inl, inr, arith,
}
use bff_api_go_collection_ac.Base.Maps.{Map, find}
use bff_api_go_collection_ac.Base.Results.{ok, err}
use bff_api_go_collection_ac.Base.Texts.{IsFree, eq_false_of_ne}
use bff_api_go_collection_ac.Notifications.Cursor.{
  Codec, Filters, invalid_notification_cursor, trim_padding, pad, cut_dot, payload_of, cursor_scope,
  cursor_b64, cursor_decode_b64, encode, decode, read_payload,
}

-- A text of base64 without its padding.
pub record IsBody (body : String) : Type 0 where
  pub no_padding : IsFree b'=' body
  pub no_dot : IsFree b'.' body

-- What the packages say of themselves: base64 writes a body and its padding, and reads it back,
-- and a signature and an encoded map have some bytes.
pub record IsSound {Byte : Type 0} (c : Codec Byte) : Type 0 where
  pub body : List Byte → String
  pub encode_lem : (bs : List Byte) → c.b64.encode bs ≡ pad (body bs)
  pub body-IsBody : (bs : List Byte) → IsBody (body bs)
  pub filled : (bs : List Byte) → 0 < length bs → body bs ≢ ""
  pub back : (bs : List Byte) → c.b64.decode (c.b64.encode bs) ≡ some bs
  pub mac_length : (s : String) → 0 < length (c.mac s)
  pub equal_refl : (bs : List Byte) → c.equal bs bs ≡ true
  pub marshal_length : (m : Map String) → 0 < length (c.marshal m)

trim_padding-append :
    (s : String) (t : String)
    → IsFree b'=' s
    → trim_padding t ≡ ""
    → trim_padding (String.◌++◌ s t) ≡ s
unfolding trim_padding
trim_padding-append [] t h e = rw nil-append e
trim_padding-append (c ∷ s) t (n, h) e =
    rw (cons-append, trim_padding-append s t h e) (ground arith)

trim_padding-free : (s : String) → IsFree b'=' s → trim_padding s ≡ s
unfolding trim_padding
trim_padding-free [] h = refl
trim_padding-free (c ∷ s) (n, h) = rw (trim_padding-free s h) (ground arith)

padding_two : trim_padding "==" ≡ ""
unfolding trim_padding
padding_two = refl

padding_one : trim_padding "=" ≡ ""
unfolding trim_padding
padding_one = refl

pub trim_padding-pad : (s : String) → IsFree b'=' s → trim_padding (pad s) ≡ s
unfolding pad
trim_padding-pad s h = elim (Bool-cases (eqb (len s % 4) 2)) [
  | inl two ↦ rw two (trim_padding-append s "==" h padding_two)
  | inr other ↦ elim (Bool-cases (eqb (len s % 4) 3)) [
    | inl three ↦ rw (other, three) (trim_padding-append s "=" h padding_one)
    | inr none_left ↦ rw (other, none_left) (trim_padding-free s h)
  ]
]

not_equal : (m n : ℕ) → m ≢ n → eqb m n ≡ false
not_equal m n h = ground arith

cut_dot-append :
    (s t : String) → IsFree b'.' s → cut_dot (String.◌++◌ s (String.◌++◌ "." t)) ≡ some (s, t)
unfolding cut_dot
cut_dot-append [] t h = rw (nil-append, cons-append, nil-append) refl
cut_dot-append (c ∷ s) t (n, h) =
    rw (cons-append, cut_dot-append s t h, not_equal (code c) 46 n, cons-append, nil-append)

module _ {Byte : Type 0} (c : Codec Byte) (sound : IsSound c) where
  cursor_b64-body : (bs : List Byte) → cursor_b64 c bs ≡ sound.body bs
  cursor_b64-body bs =
      rw (sound.encode_lem bs) (trim_padding-pad (sound.body bs) (sound.body-IsBody bs).no_padding)

  cursor_decode_b64-body : (bs : List Byte) → cursor_decode_b64 c (sound.body bs) ≡ ok bs
  cursor_decode_b64-body bs = rw (← sound.encode_lem bs, sound.back bs)

  read_made :
      (created_at notification_id : String) (f f' : Filters)
      → read_payload c (payload_of created_at notification_id (cursor_scope c f)) f' ≡ (
          if cursor_scope c f == cursor_scope c f'
          then if created_at == "" || notification_id == ""
            then err invalid_notification_cursor
            else ok (created_at, notification_id)
          else err invalid_notification_cursor)
  unfolding find
  read_made created_at notification_id f f' =
      elim (Bool-cases (cursor_scope c f == cursor_scope c f')) [
        | inr other ↦ rw other
        | inl same ↦ elim (Bool-cases (created_at == "" || notification_id == "")) [
          | inl blank ↦ rw (same, blank)
          | inr filled ↦ rw (same, filled)
        ]
      ]

  -- A cursor is read back by the list that it was made for, with the time and the id that it
  -- holds, and by a list with another scope it is refused; one without a time or an id is refused
  -- by all. Its texts are such that encoding/json reads them back, as it does for valid UTF-8.
  pub decode-encode :
      (created_at notification_id : String) (f f' : Filters)
      → (let m = payload_of created_at notification_id (cursor_scope c f) in
          c.unmarshal (c.marshal m) ≡ some m)
      → decode c (encode c created_at notification_id f) f' ≡ (
          if cursor_scope c f == cursor_scope c f'
          then if created_at == "" || notification_id == ""
            then err invalid_notification_cursor
            else ok (created_at, notification_id)
          else err invalid_notification_cursor)
  unfolding decode encode find
  decode-encode created_at notification_id f f' read_back =
      let m = payload_of created_at notification_id (cursor_scope c f) in
      let raw = c.marshal m in
      let encoded = sound.body raw in
      rw
        (
          cursor_b64-body raw,
          cursor_b64-body (c.mac encoded),
          cut_dot-append encoded (sound.body (c.mac encoded)) (sound.body-IsBody raw).no_dot,
          eq_false_of_ne encoded "" (sound.filled raw (sound.marshal_length m)),
          eq_false_of_ne (sound.body (c.mac encoded)) ""
              (sound.filled _ (sound.mac_length encoded)),
          cursor_decode_b64-body (c.mac encoded),
          sound.equal_refl (c.mac encoded),
          cursor_decode_b64-body raw,
          read_back,
        )
        (read_made created_at notification_id f f')
