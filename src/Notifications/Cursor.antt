-- ===== src/Notifications/Cursor.antt =====
-- internal/interface/api/handler/notification_cursor.go. SHA-256 in hex, HMAC-SHA256 with the
-- secret of the service, base64 with its padding, and encoding/json are parameters.
pub mod Bound
use Prim.Native.Char.{code}
use Prim.Native.String
use Prim.Native.String.{[], ◌∷◌, len}
use bff_api_go_collection_ac.Base.{
  ℕ, ◌%◌, String, Bool, true, false, not, ◌&&◌, ◌||◌, ◌==◌, List, Option, none, some, eqb,
  if◌then◌else◌,
}
use bff_api_go_collection_ac.Base.Maps.{Map, find}
use bff_api_go_collection_ac.Base.Results.{Result, ok, err, guard, ◌>>=◌, ◌>>◌}
use bff_api_go_collection_ac.Base.Texts.{trim_space, to_lower}
use bff_api_go_collection_ac.FieldCrypto.Envelope.{Base64}

-- errInvalidNotificationCursor
pub data CursorError : Type 0 where
  invalid_notification_cursor : CursorError

-- notificationCursorCodec, with the packages that it uses; `equal` is hmac.Equal.
pub record Codec (Byte : Type 0) : Type 0 where
  pub b64 : Base64 Byte
  pub mac : String → List Byte
  pub equal : List Byte → List Byte → Bool
  pub sha256_hex : String → String
  pub marshal : Map String → List Byte
  pub unmarshal : List Byte → Option (Map String)

-- The list that a cursor belongs to.
pub record Filters : Type 0 where
  pub recipient : String
  pub state : String
  pub severity : String
  pub from_date : String
  pub to_date : String

-- A text behind the byte 0.
abbrev behind_zero : String → String
behind_zero s = String.◌++◌ "\0" s

-- notificationCursorScope, before it is hashed.
abbrev pub scope_text : Filters → String
scope_text f = String.◌++◌ (to_lower (trim_space f.recipient)) (
    String.◌++◌ (behind_zero f.state) (
      String.◌++◌ (behind_zero f.severity)
        (String.◌++◌ (behind_zero f.from_date) (behind_zero f.to_date))))

abbrev is_empty : String → Bool
is_empty [] = true
is_empty (c ∷ s) = false

-- strings.TrimRight(s, "=")
unfoldable pub trim_padding : String → String
trim_padding [] = []
trim_padding (c ∷ s) =
    let rest = trim_padding s in if eqb (code c) 61 && is_empty rest then [] else c ∷ rest

unfoldable pub pad : String → String
pad value =
    if eqb (len value % 4) 2
    then String.◌++◌ value "=="
    else if eqb (len value % 4) 3
    then String.◌++◌ value "="
    else value

-- strings.Cut at the first dot.
abbrev cut_cons : String → Option (String × String) → Option (String × String)
cut_cons c none = none
cut_cons c (some (before, behind)) = some (String.◌++◌ c before, behind)

unfoldable pub cut_dot : String → Option (String × String)
cut_dot [] = none
cut_dot (c ∷ s) =
    let rest = cut_dot s in if eqb (code c) 46 then some ("", s) else cut_cons (c ∷ []) rest

-- A key of the payload, "" if it is missing.
abbrev pub text_of : Option String → String
text_of none = ""
text_of (some s) = s

abbrev pub or_invalid {ℓ} : {A : Type ℓ} → Option A → Result CursorError A
or_invalid none = err invalid_notification_cursor
or_invalid (some a) = ok a

abbrev pub payload_of : (created_at notification_id scope : String) → Map String
payload_of created_at notification_id scope =
    List.◌∷◌ ("created_at", created_at)
      (List.◌∷◌ ("notification_id", notification_id) (List.◌∷◌ ("scope", scope) List.[]))

module _ {Byte : Type 0} (c : Codec Byte) where
  abbrev pub cursor_scope : Filters → String
  cursor_scope f = c.sha256_hex (scope_text f)

  abbrev pub cursor_b64 : List Byte → String
  cursor_b64 value = trim_padding (c.b64.encode value)

  abbrev pub cursor_decode_b64 : String → Result CursorError (List Byte)
  cursor_decode_b64 value = or_invalid (c.b64.decode (pad value))

  unfoldable pub encode : (created_at notification_id : String) → Filters → String
  encode created_at notification_id f =
      let encoded =
        cursor_b64 (c.marshal (payload_of created_at notification_id (cursor_scope f))) in
      String.◌++◌ encoded (String.◌++◌ "." (cursor_b64 (c.mac encoded)))

  -- What follows the signature.
  abbrev pub read_payload : Map String → Filters → Result CursorError (String × String)
  read_payload payload f = do
    guard (text_of (find "scope" payload) == cursor_scope f) invalid_notification_cursor
    let created_at = text_of (find "created_at" payload)
    let notification_id = text_of (find "notification_id" payload)
    guard (not (created_at == "" || notification_id == "")) invalid_notification_cursor
    ok (created_at, notification_id)

  unfoldable pub decode : String → Filters → Result CursorError (String × String)
  decode cursor f = do
    parts ← or_invalid (cut_dot cursor)
    guard (not (parts.0 == "" || parts.1 == "")) invalid_notification_cursor
    supplied ← cursor_decode_b64 parts.1
    guard (c.equal (c.mac parts.0) supplied) invalid_notification_cursor
    raw ← cursor_decode_b64 parts.0
    payload ← or_invalid (c.unmarshal raw)
    read_payload payload f
