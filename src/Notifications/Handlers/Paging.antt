-- ===== src/Notifications/Handlers/Paging.antt =====
-- The pages of a list: the cursor of one leads to the next.
use Prim.Native.Char.{Char}
use Prim.Native.String
use Prim.Native.String.{[], ◌∷◌}
use text.Mathlib.TextLemmas.{nil-append, cons-append}
use bff_api_go_collection_ac.Base.{
  String, ◌≡◌, ◌≢◌, refl, ◌==◌, Option, some, map, if◌then◌else◌, Bool-cases, inl, inr,
}
use bff_api_go_collection_ac.Base.Results.{ok, err}
use bff_api_go_collection_ac.Base.Texts.{eq_false_of_ne}
use bff_api_go_collection_ac.Json.{Fields}
use bff_api_go_collection_ac.Auth.Access.{CognitoContext, require_scope}
use bff_api_go_collection_ac.Notifications.Contract.{map_notification_item, notification_items}
use bff_api_go_collection_ac.Notifications.Cursor.{
  Codec, Filters, invalid_notification_cursor, payload_of, cursor_scope, encode,
}
use bff_api_go_collection_ac.Notifications.Cursor.Bound.{IsSound, decode-encode}
use bff_api_go_collection_ac.Notifications.Usecase.{
  NotificationReadCache, Answer, ListQuery, list_notifications,
}
use bff_api_go_collection_ac.Notifications.Handlers.{
  invalid, page, ListParams, filters_of, query_at, next_at, next_id, position_of, list_at,
  handle_list,
}

cons_not_empty : (c : Char) (s : String) → c ∷ s ≢ ""
cons_not_empty c s e = cc

has_dot : (s t : String) → String.◌++◌ s (String.◌++◌ "." t) ≢ ""
has_dot [] t = rw (nil-append, cons-append) (cons_not_empty _ _)
has_dot (c ∷ s) t = rw cons-append (cons_not_empty c _)

module _ {Byte : Type 0} (cursors : Codec Byte) (sound : IsSound cursors) where
  encode_not_empty :
      (created_at notification_id : String) (f : Filters)
      → encode cursors created_at notification_id f ≢ ""
  unfolding encode
  encode_not_empty created_at notification_id f = has_dot _ _

  position_of-encode :
      (created_at notification_id email : String) (f : Filters) (p : ListParams)
      → created_at ≢ ""
      → notification_id ≢ ""
      → p.cursor ≡ encode cursors created_at notification_id f
      → (let m = payload_of created_at notification_id (cursor_scope cursors f) in
          cursors.unmarshal (cursors.marshal m) ≡ some m)
      → position_of cursors email p ≡ (
          if cursor_scope cursors f == cursor_scope cursors (filters_of email p)
          then ok (created_at, notification_id)
          else err invalid_notification_cursor)
  unfolding position_of
  position_of-encode created_at notification_id email f p at_given id_given sent read_back =
      rw
        (
          sent,
          eq_false_of_ne (encode cursors created_at notification_id f) ""
              (encode_not_empty created_at notification_id f),
          decode-encode cursors sound created_at notification_id f (filters_of email p) read_back,
          eq_false_of_ne created_at "" at_given,
          eq_false_of_ne notification_id "" id_given,
        )
        refl

  -- A page that the core has answered with a position of the next one shows a cursor. Sent back,
  -- by whatever caller that may read notifications, with whatever other parameters and with
  -- whatever the cache holds by then, the cursor has the list go on from that position if the
  -- caller and the filters are those of the first list (as far as SHA-256 tells them apart), and is
  -- refused with 422 otherwise, with nothing asked and the cache left as it is. Base64, HMAC and
  -- encoding/json are those of Codec, and the latter reads the texts of the position back.
  pub handle_list-next :
      {C : Type 0} (ops : NotificationReadCache C) (tenant_id : String) (cache later : Option C)
      (ctx next_ctx : CognitoContext) (p next : ListParams) (core next_core : ListQuery → Answer)
      (before_at before_id : String) (result : Option Fields)
      → require_scope (some ctx) "notifications:read" ≡ ok ctx
      → require_scope (some next_ctx) "notifications:read" ≡ ok next_ctx
      → position_of cursors ctx.email p ≡ ok (before_at, before_id)
      → (let q = query_at tenant_id ctx.email p before_at before_id in
          (list_notifications ops cache q (core q)).1 ≡ ok result)
      → next_at result ≢ ""
      → next_id result ≢ ""
      → (let m =
            payload_of
              (next_at result)
              (next_id result)
              (cursor_scope cursors (filters_of ctx.email p)) in
          cursors.unmarshal (cursors.marshal m) ≡ some m)
      → next.cursor ≡ encode cursors (next_at result) (next_id result) (filters_of ctx.email p)
      → ((handle_list cursors ops tenant_id cache (some ctx) p core).1
          ≡ page (map map_notification_item (notification_items result)) (some next.cursor))
        × (handle_list cursors ops tenant_id later (some next_ctx) next next_core ≡ (
            if cursor_scope cursors (filters_of ctx.email p)
              == cursor_scope cursors (filters_of next_ctx.email next)
            then list_at cursors ops tenant_id later next_ctx.email next next_core
                (ok (next_at result, next_id result))
            else (later, invalid 422 5040 "cursor de notificaciones inválido")))
  unfolding handle_list
  handle_list-next ops tenant_id cache later ctx next_ctx p next core next_core before_at before_id
        result allowed next_allowed position answered at_given id_given read_back sent =
      (
        rw
            (
              allowed,
              position,
              answered,
              eq_false_of_ne (next_at result) "" at_given,
              eq_false_of_ne (next_id result) "" id_given,
              sent,
            )
            refl,
        rw
            (
              next_allowed,
              position_of-encode (next_at result) (next_id result) next_ctx.email
                  (filters_of ctx.email p) next at_given id_given sent read_back,
            )
            (elim (Bool-cases (
              cursor_scope cursors (filters_of ctx.email p)
              == cursor_scope cursors (filters_of next_ctx.email next))) [
                | inl same ↦ rw same refl
                | inr other ↦ rw other refl
              ]),
      )
