-- ===== src/Notifications/Handlers.antt =====
-- internal/interface/api/handler/notifications.go. A handler takes the state of the cache, the caller
-- that the checks have found, what the request brings, and what the core would answer to a call of
-- the use case; it gives the cache afterwards and the answer. The tenant is that of the request's
-- context. The events of a stream are written by Notifications.Stream.
pub mod Events
pub mod Paging
pub mod Resumed
use Prim.Native.Nat.{zero}
use bff_api_go_collection_ac.Base.{
  ℕ, String, Bool, true, false, not, ◌&&◌, ◌||◌, ◌==◌, List, Option, none, some, map, ltb, ◌^◌,
  if◌then◌else◌,
}
use bff_api_go_collection_ac.Base.Ints.{ℤ, pos, ltb_ℤ}
use bff_api_go_collection_ac.Base.Results.{Result, ok, err, guard, ◌>>=◌, ◌>>◌}
use bff_api_go_collection_ac.Base.Texts.Decimal.{itoa}
use bff_api_go_collection_ac.Domain.Errors.{Error, ApiError, write_err}
use bff_api_go_collection_ac.Json.{Fields, end, get}
use bff_api_go_collection_ac.Auth.Access.{
  CognitoContext, Refusal, invalid_auth_token, require_scope,
}
use bff_api_go_collection_ac.Notifications.Contract.{
  atoi, notification_items, notification_string, notification_count, map_notification_item,
  map_notification_detail, as_object_map,
}
use bff_api_go_collection_ac.Notifications.Cursor.{Codec, Filters, CursorError, encode, decode}
use bff_api_go_collection_ac.Notifications.Usecase.{
  NotificationReadCache, Answer, ListQuery, list_notifications, unread_count, mark_all_read,
  mark_read,
}

pub data Response : Type 0 where
  refused : Refusal → Response
  invalid : (http_status code : ℕ) (message : String) → Response
  failed : ApiError → Response
  page : (mapped : List Fields) (next_cursor : Option String) → Response
  count : ℤ → Response
  detail : Fields → Response
  no_content : Response

-- The query of a list; a parameter that is missing is none where the code has a default.
pub record ListParams : Type 0 where
  pub limit : Option String
  pub state : Option String
  pub severity : String
  pub from : String
  pub from_date : String
  pub to : String
  pub to_date : String
  pub before_at : String
  pub before_id : String
  pub cursor : String

abbrev pub or_default : String → Option String → String
or_default d none = d
or_default d (some s) = s

abbrev pub or_else_text : String → String → String
or_else_text s t = if s == "" then t else s

-- A limit that is not from 1 to 100 counts as the default.
abbrev pub clamp_limit : ℤ → ℤ → ℤ
clamp_limit d n = if ltb_ℤ n (pos 1) || ltb_ℤ (pos 100) n then d else n

abbrev pub filters_of : (email : String) → ListParams → Filters
filters_of email p = record {
  recipient = email;
  state = or_default "all" p.state;
  severity = p.severity;
  from_date = or_else_text p.from p.from_date;
  to_date = or_else_text p.to p.to_date;
}

-- What the use case is asked for, from a position on.
abbrev pub query_at :
    (tenant_id email : String) → ListParams → (before_at before_id : String) → ListQuery
query_at tenant_id email p before_at before_id =
    let f = filters_of email p in
    record {
      tenant_id = tenant_id;
      user_email = email;
      state = f.state;
      severity = f.severity;
      from_date = f.from_date;
      to_date = f.to_date;
      limit = clamp_limit (pos 50) (atoi (or_default "50" p.limit));
      before_at = before_at;
      before_id = before_id;
    }

abbrev pub next_at : Option Fields → String
next_at none = ""
next_at (some m) =
    notification_string m (List.◌∷◌ "next_before_at" (List.◌∷◌ "NextBeforeAt" List.[]))

abbrev pub next_id : Option Fields → String
next_id none = ""
next_id (some m) =
    notification_string m (List.◌∷◌ "next_before_id" (List.◌∷◌ "NextBeforeID" List.[]))

module _ {Byte : Type 0} (cursors : Codec Byte) where
  -- The position of a list: that of its cursor, if it brings one.
  unfoldable pub position_of : (email : String) → ListParams → Result CursorError (String × String)
  position_of email p =
      if p.cursor == ""
      then ok (p.before_at, p.before_id)
      else decode cursors p.cursor (filters_of email p)

  abbrev pub next_cursor_of :
      (email : String) → ListParams → (before_at before_id : String) → Option String
  next_cursor_of email p before_at before_id =
      if not (before_at == "") && not (before_id == "")
      then some (encode cursors before_at before_id (filters_of email p))
      else none

  abbrev pub list_response : (email : String) → ListParams → Answer → Response
  list_response email p (err e) =
      failed (write_err e 5040 "No se pudo cargar la lista de notificaciones.")
  list_response email p (ok result) =
      page (map map_notification_item (notification_items result))
        (next_cursor_of email p (next_at result) (next_id result))

  module _ {C : Type 0} (ops : NotificationReadCache C) (tenant_id : String) where
    -- The list from a position on, or the refusal of a cursor.
    abbrev pub list_at :
        Option C
        → (email : String) → ListParams
        → (core : ListQuery → Answer) → Result CursorError (String × String)
        → Option C × Response
    list_at cache email p core (err e) =
        (cache, invalid 422 5040 "cursor de notificaciones inválido")
    list_at cache email p core (ok (before_at, before_id)) =
        let q = query_at tenant_id email p before_at before_id in
        let (after, answer) = list_notifications ops cache q (core q) in
        (after, list_response email p answer)

    abbrev pub list_for :
        Option C
        → ListParams
        → (core : ListQuery → Answer) → Result Refusal CognitoContext
        → Option C × Response
    list_for cache p core (err e) = (cache, refused e)
    list_for cache p core (ok ctx) = list_at cache ctx.email p core (position_of ctx.email p)

    -- ListNotifications
    unfoldable pub handle_list :
        Option C
        → Option CognitoContext
        → ListParams
        → (core : ListQuery → Answer) → Option C × Response
    handle_list cache caller p core =
        list_for cache p core (require_scope caller "notifications:read")

abbrev pub count_response : ℕ → String → Answer → Response
count_response code message (err e) = failed (write_err e code message)
count_response code message (ok result) = count (notification_count result)

-- The answer to a call that gives nothing but an error.
abbrev pub done_response : ℕ → String → Option Error → Response
done_response code message (some e) = failed (write_err e code message)
done_response code message none = no_content

abbrev pub error_of : Answer → Option Error
error_of (err e) = some e
error_of (ok result) = none

abbrev pub nested_or : Option Fields → Fields → Fields
nested_or none result = result
nested_or (some nested) result = nested

abbrev pub detail_response : Answer → Response
detail_response (err e) =
    failed (write_err e 5041 "No se pudo obtener el detalle de la notificación.")
detail_response (ok none) = detail (map_notification_detail end)
detail_response (ok (some result)) =
    detail (map_notification_detail (nested_or (as_object_map (get "data" result)) result))

-- GetDetail
unfoldable pub handle_detail :
    Option CognitoContext
    → (notification_id : String) → (core : (id email : String) → Answer) → Response
handle_detail none notification_id core = refused invalid_auth_token
handle_detail (some ctx) notification_id core = detail_response (core notification_id ctx.email)

-- RegisterDevice; the payload is none where it is no object.
unfoldable pub handle_register :
    Option CognitoContext
    → (payload : Option (Option Fields)) → (core : Option Fields → String → Answer) → Response
handle_register none payload core = refused invalid_auth_token
handle_register (some ctx) none core = invalid 400 5044 "Payload inválido."
handle_register (some ctx) (some payload) core =
    done_response 5044 "No se pudo registrar el dispositivo." (error_of (core payload ctx.email))

-- RevokeDevice
unfoldable pub handle_revoke :
    Option CognitoContext
    → (installation_id : String) → (core : (id email : String) → Option Error) → Response
handle_revoke none installation_id core = refused invalid_auth_token
handle_revoke (some ctx) installation_id core =
    if installation_id == ""
    then invalid 400 5045 "Se requiere installation_id."
    else done_response 5045 "No se pudo revocar el dispositivo." (core installation_id ctx.email)

module _ {C : Type 0} (ops : NotificationReadCache C) (tenant_id : String) where
  -- UnreadCount
  unfoldable pub handle_unread :
      Option C → Option CognitoContext → (core : String → Answer) → Option C × Response
  handle_unread cache none core = (cache, refused invalid_auth_token)
  handle_unread cache (some ctx) core =
      let (after, answer) = unread_count ops cache tenant_id ctx.email (core ctx.email) in
      (after, count_response 5040 "No se pudo obtener el conteo de no leídas." answer)

  -- MarkAllRead
  unfoldable pub handle_mark_all :
      Option C → Option CognitoContext → (core : String → Answer) → Option C × Response
  handle_mark_all cache none core = (cache, refused invalid_auth_token)
  handle_mark_all cache (some ctx) core =
      let (after, answer) = mark_all_read ops cache tenant_id ctx.email (core ctx.email) in
      (after, count_response 5043 "No se pudieron marcar las notificaciones como leídas." answer)

  -- MarkRead
  unfoldable pub handle_mark :
      Option C
      → Option CognitoContext
      → (notification_id : String) → (core : (id email : String) → Option Error)
      → Option C × Response
  handle_mark cache none notification_id core = (cache, refused invalid_auth_token)
  handle_mark cache (some ctx) notification_id core =
      let (after, answer) =
        mark_read ops cache tenant_id ctx.email (core notification_id ctx.email) in
      (after, done_response 5043 "No se pudo marcar la notificación como leída." answer)
