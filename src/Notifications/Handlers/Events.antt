-- ===== src/Notifications/Handlers/Events.antt =====
-- NotificationEventsAfter of internal/interface/api/handler/notifications.go: the events that the
-- core lists behind the last one that the client has seen, and the stream that goes on from there.
use bff_api_go_collection_ac.Base.{ℕ, String, Bool, List, Option, none, some, if◌then◌else◌}
use bff_api_go_collection_ac.Base.Ints.{ℤ, pos}
use bff_api_go_collection_ac.Base.Results.{Result, ok, err}
use bff_api_go_collection_ac.Domain.Errors.{write_err}
use bff_api_go_collection_ac.Json.{Fields}
use bff_api_go_collection_ac.Auth.Access.{CognitoContext, Refusal, require_scope}
use bff_api_go_collection_ac.Notifications.Contract.{atoi, notification_items}
use bff_api_go_collection_ac.Notifications.Usecase.{Answer}
use bff_api_go_collection_ac.Notifications.Stream.{
  Frame, retry, Stream, Step, Recovery, recover_after, Incoming, opened, write, serve, atoi_nonneg,
}
use bff_api_go_collection_ac.Notifications.Handlers.{
  Response, refused, invalid, failed, or_default, or_else_text, clamp_limit,
}

-- What the request says of the last event; "" for what it does not say.
pub record EventParams : Type 0 where
  pub limit : Option String
  pub last_event_id : String
  pub after : String
  pub after_event_id : String

pub data StreamAnswer : Type 0 where
  answered : Response → StreamAnswer
  streamed : Stream → StreamAnswer

abbrev pub after_text : EventParams → String
after_text p =
    or_else_text (or_else_text (or_else_text p.last_event_id p.after) p.after_event_id) "0"

abbrev pub events_limit : EventParams → ℤ
events_limit p = clamp_limit (pos 100) (atoi (or_default "100" p.limit))

abbrev pub items_of : Answer → Option (List Fields)
items_of (err e) = none
items_of (ok result) = some (notification_items result)

-- recoverAfter, for what the core answers by then.
abbrev pub recovery_of : (later : (after limit : ℤ) → Answer) → ℤ → Recovery
recovery_of later limit = recover_after (λ after. items_of (later after limit))

-- The connection: whether a write fails, whether the request has ended by the time that the
-- stream stops, what the core answers at first and later, and what Redis hands over.
pub record Connection : Type 0 where
  pub fails : List Frame → Frame → Bool
  pub has_ended : Bool
  pub first : (email : String) → (after limit : ℤ) → Answer
  pub later : (email : String) → (after limit : ℤ) → Answer
  pub incoming : Option (List Incoming)

module _ (c : Connection) where
  -- What is written when the stream stops with an error.
  abbrev pub finish : Step → Stream
  finish (s, none) = s
  finish (s, some e) = if c.has_ended then s else (write c.fails s (retry "stream_unavailable")).0

  abbrev pub stream_from : (email : String) → (last_id : ℕ) → (limit : ℤ) → Answer → StreamAnswer
  stream_from email last_id limit (err e) =
      answered (failed (write_err e 5040 "No se pudo cargar los eventos de notificaciones."))
  stream_from email last_id limit (ok result) =
      let recovery = recovery_of (c.later email) limit in
      streamed (
        finish
          (serve c.fails recovery (notification_items result) (opened (pos last_id)) c.incoming))

  abbrev pub events_from : (email : String) → EventParams → Option ℕ → StreamAnswer
  events_from email p none = answered (invalid 422 5040 "Last-Event-ID inválido")
  events_from email p (some last_id) =
      let limit = events_limit p in
      stream_from email last_id limit (c.first email (pos last_id) limit)

  abbrev pub events_for : EventParams → Result Refusal CognitoContext → StreamAnswer
  events_for p (err e) = answered (refused e)
  events_for p (ok ctx) = events_from ctx.email p (atoi_nonneg (after_text p))

  unfoldable pub handle_events : Option CognitoContext → EventParams → StreamAnswer
  handle_events caller p = events_for p (require_scope caller "notifications:read")
