-- ===== src/Notifications/Handlers/Resumed.antt =====
-- A stream goes on behind the event that the client names.
use bff_api_go_collection_ac.Base.{ℕ, ◌≡◌, Option, none, some, Bool-cases, inl, inr, refl}
use bff_api_go_collection_ac.Base.Ints.{pos}
use bff_api_go_collection_ac.Base.Results.{Result, ok, err}
use bff_api_go_collection_ac.Auth.Access.{CognitoContext, Refusal, require_scope}
use bff_api_go_collection_ac.Notifications.Usecase.{Answer}
use bff_api_go_collection_ac.Notifications.Contract.{notification_items}
use bff_api_go_collection_ac.Notifications.Stream.{Step, retry, opened, serve, atoi_nonneg}
use bff_api_go_collection_ac.Notifications.Stream.Order.{
  IsSound, serve-IsSound, write_other-IsSound,
}
use bff_api_go_collection_ac.Notifications.Handlers.Events.{
  EventParams, StreamAnswer, answered, streamed, Connection, after_text, events_limit, recovery_of,
  finish, stream_from, events_from, events_for, handle_events,
}

-- A stream that is for a caller who may read notifications, and that starts at the event which
-- the request names.
abbrev pub IsResumed : Option CognitoContext → EventParams → StreamAnswer → Type 0
IsResumed caller p (answered r) = Unit
IsResumed caller p (streamed s) =
    (ctx : CognitoContext) × (last : ℕ) × (require_scope caller "notifications:read" ≡ ok ctx)
    × (atoi_nonneg (after_text p) ≡ some last)
    × IsSound (pos last) s

module _ (c : Connection) where
  finish-IsSound : (last : ℕ) (m : Step) → IsSound (pos last) m.0 → IsSound (pos last) (finish c m)
  finish-IsSound last (s, none) h = h
  finish-IsSound last (s, some e) h = elim (Bool-cases c.has_ended) [
    | inl ended ↦ rw ended h
    | inr lasting ↦
        rw lasting (write_other-IsSound c.fails (pos last) s (retry "stream_unavailable") refl h)
  ]

  stream_from-IsResumed :
      (caller : Option CognitoContext) (ctx : CognitoContext) (p : EventParams) (last : ℕ)
      (answer : Answer)
      → require_scope caller "notifications:read" ≡ ok ctx
      → atoi_nonneg (after_text p) ≡ some last
      → IsResumed caller p (stream_from c ctx.email last (events_limit p) answer)
  stream_from-IsResumed caller ctx p last (err e) allowed h = tt
  stream_from-IsResumed caller ctx p last (ok result) allowed h =
      let recovery = recovery_of (c.later ctx.email) (events_limit p) in
      let items = notification_items result in
      let served = serve c.fails recovery items (opened (pos last)) c.incoming in
      let sound = serve-IsSound c.fails (pos last) recovery items c.incoming in
      (ctx, last, allowed, h, finish-IsSound last served sound)

  events_from-IsResumed :
      (caller : Option CognitoContext) (ctx : CognitoContext) (p : EventParams) (last : Option ℕ)
      → require_scope caller "notifications:read" ≡ ok ctx
      → atoi_nonneg (after_text p) ≡ last
      → IsResumed caller p (events_from c ctx.email p last)
  events_from-IsResumed caller ctx p none allowed h = tt
  events_from-IsResumed caller ctx p (some last) allowed h =
      stream_from-IsResumed caller ctx p last (c.first ctx.email (pos last) (events_limit p))
        allowed h

  events_for-IsResumed :
      (caller : Option CognitoContext) (p : EventParams) (r : Result Refusal CognitoContext)
      → require_scope caller "notifications:read" ≡ r
      → IsResumed caller p (events_for c p r)
  events_for-IsResumed caller p (err e) h = tt
  events_for-IsResumed caller p (ok ctx) h =
      events_from-IsResumed caller ctx p (atoi_nonneg (after_text p)) h refl

  -- A stream of events is opened only for a caller with the scope notifications:read, and only
  -- if the first of the header and the two parameters that is not empty is a number that is not
  -- negative (0 if all are empty). Whatever the core and Redis hand over after that, and whichever
  -- write fails, the notifications that it has written are in the order of their ids, none twice,
  -- and all above that number.
  pub handle_events-IsResumed :
      (caller : Option CognitoContext) (p : EventParams)
      → IsResumed caller p (handle_events c caller p)
  unfolding handle_events
  handle_events-IsResumed caller p =
      events_for-IsResumed caller p (require_scope caller "notifications:read") refl
