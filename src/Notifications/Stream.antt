-- ===== src/Notifications/Stream.antt =====
-- internal/infrastructure/notifications/sse.go. Redis is what it hands over: a list of what the
-- calls of ReceiveTimeout give, in order. A writer is a test of whether a write fails, which may
-- depend on what was written before. What is written is a list of frames, the newest first.
pub mod Order
pub mod Ids
use Prim.Native.Char.{Char, code}
use Prim.Native.String.{[], ◌∷◌}
use bff_api_go_collection_ac.Base.{
  ℕ, zero, suc, ◌+◌, ◌-◌, ◌*◌, ◌^◌, String, Bool, true, false, not, List, [], ◌∷◌, Option, none,
  some, ◌==◌, ltb, leb, eqb, ◌&&◌, ◌||◌, if◌then◌else◌,
}
use bff_api_go_collection_ac.Base.Ints.{ℤ, pos, negsuc, ltb_ℤ}
use bff_api_go_collection_ac.Base.Texts.Decimal.{itoa}
use bff_api_go_collection_ac.Json.{Json, null, is_null, Fields, get}
use bff_api_go_collection_ac.Json.Print.{sprint}

-- The value of a text of digits, and how many there are.
abbrev pub digit_of : Char → Option ℕ → Option ℕ
digit_of c none = none
digit_of c (some n) =
    if leb 48 (code c) && leb (code c) 57 then some (10 * n + (code c - 48)) else none

unfoldable pub digits_from : String → Option ℕ → Option ℕ
digits_from [] acc = acc
digits_from (c ∷ s) acc = digits_from s (digit_of c acc)

abbrev pub in_range : Option ℕ → Option ℕ
in_range none = none
in_range (some n) = if ltb n (2 ^ 63) then some n else none

-- strconv.Atoi, as far as the result is not negative: digits behind a plus sign or none, or a
-- zero behind a minus sign; with the numbers of an int64.
abbrev pub unsigned : String → Option ℕ
unsigned [] = none
unsigned (c ∷ s) = digits_from (c ∷ s) (some 0)

abbrev zero_only : Option ℕ → Option ℕ
zero_only (some zero) = some 0
zero_only o = none

unfoldable pub atoi_nonneg : String → Option ℕ
unfolding digits_from
atoi_nonneg [] = none
atoi_nonneg (c ∷ s) =
    if eqb (code c) 43
    then in_range (unsigned s)
    else if eqb (code c) 45
    then zero_only (unsigned s)
    else in_range (unsigned (c ∷ s))

abbrev id_of_value : Json → Option ℕ
id_of_value raw = if is_null raw then none else atoi_nonneg (sprint raw)

-- pickField with two keys
abbrev pick : Option Json → Option Json → Json
pick (some null) (some v) = v
pick (some null) none = null
pick (some v) other = v
pick none (some v) = v
pick none none = null

-- EventFrame: the id of an event, which its frame shows.
unfoldable pub event_id_of : Fields → Option ℕ
event_id_of event = id_of_value (pick (get "event_id" event) (get "EventID" event))

-- What is written.
pub data Frame : Type 0 where
  notification : ℕ → Frame
  retry : (reason : String) → Frame
  connected : Frame
  keep_alive : Frame

pub record Stream : Type 0 where
  pub last_event_id : ℤ
  pub written : List Frame

-- NewSSE: the stream of a client whose last event is `last_event_id`.
abbrev pub opened : ℤ → Stream
opened last_event_id = record { last_event_id = last_event_id; written = [] }

-- An error of the writer, or one of the recovery.
pub data StreamError : Type 0 where
  write_failed : StreamError
  recovery_failed : StreamError

abbrev pub Step : Type 0
Step = Stream × Option StreamError

-- The recovery after an event: the events that the core lists, or none if it fails; the nil
-- function is `no_recovery`.
pub data Recovery : Type 0 where
  no_recovery : Recovery
  recover_after : (ℤ → Option (List Fields)) → Recovery

-- What one round of the loop meets: the end of the lifetime, the end of the request, a receive
-- that fails otherwise (so after a timeout), a message that is none or that holds no object, and
-- a message with an event.
pub data Incoming : Type 0 where
  lifetime_over : Incoming
  request_over : Incoming
  timeout : Incoming
  ignored : Incoming
  message : Fields → Incoming

module _ (fails : List Frame → Frame → Bool) where
  unfoldable pub write : Stream → Frame → Step
  write s f =
      if fails s.written f
      then (s, some write_failed)
      else (record s { written = f ∷ s.written }, none)

  -- Goes on if no error has come up.
  abbrev pub and_then : Step → (Stream → Step) → Step
  and_then (s, none) next = next s
  and_then (s, some e) next = (s, some e)

  -- One event: it is skipped if it has no id, or one that is not above the last.
  abbrev pub write_if_new : Option ℕ → Stream → Step
  write_if_new none s = (s, none)
  write_if_new (some id) s =
      if ltb_ℤ s.last_event_id (pos id)
      then write (record s { last_event_id = pos id }) (notification id)
      else (s, none)

  unfoldable pub write_event : Stream → Fields → Step
  write_event s event = write_if_new (event_id_of event) s

  unfoldable pub write_frames : Stream → List Fields → Step
  write_frames s [] = (s, none)
  write_frames s (event ∷ events) = and_then (write_event s event) (λ t. write_frames t events)

  abbrev failed_with : Step → StreamError → Step
  failed_with (s, none) e = (s, some e)
  failed_with (s, some w) e = (s, some w)

  abbrev write_recovered : Stream → Option (List Fields) → Step
  write_recovered s none = failed_with (write s (retry "recovery_unavailable")) recovery_failed
  write_recovered s (some events) = write_frames s events

  unfoldable pub recover : Recovery → Stream → Step
  recover no_recovery s = (s, none)
  recover (recover_after f) s = write_recovered s (f s.last_event_id)

  -- The loop. Where the list ends, the loop waits for the next message.
  unfoldable pub serve_loop : Recovery → Stream → List Incoming → Step
  serve_loop r s [] = (s, none)
  serve_loop r s (lifetime_over ∷ rest) = (s, none)
  serve_loop r s (request_over ∷ rest) = (s, none)
  serve_loop r s (timeout ∷ rest) =
      and_then (recover r s) (λ t. and_then (write t keep_alive) (λ u. serve_loop r u rest))
  serve_loop r s (ignored ∷ rest) = serve_loop r s rest
  serve_loop r s (message event ∷ rest) = and_then (write_event s event) (λ t. serve_loop r t rest)

  -- Serve: `none` where there is no subscription.
  unfoldable pub serve : Recovery → List Fields → Stream → Option (List Incoming) → Step
  serve r recovered s none =
      and_then (write_frames s recovered) (λ t. write t (retry "stream_unavailable"))
  serve r recovered s (some incoming) = and_then (write_frames s recovered) (λ t.
      and_then (recover r t) (λ u. and_then (write u connected) (λ v. serve_loop r v incoming)))
