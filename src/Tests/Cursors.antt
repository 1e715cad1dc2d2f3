-- ===== src/Tests/Cursors.antt =====
-- The pages and the stream of the notifications at concrete inputs: bytes are bits, which base64
-- writes as digits, and one position is encoded.
use Prim.Native.Nat.{◌<◌}
use bff_api_go_collection_ac.Base.{
  ◌≡◌, ◌≢◌, refl, Bool, true, false, ◌==◌, eq_refl, List, some, length, if◌then◌else◌, arith,
}
use bff_api_go_collection_ac.Base.Results.{ok}
use bff_api_go_collection_ac.Base.Texts.{IsFree}
use bff_api_go_collection_ac.Base.{ℕ, Option, none, map}
use bff_api_go_collection_ac.Base.Ints.{pos}
use bff_api_go_collection_ac.Base.Texts.{fields, fields_from, is_space}
use bff_api_go_collection_ac.Json.{num, str, Fields, end, field, get}
use bff_api_go_collection_ac.Auth.Access.{CognitoContext, require_scope}
use bff_api_go_collection_ac.Notifications.Contract.{
  map_notification_item, notification_items, notification_string, pick_notification_field,
}
use bff_api_go_collection_ac.Notifications.Stream.{message, timeout}
use bff_api_go_collection_ac.Notifications.Usecase.{memory, Answer, ListQuery, list_notifications}
use bff_api_go_collection_ac.Notifications.Handlers.{
  invalid, page, ListParams, filters_of, query_at, next_at, next_id, position_of, list_at,
  handle_list,
}
use bff_api_go_collection_ac.Notifications.Handlers.Paging.{handle_list-next}
use bff_api_go_collection_ac.Notifications.Handlers.Events.{EventParams, Connection, handle_events}
use bff_api_go_collection_ac.Notifications.Handlers.Resumed.{IsResumed, handle_events-IsResumed}
use bff_api_go_collection_ac.Notifications.Cursor.{
  Codec, Filters, trim_padding, pad, payload_of, cursor_scope, encode, scope_text,
}
use bff_api_go_collection_ac.Notifications.Cursor.Bound.{IsSound, IsBody, trim_padding-pad}
use bff_api_go_collection_ac.Tests.FieldCrypto.{bits_text, bits_of, bits_of-bits_text}

abbrev own_list : Filters
own_list = record {
  recipient = "Ana@x.pe";
  state = "unread";
  severity = "";
  from_date = "";
  to_date = "";
}

abbrev bit : List Bool
bit = List.◌∷◌ true List.[]

abbrev codec : Codec Bool
codec = record {
  b64 = record { encode = λ bs. pad (bits_text bs); decode = λ s. bits_of (trim_padding s) };
  mac = λ s. bit;
  equal = λ a b. bits_text a == bits_text b;
  sha256_hex = λ s. s;
  marshal = λ m. bit;
  unmarshal = λ bs. some (payload_of "2026-01-02" "n1" (scope_text own_list));
}

bits_text-IsBody : (bs : List Bool) → IsBody (bits_text bs)
bits_text-IsBody bs = record { no_padding = free_of_padding bs; no_dot = free_of_dots bs }
  where
    free_of_padding : (bs : List Bool) → IsFree b'=' (bits_text bs)
    free_of_padding List.[] = tt
    free_of_padding (List.◌∷◌ true bs) = (omega arith, free_of_padding bs)
    free_of_padding (List.◌∷◌ false bs) = (omega arith, free_of_padding bs)

    free_of_dots : (bs : List Bool) → IsFree b'.' (bits_text bs)
    free_of_dots List.[] = tt
    free_of_dots (List.◌∷◌ true bs) = (omega arith, free_of_dots bs)
    free_of_dots (List.◌∷◌ false bs) = (omega arith, free_of_dots bs)

filled : (bs : List Bool) → 0 < length bs → bits_text bs ≢ ""
filled List.[] h e = absurd (omega arith)
filled (List.◌∷◌ b bs) h e = cc

codec-IsSound : IsSound codec
codec-IsSound = record {
  body = bits_text;
  encode_lem = λ bs. refl;
  body-IsBody = bits_text-IsBody;
  filled = filled;
  back = λ bs.
      rw (trim_padding-pad (bits_text bs) (bits_text-IsBody bs).no_padding, bits_of-bits_text bs);
  mac_length = λ s. omega arith;
  equal_refl = λ bs. eq_refl (bits_text bs);
  marshal_length = λ m. omega arith;
}

abbrev ana : CognitoContext
ana = record {
  sub = "u1";
  role = "";
  scope = "notifications:read";
  email = "Ana@x.pe";
  groups = List.[];
}

ana_allowed : require_scope (some ana) "notifications:read" ≡ ok ana
unfolding require_scope fields fields_from is_space
ana_allowed = refl

abbrev unread : ListParams
unread = record {
  limit = none;
  state = some "unread";
  severity = "";
  from = "";
  from_date = "";
  to = "";
  to_date = "";
  before_at = "";
  before_id = "";
  cursor = "";
}

abbrev result : Option Fields
result = some (field "next_before_at" (str "2026-01-02") (field "NextBeforeID" (str "n1") end))

next_at-result : next_at result ≡ "2026-01-02"
unfolding notification_string pick_notification_field get
next_at-result = refl

next_id-result : next_id result ≡ "n1"
unfolding notification_string pick_notification_field get
next_id-result = refl

-- The second page, five items of it.
abbrev second : ListParams
second = record unread {
  limit = some "5";
  cursor = encode codec (next_at result) (next_id result) (filters_of "Ana@x.pe" unread);
}

abbrev first_answer : ListQuery → Answer
first_answer q = ok result

abbrev second_answer : ListQuery → Answer
second_answer q = ok none

first_position : position_of codec "Ana@x.pe" unread ≡ ok ("", "")
unfolding position_of
first_position = refl

first_listed :
    (list_notifications memory none (query_at "t1" "Ana@x.pe" unread "" "") (ok result)).1
    ≡ ok result
unfolding list_notifications
first_listed = refl

handle_list-next_example :
    ((handle_list codec memory "t1" none (some ana) unread first_answer).1
      ≡ page (map map_notification_item (notification_items result)) (some second.cursor))
    × (handle_list codec memory "t1" none (some ana) second second_answer ≡ (
        if cursor_scope codec (filters_of "Ana@x.pe" unread)
          == cursor_scope codec (filters_of "Ana@x.pe" second)
        then list_at codec memory "t1" none "Ana@x.pe" second second_answer
            (ok (next_at result, next_id result))
        else (none, invalid 422 5040 "cursor de notificaciones inválido")))
handle_list-next_example =
    handle_list-next codec codec-IsSound memory "t1" none none ana ana unread second first_answer
      second_answer "" "" result ana_allowed ana_allowed first_position first_listed
      (rw next_at-result λ e. cc) (rw next_id-result λ e. cc)
      (rw (next_at-result, next_id-result) refl) refl

abbrev event : ℕ → Fields
event n = field "event_id" (num (pos n)) end

abbrev connection : Connection
connection = record {
  fails = λ fs f. false;
  has_ended = false;
  first = λ email after limit. ok none;
  later = λ email after limit. ok none;
  incoming = some (List.◌∷◌ (message (event 7)) (List.◌∷◌ timeout List.[]));
}

abbrev resumed : EventParams
resumed = record { limit = none; last_event_id = ""; after = "6"; after_event_id = "3" }

handle_events-IsResumed_example :
    IsResumed (some ana) resumed (handle_events connection (some ana) resumed)
handle_events-IsResumed_example = handle_events-IsResumed connection (some ana) resumed
