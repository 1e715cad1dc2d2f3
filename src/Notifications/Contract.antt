-- ===== src/Notifications/Contract.antt =====
-- internal/interface/api/handler/notification_contract.go: the contract of the answers. The
-- values are those of a decoded JSON text, of which a number is a whole one that an int64 holds.
pub mod Stable
use Prim.Native.Char.{code}
use Prim.Native.String.{[], ◌∷◌}
use bff_api_go_collection_ac.Base.{
  ℕ, zero, suc, ◌+◌, ◌-◌, ◌*◌, ◌^◌, String, Bool, true, false, List, Option, none, some, ◌==◌, leb,
  ltb, eqb, ◌&&◌, if◌then◌else◌,
}
use bff_api_go_collection_ac.Base.Ints.{ℤ, pos, negsuc}
use bff_api_go_collection_ac.Json.{
  Json, null, bool, num, str, texts, arr, obj, Items, nil, cons, Fields, end, field, get,
}
use bff_api_go_collection_ac.Json.Print.{sprint}

-- A value that pickNotificationField takes: there, not nil, and not the empty text.
abbrev pub is_picked : Option Json → Bool
is_picked none = false
is_picked (some null) = false
is_picked (some (str s)) = if s == "" then false else true
is_picked (some v) = true

abbrev pub value_of : Option Json → Json
value_of none = null
value_of (some v) = v

-- pickNotificationField; nil is `null`.
unfoldable pub pick_notification_field : Fields → List String → Json
pick_notification_field item List.[] = null
pick_notification_field item (List.◌∷◌ k ks) =
    if is_picked (get k item) then value_of (get k item) else pick_notification_field item ks

abbrev pub text_of : Json → String
text_of null = ""
text_of (str s) = s
text_of v = sprint v

unfoldable pub notification_string : Fields → List String → String
notification_string item ks = text_of (pick_notification_field item ks)

abbrev pub text_or_nil : String → Json
text_or_nil s = if s == "" then null else str s

-- notificationStringOrNil
abbrev pub notification_string_or_nil : Fields → List String → Json
notification_string_or_nil item ks = text_or_nil (notification_string item ks)

abbrev digit_from : ℕ → Option ℕ → Option ℕ
digit_from c none = none
digit_from c (some n) = if leb 48 c && leb c 57 then some (10 * n + (c - 48)) else none

digits_from : String → Option ℕ → Option ℕ
digits_from [] acc = acc
digits_from (c ∷ s) acc = digits_from s (digit_from (code c) acc)

abbrev positive_of : Option ℕ → ℤ
positive_of none = pos 0
positive_of (some n) = if ltb n (2 ^ 63) then pos n else pos (2 ^ 63 - 1)

abbrev negative_of : Option ℕ → ℤ
negative_of none = pos 0
negative_of (some zero) = pos 0
negative_of (some (suc n)) = if ltb n (2 ^ 63) then negsuc n else negsuc (2 ^ 63 - 1)

abbrev unsigned : String → Option ℕ
unsigned [] = none
unsigned (c ∷ s) = digits_from (c ∷ s) (some 0)

-- The number that strconv.Atoi gives beside its error: 0 for no number, and the nearest int64 for
-- one that is out of range.
unfoldable pub atoi : String → ℤ
unfolding digits_from
atoi [] = pos 0
atoi (c ∷ s) =
    if eqb (code c) 43
    then positive_of (unsigned s)
    else if eqb (code c) 45
    then negative_of (unsigned s)
    else positive_of (unsigned (c ∷ s))

abbrev pub int_of : Json → ℤ
int_of (num n) = n
int_of (str s) = atoi s
int_of v = pos 0

unfoldable pub notification_int : Fields → List String → ℤ
notification_int item ks = int_of (pick_notification_field item ks)

abbrev pub object_or_empty : Json → Fields
object_or_empty (obj m) = m
object_or_empty v = end

abbrev pub keys_of : String → String → List String
keys_of a b = List.◌∷◌ a (List.◌∷◌ b List.[])

abbrev pub type_keys : List String
type_keys = List.◌∷◌ "type" (keys_of "NotificationType" "notification_type")

-- notificationMetadata
abbrev pub notification_metadata : Fields → Fields
notification_metadata item =
    object_or_empty (pick_notification_field item (keys_of "metadata" "Metadata"))

unfoldable pub map_notification_item : Fields → Fields
map_notification_item item = field "id" (str (notification_string item (keys_of "id" "ID"))) (
    field "event_id" (num (notification_int item (keys_of "event_id" "EventID"))) (
      field "type" (str (notification_string item type_keys)) (
        field "severity" (str (notification_string item (keys_of "severity" "Severity"))) (
          field "destination" (str (notification_string item (keys_of "destination" "Destination")))
            (field "metadata" (obj (notification_metadata item)) (
              field "created_at" (str (notification_string item (keys_of "created_at" "CreatedAt")))
                (field "read_at" (notification_string_or_nil item (keys_of "read_at" "ReadAt"))
                  end)))))))

unfoldable pub map_notification_detail : Fields → Fields
map_notification_detail item = field "id" (str (notification_string item (keys_of "id" "ID"))) (
    field "type" (str (notification_string item type_keys)) (
      field "severity" (str (notification_string item (keys_of "severity" "Severity"))) (
        field "destination" (str (notification_string item (keys_of "destination" "Destination"))) (
          field "actor_name" (notification_string_or_nil item (keys_of "actor_name" "ActorName")) (
            field "actor_role" (notification_string_or_nil item (keys_of "actor_role" "ActorRole"))
              (field "client_name"
                (notification_string_or_nil item (keys_of "client_name" "ClientName"))
                (field "loan_reference"
                  (notification_string_or_nil item (keys_of "loan_reference" "LoanReference"))
                  (field "description"
                    (notification_string_or_nil item (keys_of "description" "Description"))
                    (field "result" (notification_string_or_nil item (keys_of "result" "Result")) (
                      field "status" (notification_string_or_nil item (keys_of "status" "Status")) (
                        field "created_at"
                          (str (notification_string item (keys_of "created_at" "CreatedAt")))
                          (field "read_at"
                            (notification_string_or_nil item (keys_of "read_at" "ReadAt"))
                            end))))))))))))

abbrev pub as_object_map : Option Json → Option Fields
as_object_map (some (obj m)) = some m
as_object_map o = none

abbrev pub object_items : Items → List Fields
object_items nil = List.[]
object_items (cons (obj m) vs) = List.◌∷◌ m (object_items vs)
object_items (cons v vs) = object_items vs

abbrev pub as_object_slice : Option Json → List Fields
as_object_slice (some (arr vs)) = object_items vs
as_object_slice o = List.[]

abbrev pub items_or : Option Json → Option Json → List Fields
items_or none other = as_object_slice other
items_or (some v) other = as_object_slice (some v)

-- notificationItems; `none` is the nil map.
unfoldable pub notification_items : Option Fields → List Fields
notification_items none = List.[]
notification_items (some m) = items_or (get "items" m) (get "Items" m)

abbrev pub has_key : Option Json → Bool
has_key none = false
has_key (some v) = true

abbrev pub count_in : Option Fields → Fields → ℤ
count_in none value = notification_int value (keys_of "count" "Count")
count_in (some nested) value =
    if has_key (get "count" nested)
    then notification_int nested (keys_of "count" "Count")
    else if has_key (get "Count" nested)
    then notification_int nested (keys_of "count" "Count")
    else notification_int value (keys_of "count" "Count")

-- notificationCount
unfoldable pub notification_count : Option Fields → ℤ
notification_count none = pos 0
notification_count (some value) = count_in (as_object_map (get "data" value)) value
