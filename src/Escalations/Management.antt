-- ===== src/Escalations/Management.antt =====
-- internal/application/usecases/escalation_gestion.go: an escalation needs an earlier management
-- activity of the loan. The core's answer to ListActivities is a parameter.
pub mod Required
use bff_api_go_collection_ac.Base.{
  String, Bool, true, false, not, List, [], ◌∷◌, Option, none, some, ◌==◌, ◌||◌, if◌then◌else◌,
}
use bff_api_go_collection_ac.Base.Ints.{pos}
use bff_api_go_collection_ac.Base.Results.{Result, ok, err, ◌>>=◌}
use bff_api_go_collection_ac.Base.Texts.{trim_space, to_lower}
use bff_api_go_collection_ac.Domain.Errors.{Error, business, new_business_error}
use bff_api_go_collection_ac.CoreClient.Queries.{ListQuery, no_filters}
use bff_api_go_collection_ac.Json.{
  Json, null, str, arr, obj, Items, nil, cons, Fields, get, put, is_null,
}
use bff_api_go_collection_ac.Json.Print.{sprint}
use bff_api_go_collection_ac.Escalations.Payload.{string_field, map_create_escalation_payload}

abbrev item_fields : Json → List Fields → List Fields
item_fields (obj m) rest = m ∷ rest
item_fields _ rest = rest

abbrev pub objects : Items → List Fields
objects nil = []
objects (cons v vs) = item_fields v (objects vs)

abbrev items_under : Option Json → List Fields
items_under (some (arr vs)) = objects vs
items_under _ = []

-- activityItems: the objects among the items of a page; `none` is the nil map.
unfoldable pub activity_items : Option Fields → List Fields
activity_items none = []
activity_items (some page) = items_under (get "items" page)

-- An index into a map gives nil for a missing key.
abbrev or_nil : Option Json → Json
or_nil none = null
or_nil (some v) = v

abbrev id_or : Option String → String → String
id_or (some id) other = id
id_or none other = other

unfoldable pub activity_id : Fields → String
activity_id item =
    id_or (string_field (some item) "id") (trim_space (sprint (or_nil (get "ID" item))))

-- The value under the first of the keys that has one which is not nil.
unfoldable pub pick_activity_field : Fields → List String → Json
pick_activity_field item [] = null
pick_activity_field item (key ∷ keys) =
    let rest = pick_activity_field item keys in
    if is_null (or_nil (get key item)) then rest else or_nil (get key item)

abbrev normal_text : Json → String
normal_text v = to_lower (trim_space (sprint v))

abbrev pub activity_type_of : Fields → String
activity_type_of item =
    normal_text (pick_activity_field item ("activity_type" ∷ "activityType" ∷ "ActivityType" ∷ []))

abbrev pub agent_name_of : Fields → String
agent_name_of item =
    normal_text (pick_activity_field item ("agent_name" ∷ "agentName" ∷ "AgentName" ∷ []))

-- nonManagementActivityTypes
abbrev pub is_blocked : String → Bool
is_blocked t = t == "escalation" || t == "escalation_decision" || t == "payment"

-- isManagementActivity, and isEscalationManagementActivity, which is the same.
unfoldable pub is_management_activity : Fields → Bool
is_management_activity item =
    if is_blocked (activity_type_of item) then false else not (agent_name_of item == "sistema")

abbrev pub first_id : Fields → Option String → Option String
first_id item rest = if activity_id item == "" then rest else some (activity_id item)

-- The loop over the items.
unfoldable pub last_management : List Fields → Option String
last_management [] = none
last_management (item ∷ items) =
    let rest = last_management items in
    if is_management_activity item then first_id item rest else rest

abbrev pub no_loan : Error
no_loan = business (new_business_error 5002 "Se requiere loan_id para escalar.")

abbrev pub no_management : Error
no_management =
    business (new_business_error 5015 "Debe existir una gestion previa antes de escalar el caso.")

abbrev pub or_fail : Option String → Result Error String
or_fail none = err no_management
or_fail (some id) = ok id

-- The loan's query: its first twenty activities.
abbrev pub loan_query : String → ListQuery
loan_query loan_id = record no_filters { loan_id = loan_id; limit = pos 20 }

module _ (list_activities : ListQuery → Result Error (Option Fields)) where
  abbrev find_management : Option String → Result Error String
  find_management none = err no_loan
  find_management (some loan_id) = if loan_id == "" then err no_loan else do
    page ← list_activities (loan_query loan_id)
    or_fail (last_management (activity_items page))

  unfoldable pub require_last_management : Option Fields → Result Error String
  require_last_management payload = find_management (string_field payload "loan_id")

  abbrev put_id : Option Fields → String → Option Fields
  put_id none id = none
  put_id (some m) id = some (put "last_effective_activity_id" (str id) m)

  abbrev with_management : Option String → Option Fields → Result Error (Option Fields)
  with_management (some given) out = ok out
  with_management none out = do id ← require_last_management out; ok (put_id out id)

  unfoldable pub prepare_create_payload : Option Fields → Result Error (Option Fields)
  prepare_create_payload payload =
      let out = map_create_escalation_payload payload in
      with_management (string_field out "last_effective_activity_id") out
