-- ===== src/Tests/Escalations.antt =====
-- The escalation endpoints at concrete inputs.
use bff_api_go_collection_ac.Base.{
  String, ◌≡◌, refl, true, All, Option, none, some, inl, ◌==◌, if◌then◌else◌,
}
use bff_api_go_collection_ac.Base.Results.{Result, ok, err}
use bff_api_go_collection_ac.Base.Texts.{
  ne_of_eq_false, trim_space, trim_left, trim_right, is_space, to_lower, lower_char,
}
use bff_api_go_collection_ac.Domain.Errors.{Error}
use bff_api_go_collection_ac.CoreClient.Queries.{ListQuery}
use bff_api_go_collection_ac.Json.{str, arr, nil, cons, obj, Fields, end, field, get, put, del}
use bff_api_go_collection_ac.Json.Print.{sprint}
use bff_api_go_collection_ac.Escalations.Payload.{string_field, map_create_escalation_payload}
use bff_api_go_collection_ac.Escalations.Payload.Create.{
  reason_of, get-map_create_escalation_payload,
}
use bff_api_go_collection_ac.Escalations.Management.{
  activity_items, activity_id, pick_activity_field, is_management_activity, last_management,
  no_management, loan_query, require_last_management, prepare_create_payload,
}
use bff_api_go_collection_ac.Escalations.Management.Required.{
  Skipped, IsLastManagement, prepare_create_payload_refused, prepare_create_payload_sound,
}

abbrev request : Fields
request = field "loan_id" (str "L1") (field "notes" (str "no answer") end)

get-map_create_escalation_payload_example :
    (out : Fields) × (map_create_escalation_payload (some request) ≡ some out)
    × ((key : String)
        → get key out ≡ (
            if key == "notes"
            then none
            else if key == "reason"
            then reason_of (get "reason" request) (get "notes" request)
            else get key request))
get-map_create_escalation_payload_example = get-map_create_escalation_payload request

abbrev payment : Fields
payment = field "id" (str "A1") (field "activity_type" (str "PAYMENT") end)

abbrev call : Fields
call = field "id" (str "A2") (field "activity_type" (str "CALL") end)

abbrev nameless : Fields
nameless = field "activity_type" (str "CALL") end

abbrev page_of : Fields → Option Fields
page_of item = some (field "items" (arr (cons (obj item) nil)) end)

abbrev lists : Fields → ListQuery → Result Error (Option Fields)
lists item q = ok (page_of item)

abbrev given_id : Fields
given_id = field "loan_id" (str "L1") (field "last_effective_activity_id" (str "") end)

loan_of_request : get "loan_id" request ≡ some (str "L1")
unfolding get
loan_of_request = refl

payments-Skipped : All Skipped (activity_items (page_of payment))
unfolding get activity_items is_management_activity pick_activity_field sprint trim_space trim_left
    trim_right is_space to_lower lower_char
payments-Skipped = (inl refl, tt)

no_text_in_request : string_field (some request) "last_effective_activity_id" ≡ none
unfolding string_field get
no_text_in_request = refl

prepare_create_payload_refused_example :
    prepare_create_payload (lists payment) (some request) ≡ err no_management
prepare_create_payload_refused_example =
    prepare_create_payload_refused (lists payment) request "L1" (page_of payment) no_text_in_request
      loan_of_request (ne_of_eq_false "L1" "" refl) refl payments-Skipped

no_id_of_request : get "last_effective_activity_id" request ≡ none
unfolding get
no_id_of_request = refl

abbrev sent : Option Fields
sent = some (
    field "loan_id" (str "L1")
      (field "reason" (str "no answer") (field "last_effective_activity_id" (str "A2") end)))

request_accepted : prepare_create_payload (lists call) (some request) ≡ ok sent
unfolding prepare_create_payload map_create_escalation_payload require_last_management string_field
    last_management activity_id activity_items is_management_activity pick_activity_field get put
    sprint trim_space trim_left trim_right is_space to_lower lower_char del
request_accepted = refl

prepare_create_payload_sound_example :
    (mapped : Fields) × (loan : String) × (page : Option Fields) × (id : String)
    × (map_create_escalation_payload (some request) ≡ some mapped)
    × (get "loan_id" request ≡ some (str loan))
    × (lists call (loan_query loan) ≡ ok page)
    × IsLastManagement (activity_items page) id
    × (sent ≡ some (put "last_effective_activity_id" (str id) mapped))
prepare_create_payload_sound_example =
    prepare_create_payload_sound (lists call) request sent no_id_of_request request_accepted

empty_id : get "last_effective_activity_id" given_id ≡ some (str "")
unfolding get
empty_id = refl

managed : is_management_activity nameless ≡ true
unfolding get is_management_activity pick_activity_field sprint trim_space trim_left trim_right
    is_space to_lower lower_char
managed = refl

no_id : (get "id" nameless ≡ none) × (get "ID" nameless ≡ none)
unfolding get
no_id = (refl, refl)
