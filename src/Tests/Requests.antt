-- ===== src/Tests/Requests.antt =====
-- The requests to the core at concrete inputs.
use bff_api_go_collection_ac.Base.{◌≡◌, refl, some, [], ◌∷◌, arith}
use bff_api_go_collection_ac.Base.Results.{ok, err}
use bff_api_go_collection_ac.Json.{end, field, str}
use bff_api_go_collection_ac.CoreClient.Errors.{object, malformed, translate_core_error}
use bff_api_go_collection_ac.CoreClient.Queries.{no_filters}
use bff_api_go_collection_ac.CoreClient.Requests.{
  CoreClient, Caller, Reply, answered, refused, auth_headers, get, read_reply, forward_get,
}
use bff_api_go_collection_ac.CoreClient.Requests.Calls
use bff_api_go_collection_ac.CoreClient.Requests.Call.{
  asker, perform, list_activities, get_agent_kpis,
}
use bff_api_go_collection_ac.CoreClient.Requests.Sent.{WasServed, perform-WasServed}
use bff_api_go_collection_ac.CoreClient.Requests.Refused.{perform-refused}
use bff_api_go_collection_ac.CoreClient.Requests.Forwarded.{smuggled, forward_get-smuggled}

abbrev core : Reply → CoreClient
core reply = record { base_url = "http://core"; mint = λ email. some "token"; send = λ q. reply }

abbrev somebody : Caller
somebody = record { trace_id = "t-1"; tenant_id = "default"; user_email = "ana@example.com" }

abbrev served : CoreClient
served = core (answered 200 (object (field "items" (str "none") end)))

listed : perform served somebody (list_activities no_filters) ≡ ok (field "items" (str "none") end)
unfolding Calls.list_activities auth_headers get read_reply
listed = refl

perform-WasServed_example : WasServed served (asker somebody (list_activities no_filters))
perform-WasServed_example = perform-WasServed served somebody (list_activities no_filters) _ listed

perform-refused_example :
    perform (core (answered 404 (malformed "gone"))) somebody (get_agent_kpis "a-1" "2026-01-02")
    ≡ err (refused (translate_core_error 404 (malformed "gone")))
perform-refused_example =
    perform-refused (core (answered 404 (malformed "gone"))) 404 (malformed "gone") (omega arith)
      (λ q. refl) somebody (get_agent_kpis "a-1" "2026-01-02") "token" refl

forward_get-smuggled_example :
    forward_get served "/api/v1/audit/events"
      (("entity_id", smuggled "e-1" "tenant_id" "other") ∷ [])
      "t-1"
      ""
      ""
      ""
    ≡ forward_get served "/api/v1/audit/events"
        (("entity_id", "e-1") ∷ ("tenant_id", "other") ∷ [])
        "t-1"
        ""
        ""
        ""
forward_get-smuggled_example =
    forward_get-smuggled served "/api/v1/audit/events" "entity_id" "e-1" "tenant_id" "other" []
      "t-1" "" "" ""
