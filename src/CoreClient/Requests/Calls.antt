-- ===== src/CoreClient/Requests/Calls.antt =====
-- internal/infrastructure/coreclient/client.go: the public methods of the core client. The trace,
-- the tenant and the e-mail address of a call are one record, and the headers that say where a
-- request comes from another. A day that is not given is the empty text.
use Prim.Native.String
use bff_api_go_collection_ac.Base.{String, not, ◌&&◌, ◌==◌, [], ◌∷◌, if◌then◌else◌}
use bff_api_go_collection_ac.Base.Ints.{ℤ}
use bff_api_go_collection_ac.Base.Maps.{Map, store}
use bff_api_go_collection_ac.Base.Results.{Result, ◌>>=◌}
use bff_api_go_collection_ac.Base.Texts.{trim_space}
use bff_api_go_collection_ac.Base.Texts.Decimal.{itoa_ℤ}
use bff_api_go_collection_ac.Json.{null, obj, Fields, end}
use bff_api_go_collection_ac.CoreClient.Queries.{ListQuery, list_params}
use bff_api_go_collection_ac.CoreClient.Requests.{
  CoreClient, CoreError, Caller, auth_headers, set_given, get, post, patch, put, delete_no_content,
  post_no_content,
}

-- Where a request comes from; the methods set what is not empty.
pub record Origin : Type 0 where
  pub request_id : String
  pub correlation_id : String
  pub traceparent : String

abbrev pub origin_headers : Origin → Map String → Map String
origin_headers o headers =
    set_given "traceparent" o.traceparent (
      set_given "X-Correlation-Id" o.correlation_id (set_given "X-Request-Id" o.request_id headers))

abbrev pub keyed_headers : Origin → (idempotency_key : String) → Map String → Map String
keyed_headers o key headers = set_given "Idempotency-Key" key (origin_headers o headers)

pub record EscalationQuery : Type 0 where
  pub loan_id : String
  pub client_id : String
  pub agent_id : String
  pub agent_name : String
  pub status : String
  pub limit : ℤ
  pub offset : ℤ

-- The parameters of ListEscalations.
unfoldable pub escalation_params : EscalationQuery → Map String
escalation_params q = set_given "status" q.status (
    set_given "agent_name" q.agent_name (
      set_given "agent_id" q.agent_id (
        set_given "client_id" q.client_id (
          set_given "loan_id" q.loan_id (
            ("activity_type", "escalation")
            ∷ ("limit", itoa_ℤ q.limit)
            ∷ ("offset", itoa_ℤ q.offset)
            ∷ [])))))

pub record NotificationQuery : Type 0 where
  pub state : String
  pub severity : String
  pub from_date : String
  pub to_date : String
  pub limit : ℤ
  pub before_at : String
  pub before_id : String

-- The parameters of ListNotifications: a position goes out whole or not at all.
unfoldable pub notification_params : NotificationQuery → Map String
notification_params q =
    let filters = set_given "to" q.to_date (
      set_given "from" q.from_date (
        set_given "severity" q.severity
          (set_given "state" q.state (("limit", itoa_ℤ q.limit) ∷ [])))) in
    if not (q.before_at == "") && not (q.before_id == "")
    then store "before_id" q.before_id (store "before_at" q.before_at filters)
    else filters

abbrev pub ranking_params : (day : String) → (limit : ℤ) → Map String
ranking_params day limit = set_given "date" day (set_given "day" day (("limit", itoa_ℤ limit) ∷ []))

-- "/internal/v1/…" with one part of its own.
abbrev pub path_of : (before part after : String) → String
path_of before part after = String.◌++◌ before (String.◌++◌ part after)

-- url.QueryEscape is a parameter.
abbrev pub device_path : (query_escape : String → String) → (installation_id : String) → String
device_path query_escape installation_id =
    let path : String = "/internal/v1/notifications/devices/current" in
    if installation_id == ""
    then path
    else path_of path "?installation_id=" (query_escape installation_id)

module _ (c : CoreClient) (who : Caller) where
  unfoldable pub list_activities : ListQuery → Result CoreError Fields
  list_activities q = do
    headers ← auth_headers c who
    get c "/internal/v1/activities" headers (list_params q)

  unfoldable pub create_activity : Fields → Origin → String → Result CoreError Fields
  create_activity payload o key = do
    headers ← auth_headers c who
    post c "/internal/v1/activities" (keyed_headers o key headers) (obj payload)

  unfoldable pub create_activity_batch : Fields → Origin → String → Result CoreError Fields
  create_activity_batch payload o key = do
    headers ← auth_headers c who
    post c "/internal/v1/activities/batch" (keyed_headers o key headers) (obj payload)

  unfoldable pub create_escalation : Fields → Origin → String → Result CoreError Fields
  create_escalation payload o key = do
    headers ← auth_headers c who
    post c "/api/v1/collections/escalations" (keyed_headers o key headers) (obj payload)

  unfoldable pub update_escalation_status : String → Fields → Result CoreError Fields
  update_escalation_status escalation_id payload = do
    headers ← auth_headers c who
    let path = path_of "/api/v1/collections/escalations/" escalation_id "/status"
    patch c path headers (obj payload)

  unfoldable pub decide_escalation : String → Fields → Result CoreError Fields
  decide_escalation escalation_id payload = do
    headers ← auth_headers c who
    let path = path_of "/api/v1/collections/escalations/" escalation_id "/decisions"
    post c path headers (obj payload)

  unfoldable pub list_escalations : EscalationQuery → Result CoreError Fields
  list_escalations q = do
    headers ← auth_headers c who
    get c "/internal/v1/activities" headers (escalation_params q)

  unfoldable pub get_agent_goals : (agent_id day : String) → Result CoreError Fields
  get_agent_goals agent_id day = do
    headers ← auth_headers c who
    get c (path_of "/internal/v1/kpis/agents/" agent_id "/goals") headers (set_given "date" day [])

  unfoldable pub get_ranking : (day : String) → (limit : ℤ) → Result CoreError Fields
  get_ranking day limit = do
    headers ← auth_headers c who
    get c "/internal/v1/kpis/ranking" headers (ranking_params day limit)

  unfoldable pub get_workload : (day : String) → Result CoreError Fields
  get_workload day = do
    headers ← auth_headers c who
    get c "/internal/v1/kpis/workload" headers (set_given "date" day [])

  unfoldable pub get_team_performance_report : (tenant day : String) → Result CoreError Fields
  get_team_performance_report tenant day = do
    headers ← auth_headers c who
    let params = set_given "date" day (set_given "tenant" (trim_space tenant) [])
    get c "/internal/v1/kpis/team-performance-report" headers params

  unfoldable pub get_scoped_goals : (day : String) → Result CoreError Fields
  get_scoped_goals day = do
    headers ← auth_headers c who
    get c "/internal/v1/kpis/goals" headers (set_given "date" day [])

  unfoldable pub get_operations_summary : (tenant day : String) → Result CoreError Fields
  get_operations_summary tenant day = do
    headers ← auth_headers c who
    let params = set_given "date" day (("tenant", tenant) ∷ [])
    get c "/internal/v1/kpis/operations-summary" headers params

  unfoldable pub list_notifications : NotificationQuery → Result CoreError Fields
  list_notifications q = do
    headers ← auth_headers c who
    get c "/internal/v1/notifications" headers (notification_params q)

  unfoldable pub notification_events_after :
      (after_event_id : String) → (limit : ℤ) → Result CoreError Fields
  notification_events_after after_event_id limit = do
    headers ← auth_headers c who
    let after = (if after_event_id == "" then "0" else after_event_id)
    get c "/internal/v1/notifications/events" headers
        (("limit", itoa_ℤ limit) ∷ ("after", after) ∷ [])

  unfoldable pub notification_unread_count : Result CoreError Fields
  notification_unread_count = do
    headers ← auth_headers c who
    get c "/internal/v1/notifications/unread-count" headers []

  unfoldable pub register_notification_device : Fields → Result CoreError Fields
  register_notification_device payload = do
    headers ← auth_headers c who
    put c "/internal/v1/notifications/devices/current" headers (obj payload)

  unfoldable pub revoke_notification_device :
      (query_escape : String → String) → (installation_id : String) → Result CoreError Fields
  revoke_notification_device query_escape installation_id = do
    headers ← auth_headers c who
    delete_no_content c (device_path query_escape installation_id) headers

  unfoldable pub notification_detail : (notification_id : String) → Result CoreError Fields
  notification_detail notification_id = do
    headers ← auth_headers c who
    get c (path_of "/internal/v1/notifications/" notification_id "") headers []

  unfoldable pub mark_all_notifications_read : Result CoreError Fields
  mark_all_notifications_read = do
    headers ← auth_headers c who
    post c "/internal/v1/notifications/read-all" headers (obj end)

  unfoldable pub mark_notification_read : (notification_id : String) → Result CoreError Fields
  mark_notification_read notification_id = do
    headers ← auth_headers c who
    post_no_content c (path_of "/internal/v1/notifications/" notification_id "/read") headers null

-- The calls that name no user.
abbrev pub nameless : Caller → Caller
nameless who = record who { user_email = "" }

module _ (c : CoreClient) (who : Caller) where
  unfoldable pub get_agent_kpis : (agent_id day : String) → Result CoreError Fields
  get_agent_kpis agent_id day = do
    headers ← auth_headers c (nameless who)
    get c (path_of "/internal/v1/kpis/agents/" agent_id "") headers (set_given "day" day [])

  unfoldable pub submit_contact : Fields → Origin → Result CoreError Fields
  submit_contact payload o = do
    headers ← auth_headers c (nameless who)
    post c "/internal/v1/contacts" (origin_headers o headers) (obj payload)
