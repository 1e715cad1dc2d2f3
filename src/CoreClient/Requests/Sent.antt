-- ===== src/CoreClient/Requests/Sent.antt =====
-- What every call of the core client sends, and what becomes of a refusal.
use Prim.Native.String
use bff_api_go_collection_ac.Base.{
  ℕ, ◌<◌, String, false, [], ◌∷◌, ◌++◌, Option, none, some, ◌==◌, ◌≡◌, refl, ◌∙◌, arith, Bool-cases,
  Option-cases, inl, inr,
}
use bff_api_go_collection_ac.Base.Maps.{Map, find, find-store}
use bff_api_go_collection_ac.Base.Results.{Result, ok, ◌>>=◌, >>=-eq-ok}
use bff_api_go_collection_ac.Json.{Json, Fields}
use bff_api_go_collection_ac.CoreClient.Requests.{
  CoreClient, CoreError, Caller, Request, Reply, Method, unbuilt, unanswered, cut_off, answered,
  auth_headers, set_given, json_headers, request, read_reply, read_no_content, get, post, patch,
  put, delete_no_content, post_no_content,
}
use bff_api_go_collection_ac.CoreClient.Requests.Call.{
  Call, asker, perform, list_activities, create_activity, create_activity_batch, create_escalation,
  update_escalation_status, decide_escalation, list_escalations, get_agent_kpis, get_agent_goals,
  get_ranking, get_workload, get_team_performance_report, get_scoped_goals, get_operations_summary,
  list_notifications, notification_events_after, notification_unread_count,
  register_notification_device, revoke_notification_device, notification_detail,
  mark_all_notifications_read, mark_notification_read, submit_contact,
}
use bff_api_go_collection_ac.CoreClient.Requests.Calls
use bff_api_go_collection_ac.CoreClient.Requests.Calls.{
  Origin, EscalationQuery, NotificationQuery, origin_headers, keyed_headers, nameless,
}

-- The headers carry the token, the trace and the tenant.
pub record Carries (who : Caller) (token : String) (headers : Map String) : Type 0 where
  pub bearer : find "Authorization" headers ≡ some (String.◌++◌ "Bearer " token)
  pub trace : find "X-Trace-Id" headers ≡ some who.trace_id
  pub tenant : find "X-Tenant-Id" headers ≡ some who.tenant_id

abbrev pub status_of : Reply → Option ℕ
status_of unbuilt = none
status_of unanswered = none
status_of (cut_off status part) = some status
status_of (answered status body) = some status

-- A request went out in the caller's name, and its answer was no error.
pub record WasServed (c : CoreClient) (who : Caller) : Type 0 where
  pub token : String
  pub minted : c.mint who.user_email ≡ some token
  pub sent : Request
  pub carries : Carries who token sent.headers
  pub status : ℕ
  pub replied : status_of (c.send sent) ≡ some status
  pub below : status < 400

-- A header of another name.
module _ (name : String) where
  abbrev IsOther : Type 0
  IsOther =
      ((name == "Authorization") ≡ false)
      × ((name == "X-Trace-Id") ≡ false)
      × ((name == "X-Tenant-Id") ≡ false)

  set_given-Carries :
      (value : String) (who : Caller) (token : String) (h : Map String)
      → IsOther
      → Carries who token h
      → Carries who token (set_given name value h)
  set_given-Carries value who token h other k = elim (Bool-cases (value == "")) [
    | inl blank ↦ rw blank k
    | inr filled ↦ rw filled (record {
      bearer = find-store name "Authorization" value h ∙ rw other.0 k.bearer;
      trace = find-store name "X-Trace-Id" value h ∙ rw other.1 k.trace;
      tenant = find-store name "X-Tenant-Id" value h ∙ rw other.2 k.tenant;
    })
  ]

find-append :
    (k : String) (m n : Map String) {v : String} → find k m ≡ some v → find k (m ++ n) ≡ some v
unfolding find
find-append k [] n h = absurd (cc h)
find-append k ((j, w) ∷ m) n h = elim (Bool-cases (j == k)) [
  | inl hit ↦ rw hit (rw hit at h)
  | inr miss ↦ rw miss (find-append k m n (rw miss at h))
]

-- What a method does to the headers before it sends them.
abbrev Keeps : (Map String → Map String) → Type 0
Keeps extra =
    (who : Caller) (token : String) (h : Map String)
    → Carries who token h
    → Carries who token (extra h)

json_headers-Keeps : Keeps json_headers
json_headers-Keeps who token h k = record {
  bearer = find-append "Authorization" h _ k.bearer;
  trace = find-append "X-Trace-Id" h _ k.trace;
  tenant = find-append "X-Tenant-Id" h _ k.tenant;
}

origin_headers-Keeps : (o : Origin) → Keeps (origin_headers o)
origin_headers-Keeps o who token h k =
    set_given-Carries "traceparent" o.traceparent who token _ (refl, refl, refl)
      (set_given-Carries "X-Correlation-Id" o.correlation_id who token _ (refl, refl, refl)
        (set_given-Carries "X-Request-Id" o.request_id who token h (refl, refl, refl) k))

keyed_headers-Keeps : (o : Origin) (key : String) → Keeps (keyed_headers o key)
keyed_headers-Keeps o key who token h k =
    set_given-Carries "Idempotency-Key" key who token _ (refl, refl, refl)
      (origin_headers-Keeps o who token h k)

auth_headers-Carries :
    (c : CoreClient) (who : Caller) (h : Map String)
    → auth_headers c who ≡ ok h
    → (token : String) × (c.mint who.user_email ≡ some token) × Carries who token h
unfolding auth_headers
auth_headers-Carries c who h e = elim (Option-cases (c.mint who.user_email)) [
  | inl missing ↦ absurd (cc (rw missing at e))
  | inr (token, minted) ↦
      let bearer = String.◌++◌ "Bearer " token in
      let whole : ("Authorization", bearer)
            ∷ ("X-Trace-Id", who.trace_id)
            ∷ ("X-Tenant-Id", who.tenant_id)
            ∷ []
          ≡ h =
        cc (rw minted at e) in
      (
        token,
        minted,
        rw (← whole) (unfold find in record { bearer = refl; trace = refl; tenant = refl }),
      )
]

abbrev IsServed : Reply → Type 0
IsServed r = (status : ℕ) × (status_of r ≡ some status) × (status < 400)

read_reply_below : (r : Reply) (m : Fields) → read_reply r ≡ ok m → IsServed r
unfolding read_reply
read_reply_below unbuilt m e = absurd (cc e)
read_reply_below unanswered m e = absurd (cc e)
read_reply_below (cut_off status part) m e = absurd (cc e)
read_reply_below (answered status body) m e = (status, refl, ground arith)

read_no_content_below : (r : Reply) (m : Fields) → read_no_content r ≡ ok m → IsServed r
unfolding read_no_content
read_no_content_below unbuilt m e = absurd (cc e)
read_no_content_below unanswered m e = absurd (cc e)
read_no_content_below (cut_off status part) m e = (status, refl, ground arith)
read_no_content_below (answered status body) m e = (status, refl, ground arith)

-- Every method asks for the headers, and goes on with a function of them.
module _ (c : CoreClient) (who : Caller) where
  WasServed-of :
      (next : Map String → Result CoreError Fields) (build : Map String → Request)
      → Keeps (λ h. (build h).headers)
      → ((h : Map String) (m : Fields) → next h ≡ ok m → IsServed (c.send (build h)))
      → (m : Fields) → (auth_headers c who >>= next) ≡ ok m
      → WasServed c who
  WasServed-of next build keeps below m e =
      let (h, minted, rest) = >>=-eq-ok (auth_headers c who) next e in
      let (token, mint, carries) = auth_headers-Carries c who h minted in
      let (status, replied, small) = below h m rest in
      record {
        token = token;
        minted = mint;
        sent = build h;
        carries = keeps who token h carries;
        status = status;
        replied = replied;
        below = small;
      }

  by_get :
      (path : String) (params : Map String) (m : Fields)
      → (auth_headers c who >>= λ h. get c path h params) ≡ ok m
      → WasServed c who
  unfolding get
  by_get path params m e =
      WasServed-of (λ h. get c path h params) _ (λ w t h k. k)
        (λ h n. read_reply_below (c.send (request c Method.method_get path params h none)) n) m e

  by_post :
      (extra : Map String → Map String) (keeps : Keeps extra) (path : String) (body : Json)
      (m : Fields)
      → (auth_headers c who >>= λ h. post c path (extra h) body) ≡ ok m
      → WasServed c who
  unfolding post
  by_post extra keeps path body m e =
      WasServed-of (λ h. post c path (extra h) body)
        (λ h. request c Method.method_post path [] (json_headers (extra h)) (some body))
        (λ w t h k. json_headers-Keeps w t _ (keeps w t h k)) (λ h n. read_reply_below _ n) m e

  by_patch :
      (path : String) (body : Json) (m : Fields)
      → (auth_headers c who >>= λ h. patch c path h body) ≡ ok m
      → WasServed c who
  unfolding patch
  by_patch path body m e =
      WasServed-of (λ h. patch c path h body)
        (λ h. request c Method.method_patch path [] (json_headers h) (some body))
        (λ w t h k. json_headers-Keeps w t h k) (λ h n. read_reply_below _ n) m e

  by_put :
      (path : String) (body : Json) (m : Fields)
      → (auth_headers c who >>= λ h. put c path h body) ≡ ok m
      → WasServed c who
  unfolding put
  by_put path body m e =
      WasServed-of (λ h. put c path h body)
        (λ h. request c Method.method_put path [] (json_headers h) (some body))
        (λ w t h k. json_headers-Keeps w t h k) (λ h n. read_reply_below _ n) m e

  by_delete :
      (path : String) (m : Fields)
      → (auth_headers c who >>= λ h. delete_no_content c path h) ≡ ok m
      → WasServed c who
  unfolding delete_no_content
  by_delete path m e =
      WasServed-of (λ h. delete_no_content c path h)
        (λ h. request c Method.method_delete path [] h none) (λ w t h k. k)
        (λ h n. read_no_content_below _ n) m e

  by_post_no_content :
      (path : String) (body : Json) (m : Fields)
      → (auth_headers c who >>= λ h. post_no_content c path h body) ≡ ok m
      → WasServed c who
  unfolding post_no_content
  by_post_no_content path body m e =
      WasServed-of (λ h. post_no_content c path h body)
        (λ h. request c Method.method_post path [] (json_headers h) (some body))
        (λ w t h k. json_headers-Keeps w t h k) (λ h n. read_no_content_below _ n) m e

-- A call that succeeds has sent a request with the internal token minted for the user in whose name
-- it is made (the KPIs of an agent and a contact name nobody), with the trace and the tenant of the
-- caller, and the core has answered it with a status below 400.
pub perform-WasServed :
    (c : CoreClient) (who : Caller) (call : Call) (m : Fields)
    → perform c who call ≡ ok m
    → WasServed c (asker who call)
unfolding Calls.list_activities Calls.create_activity Calls.create_activity_batch
    Calls.create_escalation Calls.update_escalation_status Calls.decide_escalation
    Calls.list_escalations Calls.get_agent_kpis Calls.get_agent_goals Calls.get_ranking
    Calls.get_workload Calls.get_team_performance_report Calls.get_scoped_goals
    Calls.get_operations_summary Calls.list_notifications Calls.notification_events_after
    Calls.notification_unread_count Calls.register_notification_device
    Calls.revoke_notification_device Calls.notification_detail Calls.mark_all_notifications_read
    Calls.mark_notification_read Calls.submit_contact
perform-WasServed c who (list_activities q) m e = by_get c who _ _ m e
perform-WasServed c who (create_activity p o key) m e =
    by_post c who (keyed_headers o key) (keyed_headers-Keeps o key) _ _ m e
perform-WasServed c who (create_activity_batch p o key) m e =
    by_post c who (keyed_headers o key) (keyed_headers-Keeps o key) _ _ m e
perform-WasServed c who (create_escalation p o key) m e =
    by_post c who (keyed_headers o key) (keyed_headers-Keeps o key) _ _ m e
perform-WasServed c who (update_escalation_status id p) m e = by_patch c who _ _ m e
perform-WasServed c who (decide_escalation id p) m e = by_post c who (λ h. h) (λ w t h k. k) _ _ m e
perform-WasServed c who (list_escalations q) m e = by_get c who _ _ m e
perform-WasServed c who (get_agent_kpis id day) m e = by_get c (nameless who) _ _ m e
perform-WasServed c who (get_agent_goals id day) m e = by_get c who _ _ m e
perform-WasServed c who (get_ranking day limit) m e = by_get c who _ _ m e
perform-WasServed c who (get_workload day) m e = by_get c who _ _ m e
perform-WasServed c who (get_team_performance_report t day) m e = by_get c who _ _ m e
perform-WasServed c who (get_scoped_goals day) m e = by_get c who _ _ m e
perform-WasServed c who (get_operations_summary t day) m e = by_get c who _ _ m e
perform-WasServed c who (list_notifications q) m e = by_get c who _ _ m e
perform-WasServed c who (notification_events_after a limit) m e = by_get c who _ _ m e
perform-WasServed c who notification_unread_count m e = by_get c who _ _ m e
perform-WasServed c who (register_notification_device p) m e = by_put c who _ _ m e
perform-WasServed c who (revoke_notification_device f id) m e = by_delete c who _ m e
perform-WasServed c who (notification_detail id) m e = by_get c who _ _ m e
perform-WasServed c who mark_all_notifications_read m e =
    by_post c who (λ h. h) (λ w t h k. k) _ _ m e
perform-WasServed c who (mark_notification_read id) m e = by_post_no_content c who _ _ m e
perform-WasServed c who (submit_contact p o) m e =
    by_post c (nameless who) (origin_headers o) (origin_headers-Keeps o) _ _ m e
