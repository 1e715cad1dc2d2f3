-- ===== src/CoreClient/Requests/Refused.antt =====
-- What becomes of a call that the core refuses.
use bff_api_go_collection_ac.Base.{ℕ, ◌≤◌, String, some, ◌≡◌, le→leb}
use bff_api_go_collection_ac.Base.Maps.{Map}
use bff_api_go_collection_ac.Base.Results.{Result, err, ◌>>=◌}
use bff_api_go_collection_ac.Json.{Fields}
use bff_api_go_collection_ac.CoreClient.Errors.{Body, translate_core_error}
use bff_api_go_collection_ac.CoreClient.Requests.{
  CoreClient, CoreError, Caller, Request, answered, refused, auth_headers, read_reply,
  read_no_content, get, post, patch, put, delete_no_content, post_no_content,
}
use bff_api_go_collection_ac.CoreClient.Requests.Calls
use bff_api_go_collection_ac.CoreClient.Requests.Calls.{nameless}
use bff_api_go_collection_ac.CoreClient.Requests.Call.{
  Call, asker, perform, list_activities, create_activity, create_activity_batch, create_escalation,
  update_escalation_status, decide_escalation, list_escalations, get_agent_kpis, get_agent_goals,
  get_ranking, get_workload, get_team_performance_report, get_scoped_goals, get_operations_summary,
  list_notifications, notification_events_after, notification_unread_count,
  register_notification_device, revoke_notification_device, notification_detail,
  mark_all_notifications_read, mark_notification_read, submit_contact,
}

module _ (c : CoreClient) (status : ℕ) (body : Body) (high : 400 ≤ status)
    (refuses : (q : Request) → c.send q ≡ answered status body) where
  abbrev refusal : Result CoreError Fields
  refusal = err (refused (translate_core_error status body))

  after_mint :
      (who : Caller) (token : String) (next : Map String → Result CoreError Fields)
      → c.mint who.user_email ≡ some token
      → ((h : Map String) → next h ≡ refusal)
      → (auth_headers c who >>= next) ≡ refusal
  unfolding auth_headers
  after_mint who token next minted all = rw minted (all _)

  reply_refused : (q : Request) → read_reply (c.send q) ≡ refusal
  unfolding read_reply
  reply_refused q = rw (refuses q, le→leb 400 status high)

  no_content_refused : (q : Request) → read_no_content (c.send q) ≡ refusal
  unfolding read_no_content
  no_content_refused q = rw (refuses q, le→leb 400 status high)

  -- Whatever the call, if the core answers 400 or more the caller gets the error that
  -- translateCoreError makes of status and body, provided that a token can be minted.
  pub perform-refused :
      (who : Caller) (call : Call) (token : String)
      → c.mint (asker who call).user_email ≡ some token
      → perform c who call ≡ refusal
  unfolding get post patch put delete_no_content post_no_content Calls.list_activities
      Calls.create_activity Calls.create_activity_batch Calls.create_escalation
      Calls.update_escalation_status Calls.decide_escalation Calls.list_escalations
      Calls.get_agent_kpis Calls.get_agent_goals Calls.get_ranking Calls.get_workload
      Calls.get_team_performance_report Calls.get_scoped_goals Calls.get_operations_summary
      Calls.list_notifications Calls.notification_events_after Calls.notification_unread_count
      Calls.register_notification_device Calls.revoke_notification_device Calls.notification_detail
      Calls.mark_all_notifications_read Calls.mark_notification_read Calls.submit_contact
  perform-refused who (list_activities q) token e = after_mint who token _ e (λ h. reply_refused _)
  perform-refused who (create_activity p o key) token e =
      after_mint who token _ e (λ h. reply_refused _)
  perform-refused who (create_activity_batch p o key) token e =
      after_mint who token _ e (λ h. reply_refused _)
  perform-refused who (create_escalation p o key) token e =
      after_mint who token _ e (λ h. reply_refused _)
  perform-refused who (update_escalation_status id p) token e =
      after_mint who token _ e (λ h. reply_refused _)
  perform-refused who (decide_escalation id p) token e =
      after_mint who token _ e (λ h. reply_refused _)
  perform-refused who (list_escalations q) token e = after_mint who token _ e (λ h. reply_refused _)
  perform-refused who (get_agent_kpis id day) token e =
      after_mint (nameless who) token _ e (λ h. reply_refused _)
  perform-refused who (get_agent_goals id day) token e =
      after_mint who token _ e (λ h. reply_refused _)
  perform-refused who (get_ranking day limit) token e =
      after_mint who token _ e (λ h. reply_refused _)
  perform-refused who (get_workload day) token e = after_mint who token _ e (λ h. reply_refused _)
  perform-refused who (get_team_performance_report t day) token e =
      after_mint who token _ e (λ h. reply_refused _)
  perform-refused who (get_scoped_goals day) token e =
      after_mint who token _ e (λ h. reply_refused _)
  perform-refused who (get_operations_summary t day) token e =
      after_mint who token _ e (λ h. reply_refused _)
  perform-refused who (list_notifications q) token e =
      after_mint who token _ e (λ h. reply_refused _)
  perform-refused who (notification_events_after a limit) token e =
      after_mint who token _ e (λ h. reply_refused _)
  perform-refused who notification_unread_count token e =
      after_mint who token _ e (λ h. reply_refused _)
  perform-refused who (register_notification_device p) token e =
      after_mint who token _ e (λ h. reply_refused _)
  perform-refused who (revoke_notification_device f id) token e =
      after_mint who token _ e (λ h. no_content_refused _)
  perform-refused who (notification_detail id) token e =
      after_mint who token _ e (λ h. reply_refused _)
  perform-refused who mark_all_notifications_read token e =
      after_mint who token _ e (λ h. reply_refused _)
  perform-refused who (mark_notification_read id) token e =
      after_mint who token _ e (λ h. no_content_refused _)
  perform-refused who (submit_contact p o) token e =
      after_mint (nameless who) token _ e (λ h. reply_refused _)
