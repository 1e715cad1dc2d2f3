-- ===== src/CoreClient/Requests/Call.antt =====
-- The calls of the core client as values, so that a theorem can speak of all of them.
use bff_api_go_collection_ac.Base.{String}
use bff_api_go_collection_ac.Base.Ints.{ℤ}
use bff_api_go_collection_ac.Base.Results.{Result}
use bff_api_go_collection_ac.Json.{Fields}
use bff_api_go_collection_ac.CoreClient.Queries.{ListQuery}
use bff_api_go_collection_ac.CoreClient.Requests.{CoreClient, CoreError, Caller}
use bff_api_go_collection_ac.CoreClient.Requests.Calls
use bff_api_go_collection_ac.CoreClient.Requests.Calls.{
  Origin, EscalationQuery, NotificationQuery, origin_headers, keyed_headers, nameless,
}

-- A call of one of the methods, with its arguments.
pub data Call : Type 0 where
  list_activities : ListQuery → Call
  create_activity : Fields → Origin → String → Call
  create_activity_batch : Fields → Origin → String → Call
  create_escalation : Fields → Origin → String → Call
  update_escalation_status : String → Fields → Call
  decide_escalation : String → Fields → Call
  list_escalations : EscalationQuery → Call
  get_agent_kpis : (agent_id day : String) → Call
  get_agent_goals : (agent_id day : String) → Call
  get_ranking : (day : String) → (limit : ℤ) → Call
  get_workload : (day : String) → Call
  get_team_performance_report : (tenant day : String) → Call
  get_scoped_goals : (day : String) → Call
  get_operations_summary : (tenant day : String) → Call
  list_notifications : NotificationQuery → Call
  notification_events_after : String → (limit : ℤ) → Call
  notification_unread_count : Call
  register_notification_device : Fields → Call
  revoke_notification_device : (String → String) → String → Call
  notification_detail : String → Call
  mark_all_notifications_read : Call
  mark_notification_read : String → Call
  submit_contact : Fields → Origin → Call

-- In whose name a call is made.
abbrev pub asker : Caller → Call → Caller
asker who (get_agent_kpis agent_id day) = nameless who
asker who (submit_contact payload o) = nameless who
asker who call = who

abbrev pub perform : CoreClient → Caller → Call → Result CoreError Fields
perform c who (list_activities q) = Calls.list_activities c who q
perform c who (create_activity p o key) = Calls.create_activity c who p o key
perform c who (create_activity_batch p o key) = Calls.create_activity_batch c who p o key
perform c who (create_escalation p o key) = Calls.create_escalation c who p o key
perform c who (update_escalation_status id p) = Calls.update_escalation_status c who id p
perform c who (decide_escalation id p) = Calls.decide_escalation c who id p
perform c who (list_escalations q) = Calls.list_escalations c who q
perform c who (get_agent_kpis id day) = Calls.get_agent_kpis c who id day
perform c who (get_agent_goals id day) = Calls.get_agent_goals c who id day
perform c who (get_ranking day limit) = Calls.get_ranking c who day limit
perform c who (get_workload day) = Calls.get_workload c who day
perform c who (get_team_performance_report t day) = Calls.get_team_performance_report c who t day
perform c who (get_scoped_goals day) = Calls.get_scoped_goals c who day
perform c who (get_operations_summary t day) = Calls.get_operations_summary c who t day
perform c who (list_notifications q) = Calls.list_notifications c who q
perform c who (notification_events_after a limit) = Calls.notification_events_after c who a limit
perform c who notification_unread_count = Calls.notification_unread_count c who
perform c who (register_notification_device p) = Calls.register_notification_device c who p
perform c who (revoke_notification_device f id) = Calls.revoke_notification_device c who f id
perform c who (notification_detail id) = Calls.notification_detail c who id
perform c who mark_all_notifications_read = Calls.mark_all_notifications_read c who
perform c who (mark_notification_read id) = Calls.mark_notification_read c who id
perform c who (submit_contact p o) = Calls.submit_contact c who p o
