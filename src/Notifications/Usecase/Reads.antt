-- ===== src/Notifications/Usecase/Reads.antt =====
-- What a reader sees after the notifications were marked as read, and what the cache remembers.
use bff_api_go_collection_ac.Base.{
  String, ◌≡◌, List, All, Option, none, some, eq_refl, Bool-cases, inl, inr,
}
use bff_api_go_collection_ac.Base.Ints.{ℤ, pos}
use bff_api_go_collection_ac.Base.Maps.{find-store}
use bff_api_go_collection_ac.Base.Results.{ok}
use bff_api_go_collection_ac.Json.{num, obj, Fields, get}
use bff_api_go_collection_ac.Notifications.Cache.{
  MemoryReadCache, user_key, get_unread_count, set_unread_count, get_list, unread_key,
  cacheable_list_page,
}
use bff_api_go_collection_ac.Notifications.Cache.Fresh.{
  IsPlain, Event, PlainEvent, cache_after, get_unread_count-invalidate_user,
  get_list-invalidate_user,
}
use bff_api_go_collection_ac.Notifications.Contract.{
  notification_count, notification_int, pick_notification_field,
}
use bff_api_go_collection_ac.Notifications.Usecase.{
  memory, Answer, ListQuery, list_notifications, unread_count, mark_all_read, mark_read,
  unread_count_from_core, count_answer,
}

missed_page :
    (c : MemoryReadCache) (q : ListQuery) (listed : Option Fields)
    → get_list c q.tenant_id q.user_email q.state q.severity q.limit ≡ none
    → (list_notifications memory (some c) q (ok listed)).1 ≡ ok listed
unfolding list_notifications
missed_page c q listed e =
    elim (Bool-cases
      (cacheable_list_page q.state q.severity q.from_date q.to_date q.before_at q.before_id)) [
        | inl held ↦ rw (held, e)
        | inr shut ↦ rw shut
      ]

missed_count :
    (c : MemoryReadCache) (tenant email : String) (counted : Option Fields)
    → get_unread_count c tenant email ≡ none
    → (unread_count memory (some c) tenant email (ok counted)).1 ≡ ok counted
unfolding unread_count
missed_count c tenant email counted e = rw e

-- After the core has marked notifications of a user as read, one or all, the next count and the
-- next page of the user are what the core answers to them, whatever was stored and invalidated
-- before, for this user and for others. No tenant and no address of a user holds a '|'.
pub reads-mark_read :
    (events : List Event) (tenant email : String) (q : ListQuery)
    (marked counted listed : Option Fields)
    → All PlainEvent events
    → IsPlain q.tenant_id q.user_email
    → user_key tenant email ≡ user_key q.tenant_id q.user_email
    → (let before = some (cache_after events) in
        let one = (mark_read memory before tenant email none).0 in
        let all = (mark_all_read memory before tenant email (ok marked)).0 in
        ((unread_count memory one q.tenant_id q.user_email (ok counted)).1 ≡ ok counted)
        × ((list_notifications memory one q (ok listed)).1 ≡ ok listed)
        × ((unread_count memory all q.tenant_id q.user_email (ok counted)).1 ≡ ok counted)
        × ((list_notifications memory all q (ok listed)).1 ≡ ok listed))
unfolding mark_read mark_all_read
reads-mark_read events tenant email q marked counted listed plain p same =
    let no_count =
      get_unread_count-invalidate_user events plain q.tenant_id q.user_email tenant email p same in
    let no_page =
      get_list-invalidate_user events plain q.tenant_id q.user_email tenant email p same q.state
        q.severity q.limit in
    (
      missed_count _ q.tenant_id q.user_email counted no_count,
      missed_page _ q listed no_page,
      missed_count _ q.tenant_id q.user_email counted no_count,
      missed_page _ q listed no_page,
    )

unread_count-again :
    (c : MemoryReadCache) (tenant email : String) (m : Fields) (later : Answer)
    → get_unread_count c tenant email ≡ none
    → (let after = (unread_count memory (some c) tenant email (ok (some m))).0 in
        (unread_count memory after tenant email later).1
        ≡ ok (count_answer (unread_count_from_core (some m))))
unfolding unread_count get_unread_count set_unread_count
unread_count-again c tenant email m later e =
    rw (e, find-store, eq_refl (unread_key c.ver tenant email))

-- A count that the core sends under `data` is shown by the first answer, but the next one, from
-- the cache, shows 0.
pub unread_count_nested :
    (c : MemoryReadCache) (tenant email : String) (m data_field : Fields) (n : ℤ) (later : Answer)
    → get_unread_count c tenant email ≡ none
    → get "data" m ≡ some (obj data_field)
    → get "count" data_field ≡ some (num n)
    → get "count" m ≡ none
    → (let first = unread_count memory (some c) tenant email (ok (some m)) in
        (first.1 ≡ ok (some m))
        × (notification_count (some m) ≡ n)
        × ((unread_count memory first.0 tenant email later).1 ≡ ok (count_answer (pos 0))))
unfolding notification_count notification_int pick_notification_field unread_count_from_core
unread_count_nested c tenant email m data_field n later e nested count none_there = (
  missed_count c tenant email (some m) e,
  rw (nested, count),
  rw (unread_count-again c tenant email m later e, none_there),
)
