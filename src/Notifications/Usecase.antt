-- ===== src/Notifications/Usecase.antt =====
-- internal/application/usecases/notifications.go: the operations that use the cache. An operation
-- takes the state of the cache, if there is one, and what the core would answer to its call. The
-- others hand the core's answer on.
pub mod Reads
use bff_api_go_collection_ac.Base.{String, Bool, Option, none, some, if◌then◌else◌}
use bff_api_go_collection_ac.Base.Ints.{ℤ, pos}
use bff_api_go_collection_ac.Base.Results.{Result, ok, err}
use bff_api_go_collection_ac.Domain.Errors.{Error}
use bff_api_go_collection_ac.Json.{Json, num, Fields, end, field, get}
use bff_api_go_collection_ac.Notifications.Cache.{
  MemoryReadCache, cacheable_list_page, get_unread_count, set_unread_count, get_list, set_list,
  invalidate_user,
}

-- notificationReadCache: the operations of a cache whose states are of type C.
pub record NotificationReadCache (C : Type 0) : Type 0 where
  pub get_unread_count : C → (tenant_id user_email : String) → Option ℤ
  pub set_unread_count : C → (tenant_id user_email : String) → ℤ → C
  pub get_list :
      C → (tenant_id user_email state severity : String) → (limit : ℤ) → Option (Option Fields)
  pub set_list :
      C → (tenant_id user_email state severity : String) → (limit : ℤ) → Option Fields → C
  pub invalidate_user : C → (tenant_id user_email : String) → C

-- MemoryReadCache has these operations.
abbrev pub memory : NotificationReadCache MemoryReadCache
memory = record {
  get_unread_count = get_unread_count;
  set_unread_count = set_unread_count;
  get_list = get_list;
  set_list = set_list;
  invalidate_user = invalidate_user;
}

abbrev pub Answer : Type 0
Answer = Result Error (Option Fields)

-- The arguments of ListNotifications.
pub record ListQuery : Type 0 where
  pub tenant_id : String
  pub user_email : String
  pub state : String
  pub severity : String
  pub from_date : String
  pub to_date : String
  pub limit : ℤ
  pub before_at : String
  pub before_id : String

abbrev pub is_cacheable : ListQuery → Bool
is_cacheable q =
    cacheable_list_page q.state q.severity q.from_date q.to_date q.before_at q.before_id

abbrev number_of : Option Json → ℤ
number_of (some (num n)) = n
number_of o = pos 0

unfoldable pub unread_count_from_core : Option Fields → ℤ
unread_count_from_core none = pos 0
unread_count_from_core (some m) = number_of (get "count" m)

abbrev pub count_answer : ℤ → Option Fields
count_answer n = some (field "count" (num n) end)

module _ {C : Type 0} (ops : NotificationReadCache C) where
  abbrev pub cached : Option C → ListQuery → Option (Option Fields)
  cached none q = none
  cached (some c) q =
      if is_cacheable q
      then ops.get_list c q.tenant_id q.user_email q.state q.severity q.limit
      else none

  abbrev pub remember : Option C → ListQuery → Option Fields → Option C
  remember none q result = none
  remember (some c) q result =
      if is_cacheable q
      then some (ops.set_list c q.tenant_id q.user_email q.state q.severity q.limit result)
      else some c

  -- What follows when the cache had nothing, for an answer of the core.
  abbrev pub ask : Option C → ListQuery → Answer → Option C × Answer
  ask cache q (err e) = (cache, err e)
  ask cache q (ok result) = (remember cache q result, ok result)

  abbrev pub serve_page : Option (Option Fields) → Option C → ListQuery → Answer → Option C × Answer
  serve_page (some page) cache q core = (cache, ok page)
  serve_page none cache q core = ask cache q core

  -- ListNotifications
  unfoldable pub list_notifications : Option C → ListQuery → Answer → Option C × Answer
  list_notifications cache q core = serve_page (cached cache q) cache q core

  abbrev pub cached_count : Option C → (tenant_id user_email : String) → Option ℤ
  cached_count none tenant_id user_email = none
  cached_count (some c) tenant_id user_email = ops.get_unread_count c tenant_id user_email

  abbrev pub remember_count : Option C → (tenant_id user_email : String) → Option Fields → Option C
  remember_count none tenant_id user_email result = none
  remember_count (some c) tenant_id user_email result =
      some (ops.set_unread_count c tenant_id user_email (unread_count_from_core result))

  abbrev pub serve_count :
      Option ℤ → Option C → (tenant_id user_email : String) → Answer → Option C × Answer
  serve_count (some n) cache tenant_id user_email core = (cache, ok (count_answer n))
  serve_count none cache tenant_id user_email (err e) = (cache, err e)
  serve_count none cache tenant_id user_email (ok result) =
      (remember_count cache tenant_id user_email result, ok result)

  -- UnreadCount
  unfoldable pub unread_count :
      Option C → (tenant_id user_email : String) → Answer → Option C × Answer
  unread_count cache tenant_id user_email core =
      serve_count (cached_count cache tenant_id user_email) cache tenant_id user_email core

  abbrev pub invalidate_in : Option C → (tenant_id user_email : String) → Option C
  invalidate_in none tenant_id user_email = none
  invalidate_in (some c) tenant_id user_email = some (ops.invalidate_user c tenant_id user_email)

  -- MarkAllRead
  unfoldable pub mark_all_read :
      Option C → (tenant_id user_email : String) → Answer → Option C × Answer
  mark_all_read cache tenant_id user_email (err e) = (cache, err e)
  mark_all_read cache tenant_id user_email (ok result) =
      (invalidate_in cache tenant_id user_email, ok result)

  -- MarkRead; the core's answer is an error or nothing.
  unfoldable pub mark_read :
      Option C → (tenant_id user_email : String) → Option Error → Option C × Option Error
  mark_read cache tenant_id user_email (some e) = (cache, some e)
  mark_read cache tenant_id user_email none = (invalidate_in cache tenant_id user_email, none)
