-- ===== src/Notifications/Cache.antt =====
-- internal/infrastructure/notifications: CacheableListPage of read_cache.go, and
-- read_cache_memory.go. A version is a count, since no cache lives for 2 ^ 63 invalidations.
pub mod Fresh
use bff_api_go_collection_ac.Base.{
  ℕ, suc, String, Bool, true, false, List, [], ◌∷◌, Option, none, some, ◌==◌, ◌||◌, if◌then◌else◌,
}
use bff_api_go_collection_ac.Base.Ints.{ℤ}
use bff_api_go_collection_ac.Base.Maps.{Map, find, store}
use bff_api_go_collection_ac.Base.Texts.{trim_space, to_lower, join}
use bff_api_go_collection_ac.Base.Texts.Decimal.{itoa, itoa_ℤ}
use bff_api_go_collection_ac.Json.{Fields}

abbrev pub normalize_email : String → String
normalize_email email = to_lower (trim_space email)

abbrev pub is_blank : String → Bool
is_blank s = trim_space s == ""

abbrev is_listed_state : String → Bool
is_listed_state s = s == "" || s == "all" || s == "unread" || s == "read"

-- CacheableListPage
unfoldable pub cacheable_list_page :
    (state severity from_date to_date before_at before_id : String) → Bool
cacheable_list_page state severity from_date to_date before_at before_id =
    if is_blank before_at
    then if is_blank before_id
      then if is_blank from_date
        then if is_blank to_date then is_listed_state (trim_space state) else false
        else false
      else false
    else false

pub record MemoryReadCache : Type 0 where
  pub ver : Map ℕ
  pub unread : Map ℤ
  pub lists : Map (Option Fields)

abbrev pub new_memory_read_cache : MemoryReadCache
new_memory_read_cache = record { ver = []; unread = []; lists = [] }

abbrev pub user_key : (tenant_id user_email : String) → String
user_key tenant_id user_email = join "|" (trim_space tenant_id ∷ normalize_email user_email ∷ [])

-- A missing key reads as 0.
abbrev pub count_of : Option ℕ → ℕ
count_of none = 0
count_of (some n) = n

-- versionLocked
unfoldable pub version : Map ℕ → (tenant_id user_email : String) → ℕ
version m tenant_id user_email = count_of (find (user_key tenant_id user_email) m)

-- A key: its version, the tenant, the user, and what follows.
unfoldable pub key_at : ℕ → (tenant_id user_email : String) → String → List String → String
key_at v tenant_id user_email p ps =
    join "|" (itoa v ∷ trim_space tenant_id ∷ normalize_email user_email ∷ p ∷ ps)

abbrev pub unread_key : Map ℕ → (tenant_id user_email : String) → String
unread_key ver tenant_id user_email =
    key_at (version ver tenant_id user_email) tenant_id user_email "unread" []

abbrev pub list_key : Map ℕ → (tenant_id user_email state severity : String) → (limit : ℤ) → String
list_key ver tenant_id user_email state severity limit =
    key_at (version ver tenant_id user_email) tenant_id user_email "list"
      (state ∷ severity ∷ itoa_ℤ limit ∷ [])

unfoldable pub get_unread_count : MemoryReadCache → (tenant_id user_email : String) → Option ℤ
get_unread_count c tenant_id user_email = find (unread_key c.ver tenant_id user_email) c.unread

unfoldable pub set_unread_count :
    MemoryReadCache → (tenant_id user_email : String) → ℤ → MemoryReadCache
set_unread_count c tenant_id user_email count = record c {
  unread = store (unread_key c.ver tenant_id user_email) count c.unread;
}

-- GetList; the nil map, which SetList stores too, is `none` below the `some` of a hit.
unfoldable pub get_list :
    MemoryReadCache
    → (tenant_id user_email state severity : String) → (limit : ℤ) → Option (Option Fields)
get_list c tenant_id user_email state severity limit =
    find (list_key c.ver tenant_id user_email state severity limit) c.lists

unfoldable pub set_list :
    MemoryReadCache
    → (tenant_id user_email state severity : String) → (limit : ℤ) → Option Fields
    → MemoryReadCache
set_list c tenant_id user_email state severity limit payload = record c {
  lists = store (list_key c.ver tenant_id user_email state severity limit) payload c.lists;
}

unfoldable pub invalidate_user : MemoryReadCache → (tenant_id user_email : String) → MemoryReadCache
invalidate_user c tenant_id user_email = record c {
  ver = store (user_key tenant_id user_email) (suc (version c.ver tenant_id user_email)) c.ver;
}
