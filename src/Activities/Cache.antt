-- ===== src/Activities/Cache.antt =====
-- internal/infrastructure/activities: CacheableList and ScopeIDsFromPayload of read_cache.go, and
-- read_cache_memory.go. A version is a count, since no cache lives for 2 ^ 63 invalidations.
pub mod Fresh
use bff_api_go_collection_ac.Base.{
  ℕ, suc, String, Bool, true, false, not, List, [], ◌∷◌, Option, none, some, ◌==◌, ◌||◌, ◌&&◌,
  if◌then◌else◌,
}
use bff_api_go_collection_ac.Base.Ints.{ℤ, pos, eqb_ℤ}
use bff_api_go_collection_ac.Base.Maps.{Map, find, store}
use bff_api_go_collection_ac.Base.Texts.{trim_space, to_lower, join}
use bff_api_go_collection_ac.Base.Texts.Decimal.{itoa, itoa_ℤ}
use bff_api_go_collection_ac.Json.{Json, str, arr, Items, nil, cons, Fields, get}

-- The arguments that GetList and SetList share.
pub record CacheQuery : Type 0 where
  pub tenant_id : String
  pub user_email : String
  pub loan_id : String
  pub loan_ids : List String
  pub client_id : String
  pub agent_id : String
  pub agent_name : String
  pub activity_type : String
  pub limit : ℤ
  pub offset : ℤ

abbrev pub normalize_email : String → String
normalize_email email = to_lower (trim_space email)

abbrev pub is_blank : String → Bool
is_blank s = trim_space s == ""

-- CacheableList
unfoldable pub cacheable_list : String → String → ℤ → Bool
cacheable_list loan_id client_id offset =
    if eqb_ℤ offset (pos 0) then not (is_blank loan_id) || not (is_blank client_id) else false

pub record MemoryReadCache : Type 0 where
  pub loan_v : Map ℕ
  pub client_v : Map ℕ
  pub lists : Map Fields

abbrev pub new_memory_read_cache : MemoryReadCache
new_memory_read_cache = record { loan_v = []; client_v = []; lists = [] }

abbrev pub scope_key : String → String → String
scope_key tenant_id id = join "|" (trim_space tenant_id ∷ trim_space id ∷ [])

-- A missing key reads as 0.
abbrev pub count_of : Option ℕ → ℕ
count_of none = 0
count_of (some n) = n

unfoldable pub version : Map ℕ → String → String → ℕ
version m tenant_id id = count_of (find (scope_key tenant_id id) m)

unfoldable pub bump : String → String → Map ℕ → Map ℕ
bump tenant_id id m =
    if is_blank id then m else store (scope_key tenant_id id) (suc (version m tenant_id id)) m

-- SHA-1 of the sorted ids, in hex: a text that depends on the ids alone.
module _ (loan_ids_fingerprint : List String → String) where
  -- The parts of a key behind the two versions.
  abbrev pub key_parts : CacheQuery → List String
  key_parts q =
      loan_ids_fingerprint q.loan_ids
      ∷ q.client_id
      ∷ q.agent_id
      ∷ q.agent_name
      ∷ q.activity_type
      ∷ itoa_ℤ q.limit
      ∷ itoa_ℤ q.offset
      ∷ []

  unfoldable pub key_at : ℕ → ℕ → CacheQuery → String
  key_at loan_ver client_ver q = join "|" (
      itoa loan_ver
      ∷ itoa client_ver
      ∷ q.tenant_id
      ∷ normalize_email q.user_email
      ∷ q.loan_id
      ∷ key_parts q)

  abbrev pub key : MemoryReadCache → CacheQuery → String
  key c q =
      key_at (version c.loan_v q.tenant_id q.loan_id) (version c.client_v q.tenant_id q.client_id) q

  abbrev pub is_cacheable : CacheQuery → Bool
  is_cacheable q = cacheable_list q.loan_id q.client_id q.offset

  unfoldable pub get_list : MemoryReadCache → CacheQuery → Option Fields
  get_list c q = if is_cacheable q then find (key c q) c.lists else none

  abbrev pub put_list : MemoryReadCache → CacheQuery → Option Fields → MemoryReadCache
  put_list c q none = c
  put_list c q (some payload) = record c { lists = store (key c q) payload c.lists }

  -- SetList; `none` is the nil payload.
  unfoldable pub set_list : MemoryReadCache → CacheQuery → Option Fields → MemoryReadCache
  set_list c q payload = if is_cacheable q then put_list c q payload else c

unfoldable pub invalidate_scopes : MemoryReadCache → String → String → String → MemoryReadCache
invalidate_scopes c tenant_id loan_id client_id = record c {
  loan_v = bump tenant_id loan_id c.loan_v;
  client_v = bump tenant_id client_id c.client_v;
}

-- stringField: the first of the keys that has a text which is not blank, trimmed.
abbrev filled : Option Json → Option String
filled (some (str s)) = if is_blank s then none else some (trim_space s)
filled _ = none

abbrev first_of_two : Option String → Option String → String
first_of_two (some s) other = s
first_of_two none (some s) = s
first_of_two none none = ""

unfoldable pub string_field : Fields → String → String → String
string_field payload key alias =
    first_of_two (filled (get key payload)) (filled (get alias payload))

-- The first text of a list that is not blank, trimmed.
unfoldable pub first_id : Items → String
first_id nil = ""
first_id (cons (str s) vs) = let rest = first_id vs in if is_blank s then rest else trim_space s
first_id (cons v vs) = first_id vs

abbrev pub ids_of : Option Json → String
ids_of (some (arr vs)) = first_id vs
ids_of _ = ""

-- ScopeIDsFromPayload: the loan and the client of a payload; `none` is the nil map.
unfoldable pub scope_ids_from_payload : Option Fields → String × String
unfolding string_field first_id
scope_ids_from_payload none = ("", "")
scope_ids_from_payload (some payload) =
    let loan_id = string_field payload "loan_id" "loanId" in
    (
      if loan_id == "" then ids_of (get "loan_ids" payload) else loan_id,
      string_field payload "client_id" "clientId",
    )
