-- ===== src/Auth/Emails.antt =====
-- internal/infrastructure/auth/identity_email_cache.go: the cache in memory. Times are
-- nanoseconds. The same map and queue hold the addresses and the subjects without one.
pub mod Queue
pub mod Bounded
pub mod Lost
use bff_api_go_collection_ac.Base.{
  ℕ, ◌+◌, ◌*◌, String, Bool, true, false, List, [], ◌∷◌, ◌++◌, Option, none, some, ◌==◌, ◌||◌,
  length, ltb, if◌then◌else◌,
}
use bff_api_go_collection_ac.Base.Maps.{Map, find, store, remove}

-- cacheEntry
pub record CacheEntry : Type 0 where
  pub expires_at : ℕ
  pub email : String

pub record IdentityEmailCache : Type 0 where
  pub ttl : ℕ
  pub negative_ttl : ℕ
  pub max_entries : ℕ
  pub entries : Map CacheEntry
  pub negatives : Map ℕ
  pub order : List String
  pub neg_order : List String

-- NewInMemoryTtlIdentityEmailCache: 24 hours, 120 seconds, and 4096 entries.
abbrev pub new_identity_email_cache : IdentityEmailCache
new_identity_email_cache = record {
  ttl = 24 * 3600 * 1000000000;
  negative_ttl = 120 * 1000000000;
  max_entries = 4096;
  entries = [];
  negatives = [];
  order = [];
  neg_order = [];
}

-- The loop that drops the oldest names until the map is small enough or no name is left.
unfoldable pub evict {ℓ} : {V : Type ℓ} → ℕ → Map V → List String → Map V × List String
evict max m [] = (m, [])
evict max m (oldest ∷ order) =
    let rest = evict max (remove oldest m) order in
    if ltb max (length m) then rest else (m, oldest ∷ order)

abbrev pub queued {ℓ} : {V : Type ℓ} → Option V → String → List String → List String
queued none subject order = order ++ subject ∷ []
queued (some v) subject order = order

-- A map and its queue after a value is stored.
unfoldable pub put {ℓ} : {V : Type ℓ} → ℕ → Map V → List String → String → V → Map V × List String
unfolding evict
put max m order subject v = evict max (store subject v m) (queued (find subject m) subject order)

abbrev pub get_entry :
    Option CacheEntry → IdentityEmailCache → String → (now : ℕ) → IdentityEmailCache × String
get_entry none c subject now = (c, "")
get_entry (some e) c subject now =
    if ltb now e.expires_at
    then (c, e.email)
    else (record c { entries = remove subject c.entries }, "")

unfoldable pub get : IdentityEmailCache → String → (now : ℕ) → IdentityEmailCache × String
get c subject now =
    if subject == "" then (c, "") else get_entry (find subject c.entries) c subject now

unfoldable pub set : IdentityEmailCache → (subject email : String) → (now : ℕ) → IdentityEmailCache
set c subject email now =
    if subject == "" || email == ""
    then c
    else (let after =
          put c.max_entries c.entries c.order subject
            (record { expires_at = now + c.ttl; email = email }) in
        record c { entries = after.0; order = after.1 })

abbrev pub negative_entry :
    Option ℕ → IdentityEmailCache → String → (now : ℕ) → IdentityEmailCache × Bool
negative_entry none c subject now = (c, false)
negative_entry (some expires_at) c subject now =
    if ltb now expires_at
    then (c, true)
    else (record c { negatives = remove subject c.negatives }, false)

unfoldable pub is_negative : IdentityEmailCache → String → (now : ℕ) → IdentityEmailCache × Bool
is_negative c subject now =
    if subject == "" then (c, false) else negative_entry (find subject c.negatives) c subject now

-- The time that negatives live is not negative here, and 0 switches them off.
unfoldable pub set_negative : IdentityEmailCache → String → (now : ℕ) → IdentityEmailCache
set_negative c subject now =
    if subject == ""
    then c
    else if ltb 0 c.negative_ttl
    then (let after = put c.max_entries c.negatives c.neg_order subject (now + c.negative_ttl) in
        record c { negatives = after.0; neg_order = after.1 })
    else c
