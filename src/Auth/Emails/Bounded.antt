-- ===== src/Auth/Emails/Bounded.antt =====
-- How large the cache of addresses gets.
use bff_api_go_collection_ac.Base.{
  ℕ, ◌+◌, ◌≤◌, String, List, [], ◌∷◌, Option, none, some, ◌==◌, ◌||◌, length, ltb, Bool-cases, inl,
  inr, arith,
}
use bff_api_go_collection_ac.Base.Maps.{find}
use bff_api_go_collection_ac.Auth.Emails.{
  CacheEntry, IdentityEmailCache, get, get_entry, set, is_negative, negative_entry, set_negative,
}
use bff_api_go_collection_ac.Auth.Emails.Queue.{
  AreQueued, put-le, length-remove-le, remove_fewer-AreQueued,
}

-- A cache whose maps are bounded and queued.
pub record IsBounded (c : IdentityEmailCache) : Type 0 where
  pub few : length c.entries ≤ c.max_entries
  pub few_negatives : length c.negatives ≤ c.max_entries
  pub are_queued : AreQueued c.entries c.order
  pub negatives_queued : AreQueued c.negatives c.neg_order

-- What happens to a cache.
pub data Event : Type 0 where
  asked : String → (now : ℕ) → Event
  found : (subject email : String) → (now : ℕ) → Event
  asked_negative : String → (now : ℕ) → Event
  not_found : String → (now : ℕ) → Event

abbrev pub after_event : IdentityEmailCache → Event → IdentityEmailCache
after_event c (asked s now) = (get c s now).0
after_event c (found s email now) = set c s email now
after_event c (asked_negative s now) = (is_negative c s now).0
after_event c (not_found s now) = set_negative c s now

unfoldable pub run : IdentityEmailCache → List Event → IdentityEmailCache
run c [] = c
run c (e ∷ events) = run (after_event c e) events

get_entry-IsBounded :
    (o : Option CacheEntry) (c : IdentityEmailCache) (s : String) (now : ℕ)
    → IsBounded c
    → IsBounded (get_entry o c s now).0
get_entry-IsBounded none c s now h = h
get_entry-IsBounded (some e) c s now h = elim (Bool-cases (ltb now e.expires_at)) [
  | inl live ↦ rw live h
  | inr ended ↦ rw ended (record {
    few = ground (arith, length-remove-le s c.entries, h.few);
    few_negatives = h.few_negatives;
    are_queued = remove_fewer-AreQueued s c.entries c.order h.are_queued;
    negatives_queued = h.negatives_queued;
  })
]

negative_entry-IsBounded :
    (o : Option ℕ) (c : IdentityEmailCache) (s : String) (now : ℕ)
    → IsBounded c
    → IsBounded (negative_entry o c s now).0
negative_entry-IsBounded none c s now h = h
negative_entry-IsBounded (some t) c s now h = elim (Bool-cases (ltb now t)) [
  | inl live ↦ rw live h
  | inr ended ↦ rw ended (record {
    few = h.few;
    few_negatives = ground (arith, length-remove-le s c.negatives, h.few_negatives);
    are_queued = h.are_queued;
    negatives_queued = remove_fewer-AreQueued s c.negatives c.neg_order h.negatives_queued;
  })
]

get-IsBounded :
    (c : IdentityEmailCache) (s : String) (now : ℕ) → IsBounded c → IsBounded (get c s now).0
unfolding get
get-IsBounded c s now h = elim (Bool-cases (s == "")) [
  | inl blank ↦ rw blank h
  | inr filled ↦ rw filled (get_entry-IsBounded (find s c.entries) c s now h)
]

is_negative-IsBounded :
    (c : IdentityEmailCache) (s : String) (now : ℕ)
    → IsBounded c
    → IsBounded (is_negative c s now).0
unfolding is_negative
is_negative-IsBounded c s now h = elim (Bool-cases (s == "")) [
  | inl blank ↦ rw blank h
  | inr filled ↦ rw filled (negative_entry-IsBounded (find s c.negatives) c s now h)
]

set-IsBounded :
    (c : IdentityEmailCache) (s email : String) (now : ℕ)
    → IsBounded c
    → IsBounded (set c s email now)
unfolding set
set-IsBounded c s email now h = elim (Bool-cases (s == "" || email == "")) [
  | inl blank ↦ rw blank h
  | inr filled ↦
      let (few, queue) =
        put-le c.max_entries c.entries c.order s
          (record { expires_at = now + c.ttl; email = email }) h.are_queued in
      rw filled (record {
        few = few;
        few_negatives = h.few_negatives;
        are_queued = queue;
        negatives_queued = h.negatives_queued;
      })
]

set_negative-IsBounded :
    (c : IdentityEmailCache) (s : String) (now : ℕ) → IsBounded c → IsBounded (set_negative c s now)
unfolding set_negative
set_negative-IsBounded c s now h = elim (Bool-cases (s == "")) [
  | inl blank ↦ rw blank h
  | inr filled ↦
      let (few, queue) =
        put-le c.max_entries c.negatives c.neg_order s (now + c.negative_ttl) h.negatives_queued in
      elim (Bool-cases (ltb 0 c.negative_ttl)) [
        | inr off ↦ rw (filled, off) h
        | inl on ↦
            rw (filled, on)
              (record {
                few = h.few;
                few_negatives = few;
                are_queued = h.are_queued;
                negatives_queued = queue;
              })
      ]
]

after_event-IsBounded :
    (c : IdentityEmailCache) (e : Event) → IsBounded c → IsBounded (after_event c e)
after_event-IsBounded c (asked s now) h = get-IsBounded c s now h
after_event-IsBounded c (found s email now) h = set-IsBounded c s email now h
after_event-IsBounded c (asked_negative s now) h = is_negative-IsBounded c s now h
after_event-IsBounded c (not_found s now) h = set_negative-IsBounded c s now h

-- Whatever is looked up and stored, in whatever order and at whatever times, the cache of
-- addresses and the one of subjects without an address keep within the largest number of entries,
-- and the queues know all of them.
pub run-IsBounded :
    (c : IdentityEmailCache) (events : List Event) → IsBounded c → IsBounded (run c events)
unfolding run
run-IsBounded c [] h = h
run-IsBounded c (e ∷ events) h =
    run-IsBounded (after_event c e) events (after_event-IsBounded c e h)
