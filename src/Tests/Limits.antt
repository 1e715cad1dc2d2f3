-- ===== src/Tests/Limits.antt =====
-- The rate limit, the sessions and the streams of notifications at concrete inputs.
use bff_api_go_collection_ac.Base.{
  ℕ, String, ◌≡◌, refl, false, Bool, List, [], ◌∷◌, none, some, length, keep, ltb, arith,
}
use bff_api_go_collection_ac.Base.Ints.{pos}
use bff_api_go_collection_ac.Json.{num, Fields, end, field, get}
use bff_api_go_collection_ac.Middleware.RateLimit.{RateLimitStore, allow, is_active, times}
use bff_api_go_collection_ac.Middleware.RateLimit.Window.{
  Request, fresh, after, passed, allow-after,
}
use bff_api_go_collection_ac.Base.Maps.{find}
use bff_api_go_collection_ac.Base.{true, inr, ◌==◌, if◌then◌else◌}
use bff_api_go_collection_ac.Base.Texts.{split, trim_space, trim_left, trim_right, is_space}
use bff_api_go_collection_ac.Auth.Tokens.{trimmed_parts}
use bff_api_go_collection_ac.Middleware.Clients
use bff_api_go_collection_ac.Middleware.Clients.{
  parse_trusted_proxies, is_trusted_proxy, rate_limit_middleware,
}
use bff_api_go_collection_ac.Middleware.Clients.Trusted.{
  rate_limit_middleware_forwarded, rate_limit_middleware_spoofed,
}
use bff_api_go_collection_ac.Sessions.{MemoryEntry}
use bff_api_go_collection_ac.Notifications.Stream.Ids.{event_id_of-num}
use bff_api_go_collection_ac.Sessions.Lifetimes.{FlowEvent, put_event, pop_event}
use bff_api_go_collection_ac.Notifications.Stream.{event_id_of, Frame, Incoming, message, timeout}

abbrev three_requests : List Request
three_requests = ("a", 0) ∷ ("a", 5) ∷ ("b", 6) ∷ []

allow-after_example :
    (allow (after (fresh 2 10) three_requests) "a" 9).1
    ≡ ltb (length (keep (is_active 10 9) (passed "a" (fresh 2 10) three_requests))) 2
allow-after_example =
    allow-after 2 10 three_requests "a" 9 (omega arith, (omega arith, (omega arith, tt)))
      (omega arith)

abbrev no_entry : List (String × MemoryEntry Bool)
no_entry = []

abbrev other_logins : List (FlowEvent Bool)
other_logins = put_event "other" false (pos 600) 1001 ∷ pop_event "state" 1002 ∷ []

abbrev event : ℕ → Fields
event n = field "event_id" (num (pos n)) end

abbrev never : List Frame → Frame → Bool
never fs f = false

abbrev late_and_twice : List Incoming
late_and_twice = message (event 7) ∷ message (event 6) ∷ timeout ∷ message (event 7) ∷ []

abbrev by_peer : Clients.Request
by_peer = record {
  path = "/api/v1/activities";
  identity = none;
  remote_addr = "203.0.113.9";
  forwarded_for = "10.0.0.1";
  real_ip = "";
}

abbrev same_text : String → String → Bool
same_text host proxy = host == proxy

abbrev as_it_is : String → String
as_it_is s = s

untrusted :
    is_trusted_proxy same_text as_it_is "203.0.113.9" (parse_trusted_proxies "10.0.0.7, 10.0.0.8")
    ≡ false
unfolding is_trusted_proxy trimmed_parts split trim_space trim_left trim_right is_space
untrusted = refl

abbrev peer : String → String → String → String
peer remote_addr forwarded_for real_ip = remote_addr

rate_limit_middleware_forwarded_example :
    rate_limit_middleware same_text as_it_is peer
      (some (fresh 2 10))
      "10.0.0.7, 10.0.0.8"
      "/health"
      (record by_peer { forwarded_for = "192.0.2.1" })
      5
    ≡ rate_limit_middleware same_text as_it_is peer
        (some (fresh 2 10))
        "10.0.0.7, 10.0.0.8"
        "/health"
        by_peer
        5
rate_limit_middleware_forwarded_example =
    rate_limit_middleware_forwarded same_text as_it_is peer (some (fresh 2 10)) "10.0.0.7, 10.0.0.8"
      "/health" by_peer "192.0.2.1" 5 (inr (refl, untrusted))

-- ClientIP for a header with one address, where each peer is trusted.
abbrev named_ip : String → String → String → String
named_ip remote_addr forwarded_for real_ip =
    if forwarded_for == "" then remote_addr else forwarded_for

named_untrusted :
    is_trusted_proxy same_text as_it_is "192.0.2.77" (parse_trusted_proxies "10.0.0.7, 10.0.0.8")
    ≡ false
unfolding is_trusted_proxy trimmed_parts split trim_space trim_left trim_right is_space
named_untrusted = refl

-- The store has refused the caller's own address already.
abbrev full : RateLimitStore
full = record {
  limit = 1;
  window = 10;
  entries = ("ip:203.0.113.9:/api/v1/activities", 4 ∷ []) ∷ [];
}

unseen : times full "ip:192.0.2.77:/api/v1/activities" ≡ []
unfolding find
unseen = refl

rate_limit_middleware_spoofed_example :
    (rate_limit_middleware same_text as_it_is named_ip
      (some full)
      "10.0.0.7, 10.0.0.8"
      "/health"
      (record by_peer { forwarded_for = "192.0.2.77" })
      5).1
    ≡ true
rate_limit_middleware_spoofed_example =
    rate_limit_middleware_spoofed same_text as_it_is named_ip full "10.0.0.7, 10.0.0.8" "/health"
      by_peer "192.0.2.77" 5 refl refl named_untrusted unseen (omega arith)

million_id : get "event_id" (event 1_000_000) ≡ some (num (pos 1_000_000))
unfolding get
million_id = refl

event_id_of-num_example :
    event_id_of (event 1_000_000) ≡ (if ltb 1_000_000 1_000_000 then some 1_000_000 else none)
event_id_of-num_example = event_id_of-num (event 1_000_000) 1_000_000 million_id
