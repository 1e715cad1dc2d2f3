-- ===== src/CoreClient/Requests/Forwarded.antt =====
-- The query of a forwarded request is put together without escapes.
use Prim.Native.String
use bff_api_go_collection_ac.Base.{String, List, [], ◌∷◌, ◌≡◌, ap, ◌∙◌, map, none}
use bff_api_go_collection_ac.Base.Texts.{join}
use text.Mathlib.TextLemmas.{append_assoc, cons-append}
use bff_api_go_collection_ac.CoreClient.Requests.{
  CoreClient, Reply, method_get, forward_get, set_given, token_or_empty,
}

abbrev written : String × String → String
written q = String.◌++◌ q.0 (String.◌++◌ "=" q.1)

-- A value with a parameter behind it.
abbrev pub smuggled : (value name other : String) → String
smuggled value name other = String.◌++◌ value (String.◌∷◌ "&" (written (name, other)))

module _ (name value extra other : String) where
  written-smuggled :
      written (name, smuggled value extra other)
      ≡ String.◌++◌ (written (name, value)) (String.◌∷◌ "&" (written (extra, other)))
  written-smuggled = simp append_assoc

  join-smuggled :
      (ps : List (String × String))
      → join "&" (map written ((name, smuggled value extra other) ∷ ps))
        ≡ join "&" (map written ((name, value) ∷ (extra, other) ∷ ps))
  unfolding join
  join-smuggled [] = written-smuggled
  join-smuggled (p ∷ ps) =
      ap (λ t. String.◌++◌ t (String.◌∷◌ "&" (join "&" (map written (p ∷ ps))))) written-smuggled
      ∙ simp (append_assoc, cons-append)

-- What comes back for a query that is put together.
abbrev sent :
    CoreClient → (path trace_id request_id correlation_id traceparent query : String) → Reply
sent c path trace_id request_id correlation_id traceparent query =
    let bearer = String.◌++◌ "Bearer " (token_or_empty (c.mint "")) in
    c.send (record {
      method = method_get;
      url = String.◌++◌ (String.◌++◌ c.base_url path) (String.◌++◌ "?" query);
      params = [];
      headers = set_given "traceparent" traceparent (
          set_given "X-Correlation-Id" correlation_id (
            set_given "X-Request-Id" request_id
              (set_given "X-Trace-Id" trace_id (("Authorization", bearer) ∷ []))));
      body = none;
    })

-- ForwardGet does not escape what it forwards: a parameter whose value is v&n=w makes the very
-- request that the value v and a further parameter n with the value w make, so that a client who
-- chooses the value also chooses further parameters of the core's query.
pub forward_get-smuggled :
    (c : CoreClient) (path name value extra other : String) (ps : List (String × String))
    (trace_id request_id correlation_id traceparent : String)
    → forward_get c path
        ((name, smuggled value extra other) ∷ ps)
        trace_id
        request_id
        correlation_id
        traceparent
      ≡ forward_get c path
          ((name, value) ∷ (extra, other) ∷ ps)
          trace_id
          request_id
          correlation_id
          traceparent
unfolding forward_get
forward_get-smuggled c path name value extra other ps trace_id request_id correlation_id
      traceparent =
    ap (sent c path trace_id request_id correlation_id traceparent)
      (join-smuggled name value extra other ps)
