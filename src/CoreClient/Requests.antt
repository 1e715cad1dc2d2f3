-- ===== src/CoreClient/Requests.antt =====
-- internal/infrastructure/coreclient/client.go: the requests of the core client and what becomes of
-- their replies. `send` is net/http with the transport of mTLS, `mint` the signer of internal
-- tokens with its audience and subject. The parameters of a query are kept as they are before
-- net/url encodes them, and a body as it is before encoding/json writes it.
pub mod Calls
pub mod Call
pub mod Sent
pub mod Refused
pub mod Forwarded
use Prim.Native.String
use bff_api_go_collection_ac.Base.{
  ℕ, String, Bool, List, [], ◌∷◌, ◌++◌, Option, none, some, leb, map, ◌==◌, if◌then◌else◌,
}
use bff_api_go_collection_ac.Base.Maps.{Map, store}
use bff_api_go_collection_ac.Base.Results.{Result, ok, err, ◌>>=◌}
use bff_api_go_collection_ac.Base.Texts.{join}
use bff_api_go_collection_ac.Json.{Json, obj, Fields, end}
use bff_api_go_collection_ac.Domain.Errors.{BusinessError}
use bff_api_go_collection_ac.CoreClient.Errors.{
  Body, empty, malformed, object, translate_core_error,
}

pub data Method : Type 0 where
  method_get method_post method_patch method_put method_delete : Method

pub record Request : Type 0 where
  pub method : Method
  pub url : String
  pub params : Map String
  pub headers : Map String
  pub body : Option Json

-- A request that cannot be built, one that gets no answer, an answer whose body breaks off, and a
-- whole answer.
pub data Reply : Type 0 where
  unbuilt : Reply
  unanswered : Reply
  cut_off : (status : ℕ) (part : Body) → Reply
  answered : (status : ℕ) (body : Body) → Reply

-- The errors: those of fmt.Errorf by the step that failed, and that of translateCoreError.
pub data CoreError : Type 0 where
  not_minted : CoreError
  not_created : CoreError
  not_reached : CoreError
  not_read : CoreError
  not_parsed : CoreError
  refused : BusinessError → CoreError

pub record CoreClient : Type 0 where
  pub base_url : String
  pub mint : (email : String) → Option String
  pub send : Request → Reply

-- Who asks: the trace, the tenant and the e-mail address of a call.
pub record Caller : Type 0 where
  pub trace_id : String
  pub tenant_id : String
  pub user_email : String

abbrev headers_with : Caller → Option String → Result CoreError (Map String)
headers_with who none = err not_minted
headers_with who (some token) = ok (
    ("Authorization", String.◌++◌ "Bearer " token)
    ∷ ("X-Trace-Id", who.trace_id)
    ∷ ("X-Tenant-Id", who.tenant_id)
    ∷ [])

unfoldable pub auth_headers : CoreClient → Caller → Result CoreError (Map String)
auth_headers c who = headers_with who (c.mint who.user_email)

-- if value != "" { m[name] = value }
abbrev pub set_given : String → String → Map String → Map String
set_given name value m = if value == "" then m else store name value m

-- An empty body leaves the nil map.
abbrev pub parsed : Body → Result CoreError Fields
parsed empty = ok end
parsed (malformed text) = err not_parsed
parsed (object m) = ok m

-- What get, post, patch and put make of a reply.
unfoldable pub read_reply : Reply → Result CoreError Fields
read_reply unbuilt = err not_created
read_reply unanswered = err not_reached
read_reply (cut_off status part) = err not_read
read_reply (answered status body) =
    if leb 400 status then err (refused (translate_core_error status body)) else parsed body

abbrev pub read_status : ℕ → Body → Result CoreError Fields
read_status status body =
    if leb 400 status then err (refused (translate_core_error status body)) else ok end

-- What deleteNoContent and postNoContent make of it: the body counts only in an error, and as far
-- as it came. `end` stands for no value.
unfoldable pub read_no_content : Reply → Result CoreError Fields
read_no_content unbuilt = err not_created
read_no_content unanswered = err not_reached
read_no_content (cut_off status part) = read_status status part
read_no_content (answered status body) = read_status status body

abbrev pub request : CoreClient → Method → String → Map String → Map String → Option Json → Request
request c method path params headers body = record {
  method = method;
  url = String.◌++◌ c.base_url path;
  params = params;
  headers = headers;
  body = body;
}

-- The headers of a request with a body: those of the call go over the content type.
abbrev pub json_headers : Map String → Map String
json_headers headers = headers ++ (("Content-Type", "application/json") ∷ [])

module _ (c : CoreClient) (path : String) (headers : Map String) where
  unfoldable pub get : Map String → Result CoreError Fields
  get params = read_reply (c.send (request c method_get path params headers none))

  unfoldable pub post : Json → Result CoreError Fields
  post body = read_reply (c.send (request c method_post path [] (json_headers headers) (some body)))

  unfoldable pub patch : Json → Result CoreError Fields
  patch body =
      read_reply (c.send (request c method_patch path [] (json_headers headers) (some body)))

  unfoldable pub put : Json → Result CoreError Fields
  put body = read_reply (c.send (request c method_put path [] (json_headers headers) (some body)))

  unfoldable pub delete_no_content : Result CoreError Fields
  delete_no_content = read_no_content (c.send (request c method_delete path [] headers none))

  unfoldable pub post_no_content : Json → Result CoreError Fields
  post_no_content body =
      read_no_content (c.send (request c method_post path [] (json_headers headers) (some body)))

abbrev pub token_or_empty : Option String → String
token_or_empty none = ""
token_or_empty (some token) = token

abbrev pub with_query : List (String × String) → String → String
with_query [] url = url
with_query (p ∷ ps) url = String.◌++◌ url (
    String.◌++◌ "?"
      (join "&" (map (λ (q : String × String). String.◌++◌ q.0 (String.◌++◌ "=" q.1)) (p ∷ ps))))

-- ForwardGet, with the parameters in the order in which they are walked: neither names nor values
-- are escaped, and a token that cannot be minted is empty.
unfoldable pub forward_get :
    CoreClient
    → (path : String) (params : List (String × String))
    → (trace_id request_id correlation_id traceparent : String) → Reply
forward_get c path params trace_id request_id correlation_id traceparent =
    let bearer = String.◌++◌ "Bearer " (token_or_empty (c.mint "")) in
    c.send (record {
      method = method_get;
      url = with_query params (String.◌++◌ c.base_url path);
      params = [];
      headers = set_given "traceparent" traceparent (
          set_given "X-Correlation-Id" correlation_id (
            set_given "X-Request-Id" request_id
              (set_given "X-Trace-Id" trace_id (("Authorization", bearer) ∷ []))));
      body = none;
    })
