-- ===== src/Lib.antt =====
-- The Go service bff-api-go-collection-activity-log: a backend for a browser application of debt
-- collectors. It checks who calls, hands requests on to a core service, and answers in its own
-- contract. Most of its state is in caches, sessions and limits. This library models the parts that
-- decide something, translates their code into functions, and proves what callers rely on.
--
-- How the parts work together. A request passes the CSRF check, the check of the caller's token
-- (`cognito_context_middleware`), the rate limit and, on some routes, the field encryption. A handler
-- then checks roles and scopes, reads the page or the payload, and calls a use case. A use case asks
-- its cache, which it knows by an interface, and the core; after a change it invalidates the cache.
-- An error of the core becomes a business error, which the handler writes as an answer. The
-- notifications of a user also go out as a stream, fed by the core and by Redis.
--
-- Which module models which code (paths from the root of the repository):
--   Activities.Page, Activities.Batch - internal/interface/api/handler/activities.go (pages) and
--     activity_batch.go
--   Activities.Cache - internal/infrastructure/activities/read_cache.go and read_cache_memory.go
--   Activities.Usecase - internal/application/usecases/activities.go and activity_pii.go
--   Escalations.Payload, Escalations.Management - internal/application/usecases/escalation_payload.go
--     and escalation_gestion.go
--   CoreClient.Errors - internal/infrastructure/coreclient/errors.go
--   CoreClient.Queries, CoreClient.Requests - client.go beside it: the queries, the calls and what
--     is forwarded
--   Domain.Errors - internal/domain/errors.go and internal/interface/api/handler/respond.go
--   Notifications.Stream - internal/infrastructure/notifications/sse.go
--   Notifications.Cache - internal/infrastructure/notifications/read_cache.go (CacheableListPage)
--     and read_cache_memory.go
--   Notifications.Usecase - internal/application/usecases/notifications.go
--   Notifications.Contract - internal/interface/api/handler/notification_contract.go
--   Notifications.Cursor - internal/interface/api/handler/notification_cursor.go
--   Notifications.Handlers - internal/interface/api/handler/notifications.go
--   FieldCrypto.Errors, .Envelope, .Service, .Digests, .Stateless, .Kek, .Tenants - errors.go and
--     public_codes.go, envelope.go, service.go and valuecodec.go, stateless_helpers.go, stateless.go,
--     kek_ring.go, and tenant_authority.go of internal/infrastructure/fieldcrypto
--   FieldCrypto.Store, .Policy - session.go and keys.go, and policy.go and settings.go beside them
--   FieldCrypto.Gate - internal/interface/api/middleware/fieldcrypto.go
--   Auth.Keycloak - internal/infrastructure/auth/keycloak/client.go
--   Auth.Login - internal/interface/api/handler/auth.go
--   Auth.Tokens, Auth.Emails - cognito_jwt.go and identity_email_cache.go of
--     internal/infrastructure/auth
--   Auth.Jwks - internal/infrastructure/auth/jwks.go
--   Auth.Access - cognito.go, authorization.go, csrf.go and session.go of
--     internal/interface/api/middleware
--   Sessions - the stores in memory of internal/infrastructure/session/redis_store.go
--   Middleware.RateLimit, Middleware.Clients - rate_limit_store.go and rate_limit.go of
--     internal/interface/api/middleware
--   Config, Config.Guards - config.go and guards.go of internal/infrastructure/config
--   Json - the values of encoding/json; Base - numbers, texts, maps and results of the Go language
--   Tests - the theorems at concrete inputs
-- A child module with another name than a file of the code holds proofs, and is named for them.
--
-- How code becomes definitions. A function of the code has the same name, in the spelling of this
-- library. A method that changes its receiver takes the old state and gives the new one. An error
-- is a value of `Result` or `Option`. A clock, random bytes and what the network answers are
-- arguments. A mutex makes each method one step, so a history of calls is a list of events. A map is
-- a list of entries of which the first with a key counts. The packages of Go and of others
-- (base64, AES-GCM, SHA-256, HMAC, JSON web tokens, key agreement, Redis, HTTP) are parameters; what
-- the code relies on of them stands in records such as `IsBase64` and `IsSound`, as hypotheses.
--
-- Bounds. An int64 wraps where a sum or a product can leave it (`wrap`). The versions of the caches
-- are counts, since no cache sees 2 ^ 63 invalidations. A number of JSON is a whole one that an
-- int64 holds, and is printed as the float64 that encoding/json makes of it, exactly up to 2 ^ 53.
-- Texts are sequences of characters; `to_lower` and `to_upper` change ASCII letters alone. Loops are
-- recursion on the list or the text that they read, and need no fuel but for the digits of a number,
-- where the number itself is enough.
--
-- Not modelled: the caches and stores in Redis, which repeat those in memory behind a network; what
-- else is read from the environment; the clients of the crypto service and of Cognito; the handlers
-- and use cases that only hand a request on; logs, traces, headers and the wiring of the server.
pub mod Activities
pub mod Auth
pub mod Base
pub mod Config
pub mod CoreClient
pub mod Domain
pub mod Escalations
pub mod FieldCrypto
pub mod Json
pub mod Middleware
pub mod Notifications
pub mod Sessions
pub mod Tests
