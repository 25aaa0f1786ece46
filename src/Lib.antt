-- ===== src/Lib.antt =====
-- A verification library for the back end of this repository (Python, Django): its core services
-- as functions and state machines, with the theorems that make them correct.
--
-- Parts and files.
-- Reliability models framework/reliability: StateStore is `InMemoryStateStore` of state_store.py,
-- and CircuitBreaker is `CircuitBreaker` of circuit_breaker.py over it (View, Trace, Runs,
-- Trials, Recovery and Threads hold the proofs), Retry is `RetryPolicy` and `_do_retry` of
-- retry.py, and Bulkhead is `Bulkhead` of bulkhead.py.
-- Idempotency models framework/idempotency/core.py: Memory is `LocalMemoryIdempotencyBackend`,
-- Context is `idempotent_context`, `IdempotencyContext` and the body of the wrapper of
-- `@idempotent` over it.
-- Locks models framework/locks/core.py: Memory is `LocalMemoryLockBackend`, Client is `RedisLock`
-- over any backend, Quorum is `RedLock` over several backends. Exclusion holds the proof on a
-- system of lock objects, and Effects its lemmas on one call.
-- Gateway models framework/gateway/throttle.py: Window is `check_sliding_window`, Cache is
-- `RuleCacheManager`, Admin is `GatewayService` of apps/system/saas/services.py, Rules is
-- `APILimitRule.matches` of apps/system/saas/models.py and the choice of a rule. Rates is
-- `parse_rate` and `GatewayConfigManager`, and Throttle the four throttles over the window. Limit
-- holds the proofs on the window, Buckets those on requests with different rates, and Store a
-- sorted-set store for its examples.
-- ApiSignature models framework/api_signature/core.py: Nonce is `MemoryNonceStore`, Signature is
-- `generate_signature` and `verify_signature`, Verifier is `SignatureVerifier` over them, and
-- Check and Replay hold the proofs. The hash, the encoders and the JSON writer are parameters.
-- Alerts models apps/business/alert_system/services/alert_engine.py and its models: Rules is
-- `_match_rule` and `_check_silence`, History is `_check_suppression`, `acknowledge` and
-- `resolve` on the stored alerts, Engine is `evaluate` and `trigger`, Escalation is
-- `check_escalations`, and Suppression, Announced, Handling and Repeats hold the proofs.
-- Pagination models framework/drf/pagination/base.py: Pages is `PageNumberPagination` and
-- `LimitOffsetPagination`, Cursor is `CursorPagination`, Text the text of its cursors, and the
-- other modules hold the proofs.
-- Saas models apps/system/saas: Config is `ConfigCenterService` of services.py and `GlobalConfig`
-- of models.py, with Reads and History for its proofs; Flags is `FeatureFlagService` and
-- `FeatureFlag`, with Rollout and Listing; Tenants is `HasTenantPermission` of permissions.py,
-- `PermissionService` and `TenantService`, with Grants and Switching.
-- Keys models `KeyRotationManager` of framework/key_management/key_rotation.py, with Primary and
-- Rotation for its proofs.
-- Versioning models framework/versioning: the registry of core.py, Routing its choice of a
-- version, Middleware is config.py and middleware.py, and Guards is decorators.py. Default,
-- Latest, Served and Window hold the proofs.
-- Validators models framework/drf/validators.py, with Passwords; Reading, Luhn, Identity and
-- Strength hold the proofs.
-- Caching models framework/cache/cache_manager.py over a cache with timeouts and laws; Tagged,
-- Calls, Removal and Race hold the proofs.
-- Sessions models `IdleTimeoutMiddleware` of framework/security/idle_timeout.py, with Idle for
-- its proofs.
-- Base holds what they share: tests, equality, lists and dicts.
--
-- Conventions. A method is a function from the object's state to its result and its new state. A
-- clock reading is an argument. Threads are sequences of steps, each as large as the part of the
-- code that holds a mutex, a call of the store, or one access of shared data without a mutex.
-- Redis is a parameter with laws from its documentation, and a call that may raise says so in an
-- argument. Regular expressions are parameters.
--
-- Bounds. Loops that wait (Locks/Memory) run on the list of their rounds, and enough rounds give
-- a result. The loop of Reliability/Retry counts down from `max_attempts`, as the code's range
-- does. Following cursors (Pagination/Follow) counts down from one more than the number of rows.
-- All other definitions are structural. Times are whole milliseconds, in Gateway/Window
-- microseconds, and seconds where the code says seconds.
--
-- Not modelled: Redis backends, json and hash functions, views, serializers, settings, calls of
-- external services, and the parts that the library does not name.
pub mod Base
pub mod Reliability
pub mod Idempotency
pub mod Locks
pub mod Gateway
pub mod ApiSignature
pub mod Alerts
pub mod Saas
pub mod Pagination
pub mod Keys
pub mod Versioning
pub mod Validators
pub mod Caching
pub mod Sessions
