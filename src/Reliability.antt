-- ===== src/Reliability.antt =====
-- framework/reliability: the shared state store, the circuit breaker, the retry loop and the
-- bulkhead. Times are whole milliseconds.
mod Counter
pub mod StateStore
pub mod CircuitBreaker
pub mod Retry
pub mod Bulkhead
