-- ===== src/Gateway.antt =====
-- framework/gateway: the rate limits of the API gateway. Window is the sliding window of
-- framework/gateway/throttle.py over Redis sorted sets.
mod Window
mod Limit
mod Rules
mod Cache
mod Store
mod Rates
mod Throttle
mod Buckets
mod Admin
mod Scenarios
mod Examples
