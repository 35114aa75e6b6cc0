-- ===== src/Traffic.antt =====
-- core/bybit_traffic_controller.py: the single entry point of all Bybit REST calls. Its parts are
-- the circuit breaker, the token bucket, the TTL cache and the request coordinator. Times are
-- whole milliseconds of `time.monotonic()`.
pub mod Breaker
pub mod Bucket
pub mod Cache
pub mod Request
mod Tests
