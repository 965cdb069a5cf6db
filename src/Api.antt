-- ===== src/Api.antt =====
-- bantu_os/api: the rate limiter and the API key store of the network interface.
mod Tests
pub mod RateLimiter
pub mod KeyStore
