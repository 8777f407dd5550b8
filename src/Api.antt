-- ===== src/Api.antt =====
-- internal/api: the rate limit of requests.
pub mod RateLimit
