-- ===== src/Notifier.antt =====
-- internal/notifier: the dispatcher and its rate limit.
pub mod RateLimit
pub mod Dispatcher
