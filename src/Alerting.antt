-- ===== src/Alerting.antt =====
-- internal/alerting: sliding windows, cooldowns and the rule engine.
pub mod Window
pub mod Manager
pub mod Rule
pub mod Expr
pub mod Matcher
pub mod Cooldown
pub mod Engine
mod Tests
