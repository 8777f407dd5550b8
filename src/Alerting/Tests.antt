-- ===== src/Alerting/Tests.antt =====
-- Runs of the windows and the manager on small inputs, and the theorems at them.
mod Windows
mod Rules
