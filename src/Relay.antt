-- ===== src/Relay.antt =====
-- The threads of the relay, src/apps/relay.
pub mod ReqMonitor
