-- ===== src/Events.antt =====
-- src/events.h, src/events_parse.cpp: kinds of events, parsing and verification.
pub mod Kind
pub mod Parse
pub mod Verify
