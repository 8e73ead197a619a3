-- ===== src/Monitors.antt =====
-- src/ActiveMonitors.h: the subscriptions that wait for new events, and the indices that find them.
pub mod Items
pub mod Trees
pub mod Conns
pub mod Keys
pub mod Operations
pub mod Erasing
pub mod Index
pub mod Walking
pub mod Valid
pub mod Places
pub mod Uninstall
pub mod Subscribing
pub mod Telling
pub mod Visiting
pub mod Rounds
pub mod Delivery
