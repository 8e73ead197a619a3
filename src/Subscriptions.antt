-- ===== src/Subscriptions.antt =====
-- Subscriptions of src/Subscription.h and the tracker of src/EphemeralSubTracker.h.
pub mod SubId
pub mod Subscription
pub mod Tracker
