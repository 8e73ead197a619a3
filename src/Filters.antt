-- ===== src/Filters.antt =====
-- src/filters.h: the sets of a filter, filters and groups of filters.
pub mod SetBytes
pub mod SetUint
pub mod Filter
pub mod Group
