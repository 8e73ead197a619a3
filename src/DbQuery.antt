-- ===== src/DbQuery.antt =====
-- src/DBQuery.h: a query of the stored events, and its scans of the indices.
pub mod Candidate
pub mod Cursor
pub mod Scan
pub mod Query
pub mod Laws
pub mod Ends
pub mod Reports
