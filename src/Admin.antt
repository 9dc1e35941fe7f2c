-- ===== src/Admin.antt =====
-- modules/admin/admin.service.ts: sessions, operators, organizations, members and venues.
pub mod Sessions
pub mod Operators
pub mod Organizations
pub mod Members
pub mod Venues
