-- ===== src/Admin.antt =====
-- Admins and what they may decide: src/core/auth/admin-authority.ts and src/modules/admin.
pub mod Authority
pub mod Limits
pub mod Ceilings
