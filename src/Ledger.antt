-- ===== src/Ledger.antt =====
-- The double-entry ledger: src/core/ledger.
pub mod AccountCodes
pub mod Posting
pub mod Rules
pub mod Validation
pub mod Repository
