-- ===== src/Deposit.antt =====
-- Deposits: src/modules/deposit.
pub mod StateMachine
pub mod Credit
pub mod Review
pub mod Policy
pub mod Creation
pub mod Submission
pub mod Retry
pub mod Sweep
pub mod Proofs
