-- ===== src/Money.antt =====
-- Amounts of money in minor units (src/common/helpers/money.util.ts).
pub mod Scale
pub mod Parse
pub mod Format
pub mod Accepts
pub mod RoundTrip
pub mod Divide
pub mod Rounding
pub mod Fees
pub mod Amounts
