-- ===== src/Ledger.antt =====
-- The ledger: the models of ledger/models/ and the services of ledger/services/.
pub mod Data
pub mod Money
pub mod Access
pub mod Posting
pub mod Reversal
pub mod Settlement
pub mod Statement
pub mod Samples
