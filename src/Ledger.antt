-- ===== src/Ledger.antt =====
-- The effect ledger (kernel/internal/ledger).
pub mod Merkle
pub mod Context
pub mod Records
pub mod Chain
pub mod Succession
pub mod Verify
