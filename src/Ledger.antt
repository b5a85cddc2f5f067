-- ===== src/Ledger.antt =====
-- The per-order fill ledger of ib_trader/engine/order_ledger.py: its state, its terminal step, its
-- operations, and what they guarantee.
pub mod State
pub mod Terminal
pub mod Operations
pub mod Cases
pub mod Keyed
pub mod Fills
pub mod Attribution
pub mod Cancels
pub mod Watchdog
pub mod Traces
mod Tests
