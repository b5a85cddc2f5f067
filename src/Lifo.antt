-- ===== src/Lifo.antt =====
-- LIFO lot matching of ib_trader/engine/lifo_pnl.py: the matching, the quantities and the value.
pub mod Lots
pub mod Quantity
pub mod Sides
pub mod Seed
pub mod Position
pub mod Value
pub mod RoundTrip
mod Tests
