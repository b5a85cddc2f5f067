-- ===== src/Market.antt =====
-- The trading calendar: ib_trader/engine/market_hours.py and market_hours_futures.py.
pub mod Hours
pub mod Sessions
mod Tests
