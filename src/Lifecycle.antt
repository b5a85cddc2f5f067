-- ===== src/Lifecycle.antt =====
-- The life of one bot in ib_trader/bots/runtime.py and ib_trader/bots/lifecycle.py: the persisted
-- document, the handlers that move it between states, and what they guarantee.
pub mod Doc
pub mod Control
pub mod Orders
pub mod ExitFill
pub mod Positions
pub mod Handle
pub mod Edges
pub mod Clean
pub mod Exits
pub mod Profit
pub mod Retries
pub mod Races
pub mod RateLimit
pub mod Submit
pub mod Aborts
mod Tests
