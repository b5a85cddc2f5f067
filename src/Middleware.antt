-- ===== src/Middleware.antt =====
-- The action pipeline of a bot: ib_trader/bots/middleware.py and the counters of
-- ib_trader/bots/state.py.
pub mod Actions
pub mod Stats
pub mod Risk
pub mod Screen
pub mod Pipeline
pub mod Merge
pub mod Rollback
mod Tests
