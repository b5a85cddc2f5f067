-- ===== src/Recovery.antt =====
-- Finding the state again after a restart: ib_trader/engine/reconciler.py, `_reconcile_state` of
-- ib_trader/bots/runtime.py, and the waits of ib_trader/engine/tracker.py.
pub mod Reconcile
pub mod Restart
pub mod Sanity
pub mod Startup
pub mod Written
pub mod Tracker
mod Tests
