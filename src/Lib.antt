-- ===== src/Lib.antt =====
-- The core of ib_trader, an engine and bots that trade through Interactive Brokers.
--
-- The parts and how they work together. A strategy returns actions. `_run_pipeline` of
-- ib_trader/bots/runtime.py moves the bot's document to a placed state and hands the actions to the
-- pipeline of ib_trader/bots/middleware.py, which screens them, writes the strategy's fields and
-- submits the orders to the engine. The engine prices an order on the tick grid, walks its limit to
-- the far side of the market, and cancels what is left (ib_trader/engine/order.py). It tags each
-- order (ib_trader/engine/order_ref.py) and keeps the ledger of its fills and statuses
-- (ib_trader/engine/order_ledger.py), whose events go back to the bot's handlers. Every step of an
-- order is a row of the transaction log, from which a start and the daemon find out what is left to
-- settle. Beside them stand the calendar, the LIFO results and the executions that the charts show.
--
-- The files:
--   Prelude     numbers, lists, dicts and texts that the others share
--   Bars        ib_trader/bots/bar_aggregator.py; Totals, Order, Window (the proofs)
--   Ledger      OrderLedger: State (the records), Terminal (the terminal events), Operations (the
--               calls); Cases, Keyed, Fills, Attribution, Cancels, Watchdog, Traces (the proofs)
--   Lifecycle   the bot's document, ib_trader/bots/lifecycle.py, in Doc; the handlers of
--               ib_trader/bots/runtime.py in Control, Orders, ExitFill and Positions, as events in
--               Handle, with the writes that keep the state (any fields); RateLimit and Submit the circuit breaker and `_run_pipeline`; Edges, Clean,
--               Exits, Retries, Profit, Races, Aborts (the proofs)
--   Middleware  Actions, Stats (ib_trader/bots/state.py), Risk, Pipeline; Screen, Merge, Rollback
--   Lifo        ib_trader/engine/lifo_pnl.py: Lots (the matching), Seed (the lot before
--               the first execution); Quantity, Sides, Value, RoundTrip, Position (the proofs)
--   Market      ib_trader/engine/market_hours.py and market_hours_futures.py: Hours; Sessions
--   OrderRef    ib_trader/engine/order_ref.py, with Split, RoundTrip and Digits
--   Pricing     ib_trader/engine/pricing.py and ticks.py; Nearest, Snap, Multiples, Steps, Shares
--               (the proofs)
--   Rollup      ib_trader/engine/pnl_rollup.py; Slots, Values, Rows, Totals (the proofs)
--   SmartMarket `_walk_limit_aggressive` of ib_trader/engine/order.py with its cap; Cap, Walks, Floor
--               (the proofs)
--   Reprice     `reprice_loop` of ib_trader/engine/order.py; Reaches (the proofs)
--   Cancel      `_cancel_and_await_resolution`, `_finalize_partial_cancel` and `_handle_partial` of
--               ib_trader/engine/order.py; Verdict (the proofs)
--   Transactions  ib_trader/data/repositories/transaction_repository.py; Recovery, the module
--               ib_trader/engine/recovery.py on the trades of ib_trader/data/repository.py; OpenOrders,
--               Attempts (the proofs)
--   Daemon      ib_trader/daemon/reconciler.py; Orders, Settled, Flagged, Closing (the proofs)
--   Executions  ib_trader/engine/exec_accumulator.py; Merge, Final (the proofs)
--   Markers     ib_trader/engine/exec_markers.py; Conserved, Sorted (the proofs)
--   Recovery    ib_trader/engine/reconciler.py: Reconcile (`_determine_state`), Startup
--               (`startup_reconcile`), Sanity (`sanity_check`); Written (the proofs); Restart,
--               `_reconcile_state` of ib_trader/bots/runtime.py; Tracker, ib_trader/engine/tracker.py
-- The functions have the names of the code's, without a leading underscore.
--
-- How the code is modelled. A Decimal is a whole number of a unit, which each kind of amount
-- (prices, quantities, commissions) has of its own, and a product has the product of the units; so
-- sums, products and comparisons are those of integers. Quotients are parameters (Lifo, the share of
-- a reprice step), kept as fractions (Ledger, Markers), or rounded to a whole number at once (the
-- ticks). The floats of Rollup are a type with the operations that the code uses. A handler is a
-- function from the document to the new one, with its effects and answer. What an await lets in
-- between is a parameter: the broker's answer, the document during the pipeline, the reads of each
-- risk check, and in a walker what each round observes of the broker, the market and the clock.
-- Sequences of calls are lists of events. Loops recurse on the lists they go through; the one loop
-- on fuel, the digits of a serial, has the number itself as fuel,
-- and the digits are read back as the number (OrderRef/Digits).
--
-- Not modelled: logging, the texts of alerts and audit rows, the stores behind Redis and SQLite (the
-- queries of Transactions are functions of the table's rows in the order of their ids), the
-- broker libraries, the strategies' signals, the placement of orders around the walkers, the servers
-- and the user interface.
pub mod Bars
pub mod Cancel
pub mod Daemon
pub mod Executions
pub mod Ledger
pub mod Lifecycle
pub mod Lifo
pub mod Markers
pub mod Market
pub mod Middleware
pub mod OrderRef
pub mod Prelude
pub mod Pricing
pub mod Recovery
pub mod Reprice
pub mod Rollup
pub mod SmartMarket
pub mod Transactions
