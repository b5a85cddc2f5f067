-- ===== src/Ledger/Tests.antt =====
-- The ledger of ib_trader/engine/order_ledger.py at concrete orders.
use ib_trader.Prelude.{
  ℕ, ◌≤◌, String, true, false, none, some, List, [], ◌∷◌, ◌++◌, ◌≡◌, refl, arith, All, inr,
}
use ib_trader.Prelude.Int.{pos, ◌+ℤ◌, ◌-ℤ◌, ◌≤ℤ◌}
use ib_trader.Prelude.Text.{str_eq_iff}
use ib_trader.Prelude.Dict.{member, lookup, insert, erase}
use ib_trader.Ledger.State.{
  Status, Side, Fill, Tags, LedgerEntry, Ledger, PositionGetter, Now, Event, filled_qty, is_phantom,
  make_event,
}
use ib_trader.Ledger.Terminal.{
  reconciled, resolve_terminal_status, apply_position_diff, make_terminal,
}
use ib_trader.Ledger.Operations.{FillReport, record_fill, record_status, register, status_entry}
use ib_trader.Ledger.Cases.{IsKeyed}
use ib_trader.Ledger.Traces.{
  Call, registers, fills, status_changes, run, call, terminals, run_terminal_once,
}
use ib_trader.Ledger.Cancels.{reroute_recovers}
use ib_trader.Ledger.Attribution.{clamped, reconciled_exact}
use ib_trader.Ledger.Fills.{IsProgress, record_fills, reported_qty}

abbrev id : String
id = "41"

abbrev now : Now
now = record { mono = 100; wall = 1000 }

abbrev later : Now
later = record { mono = 105; wall = 1005 }

abbrev tags : Tags
tags = record {
  order_ref = "IBT:box:rsi:QQQ:B:7";
  symbol = "QQQ";
  sec_type = "STK";
  con_id = 320227571;
  side = Side.buy;
}

abbrev fill_of : ℕ → Fill
fill_of n = record { qty = pos n; price = pos 500; commission = pos 1; exec_id = "e" }

abbrev report : FillReport
report = record { fill = fill_of 4; tags = tags; remaining = pos 6; total_qty = pos 10 }

abbrev entry : LedgerEntry
entry = record {
  ib_order_id = id;
  tags = tags;
  target_qty = pos 10;
  fills = fill_of 3 ∷ [];
  last_status = Status.submitted;
  created_at = 90;
  stuck_alerted = false;
  pre_position = some (pos 20);
}

abbrev ledger : Ledger
ledger = record { entries = (id, entry) ∷ []; recently_evicted = "40" ∷ [] }

-- The broker holds 28 shares, 8 more than before the order.
abbrev getter : PositionGetter
getter symbol sec_type = some (pos 28)

ledger-IsKeyed : IsKeyed ledger
unfolding lookup
ledger-IsKeyed j e h = ground (arith, str_eq_iff id j, h)

abbrev cs : List Call
cs =
    registers now "42" tags (pos 10) none
    ∷ fills now "42" report
    ∷ status_changes none now "42" Status.cancelled tags
    ∷ status_changes none later "42" Status.filled tags
    ∷ status_changes none later "42" Status.cancelled tags
    ∷ []

-- The held cancel and the repeated one publish no terminal event, the fill one.
run-cs : terminals "42" (run cs ledger).1 ≡ 1
unfolding run call register record_fill record_status status_entry make_terminal make_event
    is_phantom lookup insert erase member reconciled apply_position_diff resolve_terminal_status
    ◌+ℤ◌
run-cs = refl

abbrev reports : List (Now × FillReport)
reports = (now, report) ∷ (later, report) ∷ []

run_terminal_once_example :
    let (after, events) = run cs ledger in
    (terminals "42" events ≤ 1)
    × (member "42" ledger.recently_evicted ≡ true → terminals "42" events ≡ 0)
    × (terminals "42" events ≡ 1 → member "42" after.recently_evicted ≡ true)
run_terminal_once_example =
    run_terminal_once "42" cs ledger ledger-IsKeyed (tt, (tt, (refl, (refl, (refl, tt)))))

reroute_recovers_example :
    let (held, before) = record_status (some getter) now id Status.cancelled tags ledger in
    let (grown, between) = record_fills id reports held in
    let (after, last) = record_status (some getter) later id Status.filled tags grown in
    All IsProgress (before ++ between)
    × (member id after.recently_evicted ≡ true)
    × ((e : Event) × (last ≡ e ∷ [])
        × (e.terminal ≡ true)
        × (e.ib_order_id ≡ id)
        × (filled_qty entry +ℤ reported_qty reports ≤ℤ e.filled_qty))
unfolding lookup member is_phantom ◌+ℤ◌
reroute_recovers_example =
    reroute_recovers (some getter) now later id Status.cancelled tags reports ledger ledger-IsKeyed
      refl refl refl refl (refl, inr (ground arith, ground arith))

reconciled_exact_example :
    filled_qty (reconciled (some getter) entry) ≡ clamped (pos 28 -ℤ pos 20) entry
unfolding ◌+ℤ◌
reconciled_exact_example =
    reconciled_exact getter entry refl refl refl (ground arith) (ground arith) (ground arith)
