-- ===== src/Lifecycle/Retries.antt =====
-- What a retried exit of ib_trader/bots/runtime.py orders again and records: the fills of the exit
-- orders of one position, from the first to the one that closes it.
use ib_trader.Prelude.{
  ℕ, ◌+◌, ◌≤◌, ◌<◌, true, some, List, [], ◌∷◌, ◌++◌, ◌≡◌, ◌≢◌, refl, ap, ◌∙◌, arith, length,
  if◌then◌else◌,
}
use ib_trader.Prelude.Int.{ℤ, pos, ◌-ℤ◌, ◌*ℤ◌, ◌<ℤ◌, ◌≤ℤ◌, eq_of_parts, -ℤ_parts}
use ib_trader.Lifecycle.Doc.{
  BotState, Doc, Direction, Side, Effect, ClosedTrade, max_exit_retries, cleared_leg,
}
use ib_trader.Lifecycle.Orders.{FillEvent}
use ib_trader.Lifecycle.ExitFill.{ExitConfig, on_exit_filled, remaining_qty, realized_pnl}
use ib_trader.Lifecycle.Exits.{exit_all}

-- What `qty` shares earn from the entry price to the exit price.
abbrev pub earned : Direction → ℤ → ℤ → ℤ → ℤ → ℤ
earned Direction.long entry_price price qty multiplier = (price -ℤ entry_price) *ℤ qty *ℤ multiplier
earned Direction.short entry_price price qty multiplier =
    (entry_price -ℤ price) *ℤ qty *ℤ multiplier

abbrev pub opposite : Direction → Side
opposite Direction.long = Side.sell
opposite Direction.short = Side.buy

-- The quantities and the sides of the exits that a handler orders again.
abbrev pub reordered : List Effect → List (ℤ × Side)
reordered [] = []
reordered (Effect.retry_exit_order _ qty _ side ∷ es) = (qty, side) ∷ reordered es
reordered (_ ∷ es) = reordered es

-- The trades that a handler records.
abbrev pub recorded : List Effect → List ClosedTrade
recorded [] = []
recorded (Effect.record_trade_closed trade ∷ es) = trade ∷ recorded es
recorded (_ ∷ es) = recorded es

-- What is ordered again and recorded over the fills of a row of exit orders.
abbrev pub all_reordered : ExitConfig → List (ℕ × FillEvent) → Doc → List (ℤ × Side)
all_reordered config [] doc = []
all_reordered config ((now, fill) ∷ fills) doc =
    let out = on_exit_filled now config fill doc in
    reordered out.effects ++ all_reordered config fills out.doc

abbrev pub all_recorded : ExitConfig → List (ℕ × FillEvent) → Doc → List ClosedTrade
all_recorded config [] doc = []
all_recorded config ((now, fill) ∷ fills) doc =
    let out = on_exit_filled now config fill doc in
    recorded out.effects ++ all_recorded config fills out.doc

-- What the fills leave of the quantity that was held.
abbrev pub left_of : ℤ → List (ℕ × FillEvent) → ℤ
left_of held [] = held
left_of held ((_, fill) ∷ fills) = left_of (held -ℤ fill.qty) fills

-- What is left after each fill.
abbrev pub residuals : Direction → ℤ → List (ℕ × FillEvent) → List (ℤ × Side)
residuals d held [] = []
residuals d held ((_, fill) ∷ fills) =
    (held -ℤ fill.qty, opposite d) ∷ residuals d (held -ℤ fill.qty) fills

-- Terminal fills, each of less than what is still held.
abbrev pub AllPartial : ℤ → List (ℕ × FillEvent) → Type 0
AllPartial held [] = Unit
AllPartial held ((_, fill) ∷ fills) =
    (fill.terminal ≡ true) × (fill.qty <ℤ held) × AllPartial (held -ℤ fill.qty) fills

remaining_qty-partial : (held qty : ℤ) → qty <ℤ held → remaining_qty held qty ≡ held -ℤ qty
remaining_qty-partial held qty low = ground (arith, -ℤ_parts held qty)

remaining_qty-positive : (held qty : ℤ) → qty <ℤ held → remaining_qty held qty ≢ pos 0
remaining_qty-positive held qty low e = ground (arith, -ℤ_parts held qty)

remaining_qty-all : (held qty : ℤ) → held ≤ℤ qty → remaining_qty held qty ≡ pos 0
remaining_qty-all held qty high = let parts = -ℤ_parts held qty in eq_of_parts _ _ (ground arith)

realized_pnl-earned :
    (d : Direction) (entry_price price qty multiplier : ℤ)
    → pos 0 <ℤ entry_price
    → realized_pnl d entry_price price qty multiplier ≡ earned d entry_price price qty multiplier
unfolding realized_pnl
realized_pnl-earned Direction.long entry_price price qty multiplier e = ground arith
realized_pnl-earned Direction.short entry_price price qty multiplier e = ground arith

-- The document waits for an exit of a position with this direction and entry price.
abbrev pub Holds : Direction → ℤ → Doc → Type 0
Holds d entry_price doc =
    (doc.state ≡ BotState.exit_order_placed)
    × (doc.plan.position_direction ≡ some d)
    × (doc.leg.entry_price ≡ some entry_price)

partial_fill :
    (d : Direction) (entry_price : ℤ) (now : ℕ) (config : ExitConfig) (fill : FillEvent) (doc : Doc)
    → Holds d entry_price doc
    → fill.terminal ≡ true
    → doc.track.exit_retries < max_exit_retries
    → remaining_qty doc.leg.qty fill.qty ≢ pos 0
    → let out = on_exit_filled now config fill doc in
      Holds d entry_price out.doc
      × (out.doc.leg.qty ≡ remaining_qty doc.leg.qty fill.qty)
      × (out.doc.track.exit_retries ≡ doc.track.exit_retries + 1)
      × (reordered out.effects ≡ (remaining_qty doc.leg.qty fill.qty, opposite d) ∷ [])
      × (recorded out.effects ≡ [])
unfolding on_exit_filled
partial_fill d entry_price now config fill doc (placed, direction, price) final room rest =
    ground (arith, eq_of_parts (remaining_qty doc.leg.qty fill.qty) (pos 0))

-- The trade that a fill closes.
abbrev pub closed_trade : Direction → ℤ → ℤ → ExitConfig → FillEvent → ClosedTrade
closed_trade d entry_price held config fill = record {
  realized_pnl = earned d entry_price fill.price held config.contract_multiplier;
  direction = d;
  entry_price = entry_price;
  entry_qty = held;
  exit_price = fill.price;
  exit_qty = fill.qty;
}

-- What the close leaves in the document, and the result it stores.
abbrev pub IsClosed : ExitConfig → ℤ → Doc → Type 0
IsClosed config result doc =
    (doc.state ≡ (if config.stop_on_exit then BotState.off else BotState.awaiting_entry_trigger))
    × (doc.leg ≡ cleared_leg)
    × (doc.track.last_realized_pnl ≡ some result)

full_fill :
    (d : Direction) (entry_price : ℤ) (now : ℕ) (config : ExitConfig) (fill : FillEvent) (doc : Doc)
    → Holds d entry_price doc
    → pos 0 <ℤ entry_price
    → fill.terminal ≡ true
    → remaining_qty doc.leg.qty fill.qty ≡ pos 0
    → let trade = closed_trade d entry_price doc.leg.qty config fill in
      let out = on_exit_filled now config fill doc in
      IsClosed config trade.realized_pnl out.doc
      × (reordered out.effects ≡ [])
      × (recorded out.effects ≡ trade ∷ [])
unfolding on_exit_filled
full_fill d entry_price now config fill doc (placed, direction, price) entered final flat =
    let result =
      realized_pnl-earned d entry_price fill.price doc.leg.qty config.contract_multiplier entered in
    ground (arith, result)

-- What the fills of all the exit orders of a position do.
abbrev pub Exited : Direction → ℤ → ExitConfig → List (ℕ × FillEvent) → ℕ × FillEvent → Doc → Type 0
Exited d entry_price config fills (now, last) doc =
    let all = fills ++ ((now, last) ∷ []) in
    let trade = closed_trade d entry_price (left_of doc.leg.qty fills) config last in
    (all_reordered config all doc ≡ residuals d doc.leg.qty fills)
    × (all_recorded config all doc ≡ trade ∷ [])
    × IsClosed config trade.realized_pnl (exit_all config all doc)

-- An exit that is filled in parts, by terminal fills of at most three partly filled orders and of
-- one that closes the rest: after each part exactly what it leaves is ordered again, on the closing
-- side, and the one trade that is recorded, like the result in the document, has the result of the
-- last residual alone, (price - entry price) * residual * multiplier for a long and its reverse for a
-- short; what the parts realized is in no record. The position is cleared, and the bot is off or
-- armed again by its configuration.
pub retries_record_rest :
    (d : Direction) (entry_price : ℤ) (config : ExitConfig) (fills : List (ℕ × FillEvent)) (now : ℕ)
    (last : FillEvent) (doc : Doc)
    → Holds d entry_price doc
    → pos 0 <ℤ entry_price
    → doc.track.exit_retries + length fills ≤ max_exit_retries
    → AllPartial doc.leg.qty fills
    → last.terminal ≡ true
    → left_of doc.leg.qty fills ≤ℤ last.qty
    → Exited d entry_price config fills (now, last) doc
unfolding exit_all
retries_record_rest d entry_price config [] now last doc holds entered room partial final rest =
    let (closed, again, trades) =
      full_fill d entry_price now config last doc holds entered final
        (remaining_qty-all doc.leg.qty last.qty rest) in
    (rw again refl, rw trades refl, closed)
retries_record_rest d entry_price config ((t, fill) ∷ fills) now last doc holds entered room
      (final, low, partial) ends rest =
    let after = (on_exit_filled t config fill doc).doc in
    let left = remaining_qty-partial doc.leg.qty fill.qty low in
    let (kept, qty, used, again, trades) =
      partial_fill d entry_price t config fill doc holds final (omega arith)
        (remaining_qty-positive doc.leg.qty fill.qty low) in
    let held = qty ∙ left in
    let (more, one, closed) =
      retries_record_rest d entry_price config fills now last after kept entered (omega arith)
        (rw held partial) ends (rw held rest) in
    (
      rw (again, left)
          (ap (λ (r : List (ℤ × Side)). (doc.leg.qty -ℤ fill.qty, opposite d) ∷ r)
            (rw held at more)),
      rw trades (rw held at one),
      rw held at closed,
    )
