-- ===== src/Lifecycle/Orders.antt =====
-- The handlers of ib_trader/bots/runtime.py around an order: its placement, the fills of an entry,
-- and the way back if the pipeline fails.
use ib_trader.Prelude.{ℕ, String, Bool, false, Option, none, some, [], ◌∷◌, if◌then◌else◌}
use ib_trader.Prelude.Int.{ℤ, pos, eqb_ℤ}
use ib_trader.Lifecycle.Doc.{
  BotState, awaiting_entry_trigger, entry_order_placed, awaiting_exit_trigger, exit_order_placed,
  Side, buy, sell, Direction, long, short, Origin, Doc, clear_position_fields, apply_transition,
  notify_rejected, notify_filled, entry_email, Outcome, in_state, refused,
}
use ib_trader.Lifecycle.Control.{unchanged, or_symbol, if_symbol}

abbrev pub reject : Doc → Outcome
reject doc = record { doc = doc; effects = []; answer = refused }

abbrev or_serial : Option ℕ → Option ℕ → Option ℕ
or_serial none held = held
or_serial (some n) held = some n

abbrev or_id : Option String → Option String → Option String
or_id none held = held
or_id (some id) held = some id

-- What the caller of a placement says of the order.
pub record Placement : Type 0 where
  pub symbol : Option String
  pub qty : ℤ
  pub origin : Origin
  pub ib_order_id : Option String
  pub serial : Option ℕ

unfoldable pub on_place_entry_order : ℕ → Placement → Doc → Outcome
on_place_entry_order now p doc = elim doc.state [
  | BotState.awaiting_entry_trigger ↦ record {
    doc = apply_transition now entry_order_placed (record doc {
      symbol = or_symbol p.symbol doc.symbol;
      leg = record (doc.leg) {
        order_qty = some p.qty;
        filled_qty = pos 0;
        serial = or_serial p.serial doc.leg.serial;
        entry_time = some now;
        ib_order_id = or_id p.ib_order_id doc.leg.ib_order_id;
      };
      track = record (doc.track) { order_origin = some p.origin };
    });
    effects = [];
    answer = in_state entry_order_placed;
  }
  | _ ↦ reject doc
]

unfoldable pub on_place_exit_order : ℕ → Placement → Doc → Outcome
on_place_exit_order now p doc = elim doc.state [
  | BotState.awaiting_exit_trigger ↦ record {
    doc = apply_transition now exit_order_placed (record doc {
      leg = record (doc.leg) {
        order_qty = some p.qty;
        filled_qty = pos 0;
        ib_order_id = or_id p.ib_order_id doc.leg.ib_order_id;
      };
      track = record (doc.track) { order_origin = some p.origin; exit_retries = 0 };
    });
    effects = [];
    answer = in_state exit_order_placed;
  }
  | _ ↦ reject doc
]

-- A fill event of the engine's ledger.
pub record FillEvent : Type 0 where
  pub qty : ℤ
  pub price : ℤ
  pub terminal : Bool
  pub side : Side

abbrev pub entry_direction : Side → Direction
entry_direction buy = long
entry_direction sell = short

-- A progress event of an entry: the running total, in the state as it is.
entry_progress : ℕ → FillEvent → Doc → Outcome
entry_progress now fill doc = record {
  doc = record doc {
    leg = record (doc.leg) { filled_qty = fill.qty; qty = fill.qty };
    track = record (doc.track) { avg_price = some fill.price };
    updated_at = now;
  };
  effects = [];
  answer = in_state doc.state;
}

entry_empty : ℕ → Doc → Outcome
entry_empty now doc = record {
  doc = apply_transition now awaiting_entry_trigger (clear_position_fields doc);
  effects = if_symbol doc (notify_rejected ∷ []);
  answer = in_state awaiting_entry_trigger;
}

entry_opened : ℕ → FillEvent → Doc → Outcome
entry_opened now fill doc = record {
  doc = apply_transition now awaiting_exit_trigger (record doc {
    leg = record (doc.leg) {
      filled_qty = fill.qty;
      qty = fill.qty;
      entry_price = some fill.price;
      entry_time = some now;
      high_water_mark = some fill.price;
      current_stop = none;
      trail_activated = false;
    };
    plan = record (doc.plan) { position_direction = some (entry_direction fill.side) };
    track = record (doc.track) {
      avg_price = some fill.price;
      trail_reset_count = 0;
      entry_serial = doc.leg.serial;
      entry_ib_order_id = doc.leg.ib_order_id;
    };
  });
  effects = if_symbol doc (notify_filled fill.side fill.price fill.qty ∷ entry_email ∷ []);
  answer = in_state awaiting_exit_trigger;
}

entry_fill : ℕ → FillEvent → Doc → Outcome
unfolding entry_progress entry_empty entry_opened
entry_fill now fill doc =
    if fill.terminal
    then (if eqb_ℤ fill.qty (pos 0) then entry_empty now doc else entry_opened now fill doc)
    else entry_progress now fill doc

unfoldable pub on_entry_filled : ℕ → FillEvent → Doc → Outcome
unfolding entry_fill
on_entry_filled now fill doc = elim doc.state [
  | BotState.entry_order_placed ↦ entry_fill now fill doc
  | BotState.awaiting_entry_trigger ↦ entry_fill now fill doc
  | _ ↦ unchanged doc
]

-- `_revert_to_state`: it does not look at the state that the document is in.
unfoldable pub revert_to_state : ℕ → BotState → Doc → Doc
revert_to_state now prior doc =
    let patched = record doc {
      leg = record (doc.leg) { order_qty = none; filled_qty = pos 0; awaiting_ib_order_id = none };
    } in
    elim prior [
      | BotState.awaiting_entry_trigger ↦
          apply_transition now awaiting_entry_trigger (clear_position_fields patched)
      | other ↦ apply_transition now other patched
    ]

-- The end of `_run_pipeline` that writes the engine's order id, in the placed states only.
unfoldable pub capture_order_id : ℕ → String → Doc → Doc
capture_order_id now cmd_id doc =
    let captured = record doc {
      leg = record (doc.leg) { ib_order_id = some cmd_id; awaiting_ib_order_id = some cmd_id };
      updated_at = now;
    } in
    elim doc.state [
      | BotState.entry_order_placed ↦ captured
      | BotState.exit_order_placed ↦ captured
      | _ ↦ doc
    ]
