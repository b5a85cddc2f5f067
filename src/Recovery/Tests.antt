-- ===== src/Recovery/Tests.antt =====
-- Reconciliation and the order tracker at concrete states.
use ib_trader.Prelude.{
  String, ◌-◌, false, Option, none, some, is_some, List, [], ◌∷◌, ◌≡◌, ◌↔◌, inl, refl,
}
use ib_trader.Prelude.Int.{ℤ, pos}
use ib_trader.OrderRef.{Chars, chars_eq, decode, starts_with, split}
use ib_trader.Recovery.Reconcile.{entering, opened, determine_state}
use ib_trader.Recovery.Sanity.{
  Bot, closed_externally, position_of, check_bot, check_bots, sanity_check, reported,
  check_bot_agrees,
}
use ib_trader.Recovery.Startup.{
  Key, find, put, OpenOrder, IbPosition, our_orders, has_position, pos_data, write_all,
  startup_reconcile,
}
use ib_trader.Recovery.Written.{written, last_order, startup_reconcile_lem}
use ib_trader.Lifecycle.Doc.{BotState}

abbrev symbol : String
symbol = "QQQ"

-- A read of the positions that times out tells every bot in a position that it has none.
abbrev holding : Bot
holding = record {
  state = some BotState.awaiting_exit_trigger;
  symbol = 81 ∷ [];
  second_read = some BotState.awaiting_exit_trigger;
}

abbrev held : List IbPosition
held = record { symbol = 81 ∷ []; qty = pos 5; avg_price = pos 100 } ∷ []

timeout_reads_as_flat :
    (sanity_check (some held) (holding ∷ []) ≡ [])
    × (sanity_check none (holding ∷ []) ≡ closed_externally (81 ∷ []) ∷ [])
unfolding sanity_check check_bots position_of chars_eq
timeout_reads_as_flat = (refl, refl)

check_bot_agrees_example :
    let shown = determine_state (some opened) false (is_some (position_of holding.symbol held)) in
    (reported (check_bot held holding) opened ≡ shown)
    × ((shown ≡ opened) ↔ (check_bot held holding ≡ []))
check_bot_agrees_example = check_bot_agrees held holding refl (inl refl)

-- The tag IBT:h:b:Q:B:7 of host h, and a number read as its first digit.
abbrev parse_int : Chars → Option ℤ
parse_int [] = none
parse_int (c ∷ _) = some (pos (c - 48))

abbrev tag : Chars
tag = 73 ∷ 66 ∷ 84 ∷ 58 ∷ 104 ∷ 58 ∷ 98 ∷ 58 ∷ 81 ∷ 58 ∷ 66 ∷ 58 ∷ 55 ∷ []

abbrev orders : List OpenOrder
orders = record { ib_order_id = 3; order_ref = tag } ∷ []

abbrev key : Key
key = (98 ∷ [], 81 ∷ [])

startup_reconcile_lem_example :
    find key (startup_reconcile parse_int (104 ∷ []) (pos 9) (some orders) none [])
    ≡ written
        (pos 9)
        (has_position [] (81 ∷ []))
        (last_order parse_int (104 ∷ []) key orders none)
        (find key [])
startup_reconcile_lem_example =
    startup_reconcile_lem parse_int (104 ∷ []) (pos 9) (some orders) none [] key

-- The order is known by its tag, and its bot stored as entering.
tagged_order_enters :
    find key (startup_reconcile parse_int (104 ∷ []) (pos 9) (some orders) none [])
    ≡ some (record {
      state = some entering;
      qty = some (pos 0);
      avg_price = some (pos 0);
      serial = some (pos 7);
      entry_price = none;
      entry_time = none;
      updated_at = pos 9;
    })
unfolding startup_reconcile find write_all our_orders decode starts_with split chars_eq put pos_data
    determine_state has_position
tagged_order_enters = refl
