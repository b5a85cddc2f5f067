-- ===== src/Recovery/Sanity.antt =====
-- `sanity_check` of ib_trader/engine/reconciler.py. A read of the positions that times out or fails
-- is `none`.
use ib_trader.Prelude.{
  Bool, true, false, not, ◌&&◌, Option, none, some, List, [], ◌∷◌, ◌++◌, if◌then◌else◌, is_some,
  ◌≡◌, ◌⊎◌, ◌↔◌, refl, arith,
}
use ib_trader.Prelude.Int.{ℤ, pos, eqb_ℤ}
use ib_trader.Lifecycle.Doc.{BotState}
use ib_trader.OrderRef.{Chars, chars_eq}
use ib_trader.Recovery.Reconcile.{Position, entering, opened, exiting, flat, other, determine_state}
use ib_trader.Recovery.Startup.{IbPosition, or_none}

-- `_fsm_to_pos_state`; a state that is missing or no BotState is none.
abbrev pub fsm_to_pos_state : Option BotState → Position
fsm_to_pos_state none = flat
fsm_to_pos_state (some BotState.off) = flat
fsm_to_pos_state (some BotState.errored) = flat
fsm_to_pos_state (some BotState.awaiting_entry_trigger) = flat
fsm_to_pos_state (some BotState.entry_order_placed) = entering
fsm_to_pos_state (some BotState.awaiting_exit_trigger) = opened
fsm_to_pos_state (some BotState.exit_order_placed) = exiting

-- A bot with a stored document: its state and symbol, and what the second read finds if the bot is
-- still defined under its name, OFF for a missing or unknown state.
pub record Bot : Type 0 where
  pub state : Option BotState
  pub symbol : Chars
  pub second_read : Option BotState

-- The two RECONCILED messages.
pub data Message : Type 0 where
  closed_externally : Chars → Message
  found_in_ib : Chars → ℤ → ℤ → Message

-- `ib_position_map.get(symbol)`: the last position of the symbol that is not zero. The positions
-- carry no sec_type, so the test for it always holds.
unfoldable pub position_of : Chars → List IbPosition → Option IbPosition
position_of symbol [] = none
position_of symbol (p ∷ positions) =
    let later = position_of symbol positions in
    if is_some later
    then later
    else (if not (eqb_ℤ p.qty (pos 0)) && chars_eq p.symbol symbol then some p else none)

abbrev pub is_stopped : Option BotState → Bool
is_stopped none = false
is_stopped (some s) = elim s [ BotState.off ↦ true | BotState.errored ↦ true | _ ↦ false ]

abbrev pub drift : Position → Chars → Option IbPosition → List Message
drift opened symbol none = closed_externally symbol ∷ []
drift flat symbol (some p) = found_in_ib symbol p.qty p.avg_price ∷ []
drift opened symbol (some p) = []
drift flat symbol none = []
drift entering symbol o = []
drift exiting symbol o = []
drift other symbol o = []

abbrev pub check_bot : List IbPosition → Bot → List Message
check_bot positions bot =
    if is_stopped bot.second_read
    then []
    else drift (fsm_to_pos_state bot.state) bot.symbol (position_of bot.symbol positions)

unfoldable pub check_bots : List IbPosition → List Bot → List Message
check_bots positions [] = []
check_bots positions (bot ∷ bots) = check_bot positions bot ++ check_bots positions bots

unfoldable pub sanity_check : Option (List IbPosition) → List Bot → List Message
sanity_check ib_positions bots = check_bots (or_none ib_positions) bots

-- The state that a message reports, for a bot and symbol.
abbrev pub reported : List Message → Position → Position
reported [] before = before
reported (closed_externally s ∷ _) before = flat
reported (found_in_ib s q a ∷ _) before = opened

drift_lem :
    (s : Position) (symbol : Chars) (o : Option IbPosition)
    → (s ≡ opened) ⊎ (s ≡ flat)
    → (reported (drift s symbol o) s ≡ determine_state (some s) false (is_some o))
      × ((determine_state (some s) false (is_some o) ≡ s) ↔ (drift s symbol o ≡ []))
unfolding determine_state
drift_lem entering symbol o h = ground arith
drift_lem exiting symbol o h = ground arith
drift_lem other symbol o h = ground arith
drift_lem opened symbol none h = (refl, (λ e. cc e, λ e. cc e))
drift_lem opened symbol (some p) h = (refl, (λ e. refl, λ e. refl))
drift_lem flat symbol none h = (refl, (λ e. refl, λ e. refl))
drift_lem flat symbol (some p) h = (refl, (λ e. cc e, λ e. cc e))

-- A bot that is not stopped and has no order under way is reported the state that the table of
-- `_determine_state` gives it without orders, and nothing exactly when that is its state already.
pub check_bot_agrees :
    (positions : List IbPosition) (bot : Bot)
    → is_stopped bot.second_read ≡ false
    → let s = fsm_to_pos_state bot.state in
      (s ≡ opened) ⊎ (s ≡ flat)
      → let shown = determine_state (some s) false (is_some (position_of bot.symbol positions)) in
        (reported (check_bot positions bot) s ≡ shown)
        × ((shown ≡ s) ↔ (check_bot positions bot ≡ []))
check_bot_agrees positions bot h k =
    rw h (drift_lem (fsm_to_pos_state bot.state) bot.symbol (position_of bot.symbol positions) k)
