-- ===== src/Lifecycle/Control.antt =====
-- The handlers of ib_trader/bots/runtime.py by which an operator or a watchdog moves a bot. Each
-- reads the document, and writes it back under the bot's lock.
use ib_trader.Prelude.{ℕ, String, Bool, Option, none, some, List, [], ◌∷◌, if◌then◌else◌}
use ib_trader.Prelude.Int.{pos}
use ib_trader.Prelude.Text.{str_eq}
use ib_trader.Lifecycle.Doc.{
  BotState, off, errored, awaiting_entry_trigger, awaiting_exit_trigger, ErrorReason, crash,
  force_stop, ib_mismatch, Doc, Message, text, clear_position_fields, cleared_leg, apply_transition,
  Effect, cancel_order, pager_alert, log_manual_close, notify_rejected, Outcome, in_state, raised,
}

abbrev pub unchanged : Doc → Outcome
unchanged doc = record { doc = doc; effects = []; answer = in_state doc.state }

-- `message or "…"`
abbrev pub or_text : Option String → String → Message
or_text none default = text default
or_text (some m) default = if str_eq m "" then text default else text m

abbrev pub or_symbol : Option String → Option String → Option String
or_symbol none held = held
or_symbol (some s) held = if str_eq s "" then held else some s

-- `if symbol: await self._handle_cancel_order(…)`
abbrev pub cancel_effects : Doc → List Effect
cancel_effects doc = elim doc.symbol [
  | none ↦ []
  | some s ↦ if str_eq s "" then [] else cancel_order s doc.leg.serial doc.leg.ib_order_id ∷ []
]

started : ℕ → Option String → Doc → Outcome
started now symbol doc =
    let cleared = record (clear_position_fields doc) {
      error_reason = none;
      error_message = none;
      symbol = or_symbol symbol doc.symbol;
    } in
    record {
      doc = apply_transition now awaiting_entry_trigger cleared;
      effects = [];
      answer = in_state awaiting_entry_trigger;
    }

unfoldable pub on_start : ℕ → Option String → Doc → Outcome
unfolding started
on_start now symbol doc = elim doc.state [
  | BotState.off ↦ started now symbol doc
  | BotState.errored ↦ started now symbol doc
  | _ ↦ unchanged doc
]

stopped : ℕ → List Effect → Doc → Outcome
stopped now effects doc =
    let cleared = record (clear_position_fields doc) {
      error_reason = none;
      error_message = none;
    } in
    record { doc = apply_transition now off cleared; effects = effects; answer = in_state off }

-- The engine's cancel comes first; if it raises, the document is not written.
stopped_after_cancel : ℕ → Bool → Doc → Outcome
unfolding stopped
stopped_after_cancel now cancel_ok doc = elim (cancel_effects doc) [
  | [] ↦ stopped now [] doc
  | e ∷ es ↦
      if cancel_ok
      then stopped now (e ∷ es) doc
      else record { doc = doc; effects = e ∷ es; answer = raised }
]

-- `cancel_ok` says whether the engine answers the cancel without an error.
unfoldable pub on_stop : ℕ → Bool → Doc → Outcome
unfolding stopped stopped_after_cancel
on_stop now cancel_ok doc = elim doc.state [
  | BotState.off ↦ unchanged doc
  | BotState.entry_order_placed ↦ stopped_after_cancel now cancel_ok doc
  | BotState.exit_order_placed ↦ stopped_after_cancel now cancel_ok doc
  | _ ↦ stopped now [] doc
]

abbrev pub fail : ℕ → ErrorReason → Message → List Effect → Doc → Outcome
fail now reason message effects doc = record {
  doc =
      apply_transition now errored
        (record doc { error_reason = some reason; error_message = some message });
  effects = effects;
  answer = in_state errored;
}

unfoldable pub on_force_stop : ℕ → Option String → Doc → Outcome
on_force_stop now message doc = elim doc.state [
  | BotState.off ↦ fail now force_stop (or_text message "Force-stopped") [] doc
  | _ ↦ fail now force_stop (or_text message "Force-stopped by operator") [] doc
]

unfoldable pub on_crash : ℕ → Option String → Doc → Outcome
on_crash now message doc = elim doc.state [
  | BotState.off ↦ unchanged doc
  | BotState.errored ↦ unchanged doc
  | _ ↦
      fail now crash (or_text message "Unhandled exception") (pager_alert crash doc.symbol ∷ []) doc
]

unfoldable pub on_ib_position_mismatch : ℕ → Option String → Doc → Outcome
on_ib_position_mismatch now message doc = elim doc.state [
  | BotState.off ↦ unchanged doc
  | BotState.errored ↦ unchanged doc
  | _ ↦ fail now ib_mismatch (or_text message "Unresolvable IB position drift") [] doc
]

-- The cancel follows the write, and its failure is only logged.
unfoldable pub on_entry_timeout : ℕ → Doc → Outcome
on_entry_timeout now doc = elim doc.state [
  | BotState.entry_order_placed ↦ record {
    doc = apply_transition now awaiting_entry_trigger (record doc { leg = cleared_leg });
    effects = cancel_effects doc;
    answer = in_state awaiting_entry_trigger;
  }
  | _ ↦ unchanged doc
]

abbrev manually_closed : ℕ → Doc → Outcome
manually_closed now doc = record {
  doc = apply_transition now awaiting_entry_trigger (clear_position_fields doc);
  effects = log_manual_close ∷ [];
  answer = in_state awaiting_entry_trigger;
}

unfoldable pub on_manual_close : ℕ → Doc → Outcome
on_manual_close now doc = elim doc.state [
  | BotState.awaiting_exit_trigger ↦ manually_closed now doc
  | BotState.exit_order_placed ↦ manually_closed now doc
  | _ ↦ unchanged doc
]

-- `if self.strategy is not None and symbol`, with a strategy loaded
abbrev pub if_symbol : Doc → List Effect → List Effect
if_symbol doc effects = elim doc.symbol [ none ↦ [] | some s ↦ if str_eq s "" then [] else effects ]

unfoldable pub on_entry_cancelled : ℕ → Doc → Outcome
on_entry_cancelled now doc = elim doc.state [
  | BotState.entry_order_placed ↦ record {
    doc = apply_transition now awaiting_entry_trigger (clear_position_fields doc);
    effects = if_symbol doc (notify_rejected ∷ []);
    answer = in_state awaiting_entry_trigger;
  }
  | _ ↦ unchanged doc
]

unfoldable pub on_exit_cancelled : ℕ → Doc → Outcome
on_exit_cancelled now doc = elim doc.state [
  | BotState.exit_order_placed ↦ record {
    doc =
        apply_transition now awaiting_exit_trigger
          (record doc { leg = record (doc.leg) { order_qty = none; filled_qty = pos 0 } });
    effects = [];
    answer = in_state awaiting_exit_trigger;
  }
  | _ ↦ unchanged doc
]
