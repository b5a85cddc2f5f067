-- ===== src/Recovery/Restart.antt =====
-- `_reconcile_state` of ib_trader/bots/runtime.py: what a bot keeps of its document at a restart.
use ib_trader.Prelude.{
  String, Bool, true, false, ◌||◌, Option, none, some, List, [], ◌∷◌, if◌then◌else◌, ◌≡◌, ◌≢◌,
  arith, ◌⊎◌,
}
use ib_trader.Prelude.Text.{str_eq}
use ib_trader.Lifecycle.Doc.{
  BotState, entry_order_placed, awaiting_exit_trigger, exit_order_placed, Doc,
}

-- `any(getattr(t, "symbol", None) == symbol for t in open_positions)`
unfoldable pub holds_symbol : String → List String → Bool
holds_symbol symbol [] = false
holds_symbol symbol (s ∷ symbols) = str_eq s symbol || holds_symbol symbol symbols

-- An empty document is `none`.
unfoldable pub reconcile_state : Option Doc → List String → String → Option Doc
reconcile_state none open_positions symbol = none
reconcile_state (some doc) open_positions symbol = elim doc.state [
  | BotState.awaiting_exit_trigger ↦ if holds_symbol symbol open_positions then some doc else none
  | BotState.exit_order_placed ↦ if holds_symbol symbol open_positions then some doc else none
  | BotState.entry_order_placed ↦ none
  | _ ↦ some doc
]

abbrev pub IsHolding : BotState → Type 0
IsHolding s = (s ≡ awaiting_exit_trigger) ⊎ (s ≡ exit_order_placed)

-- A document that survives the restart is the stored one; it is never of an entry under way, and one
-- that holds a position has its symbol among the broker's.
pub reconcile_state_lem :
    (stored : Option Doc) (open_positions : List String) (symbol : String) (doc : Doc)
    → reconcile_state stored open_positions symbol ≡ some doc
    → (stored ≡ some doc)
      × (doc.state ≢ entry_order_placed)
      × (IsHolding doc.state → holds_symbol symbol open_positions ≡ true)
unfolding reconcile_state
reconcile_state_lem none open_positions symbol doc h = ground arith
reconcile_state_lem (some stored) open_positions symbol doc h = ground arith
