-- ===== src/Lifecycle/Clean.antt =====
-- A bot of ib_trader/bots/runtime.py that is off has no position left in its document.
use ib_trader.Prelude.{ℕ, ◌≢◌, Option, none, some, List, [], ◌∷◌, ◌≡◌, refl, arith}
use ib_trader.Prelude.Int.{pos, eq_of_parts}
use ib_trader.Lifecycle.Doc.{
  BotState, Doc, cleared_leg, cleared_plan, force_off_state, is_clean_for_start, ErrorReason,
}
use ib_trader.Lifecycle.Handle.{LifeEvent, handle}

-- Off only with the position and the strategy's plan cleared.
abbrev pub IsTidy : Doc → Type 0
IsTidy doc = doc.state ≡ BotState.off → (doc.leg ≡ cleared_leg) × (doc.plan ≡ cleared_plan)

-- Fields are written only while the bot is not off, and a pipeline goes back to the state its order
-- was accepted in, which is never off.
abbrev pub IsOrdinary : LifeEvent → Doc → Type 0
IsOrdinary (LifeEvent.writes_fields _ _ _) doc = doc.state ≢ BotState.off
IsOrdinary (LifeEvent.reverts prior) doc = prior ≢ BotState.off
IsOrdinary _ doc = Unit

-- The events of a bot's life, each at its time.
unfoldable pub live : List (ℕ × LifeEvent) → Doc → Doc
live [] doc = doc
live ((now, e) ∷ es) doc = live es (handle now e doc).doc

abbrev pub AllOrdinary : List (ℕ × LifeEvent) → Doc → Type 0
AllOrdinary [] doc = Unit
AllOrdinary ((now, e) ∷ es) doc = IsOrdinary e doc × AllOrdinary es (handle now e doc).doc

-- The reset makes any document clean for a start, and a clean document is one that is off with no
-- quantity and no entry price.
pub force_off_clean :
    (now : ℕ) (reason : Option ErrorReason) (doc : Doc)
    → (is_clean_for_start (some (force_off_state now reason doc)) ≡ none)
      × (is_clean_for_start (some doc) ≡ none
          → (doc.state ≡ BotState.off) × (doc.leg.qty ≡ pos 0) × (doc.leg.entry_price ≡ none))
unfolding is_clean_for_start cleared_leg force_off_state
force_off_clean now reason doc = (refl, ground (arith, eq_of_parts doc.leg.qty (pos 0)))
