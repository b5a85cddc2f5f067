-- ===== src/Lifecycle/Exits.antt =====
-- The exit fills of ib_trader/bots/runtime.py in a row, and the bound on the retries.
use ib_trader.Prelude.{
  ℕ, ◌+◌, ◌≤◌, ◌<◌, true, List, [], ◌∷◌, ◌≡◌, ◌≢◌, refl, arith, ◌⊎◌, inl, inr, length, All,
}
use ib_trader.Lifecycle.Doc.{BotState, Doc, max_exit_retries}
use ib_trader.Lifecycle.Orders.{FillEvent}
use ib_trader.Lifecycle.ExitFill.{ExitConfig, on_exit_filled}

-- Terminal fills of exit orders in a row, each at its time.
unfoldable pub exit_all : ExitConfig → List (ℕ × FillEvent) → Doc → Doc
exit_all config [] doc = doc
exit_all config ((now, fill) ∷ fills) doc =
    exit_all config fills (on_exit_filled now config fill doc).doc

abbrev pub IsFinal : ℕ × FillEvent → Type 0
IsFinal (_, fill) = fill.terminal ≡ true

-- One terminal fill ends the exit, or uses up one of the retries.
exit_uses_retry :
    (now : ℕ) (config : ExitConfig) (fill : FillEvent) (doc : Doc)
    → fill.terminal ≡ true
    → let after = (on_exit_filled now config fill doc).doc in
      after.state ≡ BotState.exit_order_placed
      → (doc.state ≡ BotState.exit_order_placed)
        × (doc.track.exit_retries < max_exit_retries)
        × (after.track.exit_retries ≡ doc.track.exit_retries + 1)
unfolding on_exit_filled
exit_uses_retry now config fill doc final = ground arith

exit_all_retries :
    (config : ExitConfig) (fills : List (ℕ × FillEvent)) (doc : Doc)
    → All IsFinal fills
    → (exit_all config fills doc).state ≡ BotState.exit_order_placed
    → (doc.state ≡ BotState.exit_order_placed)
      × (doc.track.exit_retries + length fills ≡ (exit_all config fills doc).track.exit_retries)
      × ((length fills ≡ 0) ⊎ (doc.track.exit_retries + length fills ≤ max_exit_retries))
unfolding exit_all
exit_all_retries config [] doc all placed = (placed, omega arith, inl refl)
exit_all_retries config ((now, fill) ∷ fills) doc (final, all) placed =
    let (before, count, bound) =
      exit_all_retries config fills (on_exit_filled now config fill doc).doc all placed in
    let (here, room, used) = exit_uses_retry now config fill doc final before in
    (here, omega arith, inr (omega arith))

-- An exit comes to its end: after four terminal fills, whatever they fill, the bot is no longer
-- waiting for an exit order.
pub exit_ends :
    (config : ExitConfig) (fills : List (ℕ × FillEvent)) (doc : Doc)
    → All IsFinal fills
    → max_exit_retries < length fills
    → (exit_all config fills doc).state ≢ BotState.exit_order_placed
exit_ends config fills doc all many placed =
    let (_, _, bound) = exit_all_retries config fills doc all placed in omega arith
