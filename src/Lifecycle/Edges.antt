-- ===== src/Lifecycle/Edges.antt =====
-- Which states a bot of ib_trader/bots/runtime.py can go to, and what the placed states gate.
use ib_trader.Prelude.{
  ℕ, ◌+◌, ◌≤◌, Option, ◌&&◌, ◌||◌, Bool, true, false, List, [], ◌∷◌, ◌≡◌, refl, arith, ◌⊎◌, inl,
  if◌then◌else◌, inr,
}
use ib_trader.Prelude.Int.{ℤ}
use ib_trader.Lifecycle.Doc.{BotState, Doc, Outcome, Answer, refused, raised, force_off_state}
use ib_trader.Lifecycle.Control.{
  on_start, on_stop, on_force_stop, on_crash, on_ib_position_mismatch, on_entry_timeout,
  on_manual_close, on_entry_cancelled, on_exit_cancelled,
}
use ib_trader.Lifecycle.Orders.{
  Placement, on_place_entry_order, on_place_exit_order, on_entry_filled, capture_order_id,
  FillEvent, revert_to_state,
}
use ib_trader.Lifecycle.ExitFill.{ExitConfig, on_exit_filled}
use ib_trader.Lifecycle.Positions.{apply_position_event}
use ib_trader.Lifecycle.Handle.{LifeEvent, handle}

-- Neither off nor parked in error.
abbrev pub is_running : BotState → Bool
is_running BotState.off = false
is_running BotState.errored = false
is_running _ = true

abbrev pub same_state : BotState → BotState → Bool
same_state BotState.off BotState.off = true
same_state BotState.errored BotState.errored = true
same_state BotState.awaiting_entry_trigger BotState.awaiting_entry_trigger = true
same_state BotState.entry_order_placed BotState.entry_order_placed = true
same_state BotState.awaiting_exit_trigger BotState.awaiting_exit_trigger = true
same_state BotState.exit_order_placed BotState.exit_order_placed = true
same_state _ _ = false

-- The changes of state that an event may make, `from` and `to`.
abbrev pub leads : LifeEvent → BotState → BotState → Bool
leads (LifeEvent.starts _) BotState.off to = same_state BotState.awaiting_entry_trigger to
leads (LifeEvent.starts _) BotState.errored to = same_state BotState.awaiting_entry_trigger to
leads (LifeEvent.stops _) _ to = same_state BotState.off to
leads (LifeEvent.resets _) _ to = same_state BotState.off to
leads (LifeEvent.force_stops _) _ to = same_state BotState.errored to
leads (LifeEvent.crashes _) from to = is_running from && same_state BotState.errored to
leads (LifeEvent.mismatches _) from to = is_running from && same_state BotState.errored to
leads LifeEvent.entry_times_out BotState.entry_order_placed to =
    same_state BotState.awaiting_entry_trigger to
leads LifeEvent.entry_cancels BotState.entry_order_placed to =
    same_state BotState.awaiting_entry_trigger to
leads LifeEvent.manually_closes BotState.awaiting_exit_trigger to =
    same_state BotState.awaiting_entry_trigger to
leads LifeEvent.manually_closes BotState.exit_order_placed to =
    same_state BotState.awaiting_entry_trigger to
leads LifeEvent.exit_cancels BotState.exit_order_placed to =
    same_state BotState.awaiting_exit_trigger to
leads (LifeEvent.places_entry _) BotState.awaiting_entry_trigger to =
    same_state BotState.entry_order_placed to
leads (LifeEvent.places_exit _) BotState.awaiting_exit_trigger to =
    same_state BotState.exit_order_placed to
leads (LifeEvent.entry_fills _) BotState.entry_order_placed to =
    same_state BotState.awaiting_exit_trigger to || same_state BotState.awaiting_entry_trigger to
leads (LifeEvent.entry_fills _) BotState.awaiting_entry_trigger to =
    same_state BotState.awaiting_exit_trigger to
leads (LifeEvent.exit_fills config _) BotState.exit_order_placed to =
    same_state BotState.errored to
    || same_state (if config.stop_on_exit then BotState.off else BotState.awaiting_entry_trigger) to
leads (LifeEvent.reverts prior) _ to = same_state prior to
leads (LifeEvent.position_changes _ _ _) BotState.entry_order_placed to =
    same_state BotState.errored to
leads (LifeEvent.position_changes _ _ _) BotState.awaiting_exit_trigger to =
    same_state BotState.errored to || same_state BotState.awaiting_entry_trigger to
leads (LifeEvent.position_changes _ _ _) BotState.exit_order_placed to =
    same_state BotState.errored to || same_state BotState.awaiting_entry_trigger to
leads _ _ _ = false

-- A start, or the way back of a pipeline that failed.
abbrev pub is_start_or_revert : LifeEvent → Bool
is_start_or_revert (LifeEvent.starts _) = true
is_start_or_revert (LifeEvent.reverts _) = true
is_start_or_revert _ = false

-- What an event does to the state, and what a refusal and an exception leave.
abbrev pub Obeys : LifeEvent → Doc → Outcome → Type 0
Obeys e doc out =
    ((out.doc.state ≡ doc.state) ⊎ (leads e doc.state out.doc.state ≡ true))
    × (doc.state ≡ BotState.errored
        → is_start_or_revert e ≡ false
        → (out.doc.state ≡ BotState.errored) ⊎ (out.doc.state ≡ BotState.off))
    × (out.answer ≡ refused → out.doc ≡ doc)
    × (out.answer ≡ raised → out.doc ≡ doc)

same_state_refl : (s : BotState) → same_state s s ≡ true
same_state_refl BotState.off = refl
same_state_refl BotState.errored = refl
same_state_refl BotState.awaiting_entry_trigger = refl
same_state_refl BotState.entry_order_placed = refl
same_state_refl BotState.awaiting_exit_trigger = refl
same_state_refl BotState.exit_order_placed = refl

pub revert_to_state-state :
    (now : ℕ) (prior : BotState) (doc : Doc) → (revert_to_state now prior doc).state ≡ prior
unfolding revert_to_state
revert_to_state-state now prior doc = ground arith

revert-Obeys :
    (now : ℕ) (prior : BotState) (doc : Doc)
    → Obeys (LifeEvent.reverts prior) doc (handle now (LifeEvent.reverts prior) doc)
unfolding handle
revert-Obeys now prior doc = (
  inr (rw (revert_to_state-state now prior doc) (same_state_refl prior)),
  λ _ h. ground arith,
  λ h. ground arith,
  λ h. ground arith,
)

position_event-Obeys :
    (now later : ℕ) (ib_qty : ℤ) (pull : Option ℤ) (doc : Doc)
    → let e = LifeEvent.position_changes later ib_qty pull in Obeys e doc (handle now e doc)
unfolding handle apply_position_event on_manual_close on_ib_position_mismatch
position_event-Obeys now later ib_qty pull doc = ground arith

exit_fill-Obeys :
    (now : ℕ) (config : ExitConfig) (fill : FillEvent) (doc : Doc)
    → let e = LifeEvent.exit_fills config fill in Obeys e doc (handle now e doc)
unfolding handle on_exit_filled
exit_fill-Obeys now config fill doc = ground arith

-- Every event, from every document, keeps the state or changes it as the table `leads` says for this
-- event; out of ERRORED all events but a start and the way back of a failed pipeline lead to OFF
-- only; and a call that is refused or raises leaves the document as it was.
pub handle_obeys :
    (now : ℕ) (e : LifeEvent) (doc : Doc)
    → let out = handle now e doc in
      ((out.doc.state ≡ doc.state) ⊎ (leads e doc.state out.doc.state ≡ true))
      × (doc.state ≡ BotState.errored
          → is_start_or_revert e ≡ false
          → (out.doc.state ≡ BotState.errored) ⊎ (out.doc.state ≡ BotState.off))
      × (out.answer ≡ refused → out.doc ≡ doc)
      × (out.answer ≡ raised → out.doc ≡ doc)
unfolding handle on_start on_stop on_force_stop on_crash on_ib_position_mismatch on_entry_timeout
    on_manual_close on_entry_cancelled on_exit_cancelled on_place_entry_order on_place_exit_order
    on_entry_filled capture_order_id force_off_state
handle_obeys now (LifeEvent.reverts prior) doc = revert-Obeys now prior doc
handle_obeys now (LifeEvent.position_changes later ib_qty pull) doc =
    position_event-Obeys now later ib_qty pull doc
handle_obeys now (LifeEvent.exit_fills config fill) doc = exit_fill-Obeys now config fill doc
handle_obeys now (LifeEvent.starts m) doc = ground arith
handle_obeys now e doc = ground arith

-- A placement, of an entry or of an exit.
pub data Place : Type 0 where
  entry leaving : Placement → Place

abbrev pub place : ℕ → Place → Doc → Outcome
place now (entry p) doc = on_place_entry_order now p doc
place now (leaving p) doc = on_place_exit_order now p doc

abbrev pub is_accepted : Answer → Bool
is_accepted (Answer.in_state _) = true
is_accepted _ = false

-- How many placements in a row are accepted.
unfoldable pub accepted : List (ℕ × Place) → Doc → ℕ
accepted [] doc = 0
accepted ((now, p) ∷ ps) doc =
    let out = place now p doc in
    let rest = accepted ps out.doc in if is_accepted out.answer then rest + 1 else rest

abbrev pub IsPlaced : BotState → Type 0
IsPlaced s = (s ≡ BotState.entry_order_placed) ⊎ (s ≡ BotState.exit_order_placed)

place_when_placed :
    (now : ℕ) (p : Place) (doc : Doc)
    → IsPlaced doc.state
    → (place now p doc).answer ≡ refused × ((place now p doc).doc ≡ doc)
unfolding on_place_entry_order on_place_exit_order
place_when_placed now (entry p) doc h = ground arith
place_when_placed now (leaving p) doc h = ground arith

place_effect :
    (now : ℕ) (p : Place) (doc : Doc)
    → IsPlaced (place now p doc).doc.state
      ⊎ ((place now p doc).answer ≡ refused × ((place now p doc).doc ≡ doc))
unfolding on_place_entry_order on_place_exit_order
place_effect now (entry p) doc = ground arith
place_effect now (leaving p) doc = ground arith

accepted_when_placed :
    (ps : List (ℕ × Place)) (doc : Doc) → IsPlaced doc.state → accepted ps doc ≡ 0
unfolding accepted
accepted_when_placed [] doc h = refl
accepted_when_placed ((now, p) ∷ ps) doc h =
    let (refusal, same) = place_when_placed now p doc h in
    rw refusal (accepted_when_placed ps (place now p doc).doc (rw same h))

accepted-le : (ps : List (ℕ × Place)) (doc : Doc) → accepted ps doc ≤ 1
unfolding accepted
accepted-le [] doc = omega arith
accepted-le ((now, p) ∷ ps) doc =
    let after = (place now p doc).doc in
    elim (place_effect now p doc) [
      | inl placed ↦ ground (arith, accepted_when_placed ps after placed)
      | inr (refusal, same) ↦ rw refusal (accepted-le ps after)
    ]

-- However many entries and exits are placed in a row, at most one is accepted before another event
-- comes, and none if an order is placed already: a tick during the call of the engine cannot place
-- a second order.
pub accepted_at_most_one :
    (ps : List (ℕ × Place)) (doc : Doc)
    → (accepted ps doc ≤ 1) × (IsPlaced doc.state → accepted ps doc ≡ 0)
accepted_at_most_one ps doc = (accepted-le ps doc, accepted_when_placed ps doc)
