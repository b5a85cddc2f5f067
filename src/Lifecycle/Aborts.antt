-- ===== src/Lifecycle/Aborts.antt =====
-- What `_run_pipeline` of ib_trader/bots/runtime.py leaves in the document when the order does not
-- go out.
use ib_trader.Prelude.{ℕ, false, none, List, [], ◌∷◌, ◌≡◌, ◌≢◌, refl, ap, ◌∙◌, arith, ◌⊎◌, inl, inr}
use ib_trader.Prelude.Int.{pos}
use ib_trader.Lifecycle.Doc.{
  BotState, awaiting_entry_trigger, awaiting_exit_trigger, Doc, Origin, in_state, refused,
  cleared_leg,
}
use ib_trader.Lifecycle.Orders.{
  Placement, on_place_entry_order, on_place_exit_order, revert_to_state,
}
use ib_trader.Lifecycle.Edges.{IsPlaced}
use ib_trader.Lifecycle.Submit.{
  place_by_origin, ready, aborted, preflight, Ending, failed, returned, revert_all, conclude,
  run_pipeline, with_prior,
}

-- The order's origin fits the state.
abbrev pub IsFitting : Placement → BotState → Type 0
IsFitting p s =
    ((p.origin ≡ Origin.exit) × (s ≡ awaiting_exit_trigger))
    ⊎ ((p.origin ≢ Origin.exit) × (s ≡ awaiting_entry_trigger))

place_fitting :
    (now : ℕ) (p : Placement) (doc : Doc)
    → IsFitting p doc.state
    → let out = place_by_origin now p doc in
      IsPlaced out.doc.state × (out.answer ≡ in_state out.doc.state)
unfolding on_place_entry_order on_place_exit_order
place_fitting now p doc h = ground arith

place_placed :
    (now : ℕ) (p : Placement) (doc : Doc)
    → IsPlaced doc.state
    → let out = place_by_origin now p doc in (out.answer ≡ refused) × (out.doc ≡ doc)
unfolding on_place_entry_order on_place_exit_order
place_placed now p doc h = ground arith

preflight_accepted :
    (now : ℕ) (p : Placement) (ps : List Placement) (doc : Doc) (s : BotState)
    → (place_by_origin now p doc).answer ≡ in_state s
    → preflight now (p ∷ ps) doc
      ≡ with_prior doc.state (preflight now ps (place_by_origin now p doc).doc)
unfolding preflight
preflight_accepted now p ps doc s h = rw (h, preflight) refl

preflight_refused :
    (now : ℕ) (p : Placement) (ps : List Placement) (doc : Doc)
    → (place_by_origin now p doc).answer ≡ refused
    → preflight now (p ∷ ps) doc ≡ aborted (place_by_origin now p doc).doc
unfolding preflight
preflight_refused now p ps doc h = rw (h, preflight) refl

preflight_second :
    (now : ℕ) (p q : Placement) (more : List Placement) (doc : Doc)
    → IsFitting p doc.state
    → preflight now (p ∷ q ∷ more) doc ≡ aborted (place_by_origin now p doc).doc
preflight_second now p q more doc h =
    let placed = place_by_origin now p doc in
    let (state, accepted) = place_fitting now p doc h in
    let (refusal, same) = place_placed now q placed.doc state in
    preflight_accepted now p (q ∷ more) doc placed.doc.state accepted
    ∙ ap (with_prior doc.state) (preflight_refused now q more placed.doc refusal ∙ ap aborted same)

preflight_one :
    (now : ℕ) (p : Placement) (doc : Doc)
    → IsFitting p doc.state
    → preflight now (p ∷ []) doc ≡ ready (doc.state ∷ []) (place_by_origin now p doc).doc
unfolding preflight
preflight_one now p doc h =
    let (_, accepted) = place_fitting now p doc h in
    preflight_accepted now p [] doc (place_by_origin now p doc).doc.state accepted

prior_of :
    (p : Placement) (doc : Doc)
    → IsFitting p doc.state
    → (doc.state ≡ awaiting_entry_trigger) ⊎ (doc.state ≡ awaiting_exit_trigger)
prior_of p doc (inl (_, e)) = inr e
prior_of p doc (inr (_, e)) = inl e

reverted :
    (now : ℕ) (prior : BotState) (result : Doc × Ending)
    → (prior ≡ awaiting_entry_trigger) ⊎ (prior ≡ awaiting_exit_trigger)
    → (result.1 ≡ failed) ⊎ (result.1 ≡ returned none)
    → let final = (conclude now (prior ∷ []) result).0 in
      (final.state ≡ prior)
      × (final.leg.awaiting_ib_order_id ≡ none)
      × (final.leg.order_qty ≡ none)
      × (final.leg.filled_qty ≡ pos 0)
      × (prior ≡ awaiting_entry_trigger → final.leg ≡ cleared_leg)
      × (prior ≡ awaiting_exit_trigger → final.leg.ib_order_id ≡ result.0.leg.ib_order_id)
unfolding revert_all revert_to_state cleared_leg
reverted now prior result h unsent = ground arith

-- Two orders at once: the first is placed and the second refused, and the refusal leaves the first
-- one's state in the document, although no order has gone out.
pub second_order_sticks :
    (now : ℕ) (pipeline : Doc → Doc × Ending) (p q : Placement) (more : List Placement) (doc : Doc)
    → IsFitting p doc.state
    → let (final, ok) = run_pipeline now pipeline (p ∷ q ∷ more) doc in
      (ok ≡ false) × IsPlaced final.state
unfolding run_pipeline
second_order_sticks now pipeline p q more doc h =
    let (placed, _) = place_fitting now p doc h in
    rw (preflight_second now p q more doc h) (refl, placed)

-- An order that the pipeline drops, or that fails in it, leaves the bot in the state it had, whatever
-- the pipeline made of the document: no order is awaited, and no quantity of an order or of its
-- fills is left. After an entry all fields of the position are cleared; after an exit the field of
-- the order id stays as the pipeline left it.
pub unsent_order_goes_back :
    (now : ℕ) (pipeline : Doc → Doc × Ending) (p : Placement) (doc : Doc)
    → IsFitting p doc.state
    → let placed = (place_by_origin now p doc).doc in
      ((pipeline placed).1 ≡ failed) ⊎ ((pipeline placed).1 ≡ returned none)
      → let final = (run_pipeline now pipeline (p ∷ []) doc).0 in
        (final.state ≡ doc.state)
        × (final.leg.awaiting_ib_order_id ≡ none)
        × (final.leg.order_qty ≡ none)
        × (final.leg.filled_qty ≡ pos 0)
        × (doc.state ≡ awaiting_entry_trigger → final.leg ≡ cleared_leg)
        × (doc.state ≡ awaiting_exit_trigger
            → final.leg.ib_order_id ≡ (pipeline placed).0.leg.ib_order_id)
unfolding run_pipeline
unsent_order_goes_back now pipeline p doc h unsent =
    rw (preflight_one now p doc h) (reverted now doc.state (pipeline _) (prior_of p doc h) unsent)
