-- ===== src/Lifecycle/Submit.antt =====
-- `_run_pipeline` of ib_trader/bots/runtime.py, after the circuit breaker: the transitions before
-- the call of the pipeline, the capture of the engine's order id, and the way back. What happens to
-- the document during the pipeline, by its own writes and by the fills that arrive, is a parameter.
use ib_trader.Prelude.{ℕ, String, Bool, true, false, Option, none, some, List, [], ◌∷◌}
use ib_trader.Lifecycle.Doc.{
  BotState, awaiting_entry_trigger, awaiting_exit_trigger, Doc, Origin, Outcome, Answer,
}
use ib_trader.Lifecycle.Orders.{
  Placement, on_place_entry_order, on_place_exit_order, revert_to_state, capture_order_id,
}

-- `getattr(order, "origin", "strategy") == "exit"`
abbrev pub place_by_origin : ℕ → Placement → Doc → Outcome
place_by_origin now p doc = elim p.origin [
  | Origin.exit ↦ on_place_exit_order now p doc
  | _ ↦ on_place_entry_order now p doc
]

-- The states to go back to, or the exception of an order that the FSM refused.
pub data Preflight : Type 0 where
  ready : List BotState → Doc → Preflight
  aborted : Doc → Preflight

abbrev pub with_prior : BotState → Preflight → Preflight
with_prior prior (ready priors doc) = ready (prior ∷ priors) doc
with_prior prior (aborted doc) = aborted doc

unfoldable pub preflight : ℕ → List Placement → Doc → Preflight
preflight now [] doc = ready [] doc
preflight now (p ∷ ps) doc =
    let out = place_by_origin now p doc in
    let rest = preflight now ps out.doc in
    elim out.answer [ Answer.refused ↦ aborted out.doc | _ ↦ with_prior doc.state rest ]

-- How the pipeline ends: an exception, or the id of the last order that it submitted.
pub data Ending : Type 0 where
  failed : Ending
  returned : Option String → Ending

-- The loop over `prior_states`.
unfoldable pub revert_all : ℕ → List BotState → Doc → Doc
revert_all now [] doc = doc
revert_all now (BotState.awaiting_entry_trigger ∷ priors) doc =
    revert_all now priors (revert_to_state now awaiting_entry_trigger doc)
revert_all now (BotState.awaiting_exit_trigger ∷ priors) doc =
    revert_all now priors (revert_to_state now awaiting_exit_trigger doc)
revert_all now (_ ∷ priors) doc = revert_all now priors doc

abbrev pub conclude : ℕ → List BotState → Doc × Ending → Doc × Bool
conclude now priors (doc, failed) = (revert_all now priors doc, false)
conclude now [] (doc, returned _) = (doc, true)
conclude now (prior ∷ priors) (doc, returned (some cmd_id)) =
    (capture_order_id now cmd_id doc, true)
conclude now (prior ∷ priors) (doc, returned none) = (revert_all now (prior ∷ priors) doc, true)

-- The flag is false when it raises.
abbrev pub finish : ℕ → (Doc → Doc × Ending) → Preflight → Doc × Bool
finish now pipeline (ready priors doc) = conclude now priors (pipeline doc)
finish now pipeline (aborted doc) = (doc, false)

unfoldable pub run_pipeline : ℕ → (Doc → Doc × Ending) → List Placement → Doc → Doc × Bool
unfolding preflight
run_pipeline now pipeline placements doc = finish now pipeline (preflight now placements doc)
