-- ===== src/Middleware/Rollback.antt =====
-- What MiddlewarePipeline.process of ib_trader/bots/middleware.py leaves behind, and what the
-- rollback gives back when the execution fails.
use ib_trader.Prelude.{
  ℕ, String, Bool, true, false, Option, List, [], ◌∷◌, ◌++◌, if◌then◌else◌, ◌≡◌, ◌≢◌, refl, ◌∙◌,
  sym, ap, Option-cases, Bool-cases, inl, inr,
}
use mathlib.Core.List.{append-nil, append_assoc}
use ib_trader.Prelude.Dict.{Dict, lookup}
use ib_trader.Middleware.Actions.{
  Action, place_order, cancel_order, update_state, log_signal, emit_audit, PlaceOrder, orders,
}
use ib_trader.Middleware.Risk.{RiskConfig, Reads, manual_entry_process, risk_process}
use ib_trader.Middleware.Pipeline.{
  World, clock, is_stripped, write_state, persistence_process, submit_via_http, cancel_via_http,
  execution_process, consume_cmd_id, conclude, prepare, process,
}
use ib_trader.Middleware.Merge.{IsUnique, over, lookup-write_state}

false-≢-true : false ≢ true
false-≢-true h = cc h

conclude_flag :
    (snapshot : Dict String) (result : World × Bool) → (conclude snapshot result).1 ≡ result.1
unfolding conclude
conclude_flag snapshot (done, true) = refl
conclude_flag snapshot (done, false) = refl

conclude_failed :
    (snapshot : Dict String) (result : World × Bool)
    → result.1 ≡ false
    → (conclude snapshot result).0.doc ≡ write_state snapshot result.0.doc
unfolding conclude
conclude_failed snapshot (done, true) h = absurd (false-≢-true (sym h))
conclude_failed snapshot (done, false) h = refl

consume_keeps :
    (world : World)
    → ((consume_cmd_id world).doc ≡ world.doc)
      × ((consume_cmd_id world).submitted ≡ world.submitted)
consume_keeps world = elim (Option-cases world.execution_cmd_id) [
  | inl e ↦ rw e (refl, refl)
  | inr (_, e) ↦ rw e (refl, refl)
]

conclude_ok :
    (snapshot : Dict String) (result : World × Bool)
    → result.1 ≡ true
    → ((conclude snapshot result).0.doc ≡ result.0.doc)
      × ((conclude snapshot result).0.submitted ≡ result.0.submitted)
unfolding conclude
conclude_ok snapshot (done, true) h = consume_keeps done
conclude_ok snapshot (done, false) h = absurd (false-≢-true h)

module _ (post_order : ℕ → PlaceOrder → Option (Option String)) (post_close : ℕ → ℕ → Bool) where
  abbrev pub execute : List Action → World → World × Bool
  execute = execution_process post_order post_close

  pub execution_process-doc :
      (actions : List Action) (world : World) → (execute actions world).0.doc ≡ world.doc
  unfolding execution_process submit_via_http cancel_via_http
  execution_process-doc [] world = refl
  execution_process-doc (place_order order ∷ actions) world =
      elim (Option-cases (post_order (clock post_order post_close world) order)) [
        | inl failed ↦ rw (failed, submit_via_http) refl
        | inr (cmd_id, ok) ↦ rw (ok, submit_via_http) (execution_process-doc actions _)
      ]
  execution_process-doc (cancel_order serial ∷ actions) world =
      elim (Bool-cases (post_close (clock post_order post_close world) serial)) [
        | inl ok ↦ rw (ok, cancel_via_http) (execution_process-doc actions _)
        | inr failed ↦ rw (failed, cancel_via_http) refl
      ]
  execution_process-doc (update_state _ ∷ actions) world = execution_process-doc actions world
  execution_process-doc (log_signal _ ∷ actions) world = execution_process-doc actions world
  execution_process-doc (emit_audit _ ∷ actions) world = execution_process-doc actions world

  -- What was sent before and after: a first part of the orders, and all of them on success.
  abbrev pub Sent : List Action → World → World × Bool → Type 0
  Sent actions world (done, ok) =
      (sent : List PlaceOrder) × (rest : List PlaceOrder) × (orders actions ≡ sent ++ rest)
      × (done.submitted ≡ world.submitted ++ sent)
      × (ok ≡ true → rest ≡ [])

  front :
      (order : PlaceOrder) (actions : List Action) (sent world : World) (result : World × Bool)
      → sent.submitted ≡ world.submitted ++ (order ∷ [])
      → Sent actions sent result
      → Sent (place_order order ∷ actions) world result
  front order actions sent world result e (first, rest, all, now, ok) = (
    order ∷ first,
    rest,
    ap (λ (os : List PlaceOrder). order ∷ os) all,
    now
        ∙ ap (λ (os : List PlaceOrder). os ++ first) e
        ∙ append_assoc world.submitted (order ∷ []) first,
    ok,
  )

  pub execution_process-Sent :
      (actions : List Action) (world : World) → Sent actions world (execute actions world)
  unfolding execution_process submit_via_http cancel_via_http
  execution_process-Sent [] world = ([], [], refl, sym (append-nil world.submitted), λ _. refl)
  execution_process-Sent (place_order order ∷ actions) world =
      elim (Option-cases (post_order (clock post_order post_close world) order)) [
        | inl failed ↦
            rw (failed, submit_via_http)
              (order ∷ [], orders actions, refl, refl, λ ok. absurd (false-≢-true ok))
        | inr (cmd_id, ok) ↦
            let sent = record world {
              submitted = world.submitted ++ (order ∷ []);
              execution_cmd_id = cmd_id;
            } in
            rw (ok, submit_via_http)
              (front order actions sent world (execute actions sent) refl
                (execution_process-Sent actions sent))
      ]
  execution_process-Sent (cancel_order serial ∷ actions) world =
      elim (Bool-cases (post_close (clock post_order post_close world) serial)) [
        | inl ok ↦ rw (ok, cancel_via_http) (execution_process-Sent actions _)
        | inr failed ↦
            rw (failed, cancel_via_http)
              (
                [],
                orders actions,
                refl,
                sym (append-nil world.submitted),
                λ ok. absurd (false-≢-true ok),
              )
      ]
  execution_process-Sent (update_state _ ∷ actions) world = execution_process-Sent actions world
  execution_process-Sent (log_signal _ ∷ actions) world = execution_process-Sent actions world
  execution_process-Sent (emit_audit _ ∷ actions) world = execution_process-Sent actions world

  module _ (manual : Bool) (config : RiskConfig) (source : String) (reads : ℕ → Reads) where
    abbrev pub screened : List Action → List Action
    screened actions = risk_process config source reads (manual_entry_process manual actions)

    -- What has been written to the document when the execution starts.
    abbrev pub persisted : List Action → World → Dict String
    persisted actions world = persistence_process (screened actions) world.doc

    abbrev pub run : Dict String → List Action → World → World × Bool
    run = process post_order post_close manual config source reads

    -- A failed run gives the document the snapshot's values; the keys that the snapshot lacks, and
    -- the stripped ones, stay as the actions wrote them.
    pub failed_process_doc :
        (snapshot : Dict String) (actions : List Action) (world : World)
        → IsUnique snapshot
        → (run snapshot actions world).1 ≡ false
        → (k : String)
        → lookup k (run snapshot actions world).0.doc ≡ (
            if is_stripped k
            then lookup k (persisted actions world)
            else over (lookup k snapshot) (lookup k (persisted actions world)))
    unfolding process prepare
    failed_process_doc snapshot actions world unique failed k =
        let (ready, list) =
          prepare post_order post_close manual config source reads actions world in
        let result = execute list ready in
        ap (lookup k)
          (conclude_failed snapshot result (sym (conclude_flag snapshot result) ∙ failed))
        ∙ ap (λ (doc : Dict String). lookup k (write_state snapshot doc))
            (execution_process-doc list ready)
        ∙ lookup-write_state k snapshot (persisted actions world) unique

    -- A run that succeeds leaves the document as the actions wrote it, and has sent every order that
    -- passed the screen, in order.
    pub process_succeeds :
        (snapshot : Dict String) (actions : List Action) (world : World)
        → (run snapshot actions world).1 ≡ true
        → ((run snapshot actions world).0.doc ≡ persisted actions world)
          × ((run snapshot actions world).0.submitted
              ≡ world.submitted ++ orders (screened actions))
    unfolding process prepare
    process_succeeds snapshot actions world ok =
        let (ready, list) =
          prepare post_order post_close manual config source reads actions world in
        let result = execute list ready in
        let ended = sym (conclude_flag snapshot result) ∙ ok in
        let (doc_kept, sent_kept) = conclude_ok snapshot result ended in
        let (sent, rest, all, now, last) = execution_process-Sent list ready in
        (
          doc_kept ∙ execution_process-doc list ready,
          sent_kept
              ∙ now
              ∙ ap (λ (os : List PlaceOrder). world.submitted ++ os)
                  (sym (append-nil sent)
                    ∙ ap (λ (os : List PlaceOrder). sent ++ os) (sym (last ended))
                    ∙ sym all),
        )
