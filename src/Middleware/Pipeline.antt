-- ===== src/Middleware/Pipeline.antt =====
-- PersistenceMiddleware, ExecutionMiddleware and MiddlewarePipeline of ib_trader/bots/middleware.py,
-- with `_write_state` of ib_trader/bots/runtime.py, which both writes and rolls back. The engine
-- behind the HTTP call is a parameter: `none` is an exception, the inner option its `ib_order_id`.
use ib_trader.Prelude.{
  ℕ, ◌+◌, String, Bool, true, false, ◌||◌, Option, none, some, List, [], ◌∷◌, ◌++◌, length,
  if◌then◌else◌,
}
use ib_trader.Prelude.Text.{str_eq}
use ib_trader.Prelude.Dict.{Dict, insert}
use ib_trader.Middleware.Actions.{
  Action, place_order, cancel_order, update_state, log_signal, emit_audit, PlaceOrder, EmitAudit,
  AuditType, Signal,
}
use ib_trader.Middleware.Risk.{RiskConfig, Reads, manual_entry_process, risk_process}

-- A row of the audit feed, less its texts.
pub data AuditRow : Type 0 where
  order_row : PlaceOrder → AuditRow
  event_row : EmitAudit → AuditRow

-- What the pipeline changes: the bot's document, the two feeds, what the engine was sent, and the
-- `last_cmd_id` of ExecutionMiddleware and of the pipeline.
pub record World : Type 0 where
  pub doc : Dict String
  pub bot_events : List Signal
  pub audit_log : List AuditRow
  pub submitted : List PlaceOrder
  pub closed : List ℕ
  pub execution_cmd_id : Option String
  pub pipeline_cmd_id : Option String

-- A key that `_write_state` strips.
abbrev pub is_stripped : String → Bool
is_stripped k = str_eq k "state" || str_eq k "position_state"

-- `{**existing, **safe_fields}`
unfoldable pub write_state : Dict String → Dict String → Dict String
write_state [] doc = doc
write_state ((k, v) ∷ fields) doc =
    write_state fields (if is_stripped k then doc else insert k v doc)

-- LoggingMiddleware
unfoldable pub logging_process : List Action → List Signal
logging_process [] = []
logging_process (log_signal signal ∷ actions) = signal ∷ logging_process actions
logging_process (place_order _ ∷ actions) = logging_process actions
logging_process (cancel_order _ ∷ actions) = logging_process actions
logging_process (update_state _ ∷ actions) = logging_process actions
logging_process (emit_audit _ ∷ actions) = logging_process actions

-- AuditMiddleware: the orders first, then the events of a known type.
unfoldable pub order_rows : List Action → List AuditRow
order_rows [] = []
order_rows (place_order order ∷ actions) = order_row order ∷ order_rows actions
order_rows (cancel_order _ ∷ actions) = order_rows actions
order_rows (update_state _ ∷ actions) = order_rows actions
order_rows (log_signal _ ∷ actions) = order_rows actions
order_rows (emit_audit _ ∷ actions) = order_rows actions

abbrev pub is_known : AuditType → Bool
is_known AuditType.other_type = false
is_known _ = true

unfoldable pub event_rows : List Action → List AuditRow
event_rows [] = []
event_rows (emit_audit event ∷ actions) =
    let rest = event_rows actions in
    if is_known event.event_type then event_row event ∷ rest else rest
event_rows (place_order _ ∷ actions) = event_rows actions
event_rows (cancel_order _ ∷ actions) = event_rows actions
event_rows (update_state _ ∷ actions) = event_rows actions
event_rows (log_signal _ ∷ actions) = event_rows actions

abbrev pub audit_process : List Action → List AuditRow
audit_process actions = order_rows actions ++ event_rows actions

-- PersistenceMiddleware
unfoldable pub persistence_process : List Action → Dict String → Dict String
persistence_process [] doc = doc
persistence_process (update_state fields ∷ actions) doc =
    persistence_process actions (write_state fields doc)
persistence_process (place_order _ ∷ actions) doc = persistence_process actions doc
persistence_process (cancel_order _ ∷ actions) doc = persistence_process actions doc
persistence_process (log_signal _ ∷ actions) doc = persistence_process actions doc
persistence_process (emit_audit _ ∷ actions) doc = persistence_process actions doc

-- `if isinstance(mw, ExecutionMiddleware) and mw.last_cmd_id is not None`
abbrev pub consume_cmd_id : World → World
consume_cmd_id world = elim world.execution_cmd_id [
  | none ↦ world
  | some cmd_id ↦ record world { pipeline_cmd_id = some cmd_id; execution_cmd_id = none }
]

-- What follows ExecutionMiddleware: the flag is false when it raised, and the snapshot is written
-- back.
unfoldable pub conclude : Dict String → World × Bool → World × Bool
conclude snapshot (done, true) = (consume_cmd_id done, true)
conclude snapshot (done, false) = (record done { doc = write_state snapshot done.doc }, false)

module _ (post_order : ℕ → PlaceOrder → Option (Option String)) (post_close : ℕ → ℕ → Bool) where
  -- How many requests went out.
  abbrev pub clock : World → ℕ
  clock world = length world.submitted + length world.closed

  -- `_submit_via_http`; a request that fails may have reached the engine, and is listed too.
  unfoldable pub submit_via_http : PlaceOrder → World → World × Bool
  submit_via_http order world =
      let sent = record world { submitted = world.submitted ++ (order ∷ []) } in
      elim (post_order (clock world) order) [
        | none ↦ (sent, false)
        | some cmd_id ↦ (record sent { execution_cmd_id = cmd_id }, true)
      ]

  unfoldable pub cancel_via_http : ℕ → World → World × Bool
  cancel_via_http serial world =
      (record world { closed = world.closed ++ (serial ∷ []) }, post_close (clock world) serial)

  -- ExecutionMiddleware: the flag is false when it raises.
  unfoldable pub execution_process : List Action → World → World × Bool
  execution_process [] world = (world, true)
  execution_process (place_order order ∷ actions) world =
      let (sent, ok) = submit_via_http order world in
      let rest = execution_process actions sent in if ok then rest else (sent, false)
  execution_process (cancel_order serial ∷ actions) world =
      let (sent, ok) = cancel_via_http serial world in
      let rest = execution_process actions sent in if ok then rest else (sent, false)
  execution_process (update_state _ ∷ actions) world = execution_process actions world
  execution_process (log_signal _ ∷ actions) world = execution_process actions world
  execution_process (emit_audit _ ∷ actions) world = execution_process actions world

  -- The middleware before the execution, as `_setup` of the runtime lists them. Redis is
  -- reachable, or the write would raise before any order.
  unfoldable pub prepare :
      Bool → RiskConfig → String → (ℕ → Reads) → List Action → World → World × List Action
  prepare manual config source reads actions world =
      let screened = risk_process config source reads (manual_entry_process manual actions) in
      (
        record world {
          bot_events = world.bot_events ++ logging_process screened;
          audit_log = world.audit_log ++ audit_process screened;
          doc = persistence_process screened world.doc;
        },
        screened,
      )

  -- `MiddlewarePipeline.process`; `snapshot` is the copy of `ctx.state` that it takes first.
  unfoldable pub process :
      Bool → RiskConfig → String → (ℕ → Reads) → Dict String → List Action → World → World × Bool
  process manual config source reads snapshot actions world =
      let (ready, screened) = prepare manual config source reads actions world in
      conclude snapshot (execution_process screened ready)
