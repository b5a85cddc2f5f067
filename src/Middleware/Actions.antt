-- ===== src/Middleware/Actions.antt =====
-- The actions of ib_trader/bots/strategy.py, which a strategy returns and the pipeline of
-- ib_trader/bots/middleware.py works on.
use ib_trader.Prelude.{ℕ, String, Bool, true, false, Option, List, [], ◌∷◌}
use ib_trader.Prelude.Int.{ℤ}
use ib_trader.Prelude.Dict.{Dict}

pub data Side : Type 0 where
  buy : Side
  sell : Side

pub data Origin : Type 0 where
  strategy : Origin
  exit : Origin
  manual_override : Origin

pub record PlaceOrder : Type 0 where
  pub symbol : String
  pub side : Side
  pub qty : ℤ
  pub order_type : String
  pub price : Option ℤ
  pub params : Dict String
  pub origin : Origin

-- Why `RiskMiddleware._can_trade` refuses an order.
pub data Reason : Type 0 where
  kill_switch_active : Reason
  daily_loss_cap : Reason
  max_positions : Reason
  max_position_value : Reason
  max_shares : Reason

-- A LogSignal: those that the middleware writes itself, and any other with its text.
pub data Signal : Type 0 where
  manual_entry_only : PlaceOrder → Signal
  risk : PlaceOrder → Reason → Signal
  other_signal : String → String → Signal

-- The `event_type` of an EmitAudit.
pub data AuditType : Type 0 where
  bar_eval : AuditType
  order_placed : AuditType
  trade_closed : AuditType
  other_type : AuditType

pub record EmitAudit : Type 0 where
  pub event_type : AuditType
  pub decision : String

pub data Action : Type 0 where
  place_order : PlaceOrder → Action
  cancel_order : ℕ → Action
  update_state : Dict String → Action
  log_signal : Signal → Action
  emit_audit : EmitAudit → Action

abbrev pub is_buy : Side → Bool
is_buy buy = true
is_buy sell = false

abbrev pub is_strategy : Origin → Bool
is_strategy strategy = true
is_strategy _ = false

-- `[a for a in actions if isinstance(a, PlaceOrder)]`
abbrev pub orders : List Action → List PlaceOrder
orders [] = []
orders (place_order order ∷ actions) = order ∷ orders actions
orders (_ ∷ actions) = orders actions
