-- ===== src/Middleware/Screen.antt =====
-- Which orders pass ManualEntryMiddleware and RiskMiddleware of ib_trader/bots/middleware.py.
use ib_trader.Prelude.{
  ℕ, suc, ◌<◌, String, true, false, none, some, List, [], ◌∷◌, if◌then◌else◌, ◌≡◌, ◌≢◌, refl, ap,
  arith, Option-cases, not, ◌&&◌, Bool-cases, inl, inr,
}
use ib_trader.Prelude.Int.{ℤ, pos, ◌*ℤ◌, ltb_ℤ, eqb_ℤ, ◌≤ℤ◌, eq_of_parts}
use ib_trader.Middleware.Actions.{
  Action, place_order, cancel_order, update_state, log_signal, emit_audit, PlaceOrder, is_buy,
  is_strategy, orders, risk, Reason,
}
use ib_trader.Middleware.Stats.{is_kill_switch_engaged, get_stats}
use ib_trader.Middleware.Risk.{
  RiskConfig, Reads, count_source, loss_limit, can_trade, risk_check, risk_process, exceeds_value,
  manual_entry_process,
}

-- The limits that an order keeps, as arithmetic.
pub record Within (config : RiskConfig) (source : String) (reads : Reads) (order : PlaceOrder)
    : Type 0 where
  pub switch_off : is_kill_switch_engaged reads.kill ≡ false
  pub loss : loss_limit config ≤ℤ (get_stats reads.today reads.stored).pnl_today
  pub positions : count_source source reads.open_sources < config.max_concurrent_positions
  pub shares : order.qty ≤ℤ config.max_qty
  pub value :
      (price : ℤ)
      → order.price ≡ some price
      → price ≢ pos 0
      → order.qty *ℤ price ≤ℤ config.max_value

unequal : (a b : ℤ) → a ≢ b → eqb_ℤ a b ≡ false
unequal a b h = elim (Bool-cases (eqb_ℤ a b)) [
  | inl e ↦ absurd (h (eq_of_parts a b (ground arith)))
  | inr e ↦ e
]

not_above : (a b : ℤ) → ltb_ℤ a b ≡ false → b ≤ℤ a
not_above a b h = ground arith

nonzero_differs : (a : ℤ) → eqb_ℤ a (pos 0) ≡ false → a ≢ pos 0
nonzero_differs a h e = ground arith

at_most : (a limit : ℤ) → a ≤ℤ limit → not false && ltb_ℤ limit a ≡ false
at_most a limit h = ground arith

value_within :
    (order : PlaceOrder) (limit price : ℤ)
    → exceeds_value order limit ≡ false
    → order.price ≡ some price
    → price ≢ pos 0
    → order.qty *ℤ price ≤ℤ limit
value_within order limit price h e nonzero =
    not_above limit (order.qty *ℤ price) (rw (e, unequal price (pos 0) nonzero) at h)

module _ (config : RiskConfig) (source : String) where
  can_trade-Within :
      (reads : Reads) (order : PlaceOrder)
      → is_buy order.side ≡ true
      → can_trade config source reads order ≡ none
      → Within config source reads order
  unfolding can_trade
  can_trade-Within reads order h ok = record {
    switch_off = ground arith;
    loss = ground arith;
    positions = ground arith;
    shares = ground arith;
    value = λ price e nonzero. value_within order config.max_value price (ground arith) e nonzero;
  }

  value_not_exceeded :
      (order : PlaceOrder) (limit : ℤ)
      → ((price : ℤ) → order.price ≡ some price → price ≢ pos 0 → order.qty *ℤ price ≤ℤ limit)
      → exceeds_value order limit ≡ false
  value_not_exceeded order limit h = elim (Option-cases order.price) [
    | inl e ↦ rw e refl
    | inr (price, e) ↦ elim (Bool-cases (eqb_ℤ price (pos 0))) [
      | inl zero ↦ rw (e, zero) refl
      | inr nonzero ↦
          let low = h price e (λ z. nonzero_differs price nonzero z) in
          rw (e, nonzero) (at_most (order.qty *ℤ price) limit low)
    ]
  ]

  Within-can_trade :
      (reads : Reads) (order : PlaceOrder)
      → Within config source reads order
      → can_trade config source reads order ≡ none
  unfolding can_trade
  Within-can_trade reads order w =
      let switch = w.switch_off in
      let loss = w.loss in
      let positions = w.positions in
      let shares = w.shares in
      let value = value_not_exceeded order config.max_value w.value in ground arith

  -- What becomes of one action: a buy passes as it is when it keeps the limits in `reads`, and
  -- is replaced by a signal with the reason when it does not; all else passes.
  abbrev pub Checked : Reads → Action → Action → Type 0
  Checked reads (place_order order) after =
      (is_buy order.side ≡ false → after ≡ place_order order)
      × (is_buy order.side ≡ true → Within config source reads order → after ≡ place_order order)
      × (is_buy order.side ≡ true
          → ¬ (Within config source reads order)
          → (reason : Reason) × (after ≡ log_signal (risk order reason)))
  Checked reads action after = after ≡ action

  abbrev pub Screened : (ℕ → Reads) → List Action → List Action → Type 0
  Screened reads [] [] = Unit
  Screened reads (action ∷ actions) (after ∷ rest) =
      Checked (reads 0) action after × Screened (λ n. reads (suc n)) actions rest
  Screened reads _ _ = ⊥

  risk_check-Checked :
      (reads : Reads) (order : PlaceOrder)
      → Checked reads (place_order order) (risk_check config source reads order)
  unfolding risk_check
  risk_check-Checked reads order = (
    λ sold. rw sold refl,
    λ buys within. rw (buys, Within-can_trade reads order within) refl,
    λ buys outside. elim (Option-cases (can_trade config source reads order)) [
      | inl ok ↦ absurd (outside (can_trade-Within reads order buys ok))
      | inr (reason, refused) ↦ rw (buys, refused) (reason, refl)
    ],
  )

  -- Each action is answered by RiskMiddleware in its place: a buy passes as it is when it keeps every limit
  -- as read for this very action, a buy that does not is replaced by a signal with a reason, and
  -- sells and all other actions pass as they are.
  pub risk_process-Screened :
      (reads : ℕ → Reads) (actions : List Action)
      → Screened reads actions (risk_process config source reads actions)
  unfolding risk_process
  risk_process-Screened reads [] = tt
  risk_process-Screened reads (place_order order ∷ actions) =
      (risk_check-Checked (reads 0) order, risk_process-Screened (λ n. reads (suc n)) actions)
  risk_process-Screened reads (cancel_order serial ∷ actions) =
      (refl, risk_process-Screened (λ n. reads (suc n)) actions)
  risk_process-Screened reads (update_state fields ∷ actions) =
      (refl, risk_process-Screened (λ n. reads (suc n)) actions)
  risk_process-Screened reads (log_signal signal ∷ actions) =
      (refl, risk_process-Screened (λ n. reads (suc n)) actions)
  risk_process-Screened reads (emit_audit row ∷ actions) =
      (refl, risk_process-Screened (λ n. reads (suc n)) actions)

abbrev pub sells : List PlaceOrder → List PlaceOrder
sells [] = []
sells (order ∷ os) = let rest = sells os in if is_buy order.side then rest else order ∷ rest

abbrev pub not_automatic : List PlaceOrder → List PlaceOrder
not_automatic [] = []
not_automatic (order ∷ os) =
    let rest = not_automatic os in if is_strategy order.origin then rest else order ∷ rest

module _ (config : RiskConfig) (source : String) where
  -- RiskMiddleware lets every sell through, in order, whatever it reads.
  pub risk_process-sells :
      (reads : ℕ → Reads) (actions : List Action)
      → sells (orders (risk_process config source reads actions)) ≡ sells (orders actions)
  unfolding risk_process risk_check
  risk_process-sells reads [] = refl
  risk_process-sells reads (place_order order ∷ actions) =
      let ih = risk_process-sells (λ n. reads (suc n)) actions in
      elim (Bool-cases (is_buy order.side)) [
        | inr sold ↦ rw (sold, sold) (ap (λ (os : List PlaceOrder). order ∷ os) ih)
        | inl buys ↦ elim (Option-cases (can_trade config source (reads 0) order)) [
          | inl ok ↦ rw (buys, ok, buys) ih
          | inr (reason, refused) ↦ rw (buys, refused) ih
        ]
      ]
  risk_process-sells reads (cancel_order serial ∷ actions) =
      risk_process-sells (λ n. reads (suc n)) actions
  risk_process-sells reads (update_state fields ∷ actions) =
      risk_process-sells (λ n. reads (suc n)) actions
  risk_process-sells reads (log_signal signal ∷ actions) =
      risk_process-sells (λ n. reads (suc n)) actions
  risk_process-sells reads (emit_audit row ∷ actions) =
      risk_process-sells (λ n. reads (suc n)) actions

  -- With the kill switch on, or unreadable, what is left are the sells: a buy that covers a short is
  -- dropped, a sell that opens one is not.
  pub kill_switch_leaves_sells :
      (reads : ℕ → Reads) (actions : List Action)
      → ((n : ℕ) → is_kill_switch_engaged (reads n).kill ≡ true)
      → orders (risk_process config source reads actions) ≡ sells (orders actions)
  unfolding risk_process risk_check can_trade
  kill_switch_leaves_sells reads [] on = refl
  kill_switch_leaves_sells reads (place_order order ∷ actions) on =
      let ih = kill_switch_leaves_sells (λ n. reads (suc n)) actions (λ n. on (suc n)) in
      elim (Bool-cases (is_buy order.side)) [
        | inr sold ↦ rw sold (ap (λ (os : List PlaceOrder). order ∷ os) ih)
        | inl buys ↦ rw (buys, on 0) ih
      ]
  kill_switch_leaves_sells reads (cancel_order serial ∷ actions) on =
      kill_switch_leaves_sells (λ n. reads (suc n)) actions (λ n. on (suc n))
  kill_switch_leaves_sells reads (update_state fields ∷ actions) on =
      kill_switch_leaves_sells (λ n. reads (suc n)) actions (λ n. on (suc n))
  kill_switch_leaves_sells reads (log_signal signal ∷ actions) on =
      kill_switch_leaves_sells (λ n. reads (suc n)) actions (λ n. on (suc n))
  kill_switch_leaves_sells reads (emit_audit row ∷ actions) on =
      kill_switch_leaves_sells (λ n. reads (suc n)) actions (λ n. on (suc n))

-- A bot for manual entries passes on the exits and the operator's orders, and those only.
pub orders-manual_entry_process :
    (actions : List Action)
    → orders (manual_entry_process true actions) ≡ not_automatic (orders actions)
orders-manual_entry_process [] = refl
orders-manual_entry_process (place_order order ∷ actions) =
    elim (Bool-cases (is_strategy order.origin)) [
      | inl h ↦ rw h (orders-manual_entry_process actions)
      | inr h ↦
          rw h (ap (λ (os : List PlaceOrder). order ∷ os) (orders-manual_entry_process actions))
    ]
orders-manual_entry_process (cancel_order serial ∷ actions) = orders-manual_entry_process actions
orders-manual_entry_process (update_state fields ∷ actions) = orders-manual_entry_process actions
orders-manual_entry_process (log_signal signal ∷ actions) = orders-manual_entry_process actions
orders-manual_entry_process (emit_audit row ∷ actions) = orders-manual_entry_process actions
