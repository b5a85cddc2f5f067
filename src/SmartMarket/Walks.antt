-- ===== src/SmartMarket/Walks.antt =====
-- The rounds of the SMART_MARKET walker in ib_trader/engine/order.py.
use ib_trader.Prelude.{
  ℕ, suc, ◌-◌, ◌*◌, ◌≤◌, ◌<◌, true, false, ◌&&◌, List, [], ◌∷◌, Option, none, some, ◌≡◌, ◌≢◌, refl,
  subst, ◌∙◌, ap, sym, ◌⊎◌, inl, inr, All, length, Bool-cases, Option-cases, arith,
}
use ib_trader.Prelude.Int.{ℤ, pos, ◌+ℤ◌, ◌≤ℤ◌, eqb_ℤ, +ℤ_parts, int_laws}
use ib_trader.Pricing.{half_even, Side, buy, sell}
use ib_trader.Pricing.Multiples.{IsMultiple, on_grid-IsMultiple}
use ib_trader.SmartMarket.{
  Observed, Order, Exit, exit, again, amend, cap_reached, Outcome, apply_cap, step_price,
  get_prices, market, is_cancelled, is_terminal, is_full, send, capped, on_market, round, Walk,
  walk,
}
use ib_trader.SmartMarket.Cap.{IsWithin, IsStep, step_price-IsStep, sent, sent_lem}

send_amend :
    (o : Order) (last price new : ℤ) (r : Observed) → send o last price r ≡ amend new → price ≡ new
unfolding send
send_amend o last price new r h = ground arith

both_equal : (a f l : ℤ) → (eqb_ℤ a f && eqb_ℤ l f) ≡ true → (a ≡ f) × (l ≡ f)
both_equal a f l h = ground arith

at_cap :
    (o : Order) (last f step : ℤ) (r : Observed)
    → o.floor_price ≡ some f
    → last ≡ f
    → apply_cap step f o.side ≡ f
    → capped o last step r ≡ exit cap_reached
unfolding capped
at_cap o last f step r e h k = rw (e, h, k) (ground arith)

-- At the cap the walker returns, and elsewhere it goes on with a price inside.
capped_cases :
    (o : Order) (last f step : ℤ) (r : Observed)
    → o.floor_price ≡ some f
    → ((last ≡ f) × (apply_cap step f o.side ≡ f) × (capped o last step r ≡ exit cap_reached))
      ⊎ (capped o last step r ≡ send o last (sent o.side step f o.cent) r)
unfolding capped
capped_cases o last f step r e =
    elim (Bool-cases (eqb_ℤ (apply_cap step f o.side) f && eqb_ℤ last f)) [
      | inl stop ↦
          let (a, b) = both_equal (apply_cap step f o.side) f last stop in
          inl (b, a, rw e (rw stop refl))
      | inr go ↦ inr (rw e (rw go refl))
    ]

round-on_market :
    (o : Order) (last new : ℤ) (r : Observed)
    → round o last r ≡ amend new
    → on_market (market (get_prices r.cached r.snapshot)) o last r ≡ amend new
unfolding round
round-on_market o last new r h = ground arith

outcome_cases :
    (o : Outcome) → (((x : Exit) × (o ≡ exit x)) ⊎ (o ≡ again)) ⊎ ((p : ℤ) × (o ≡ amend p))
outcome_cases (exit x) = inl (inl (x, refl))
outcome_cases again = inl (inr refl)
outcome_cases (amend p) = inr (p, refl)

-- A round that amends has made a step.
on_market-IsStep :
    (m : Option (ℤ × ℤ)) (o : Order) (last f new : ℤ) (r : Observed)
    → o.floor_price ≡ some f
    → 0 < o.cent
    → IsMultiple o.cent last
    → IsMultiple o.cent f
    → IsWithin o.side f last
    → on_market m o last r ≡ amend new
    → IsStep o.side o.cent last new × IsWithin o.side f new × IsMultiple o.cent new
unfolding on_market
on_market-IsStep none o last f new r e p ml mf w h = cc
on_market-IsStep (some (bid, ask)) o last f new r e p ml mf w h =
    let step = step_price o.side last bid ask o.cent in
    let (inside, far) =
      sent_lem o.side last f step o.cent p ml mf w (step_price-IsStep o.side last bid ask o.cent) in
    elim far [
      | inl (here, at) ↦ let stop = at_cap o last f step r e here at in cc
      | inr beyond ↦ elim (capped_cases o last f step r e) [
        | inl (_, _, stop) ↦ cc
        | inr go ↦
            let same = send_amend o last (sent o.side step f o.cent) new r (sym go ∙ h) in
            (
              subst (IsStep o.side o.cent last) same beyond,
              subst (IsWithin o.side f) same inside,
              subst (IsMultiple o.cent) same
                  (on_grid-IsMultiple half_even (apply_cap step f o.side) o.cent),
            )
      ]
    ]

-- Each price is within the cap and at least a cent further than the one before.
abbrev pub IsWalk : Side → ℕ → ℤ → ℤ → List ℤ → Type 0
IsWalk side c floor last [] = Unit
IsWalk side c floor last (p ∷ ps) =
    IsStep side c last p × IsWithin side floor p × IsWalk side c floor p ps

-- With a cap, from a last price on the grid and within it, the walker never sends a price beyond the
-- cap, and each price that it sends is at least a cent further towards the far side than the one
-- before: whatever the market, the fills and the broker's answers.
pub walk-IsWalk :
    (o : Order) (last f : ℤ) (rounds : List Observed)
    → o.floor_price ≡ some f
    → 0 < o.cent
    → IsMultiple o.cent last
    → IsMultiple o.cent f
    → IsWithin o.side f last
    → IsWalk o.side o.cent f last (walk o last rounds).amends
unfolding walk
walk-IsWalk o last f [] e p ml mf w = tt
walk-IsWalk o last f (r ∷ rounds) e p ml mf w = elim (outcome_cases (round o last r)) [
  | inl (inl (x, out)) ↦ rw (out, walk) tt
  | inl (inr out) ↦ rw (out, walk) (walk-IsWalk o last f rounds e p ml mf w)
  | inr (new, out) ↦
      let (beyond, inside, multiple) =
        on_market-IsStep (market (get_prices r.cached r.snapshot)) o last f new r e p ml mf w
          (round-on_market o last new r out) in
      rw (out, walk) (beyond, inside, walk-IsWalk o new f rounds e p multiple mf inside)
]

-- A round in which the order is alive, the market has a price and the broker takes the new price.
pub record IsLive (o : Order) (r : Observed) : Type 0 where
  pub not_canceled : r.canceled ≡ false
  pub in_time : r.expired ≡ false
  pub not_full : is_full o r.current ≡ false
  pub not_cancelled : is_cancelled r.current.status ≡ false
  pub priced : market (get_prices r.cached r.snapshot) ≢ none
  pub still_on : r.canceled_later ≡ false
  pub still_live : is_terminal r.pre.status ≡ false
  pub still_open : is_full o r.pre ≡ false
  pub taken : r.amended ≡ true

-- No further from the cap than a distance.
abbrev pub IsNear : Side → ℤ → ℤ → ℕ → Type 0
IsNear sell floor last n = last ≤ℤ floor +ℤ pos n
IsNear buy floor last n = floor ≤ℤ last +ℤ pos n

live_round :
    (o : Order) (last : ℤ) (r : Observed)
    → IsLive o r
    → (bid : ℤ) × (ask : ℤ) × (round o last r
        ≡ capped o last (step_price o.side last bid ask o.cent) r)
unfolding round on_market
live_round o last r l = elim (Option-cases (market (get_prices r.cached r.snapshot))) [
  | inl e ↦ absurd (l.priced e)
  | inr ((bid, ask), e) ↦
      (bid, ask, rw (l.not_canceled, l.in_time, l.not_full, l.not_cancelled, e) refl)
]

live_send :
    (o : Order) (last price : ℤ) (r : Observed)
    → IsLive o r
    → eqb_ℤ price last ≡ false
    → send o last price r ≡ amend price
unfolding send
live_send o last price r l h = rw (h, l.still_on, l.still_live, l.still_open, l.taken) refl

-- A step brings the walker a cent nearer, so the distance was a cent at least.
nearer :
    (side : Side) (c : ℕ) (f last p : ℤ) (n : ℕ)
    → 0 < c
    → IsNear side f last n
    → IsStep side c last p
    → IsWithin side f p
    → (c ≤ n) × IsNear side f p (n - c)
nearer sell c f last p n h k s w =
    omega (int_laws, +ℤ_parts f (pos n), +ℤ_parts p (pos c), +ℤ_parts f (pos (n - c)))
nearer buy c f last p n h k s w =
    omega (int_laws, +ℤ_parts last (pos n), +ℤ_parts last (pos c), +ℤ_parts p (pos (n - c)))

moved : (side : Side) (c : ℕ) (last p : ℤ) → 0 < c → IsStep side c last p → eqb_ℤ p last ≡ false
moved sell c last p h s = ground (arith, +ℤ_parts p (pos c))
moved buy c last p h s = ground (arith, +ℤ_parts last (pos c))

fewer : (n m c : ℕ) → c ≤ n → n < suc m * c → n - c < m * c
fewer n m c h k = grind arith

-- The exit of a walk and the price that it has sent last.
abbrev ends : Walk → Option Exit × ℤ
ends w = (w.exited, w.last_sent_price)

both :
    (w : Walk) {x : Option Exit} {l f : ℤ}
    → ends w ≡ (x, l)
    → l ≡ f
    → (w.exited ≡ x) × (w.last_sent_price ≡ f)
both w e h = (ap (λ (p : Option Exit × ℤ). p.0) e, ap (λ (p : Option Exit × ℤ). p.1) e ∙ h)

pair : (w : Walk) {x : Option Exit} {f : ℤ} → w.exited ≡ x → w.last_sent_price ≡ f → ends w ≡ (x, f)
pair w h k = λ i. (h i, k i)

walk_exit :
    (o : Order) (last : ℤ) (r : Observed) (rounds : List Observed) (x : Exit)
    → round o last r ≡ exit x
    → ends (walk o last (r ∷ rounds)) ≡ (some x, last)
unfolding walk
walk_exit o last r rounds x h = rw (h, walk) refl

walk_amend :
    (o : Order) (last p : ℤ) (r : Observed) (rounds : List Observed)
    → round o last r ≡ amend p
    → ends (walk o last (r ∷ rounds)) ≡ ends (walk o p rounds)
unfolding walk
walk_amend o last p r rounds h = rw (h, walk) refl

-- The walker ends: where the order stays alive, the market has a price and the broker takes the new
-- ones, the walker returns at the cap after as many rounds as there are cents to it, and one more.
pub cap_is_reached :
    (o : Order) (last f : ℤ) (n : ℕ) (rounds : List Observed)
    → o.floor_price ≡ some f
    → 0 < o.cent
    → IsMultiple o.cent last
    → IsMultiple o.cent f
    → IsWithin o.side f last
    → IsNear o.side f last n
    → n < length rounds * o.cent
    → All (IsLive o) rounds
    → ((walk o last rounds).exited ≡ some cap_reached) × ((walk o last rounds).last_sent_price ≡ f)
cap_is_reached o last f n [] e p ml mf w near enough all = absurd (omega arith)
cap_is_reached o last f n (r ∷ rounds) e p ml mf w near enough (l, all) =
    let (bid, ask, same) = live_round o last r l in
    let step = step_price o.side last bid ask o.cent in
    let new = sent o.side step f o.cent in
    let (inside, far) =
      sent_lem o.side last f step o.cent p ml mf w (step_price-IsStep o.side last bid ask o.cent) in
    let whole = walk o last (r ∷ rounds) in
    elim far [
      | inl (here, at) ↦
          both whole
            (walk_exit o last r rounds cap_reached (same ∙ at_cap o last f step r e here at)) here
      | inr beyond ↦ elim (capped_cases o last f step r e) [
        | inl (here, _, out) ↦ both whole (walk_exit o last r rounds cap_reached (same ∙ out)) here
        | inr go ↦
            let (room, near') = nearer o.side o.cent f last new n p near beyond inside in
            let sends = live_send o last new r l (moved o.side o.cent last new p beyond) in
            let (x, y) =
              cap_is_reached o new f (n - o.cent) rounds e p
                (on_grid-IsMultiple half_even (apply_cap step f o.side) o.cent) mf inside near'
                (fewer n (length rounds) o.cent room enough) all in
            let on = walk_amend o last new r rounds (same ∙ go ∙ sends) in
            both whole (on ∙ pair (walk o new rounds) x y) refl
      ]
    ]
