-- ===== src/Transactions/Recovery.antt =====
-- ib_trader/engine/recovery.py: what a start does with the open trades of the log. The trades are
-- those of ib_trader/data/repository.py.
use ib_trader.Prelude.{
  Option, ℕ, String, Bool, true, false, not, ◌&&◌, ◌||◌, List, [], ◌∷◌, if◌then◌else◌, select,
  select_congr, select_twice, all, any, All, length, Bool-cases, ◌≡◌, refl, subst, ◌∙◌, ap, sym,
  inl, inr, arith,
}
use ib_trader.Prelude.Text.{str_eq, str_eq_iff, str_eq_refl}
use ib_trader.Prelude.Int.{ℤ}
use ib_trader.Transactions.{
  Event, Table, is_fill, get_trade_leg_summary, has_unconfirmed_placements,
}

pub data TradeStatus : Type 0 where
  opened : TradeStatus
  closed : TradeStatus
  partly : TradeStatus

pub record Trade : Type 0 where
  pub id : String
  pub serial_number : ℕ
  pub symbol : String
  pub status : TradeStatus
  pub realized_pnl : Option ℤ
  pub total_commission : Option ℤ

abbrev pub is_open : Trade → Bool
is_open tr = elim tr.status [ opened ↦ true | closed ↦ false | partly ↦ false ]

abbrev pub get_open : List Trade → List Trade
get_open = select is_open

-- `update_status(trade_id, CLOSED)`; the trade's id is the primary key, and the caller has it from
-- the table.
unfoldable pub close : String → List Trade → List Trade
close id [] = []
close id (tr ∷ trades) =
    (if str_eq tr.id id then record tr { status = closed } else tr) ∷ close id trades

-- The loops of the module over the open trades: close those that a test picks, and note them.
unfoldable pub close_picked : (String → Bool) → List Trade → List Trade → List Trade × List Trade
close_picked picks [] trades = (trades, [])
close_picked picks (tr ∷ rest) trades =
    let (after, noted) =
      close_picked picks rest (if picks tr.id then close tr.id trades else trades) in
    (after, if picks tr.id then tr ∷ noted else noted)

-- The trades, and the abandoned ones.
unfoldable pub recover_in_flight_orders : Table → List Trade → List Trade × List Trade
recover_in_flight_orders log trades =
    close_picked (λ (id : String). has_unconfirmed_placements id log) (get_open trades) trades

-- Legs that are all terminal and none a fill, which no legs at all are.
unfoldable pub is_orphan : Table → String → Bool
is_orphan log id =
    let legs = get_trade_leg_summary id log in
    all (λ (r : Event). r.is_terminal) legs && not (any (λ (r : Event). is_fill r.action) legs)

-- The trades, and how many were closed.
unfoldable pub close_orphaned_trade_groups : Table → List Trade → List Trade × ℕ
close_orphaned_trade_groups log trades =
    let (after, noted) = close_picked (is_orphan log) (get_open trades) trades in
    (after, length noted)

has_id : String → List Trade → Bool
has_id id [] = false
has_id id (tr ∷ trades) = str_eq id tr.id || has_id id trades

get_open-close :
    (id : String) (trades : List Trade)
    → get_open (close id trades) ≡ select (λ (tr : Trade). not (str_eq tr.id id)) (get_open trades)
unfolding close
get_open-close id [] = refl
get_open-close id (tr ∷ trades) = elim (Bool-cases (str_eq tr.id id)) [
  | inl e ↦ elim (Bool-cases (is_open tr)) [
    | inl o ↦ rw (e, o, e) (get_open-close id trades)
    | inr o ↦ rw (e, o) (get_open-close id trades)
  ]
  | inr e ↦ elim (Bool-cases (is_open tr)) [
    | inl o ↦ rw (e, o, e) (ap (λ (l : List Trade). tr ∷ l) (get_open-close id trades))
    | inr o ↦ rw (e, o) (get_open-close id trades)
  ]
]

-- A trade stays open unless it is picked and its id is among those gone through.
stays : (String → Bool) → List Trade → Trade → Bool
stays picks gone tr = not (picks tr.id && has_id tr.id gone)

same_pick :
    (picks : String → Bool) (s t : String) (b : Bool)
    → str_eq s t ≡ true
    → picks t ≡ b
    → picks s ≡ b
same_pick picks s t b h k = ap picks ((str_eq_iff s t).0 h) ∙ k

one_more :
    (picks : String → Bool) (x : Trade) (gone : List Trade) (tr : Trade)
    → picks x.id ≡ true
    → (not (str_eq tr.id x.id) && stays picks gone tr) ≡ stays picks (x ∷ gone) tr
unfolding stays has_id
one_more picks x gone tr h = elim (Bool-cases (str_eq tr.id x.id)) [
  | inl e ↦ let p = same_pick picks tr.id x.id true e h in rw (e, p) refl
  | inr e ↦ rw e refl
]

not_more :
    (picks : String → Bool) (x : Trade) (gone : List Trade) (tr : Trade)
    → picks x.id ≡ false
    → stays picks gone tr ≡ stays picks (x ∷ gone) tr
unfolding stays has_id
not_more picks x gone tr h = elim (Bool-cases (str_eq tr.id x.id)) [
  | inl e ↦ let p = same_pick picks tr.id x.id false e h in rw (e, p) refl
  | inr e ↦ rw e refl
]

everywhere : (P : Trade → Type 0) → ((x : Trade) → P x) → (xs : List Trade) → All P xs
everywhere P h [] = tt
everywhere P h (x ∷ xs) = (h x, everywhere P h xs)

and_false : (b : Bool) → (b && false) ≡ false
and_false b = ground arith

select_all : (picks : String → Bool) (xs : List Trade) → xs ≡ select (stays picks []) xs
unfolding stays has_id
select_all picks [] = refl
select_all picks (x ∷ xs) =
    rw (and_false (picks x.id)) (ap (λ (l : List Trade). x ∷ l) (select_all picks xs))

drop_true : (b : Bool) → not (b && true) ≡ not b
drop_true b = ground arith

or_true : (a b : Bool) → b ≡ true → (a || b) ≡ true
or_true a b h = ground arith

open_after :
    (picks : String → Bool) (gone trades : List Trade)
    → get_open (close_picked picks gone trades).0 ≡ select (stays picks gone) (get_open trades)
unfolding close_picked
open_after picks [] trades = select_all picks (get_open trades)
open_after picks (x ∷ gone) trades = elim (Bool-cases (picks x.id)) [
  | inl h ↦ rw h (
      open_after picks gone (close x.id trades)
      ∙ ap (select (stays picks gone)) (get_open-close x.id trades)
      ∙ select_twice (λ (tr : Trade). not (str_eq tr.id x.id)) (stays picks gone) (get_open trades)
      ∙ select_congr _ (stays picks (x ∷ gone)) (get_open trades)
          (everywhere _ (λ (tr : Trade). one_more picks x gone tr h) (get_open trades)))
  | inr h ↦ rw h (
      open_after picks gone trades
      ∙ select_congr (stays picks gone) (stays picks (x ∷ gone)) (get_open trades)
          (everywhere _ (λ (tr : Trade). not_more picks x gone tr h) (get_open trades)))
]

noted_after :
    (picks : String → Bool) (gone trades : List Trade)
    → (close_picked picks gone trades).1 ≡ select (λ (tr : Trade). picks tr.id) gone
unfolding close_picked
noted_after picks [] trades = refl
noted_after picks (x ∷ gone) trades = elim (Bool-cases (picks x.id)) [
  | inl h ↦ rw h (ap (λ (l : List Trade). x ∷ l) (noted_after picks gone (close x.id trades)))
  | inr h ↦ rw h (noted_after picks gone trades)
]

among :
    (picks : String → Bool) (gone rest : List Trade)
    → ((tr : Trade) → has_id tr.id rest ≡ true → has_id tr.id gone ≡ true)
    → All (λ (tr : Trade). stays picks gone tr ≡ not (picks tr.id)) rest
unfolding stays has_id
among picks gone [] inside = tt
among picks gone (x ∷ rest) inside = (
  rw (inside x (rw (str_eq_refl x.id) refl)) (drop_true (picks x.id)),
  among picks gone rest (λ tr h. inside tr (or_true (str_eq tr.id x.id) (has_id tr.id rest) h)),
)

-- What the open trades are after the loop over all of them, and what was noted.
close_picked_lem :
    (picks : String → Bool) (trades : List Trade)
    → let (after, noted) = close_picked picks (get_open trades) trades in
      (get_open after ≡ select (λ (tr : Trade). not (picks tr.id)) (get_open trades))
      × (noted ≡ select (λ (tr : Trade). picks tr.id) (get_open trades))
close_picked_lem picks trades =
    let gone = get_open trades in
    (
      open_after picks gone trades
          ∙ select_congr (stays picks gone) (λ (tr : Trade). not (picks tr.id)) gone
              (among picks gone gone (λ tr h. h)),
      noted_after picks gone trades,
    )

mixed : (a b c d : Bool) → ((a && c) && not (b || d)) ≡ ((a && not b) && (c && not d))
mixed a b c d = ground arith

orphan_legs :
    (legs : List Event)
    → (all (λ (r : Event). r.is_terminal) legs && not (any (λ (r : Event). is_fill r.action) legs))
      ≡ all (λ (r : Event). r.is_terminal && not (is_fill r.action)) legs
orphan_legs [] = refl
orphan_legs (r ∷ legs) = rw (← orphan_legs legs) (
    mixed r.is_terminal (is_fill r.action) (all (λ (s : Event). s.is_terminal) legs)
      (any (λ (s : Event). is_fill s.action) legs))

none_picked :
    (picks : String → Bool) (gone trades : List Trade)
    → All (λ (tr : Trade). picks tr.id ≡ false) gone
    → close_picked picks gone trades ≡ (trades, [])
unfolding close_picked
none_picked picks [] trades _ = refl
none_picked picks (x ∷ gone) trades (h, hs) = rw h (none_picked picks gone trades hs)

left_out :
    (picks : String → Bool) (xs : List Trade)
    → All (λ (tr : Trade). picks tr.id ≡ false) (select (λ (tr : Trade). not (picks tr.id)) xs)
left_out picks [] = tt
left_out picks (x ∷ xs) = elim (Bool-cases (picks x.id)) [
  | inl h ↦ rw h (left_out picks xs)
  | inr h ↦ rw h (h, left_out picks xs)
]

-- The loop finds nothing the second time.
picked_twice :
    (picks : String → Bool) (trades : List Trade)
    → let after = (close_picked picks (get_open trades) trades).0 in
      close_picked picks (get_open after) after ≡ (after, [])
picked_twice picks trades =
    let after = (close_picked picks (get_open trades) trades).0 in
    none_picked picks (get_open after) after (
      subst (All (λ (tr : Trade). picks tr.id ≡ false)) (sym (close_picked_lem picks trades).0)
        (left_out picks (get_open trades)))

-- A start closes exactly the open trades with unconfirmed placements, names them in the order of the
-- table, and finds nothing more when it is run again.
pub recover_in_flight_orders_lem :
    (log : Table) (trades : List Trade)
    → let unconfirmed = λ (tr : Trade). has_unconfirmed_placements tr.id log in
      let (after, abandoned) = recover_in_flight_orders log trades in
      (get_open after ≡ select (λ (tr : Trade). not (unconfirmed tr)) (get_open trades))
      × (abandoned ≡ select unconfirmed (get_open trades))
      × (recover_in_flight_orders log after ≡ (after, []))
unfolding recover_in_flight_orders
recover_in_flight_orders_lem log trades =
    let picks = λ (id : String). has_unconfirmed_placements id log in
    let (open_left, noted) = close_picked_lem picks trades in
    (open_left, noted, picked_twice picks trades)

-- By the latest row of each of its orders: an open trade with one that is a fill, or not terminal, is
-- left open, every other open trade is closed and counted, and a second run closes none. A fill that
-- is no longer the latest row of its order does not keep its trade open.
pub close_orphaned_trade_groups_lem :
    (log : Table) (trades : List Trade)
    → let orphan = λ (tr : Trade).
      all
        (λ (r : Event). r.is_terminal && not (is_fill r.action))
        (get_trade_leg_summary tr.id log) in
      let (after, count) = close_orphaned_trade_groups log trades in
      (get_open after ≡ select (λ (tr : Trade). not (orphan tr)) (get_open trades))
      × (count ≡ length (select orphan (get_open trades)))
      × (close_orphaned_trade_groups log after ≡ (after, 0))
unfolding close_orphaned_trade_groups is_orphan
close_orphaned_trade_groups_lem log trades =
    let (open_left, noted) = close_picked_lem (is_orphan log) trades in
    let same = λ (tr : Trade). orphan_legs (get_trade_leg_summary tr.id log) in
    (
      open_left
          ∙ select_congr _ _ (get_open trades)
              (everywhere _ (λ (tr : Trade). ap not (same tr)) (get_open trades)),
      ap length (noted ∙ select_congr _ _ (get_open trades) (everywhere _ same (get_open trades))),
      ap (λ (p : List Trade × List Trade). (p.0, length p.1)) (picked_twice (is_orphan log) trades),
    )
