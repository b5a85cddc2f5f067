-- ===== src/Recovery/Startup.antt =====
-- `startup_reconcile` of ib_trader/engine/reconciler.py: what a start of the engine writes to the
-- stored positions of the bots. A snapshot that times out or fails is `none`.
use ib_trader.Prelude.{
  ℕ, Bool, true, not, ◌&&◌, Option, none, some, List, [], ◌∷◌, if◌then◌else◌, any,
}
use ib_trader.Prelude.Int.{ℤ, pos, eqb_ℤ}
use ib_trader.OrderRef.{Chars, chars_eq, OrderRefInfo, decode}
use ib_trader.Recovery.Reconcile.{Position, determine_state}

-- The key of a stored position, `(bot_ref, symbol)`; a decoded bot_ref has no colon, so the text of
-- the key tells the two apart.
abbrev pub Key : Type 0
Key = Chars × Chars

abbrev pub same_key : Key → Key → Bool
same_key (b, s) (c, t) = chars_eq b c && chars_eq s t

module _ {V : Type 0} where
  unfoldable pub find : Key → List (Key × V) → Option V
  find k [] = none
  find k ((j, v) ∷ d) = if same_key j k then some v else find k d

  unfoldable pub put : Key → V → List (Key × V) → List (Key × V)
  put k v [] = (k, v) ∷ []
  put k v ((j, w) ∷ d) = if same_key j k then (j, v) ∷ d else (j, w) ∷ put k v d

pub record OpenOrder : Type 0 where
  pub ib_order_id : ℕ
  pub order_ref : Chars

pub record OrderInfo : Type 0 where
  pub ib_order_id : ℕ
  pub side : Chars
  pub serial : ℤ

pub record IbPosition : Type 0 where
  pub symbol : Chars
  pub qty : ℤ
  pub avg_price : ℤ

-- A stored position; what is missing is none.
pub record PosData : Type 0 where
  pub state : Option Position
  pub qty : Option ℤ
  pub avg_price : Option ℤ
  pub serial : Option ℤ
  pub entry_price : Option ℤ
  pub entry_time : Option ℤ
  pub updated_at : ℤ

abbrev pub Store : Type 0
Store = List (Key × PosData)

abbrev pub or_none {ℓ} : {A : Type ℓ} → Option (List A) → List A
or_none none = []
or_none (some xs) = xs

-- The orders of this host by their key; a later one takes the place of an earlier.
abbrev pub note_order :
    Chars → Option OrderRefInfo → ℕ → List (Key × OrderInfo) → List (Key × OrderInfo)
note_order host none id d = d
note_order host (some ref) id d =
    if chars_eq ref.host host
    then put (ref.bot_ref, ref.symbol)
        (record { ib_order_id = id; side = ref.side; serial = ref.serial }) d
    else d

unfoldable pub our_orders :
    (Chars → Option ℤ) → Chars → List OpenOrder → List (Key × OrderInfo) → List (Key × OrderInfo)
our_orders parse_int host [] d = d
our_orders parse_int host (o ∷ orders) d =
    our_orders parse_int host orders
      (note_order host (decode parse_int o.order_ref) o.ib_order_id d)

-- `symbol in our_positions`
unfoldable pub has_position : List IbPosition → Chars → Bool
has_position positions symbol =
    any (λ (p : IbPosition). not (eqb_ℤ p.qty (pos 0)) && chars_eq p.symbol symbol) positions

abbrev pub or_zero : Option ℤ → Option ℤ
or_zero none = some (pos 0)
or_zero (some v) = some v

-- `pos_data`; without an entry price the entry time goes as well.
unfoldable pub pos_data : ℤ → OrderInfo → Option PosData → Bool → PosData
pos_data now info none held = record {
  state = some (determine_state none true held);
  qty = some (pos 0);
  avg_price = some (pos 0);
  serial = some info.serial;
  entry_price = none;
  entry_time = none;
  updated_at = now;
}
pos_data now info (some current) held = record {
  state = some (determine_state current.state true held);
  qty = or_zero current.qty;
  avg_price = or_zero current.avg_price;
  serial = some info.serial;
  entry_price = current.entry_price;
  entry_time = elim current.entry_price [ none ↦ none | some p ↦ current.entry_time ];
  updated_at = now;
}

unfoldable pub write_all : ℤ → List IbPosition → List (Key × OrderInfo) → Store → Store
write_all now positions [] store = store
write_all now positions ((k, info) ∷ orders) store =
    write_all now positions orders
      (put k (pos_data now info (find k store) (has_position positions k.1)) store)

unfoldable pub startup_reconcile :
    (Chars → Option ℤ)
    → Chars
    → ℤ
    → Option (List OpenOrder)
    → Option (List IbPosition)
    → Store
    → Store
startup_reconcile parse_int host now open_orders ib_positions store =
    write_all now (or_none ib_positions) (our_orders parse_int host (or_none open_orders) []) store
