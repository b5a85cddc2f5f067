-- ===== src/Recovery/Written.antt =====
-- What `startup_reconcile` of ib_trader/engine/reconciler.py leaves stored, key by key.
use ib_trader.Prelude.{
  ℕ, Bool, true, false, ◌&&◌, Option, none, some, List, [], ◌∷◌, if◌then◌else◌, Bool-cases, ◌≡◌,
  refl, sym, ◌∙◌, ap, inl, inr, arith,
}
use ib_trader.Prelude.Int.{ℤ}
use ib_trader.OrderRef.{Chars, chars_eq, OrderRefInfo, decode}
use ib_trader.Recovery.Startup.{
  Key, same_key, find, put, OpenOrder, OrderInfo, IbPosition, PosData, Store, or_none, note_order,
  our_orders, has_position, pos_data, write_all, startup_reconcile,
}

chars_eq_refl : (s : Chars) → chars_eq s s ≡ true
unfolding chars_eq
chars_eq_refl [] = refl
chars_eq_refl (c ∷ s) = ground (arith, chars_eq_refl s)

eq_of_chars_eq : (s t : Chars) → chars_eq s t ≡ true → s ≡ t
unfolding chars_eq
eq_of_chars_eq [] [] h = refl
eq_of_chars_eq [] (d ∷ t) h = ground arith
eq_of_chars_eq (c ∷ s) [] h = ground arith
eq_of_chars_eq (c ∷ s) (d ∷ t) h = ground (arith, eq_of_chars_eq s t)

same_key_refl : (k : Key) → same_key k k ≡ true
same_key_refl (b, s) = rw (chars_eq_refl b, chars_eq_refl s) refl

key_of_parts :
    (b c s t : Chars) → (chars_eq b c && chars_eq s t) ≡ true → ◌≡◌ {A = Key} (b, s) (c, t)
key_of_parts b c s t h =
    let eb : b ≡ c = eq_of_chars_eq b c (first _ _ h) in
    let es : s ≡ t = eq_of_chars_eq s t (second _ _ h) in rw (eb, es) refl
  where
    first : (x y : Bool) → (x && y) ≡ true → x ≡ true
    first x y h = ground arith

    second : (x y : Bool) → (x && y) ≡ true → y ≡ true
    second x y h = ground arith

eq_of_same_key : (j k : Key) → same_key j k ≡ true → j ≡ k
eq_of_same_key (b, s) (c, t) h = key_of_parts b c s t h

other_key : (i j k : Key) → same_key i j ≡ true → same_key j k ≡ same_key i k
other_key i j k h = ap (λ (x : Key). same_key x k) (sym (eq_of_same_key i j h))

once :
    {A : Type 0}
    → (x : Bool) (a b c : A) → (if x then a else c) ≡ (if x then a else (if x then b else c))
once true a b c = refl
once false a b c = refl

swap :
    {A : Type 0}
    → (x y : Bool) (a b c : A) → (x ≡ true → y ≡ false)
    → (if x then a else (if y then b else c)) ≡ (if y then b else (if x then a else c))
swap true y a b c h = rw (h refl) refl
swap false y a b c h = refl

backwards : (j k : Key) → same_key j k ≡ false → same_key k j ≡ false
backwards j k h = elim (Bool-cases (same_key k j)) [
  | inl e ↦ let bad : same_key j k ≡ true = other_key k j k e ∙ same_key_refl k in cc (h, bad)
  | inr e ↦ e
]

apart : (i k j : Key) → same_key i k ≡ false → same_key i j ≡ true → same_key k j ≡ false
apart i k j h e = elim (Bool-cases (same_key k j)) [
  | inl f ↦
      let bad : same_key i k ≡ true =
        sym (other_key i j k e) ∙ other_key k j k f ∙ same_key_refl k in
      cc (h, bad)
  | inr f ↦ f
]

module _ {V : Type 0} where
  find-put :
      (k j : Key) (v : V) (d : List (Key × V))
      → find j (put k v d) ≡ (if same_key k j then some v else find j d)
  unfolding find put
  find-put k j v [] = refl
  find-put k j v ((i, w) ∷ d) = elim (Bool-cases (same_key i k)) [
    | inl h ↦ rw (h, other_key i k j h) (once (same_key i j) (some v) (some w) (find j d))
    | inr h ↦
        rw (h, find-put k j v d)
          (swap (same_key i j) (same_key k j) (some w) (some v) (find j d) (apart i k j h))
  ]

-- What the last order of a key leaves of it.
abbrev pub noted : Chars → Option OrderRefInfo → ℕ → Key → Option OrderInfo → Option OrderInfo
noted host none id k o = o
noted host (some ref) id k o =
    if chars_eq ref.host host && same_key (ref.bot_ref, ref.symbol) k
    then some (record { ib_order_id = id; side = ref.side; serial = ref.serial })
    else o

unfoldable pub last_order :
    (Chars → Option ℤ) → Chars → Key → List OpenOrder → Option OrderInfo → Option OrderInfo
last_order parse_int host k [] o = o
last_order parse_int host k (x ∷ orders) o =
    last_order parse_int host k orders (noted host (decode parse_int x.order_ref) x.ib_order_id k o)

note_order-find :
    (host : Chars) (ref : Option OrderRefInfo) (id : ℕ) (k : Key) (d : List (Key × OrderInfo))
    → find k (note_order host ref id d) ≡ noted host ref id k (find k d)
note_order-find host none id k d = refl
note_order-find host (some ref) id k d = elim (Bool-cases (chars_eq ref.host host)) [
  | inl h ↦ rw h (find-put (ref.bot_ref, ref.symbol) k _ d)
  | inr h ↦ rw h refl
]

our_orders-find :
    (parse_int : Chars → Option ℤ) (host : Chars) (k : Key) (orders : List OpenOrder)
    (d : List (Key × OrderInfo))
    → find k (our_orders parse_int host orders d) ≡ last_order parse_int host k orders (find k d)
unfolding our_orders last_order
our_orders-find parse_int host k [] d = refl
our_orders-find parse_int host k (x ∷ orders) d =
    let ref = decode parse_int x.order_ref in
    our_orders-find parse_int host k orders (note_order host ref x.ib_order_id d)
    ∙ ap (last_order parse_int host k orders) (note_order-find host ref x.ib_order_id k d)

-- No key is held twice.
abbrev IsUnique : List (Key × OrderInfo) → Type 0
IsUnique [] = Unit
IsUnique ((k, info) ∷ d) = (find k d ≡ none) × IsUnique d

put-IsUnique :
    (k : Key) (info : OrderInfo) (d : List (Key × OrderInfo)) → IsUnique d → IsUnique (put k info d)
unfolding put find
put-IsUnique k info [] _ = (refl, tt)
put-IsUnique k info ((j, o) ∷ d) (h, hs) = elim (Bool-cases (same_key j k)) [
  | inl e ↦ rw e (h, hs)
  | inr e ↦ rw e (find-put k j info d ∙ rw (backwards j k e) h, put-IsUnique k info d hs)
]

note_order-IsUnique :
    (host : Chars) (ref : Option OrderRefInfo) (id : ℕ) (d : List (Key × OrderInfo))
    → IsUnique d
    → IsUnique (note_order host ref id d)
note_order-IsUnique host none id d h = h
note_order-IsUnique host (some ref) id d h = elim (Bool-cases (chars_eq ref.host host)) [
  | inl e ↦ rw e (put-IsUnique (ref.bot_ref, ref.symbol) _ d h)
  | inr e ↦ rw e h
]

our_orders-IsUnique :
    (parse_int : Chars → Option ℤ) (host : Chars) (orders : List OpenOrder)
    (d : List (Key × OrderInfo))
    → IsUnique d
    → IsUnique (our_orders parse_int host orders d)
unfolding our_orders
our_orders-IsUnique parse_int host [] d h = h
our_orders-IsUnique parse_int host (x ∷ orders) d h =
    our_orders-IsUnique parse_int host orders _
      (note_order-IsUnique host (decode parse_int x.order_ref) x.ib_order_id d h)

-- What is stored of a position afterwards.
abbrev pub written : ℤ → Bool → Option OrderInfo → Option PosData → Option PosData
written now held none stored = stored
written now held (some info) stored = some (pos_data now info stored held)

write_all-find :
    (now : ℤ) (positions : List IbPosition) (k : Key) (orders : List (Key × OrderInfo))
    (store : Store)
    → IsUnique orders
    → find k (write_all now positions orders store)
      ≡ written now (has_position positions k.1) (find k orders) (find k store)
unfolding write_all find
write_all-find now positions k [] store _ = refl
write_all-find now positions k ((j, info) ∷ orders) store (h, hs) =
    let new = pos_data now info (find j store) (has_position positions j.1) in
    write_all-find now positions k orders (put j new store) hs
    ∙ rw (find-put j k new store) (elim (Bool-cases (same_key j k)) [
      | inl e ↦
          let jk = eq_of_same_key j k e in
          rw (e, sym (ap (λ (x : Key). find x orders) jk) ∙ h)
            (ap (λ (x : Key). some (pos_data now info (find x store) (has_position positions x.1)))
              jk)
      | inr e ↦ rw e refl
    ])

-- After a start the stored position of a bot and symbol is, when an order of this host is open for
-- it, the one that its last such order gives, with the state of the reconciler's table, and
-- otherwise what it was; a missing snapshot counts as an empty one.
pub startup_reconcile_lem :
    (parse_int : Chars → Option ℤ) (host : Chars) (now : ℤ) (open_orders : Option (List OpenOrder))
    (ib_positions : Option (List IbPosition)) (store : Store) (k : Key)
    → let held = has_position (or_none ib_positions) k.1 in
      find k (startup_reconcile parse_int host now open_orders ib_positions store)
      ≡ written now held (last_order parse_int host k (or_none open_orders) none) (find k store)
unfolding startup_reconcile find
startup_reconcile_lem parse_int host now open_orders ib_positions store k =
    let orders = or_none open_orders in
    let positions = or_none ib_positions in
    write_all-find now positions k (our_orders parse_int host orders []) store
      (our_orders-IsUnique parse_int host orders [] tt)
    ∙ ap (λ (o : Option OrderInfo). written now (has_position positions k.1) o (find k store))
        (our_orders-find parse_int host k orders [])
