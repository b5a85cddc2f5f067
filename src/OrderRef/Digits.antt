-- ===== src/OrderRef/Digits.antt =====
-- The decimal digits that ib_trader/engine/order_ref.py writes of a serial, read back.
use ib_trader.Prelude.{
  ℕ, zero, suc, ◌+◌, ◌-◌, ◌*◌, ◌/◌, ◌%◌, ◌≤◌, Option, none, some, [], ◌∷◌, ◌++◌, ltb, ◌==◌,
  if◌then◌else◌, ◌≡◌, refl, ◌∙◌, sym, ap, subst, false, arith, Bool-cases, inl, inr,
}
use ib_trader.Prelude.Int.{ℤ, pos, negsuc}
use ib_trader.OrderRef.{Chars, OrderRefInfo, encode, digits, decimal}
use ib_trader.OrderRef.RoundTrip.{decode-encode}
use mathlib.Core.Option.{some-injective}

-- The number that digits stand for, after those of `n`.
unfoldable pub value : ℕ → Chars → ℕ
value n [] = n
value n (c ∷ text) = value (n * 10 + (c - 48)) text

value-append : (n d : ℕ) (xs : Chars) → value n (xs ++ (d ∷ [])) ≡ value n xs * 10 + (d - 48)
unfolding value
value-append n d [] = refl
value-append n d (x ∷ xs) = value-append (n * 10 + (x - 48)) d xs

-- The fuel suffices where it is at least the number.
value-digits : (fuel n : ℕ) → n ≤ fuel → value 0 (digits fuel n) ≡ n
unfolding value digits
value-digits zero n le = ground arith
value-digits (suc fuel) n le = elim (Bool-cases (ltb n 10)) [
  | inl small ↦ rw small (ground arith)
  | inr large ↦
      let few : n / 10 ≤ fuel = grind arith in
      let rest = value-digits fuel (n / 10) few in
      rw large (
        value-append 0 (48 + n % 10) (digits fuel (n / 10))
        ∙ ap (λ (t : ℕ). t * 10 + (48 + n % 10 - 48)) rest
        ∙ omega arith)
]

abbrev pub minus : ℕ → ℤ
minus zero = pos 0
minus (suc n) = negsuc n

-- A reader of whole numbers with a sign, for the texts that `str` writes.
unfoldable pub read_int : Chars → Option ℤ
read_int [] = none
read_int (c ∷ text) =
    if c == 45 then some (minus (value 0 text)) else some (pos (value 0 (c ∷ text)))

abbrev IsUnsigned : Chars → Type 0
IsUnsigned text = read_int text ≡ some (pos (value 0 text))

IsUnsigned-digit : (c : ℕ) (text : Chars) → 48 ≤ c → IsUnsigned (c ∷ text)
unfolding read_int
IsUnsigned-digit c text le = let other : (c == 45) ≡ false = ground (arith, le) in rw other refl

digits-head : (fuel n : ℕ) → (c : ℕ) × (text : Chars) × (digits fuel n ≡ c ∷ text) × (48 ≤ c)
unfolding digits
digits-head zero n = (48 + n % 10, [], refl, omega arith)
digits-head (suc fuel) n = elim (Bool-cases (ltb n 10)) [
  | inl small ↦ rw small (48 + n % 10, [], refl, omega arith)
  | inr large ↦
      let (c, text, e, le) = digits-head fuel (n / 10) in
      rw large
        (c, text ++ ((48 + n % 10) ∷ []), ap (λ (t : Chars). t ++ ((48 + n % 10) ∷ [])) e, le)
]

digits-IsUnsigned : (fuel n : ℕ) → IsUnsigned (digits fuel n)
digits-IsUnsigned fuel n =
    let (c, text, e, le) = digits-head fuel n in
    subst IsUnsigned (sym e) (IsUnsigned-digit c text le)

pub read_int-decimal : (n : ℤ) → read_int (decimal n) ≡ some n
unfolding read_int digits
read_int-decimal (pos n) =
    digits-IsUnsigned n n ∙ ap (λ (t : ℕ). some (pos t)) (value-digits n n (omega arith))
read_int-decimal (negsuc n) =
    ap (λ (t : ℕ). some (minus t)) (value-digits (suc n) (suc n) (omega arith))

-- A tag names one order: what `encode` gives the same tag has the same host, bot, symbol, side and
-- serial.
pub encode-injective :
    (info other : OrderRefInfo) (ref : Chars)
    → encode info ≡ some ref
    → encode other ≡ some ref
    → info ≡ other
encode-injective info other ref h k =
    let (one, _) = decode-encode read_int info ref (read_int-decimal info.serial) h in
    let (two, _) = decode-encode read_int other ref (read_int-decimal other.serial) k in
    some-injective info other (sym one ∙ two)
