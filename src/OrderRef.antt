-- ===== src/OrderRef.antt =====
-- The tag of an order, ib_trader/engine/order_ref.py. A text is the list of its code points.
use ib_trader.Prelude.{
  ℕ, zero, suc, ◌+◌, ◌<◌, ◌≤◌, Bool, true, false, not, ◌&&◌, ◌||◌, Option, none, some, List, [],
  ◌∷◌, ◌++◌, ◌==◌, ltb, length, if◌then◌else◌, ◌%◌, ◌/◌,
}
use ib_trader.Prelude.Int.{ℤ, pos, negsuc}
pub mod Split
pub mod RoundTrip
pub mod Digits
mod Tests

abbrev pub Chars : Type 0
Chars = List ℕ

-- `_SEPARATOR`, `_PREFIX` and `_MAX_LENGTH`
abbrev pub separator : ℕ
separator = 58

abbrev pub prefix : Chars
prefix = 73 ∷ 66 ∷ 84 ∷ []

abbrev pub max_length : ℕ
max_length = 128

-- `_SEPARATOR in text`
unfoldable pub has_separator : Chars → Bool
has_separator [] = false
has_separator (c ∷ text) = c == separator || has_separator text

unfoldable pub chars_eq : Chars → Chars → Bool
chars_eq [] [] = true
chars_eq (c ∷ s) (d ∷ t) = c == d && chars_eq s t
chars_eq _ _ = false

-- `side in ("B", "S")`
abbrev pub is_side : Chars → Bool
is_side side = chars_eq side (66 ∷ []) || chars_eq side (83 ∷ [])

-- `_SEPARATOR.join(parts)`
unfoldable pub join : List Chars → Chars
join [] = []
join (part ∷ []) = part
join (part ∷ next ∷ parts) = part ++ (separator ∷ join (next ∷ parts))

-- `ref.split(_SEPARATOR)`, which is never empty
abbrev pub push : ℕ → List Chars → List Chars
push c [] = (c ∷ []) ∷ []
push c (part ∷ parts) = (c ∷ part) ∷ parts

unfoldable pub split : Chars → List Chars
split [] = [] ∷ []
split (c ∷ text) = let rest = split text in if c == separator then [] ∷ rest else push c rest

-- `text.startswith(start)`
unfoldable pub starts_with : Chars → Chars → Bool
starts_with [] text = true
starts_with (c ∷ start) [] = false
starts_with (c ∷ start) (d ∷ text) = c == d && starts_with start text

-- `str(serial)`; the fuel is the number itself, which is more than its digits.
unfoldable pub digits : ℕ → ℕ → Chars
digits zero n = (48 + n % 10) ∷ []
digits (suc fuel) n =
    let rest = digits fuel (n / 10) in
    if ltb n 10 then (48 + n % 10) ∷ [] else rest ++ ((48 + n % 10) ∷ [])

abbrev pub decimal : ℤ → Chars
decimal (pos n) = digits n n
decimal (negsuc n) = 45 ∷ digits (suc n) (suc n)

pub record OrderRefInfo : Type 0 where
  pub host : Chars
  pub bot_ref : Chars
  pub symbol : Chars
  pub side : Chars
  pub serial : ℤ

-- `none` is the ValueError; the host is that of `info`.
unfoldable pub encode : OrderRefInfo → Option Chars
encode info =
    let ref =
      join
        (prefix ∷ info.host ∷ info.bot_ref ∷ info.symbol ∷ info.side ∷ decimal info.serial ∷ []) in
    if has_separator info.host
    then none
    else (if has_separator info.bot_ref
        then none
        else (if has_separator info.symbol
            then none
            else (if not (is_side info.side)
                then none
                else (if ltb max_length (length ref) then none else some ref))))

-- The six parts, if there are six.
abbrev pub from_parts : (Chars → Option ℤ) → List Chars → Option OrderRefInfo
from_parts parse_int (_ ∷ host ∷ bot_ref ∷ symbol ∷ side ∷ serial ∷ []) =
    if not (is_side side) then none else elim (parse_int serial) [
      | none ↦ none
      | some n ↦
          some (record { host = host; bot_ref = bot_ref; symbol = symbol; side = side; serial = n })
    ]
from_parts parse_int _ = none

-- `int(serial_str)` reads more than what `str` writes; `parse_int` stands for it.
unfoldable pub decode : (Chars → Option ℤ) → Chars → Option OrderRefInfo
decode parse_int ref =
    if starts_with (prefix ++ (separator ∷ [])) ref then from_parts parse_int (split ref) else none
