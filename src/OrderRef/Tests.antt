-- ===== src/OrderRef/Tests.antt =====
-- The tag of an order, ib_trader/engine/order_ref.py, at a concrete order.
use ib_trader.Prelude.{◌≤◌, some, [], ◌∷◌, ◌≡◌, refl, length}
use ib_trader.Prelude.Int.{pos}
use ib_trader.OrderRef.{
  Chars, OrderRefInfo, encode, decode, digits, has_separator, max_length, join, chars_eq,
}
use ib_trader.OrderRef.Digits.{read_int, read_int-decimal}
use ib_trader.OrderRef.RoundTrip.{decode-encode}

-- Host "a-b", bot "saw", symbol "QQQ", side "B", serial 42.
abbrev info : OrderRefInfo
info = record {
  host = 97 ∷ 45 ∷ 98 ∷ [];
  bot_ref = 115 ∷ 97 ∷ 119 ∷ [];
  symbol = 81 ∷ 81 ∷ 81 ∷ [];
  side = 66 ∷ [];
  serial = pos 42;
}

-- "IBT:a-b:saw:QQQ:B:42"
abbrev ref : Chars
ref =
    73 ∷ 66 ∷ 84 ∷ 58 ∷ 97 ∷ 45 ∷ 98 ∷ 58 ∷ 115 ∷ 97 ∷ 119 ∷ 58 ∷ 81 ∷ 81 ∷ 81 ∷ 58 ∷ 66 ∷ 58 ∷ 52
    ∷ 50 ∷ []

decode-encode_example : (decode read_int ref ≡ some info) × (length ref ≤ max_length)
unfolding encode digits has_separator join chars_eq
decode-encode_example = decode-encode read_int info ref (read_int-decimal info.serial) refl
