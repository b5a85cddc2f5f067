-- ===== src/OrderRef/RoundTrip.antt =====
-- What `decode` of ib_trader/engine/order_ref.py makes of a tag that `encode` wrote.
use ib_trader.Prelude.{
  ◌≤◌, true, false, Option, some, List, [], ◌∷◌, length, ◌≡◌, refl, ◌∙◌, ap, arith, All,
}
use ib_trader.Prelude.Int.{ℤ}
use ib_trader.OrderRef.{
  Chars, prefix, max_length, has_separator, is_side, join, decimal, OrderRefInfo, encode,
  from_parts, decode, starts_with, chars_eq,
}
use ib_trader.OrderRef.Split.{split-join, decimal-clear}

abbrev parts_of : OrderRefInfo → List Chars
parts_of info = info.host ∷ info.bot_ref ∷ info.symbol ∷ info.side ∷ decimal info.serial ∷ []

-- What `encode` has checked.
pub record IsTag (info : OrderRefInfo) (ref : Chars) : Type 0 where
  pub host_clear : has_separator info.host ≡ false
  pub bot_clear : has_separator info.bot_ref ≡ false
  pub symbol_clear : has_separator info.symbol ≡ false
  pub side_ok : is_side info.side ≡ true
  pub short : length ref ≤ max_length
  pub joined : ref ≡ join (prefix ∷ parts_of info)

encode-IsTag : (info : OrderRefInfo) (ref : Chars) → encode info ≡ some ref → IsTag info ref
unfolding encode
encode-IsTag info ref h = record {
  host_clear = ground arith;
  bot_clear = ground arith;
  symbol_clear = ground arith;
  side_ok = ground arith;
  short = ground arith;
  joined = ground arith;
}

side_clear : (side : Chars) → is_side side ≡ true → has_separator side ≡ false
unfolding chars_eq has_separator
side_clear [] h = refl
side_clear (c ∷ []) h = ground arith
side_clear (c ∷ d ∷ side) h = ground arith

parts-clear :
    (info : OrderRefInfo) (ref : Chars)
    → IsTag info ref
    → All (λ (p : Chars). has_separator p ≡ false) (prefix ∷ parts_of info)
unfolding has_separator
parts-clear info ref tag = (
  refl,
  (
    tag.host_clear,
    (
      tag.bot_clear,
      (tag.symbol_clear, (side_clear info.side tag.side_ok, (decimal-clear info.serial, tt))),
    ),
  ),
)

decode-join :
    (parse_int : Chars → Option ℤ) (info : OrderRefInfo) (ref : Chars)
    → parse_int (decimal info.serial) ≡ some info.serial
    → IsTag info ref
    → decode parse_int (join (prefix ∷ parts_of info)) ≡ some info
unfolding decode join starts_with
decode-join parse_int info ref reads tag =
    ap (from_parts parse_int) (split-join prefix (parts_of info) (parts-clear info ref tag))
    ∙ rw (tag.side_ok, reads) refl

-- If `int` reads what `str` writes of the serial, then `decode` gives back all the fields of a tag
-- that `encode` wrote, and the tag has at most 128 characters.
pub decode-encode :
    (parse_int : Chars → Option ℤ) (info : OrderRefInfo) (ref : Chars)
    → parse_int (decimal info.serial) ≡ some info.serial
    → encode info ≡ some ref
    → (decode parse_int ref ≡ some info) × (length ref ≤ max_length)
decode-encode parse_int info ref reads h =
    let tag = encode-IsTag info ref h in
    (ap (decode parse_int) tag.joined ∙ decode-join parse_int info ref reads tag, tag.short)
