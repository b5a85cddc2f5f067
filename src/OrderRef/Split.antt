-- ===== src/OrderRef/Split.antt =====
-- `join` and `split` of ib_trader/engine/order_ref.py, at the separator.
use ib_trader.Prelude.{
  ℕ, zero, suc, ◌+◌, ◌%◌, ◌/◌, false, List, [], ◌∷◌, ◌++◌, ◌==◌, ltb, ◌≡◌, refl, ◌∙◌, ap, arith,
  All, Bool-cases, inl, inr,
}
use ib_trader.Prelude.Int.{ℤ, pos, negsuc}
use ib_trader.OrderRef.{Chars, separator, has_separator, join, split, digits, decimal}

clear_tail :
    (c : ℕ) (part : Chars)
    → has_separator (c ∷ part) ≡ false
    → ((c == separator) ≡ false) × (has_separator part ≡ false)
unfolding has_separator
clear_tail c part h = ground arith

clear-append :
    (s t : Chars)
    → has_separator s ≡ false
    → has_separator t ≡ false
    → has_separator (s ++ t) ≡ false
unfolding has_separator
clear-append [] t _ h = h
clear-append (c ∷ s) t h k =
    let (clear, rest) = clear_tail c s h in rw clear (clear-append s t rest k)

digit_clear : (n : ℕ) → has_separator ((48 + n % 10) ∷ []) ≡ false
unfolding has_separator
digit_clear n = ground arith

pub split-part :
    (part text : Chars)
    → has_separator part ≡ false
    → split (part ++ (separator ∷ text)) ≡ part ∷ split text
unfolding split has_separator
split-part [] text h = refl
split-part (c ∷ part) text h =
    let (clear, rest) = clear_tail c part h in rw (clear, split-part part text rest) refl

pub split-one : (part : Chars) → has_separator part ≡ false → split part ≡ part ∷ []
unfolding split has_separator
split-one [] h = refl
split-one (c ∷ part) h =
    let (clear, rest) = clear_tail c part h in rw (clear, split-one part rest) refl

-- Parts without the separator come back from their join.
pub split-join :
    (part : Chars) (parts : List Chars)
    → All (λ (p : Chars). has_separator p ≡ false) (part ∷ parts)
    → split (join (part ∷ parts)) ≡ part ∷ parts
unfolding join
split-join part [] (h, _) = split-one part h
split-join part (next ∷ parts) (h, hs) =
    split-part part (join (next ∷ parts)) h
    ∙ ap (λ (ps : List Chars). part ∷ ps) (split-join next parts hs)

digits-clear : (fuel n : ℕ) → has_separator (digits fuel n) ≡ false
unfolding digits has_separator
digits-clear zero n = ground arith
digits-clear (suc fuel) n = elim (Bool-cases (ltb n 10)) [
  | inl small ↦ rw small (digit_clear n)
  | inr large ↦
      rw large (clear-append (digits fuel (n / 10)) _ (digits-clear fuel (n / 10)) (digit_clear n))
]

pub decimal-clear : (n : ℤ) → has_separator (decimal n) ≡ false
unfolding has_separator
decimal-clear (pos n) = digits-clear n n
decimal-clear (negsuc n) = digits-clear (suc n) (suc n)
