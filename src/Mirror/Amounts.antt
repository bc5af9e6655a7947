-- ===== src/Mirror/Amounts.antt =====
-- internal/integration/sync.go: decimalToPaise, and strconv.ParseInt at base ten for an int64.
pub mod RoundTrip
use texas_fold_em.Common.{
  ℕ, zero, suc, ◌+◌, ◌-◌, ◌*◌, ◌%◌, ◌^◌, Bool, true, false, Option, none, some, List, [], ◌∷◌,
  if◌then◌else◌, ltb, ◌==◌,
}
use texas_fold_em.Common.Text.{Str, str, has_prefix, is_empty, trim_space}
use texas_fold_em.Common.Decimal.{parse_nat}
use texas_fold_em.Push.Row.{ℤ, pos, negsuc}

negated : ℕ → Option ℤ
negated zero = some (pos 0)
negated (suc n) = if ltb n (2 ^ 63) then some (negsuc n) else none

-- strconv.ParseInt.
unfoldable pub parse_int : Str → Option ℤ
unfolding negated
parse_int [] = none
parse_int (c ∷ s) =
    if c == b'-'
    then elim (parse_nat s) [ none ↦ none | some n ↦ negated n ]
    else elim (parse_nat (if c == b'+' then s else c ∷ s)) [
      | none ↦ none
      | some n ↦ if ltb n (2 ^ 63) then some (pos n) else none
    ]

-- The bits of an int64.
bits : ℤ → ℕ
bits (pos n) = n
bits (negsuc n) = 2 ^ 64 - (n + 1)

unbits : ℕ → ℤ
unbits b = if ltb b (2 ^ 63) then pos b else negsuc (2 ^ 64 - b - 1)

-- a * 100 + b on int64, which wraps around.
hundreds : ℤ → ℤ → ℤ
unfolding bits unbits
hundreds a b = unbits ((bits a * 100 + bits b) % 2 ^ 64)

-- strings.SplitN(s, ".", 2): the part before the point, and the rest if there is a point.
unfoldable pub split_point : Str → Str × Option Str
split_point [] = ([], none)
split_point (c ∷ s) =
    let (whole, rest) = split_point s in if c == b'.' then ([], some s) else (c ∷ whole, rest)

-- Two characters of the fraction. A character of more than one byte is no digit, wherever it stands
-- among them.
two_of : Str → Str
two_of [] = []
two_of (c ∷ []) = c ∷ b'0' ∷ []
two_of (c ∷ d ∷ s) = c ∷ d ∷ []

add_cents : ℤ → Option ℤ → Option ℤ
unfolding hundreds
add_cents whole none = none
add_cents whole (some cents) = some (hundreds whole cents)

with_fraction : Option ℤ → Option Str → Option ℤ
unfolding add_cents hundreds two_of
with_fraction none rest = none
with_fraction (some whole) none = some (hundreds whole (pos 0))
with_fraction (some whole) (some []) = some (hundreds whole (pos 0))
with_fraction (some whole) (some (c ∷ s)) = add_cents whole (parse_int (two_of (c ∷ s)))

of_parts : Str × Option Str → Option ℤ
unfolding with_fraction
of_parts (whole, rest) = with_fraction (parse_int whole) rest

of_trimmed : Str → Option ℤ
unfolding of_parts
of_trimmed s =
    if is_empty s
    then some (pos 0)
    else if has_prefix s (str "-")
    then none
    else of_parts (split_point s)

-- decimalToPaise; `none` is an error.
unfoldable pub decimal_to_paise : Str → Option ℤ
unfolding of_trimmed
decimal_to_paise text = of_trimmed (trim_space text)
