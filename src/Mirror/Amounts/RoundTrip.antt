-- ===== src/Mirror/Amounts/RoundTrip.antt =====
-- internal/integration/sync.go and push.go: an amount that is sent reads back as it was.
use texas_fold_em.Common.{
  ℕ, ◌+◌, ◌*◌, ◌/◌, ◌%◌, ◌^◌, ◌<◌, ◌≡◌, refl, ap, ◌∙◌, false, Option, some, [], ◌∷◌, ◌++◌, arith,
  All-append,
}
use texas_fold_em.Common.Text.{Str, str, has_prefix, is_empty, is_space}
use texas_fold_em.Common.Trim.{IsSpaceless, trim_space-IsSpaceless}
use texas_fold_em.Common.Decimal.{
  print_nat, parse_nat, parse_nat-print_nat, IsNumeral, print_nat-IsNumeral,
}
use texas_fold_em.RefundRef.RoundTrip.{numeral-IsSpaceless}
use texas_fold_em.Push.Row.{ℤ, pos, magnitude, paise_to_decimal}
use texas_fold_em.Mirror.Amounts.{
  parse_int, bits, unbits, hundreds, split_point, two_of, with_fraction, add_cents, of_parts,
  of_trimmed, decimal_to_paise,
}

split_point-numeral : (s t : Str) → IsNumeral s → split_point (s ++ b'.' ∷ t) ≡ (s, some t)
unfolding split_point
split_point-numeral [] t h = refl
split_point-numeral (c ∷ s) t h = rw (split_point-numeral s t h.1) (ground arith)

parse_int-numeral :
    (s : Str) (n : ℕ) → IsNumeral s → parse_nat s ≡ some n → n < 2 ^ 63 → parse_int s ≡ some (pos n)
unfolding parse_int parse_nat
parse_int-numeral [] n d e h = cc
parse_int-numeral (c ∷ s) n d e h = ground arith

hundreds_small :
    (a b : ℕ) → b < 100 → a * 100 + b < 2 ^ 63 → hundreds (pos a) (pos b) ≡ pos (a * 100 + b)
unfolding hundreds bits unbits
hundreds_small a b h k = ground arith

parse_int-two_digits :
    (r : ℕ) → r < 100 → parse_int ((48 + r / 10) ∷ (48 + r % 10) ∷ []) ≡ some (pos r)
unfolding parse_int parse_nat
parse_int-two_digits r h = ground arith

amount_text : ℕ → ℕ → Str
amount_text w r = print_nat w ++ (b'.' ∷ (48 + r / 10) ∷ (48 + r % 10) ∷ [])

amount_text-IsSpaceless : (w r : ℕ) → r < 100 → IsSpaceless (amount_text w r)
unfolding amount_text is_space
amount_text-IsSpaceless w r h =
    All-append (λ c. is_space c ≡ false) (print_nat w) _
      (numeral-IsSpaceless (print_nat w) (print_nat-IsNumeral w))
      (refl, (ground arith, (ground arith, tt)))

-- What stands before the point is a number, so that the text is not empty and has no sign.
starts_with_digit :
    (s t : Str)
    → IsNumeral s
    → (is_empty (s ++ b'.' ∷ t) ≡ false) × (has_prefix (s ++ b'.' ∷ t) (str "-") ≡ false)
unfolding has_prefix
starts_with_digit [] t h = (refl, refl)
starts_with_digit (c ∷ s) t h = (refl, ground arith)

of_parts-digits :
    (w r : ℕ)
    → r < 100
    → w * 100 + r < 2 ^ 63
    → of_parts (print_nat w, some ((48 + r / 10) ∷ (48 + r % 10) ∷ [])) ≡ some (pos (w * 100 + r))
unfolding of_parts with_fraction two_of
of_parts-digits w r h k =
    let fraction : Str = (48 + r / 10) ∷ (48 + r % 10) ∷ [] in
    ap (λ (o : Option ℤ). with_fraction o (some fraction))
      (parse_int-numeral (print_nat w) w (print_nat-IsNumeral w) (parse_nat-print_nat w)
        (omega arith))
    ∙ ap (add_cents (pos w)) (parse_int-two_digits r h)
    ∙ unfold add_cents in ap some (hundreds_small w r h k)

of_trimmed-amount_text :
    (w r : ℕ)
    → r < 100
    → w * 100 + r < 2 ^ 63
    → of_trimmed (amount_text w r) ≡ some (pos (w * 100 + r))
unfolding of_trimmed amount_text
of_trimmed-amount_text w r h k =
    let digits = print_nat-IsNumeral w in
    let fraction : Str = (48 + r / 10) ∷ (48 + r % 10) ∷ [] in
    let (full, unsigned) = starts_with_digit (print_nat w) fraction digits in
    rw (full, unsigned, split_point-numeral (print_nat w) fraction digits) (of_parts-digits w r h k)

decimal_to_paise-amount_text :
    (w r : ℕ)
    → r < 100
    → w * 100 + r < 2 ^ 63
    → decimal_to_paise (amount_text w r) ≡ some (pos (w * 100 + r))
unfolding decimal_to_paise
decimal_to_paise-amount_text w r h k =
    ap of_trimmed (trim_space-IsSpaceless (amount_text w r) (amount_text-IsSpaceless w r h))
    ∙ of_trimmed-amount_text w r h k

-- An amount that push writes for Firefly, below 2^63 paise, is read back from Firefly as it was, but
-- for its sign, which Firefly keeps as the type of the transaction.
pub decimal_to_paise-paise_to_decimal :
    (p : ℤ)
    → magnitude p < 2 ^ 63
    → decimal_to_paise (paise_to_decimal p) ≡ some (pos (magnitude p))
unfolding paise_to_decimal amount_text
decimal_to_paise-paise_to_decimal p h =
    let m = magnitude p in
    decimal_to_paise-amount_text (m / 100) (m % 100) (omega arith) (omega arith)
    ∙ ap (λ (n : ℕ). some (pos n)) (omega arith)
