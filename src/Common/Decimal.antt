-- ===== src/Common/Decimal.antt =====
-- Decimal text: `%d`, strconv.FormatInt and strconv.ParseInt at base ten.
use texas_fold_em.Common.{
  ℕ, zero, suc, ◌+◌, ◌-◌, ◌*◌, ◌/◌, ◌%◌, ◌≤◌, ◌<◌, ◌≡◌, refl, Bool, ◌&&◌, [], ◌∷◌, ◌++◌, Option,
  none, some, arith, ltb, leb, if◌then◌else◌, All, All-append, Bool-cases, inl, inr, ap, ◌∙◌, ◌≢◌,
}
use texas_fold_em.Common.Text.{Str}

-- Enough fuel: a number has no more digits than its value plus one.
print_fuel : ℕ → ℕ → Str
print_fuel zero n = []
print_fuel (suc f) n =
    let longer = print_fuel f (n / 10) ++ (48 + n % 10) ∷ [] in
    if ltb n 10 then (48 + n) ∷ [] else longer

unfoldable pub print_nat : ℕ → Str
unfolding print_fuel
print_nat n = print_fuel (suc n) n

is_digit : ℕ → Bool
is_digit c = leb 48 c && leb c 57

-- The number that the digits so far and the remaining text spell.
parse_digits : ℕ → Str → Option ℕ
unfolding is_digit
parse_digits n [] = some n
parse_digits n (c ∷ s) =
    let rest = parse_digits (n * 10 + (c - 48)) s in if is_digit c then rest else none

-- An unsigned decimal number: at least one digit and nothing else.
unfoldable pub parse_nat : Str → Option ℕ
unfolding parse_digits
parse_nat [] = none
parse_nat (c ∷ s) = parse_digits 0 (c ∷ s)

append-ne-nil : (s : Str) (c : ℕ) → s ++ c ∷ [] ≢ []
append-ne-nil [] c e = cc
append-ne-nil (x ∷ s) c e = cc

parse_digits-snoc :
    (s : Str) (n d m : ℕ)
    → d < 10
    → parse_digits n s ≡ some m
    → parse_digits n (s ++ (48 + d) ∷ []) ≡ some (m * 10 + d)
unfolding parse_digits
parse_digits-snoc [] n d m h e = ground arith
parse_digits-snoc (c ∷ s) n d m h e = ground (arith, parse_digits-snoc s (n * 10 + (c - 48)) d m)

parse_digits-digit : (n : ℕ) → n < 10 → parse_digits 0 ((48 + n) ∷ []) ≡ some n
unfolding parse_digits
parse_digits-digit n h = ground arith

parse-print_fuel : (f n : ℕ) → n < f → parse_digits 0 (print_fuel f n) ≡ some n
unfolding print_fuel
parse-print_fuel zero n h = elim h [ ]
parse-print_fuel (suc f) n h = elim (Bool-cases (ltb n 10)) [
  | inl small ↦ rw (small, print_fuel) (parse_digits-digit n (ground arith))
  | inr big ↦
      rw (big, print_fuel)
        (parse_digits-snoc (print_fuel f (n / 10)) 0 (n % 10) (n / 10) (omega arith)
            (parse-print_fuel f (n / 10) (ground arith))
          ∙ ap some (omega arith))
]

print_fuel-ne-nil : (f n : ℕ) → n < f → print_fuel f n ≢ []
unfolding print_fuel
print_fuel-ne-nil zero n h = elim h [ ]
print_fuel-ne-nil (suc f) n h = ground (arith, append-ne-nil (print_fuel f (n / 10)) (48 + n % 10))

parse_nat_of_ne : (s : Str) → s ≢ [] → parse_nat s ≡ parse_digits 0 s
unfolding parse_nat
parse_nat_of_ne [] h = absurd (h refl)
parse_nat_of_ne (c ∷ s) h = refl

-- Reading a printed number gives it back.
pub parse_nat-print_nat : (n : ℕ) → parse_nat (print_nat n) ≡ some n
unfolding print_nat
parse_nat-print_nat n =
    parse_nat_of_ne _ (print_fuel-ne-nil (suc n) n (omega arith))
    ∙ parse-print_fuel (suc n) n (omega arith)

-- The characters of a printed number.
abbrev pub IsNumeral : Str → Type 0
IsNumeral = All (λ c. (48 ≤ c) × (c ≤ 57))

print_fuel-IsNumeral : (f n : ℕ) → IsNumeral (print_fuel f n)
unfolding print_fuel
print_fuel-IsNumeral zero n = tt
print_fuel-IsNumeral (suc f) n = elim (Bool-cases (ltb n 10)) [
  | inl small ↦ rw (small, print_fuel) ((omega arith, ground arith), tt)
  | inr big ↦
      rw (big, print_fuel)
        (All-append (λ c. (48 ≤ c) × (c ≤ 57)) (print_fuel f (n / 10)) _
          (print_fuel-IsNumeral f (n / 10)) ((omega arith, omega arith), tt))
]

pub print_nat-IsNumeral : (n : ℕ) → IsNumeral (print_nat n)
unfolding print_nat
print_nat-IsNumeral n = print_fuel-IsNumeral (suc n) n
