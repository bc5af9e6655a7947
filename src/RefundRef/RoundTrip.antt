-- ===== src/RefundRef/RoundTrip.antt =====
-- internal/integration/refundref/refundref.go: a stored reference reads back as what was stored.
use texas_fold_em.Common.{ℕ, ◌^◌, ◌≤◌, ◌<◌, ◌≡◌, ◌≢◌, refl, false, some, [], ◌∷◌, arith}
use texas_fold_em.Common.Text.{
  Str, str_eq, is_space, trim_space, has_prefix, strip_prefix, append-strip_prefix,
}
use texas_fold_em.Common.Trim.{IsSpaceless, trim_space-IsSpaceless}
use texas_fold_em.Common.Decimal.{
  print_nat, parse_nat, parse_nat-print_nat, IsNumeral, print_nat-IsNumeral,
}
use texas_fold_em.RefundRef.{
  fold, journal, fold_prefix, fold_ref, journal_ref, parse_positive, parse_trimmed, parse,
}

digit-IsSpaceless : (c : ℕ) → 48 ≤ c → c ≤ 57 → is_space c ≡ false
unfolding is_space
digit-IsSpaceless c h k = ground arith

pub numeral-IsSpaceless : (s : Str) → IsNumeral s → IsSpaceless s
numeral-IsSpaceless [] h = tt
numeral-IsSpaceless (c ∷ s) h = (digit-IsSpaceless c h.0.0 h.0.1, numeral-IsSpaceless s h.1)

parse_positive-numeral :
    (s : Str) (n : ℕ)
    → IsNumeral s
    → parse_nat s ≡ some n
    → 0 < n
    → n < 2 ^ 63
    → parse_positive s ≡ some n
unfolding parse_positive parse_nat
parse_positive-numeral [] n d e h k = absurd (ground arith)
parse_positive-numeral (c ∷ s) n d e h k = ground arith

parse_trimmed-fold : (uuid : Str) → uuid ≢ [] → parse_trimmed (fold_ref uuid) ≡ fold uuid
unfolding parse_trimmed fold_ref str_eq has_prefix strip_prefix
parse_trimmed-fold uuid n = ground arith

parse_trimmed-journal :
    (id : ℕ) → 0 < id → id < 2 ^ 63 → parse_trimmed (journal_ref id) ≡ journal id
unfolding parse_trimmed journal_ref str_eq has_prefix strip_prefix
parse_trimmed-journal id h k = ground (
  arith,
  parse_positive-numeral (print_nat id) id (print_nat-IsNumeral id) (parse_nat-print_nat id) h k,
)

-- A reference to a staged row reads back as that row, for an id that is not empty and has no space
-- in it.
parse-fold_ref : (uuid : Str) → IsSpaceless uuid → uuid ≢ [] → parse (fold_ref uuid) ≡ fold uuid
unfolding parse
parse-fold_ref uuid h n =
    rw (trim_space-IsSpaceless (fold_ref uuid) (spaceless uuid h)) (parse_trimmed-fold uuid n)
  where
    spaceless : (uuid : Str) → IsSpaceless uuid → IsSpaceless (fold_ref uuid)
    spaceless uuid h = unfold fold_ref is_space in (refl, (refl, (refl, (refl, (refl, h)))))

-- A reference to a journal reads back as that journal, for every positive int64.
parse-journal_ref : (id : ℕ) → 0 < id → id < 2 ^ 63 → parse (journal_ref id) ≡ journal id
unfolding parse
parse-journal_ref id h k =
    rw (trim_space-IsSpaceless (journal_ref id) (spaceless id)) (parse_trimmed-journal id h k)
  where
    spaceless : (id : ℕ) → IsSpaceless (journal_ref id)
    spaceless id =
        unfold journal_ref is_space in
        (
          refl,
          (
            refl,
            (
              refl,
              (
                refl,
                (
                  refl,
                  (
                    refl,
                    (refl, (refl, numeral-IsSpaceless (print_nat id) (print_nat-IsNumeral id))),
                  ),
                ),
              ),
            ),
          ),
        )

parse_trimmed-eq-fold :
    (s uuid : Str) → parse_trimmed s ≡ fold uuid → (s ≡ fold_ref uuid) × (uuid ≢ [])
unfolding parse_trimmed fold_ref
parse_trimmed-eq-fold s uuid h = ground (arith, append-strip_prefix s fold_prefix)

-- Text that reads as a staged row is, with the space around it taken off, the reference to that row,
-- whose id is not empty.
parse-eq-fold : (s uuid : Str) → parse s ≡ fold uuid → (trim_space s ≡ fold_ref uuid) × (uuid ≢ [])
unfolding parse
parse-eq-fold s uuid h = parse_trimmed-eq-fold (trim_space s) uuid h
