-- ===== src/Review/Deck/Cursor.antt =====
-- internal/integration/ui/sureness.go: a cursor reads back as the row that it was made from.
use texas_fold_em.Common.{
  ℕ, ◌≤◌, ◌^◌, ◌≡◌, ◌≢◌, refl, true, Option, some, [], ◌∷◌, ◌++◌, ltb, arith, All,
}
use texas_fold_em.Common.Text.{Str}
use texas_fold_em.Common.Decimal.{
  print_nat, parse_nat, parse_nat-print_nat, print_nat-IsNumeral, IsNumeral,
}
use texas_fold_em.Review.Deck.{
  RankedRow, sure_cursor, parse_sure_cursor, cut_bar, atoi, Mark, after_row,
}

-- No bar in the text.
abbrev pub HasNoBar : Str → Type 0
HasNoBar = All (λ c. c ≢ b'|')

cut_bar-append : (s t : Str) → HasNoBar s → cut_bar (s ++ b'|' ∷ t) ≡ some (s, t)
unfolding cut_bar
cut_bar-append [] t h = refl
cut_bar-append (c ∷ s) t h = ground (arith, cut_bar-append s t h.1, h.0)

numeral-HasNoBar : (s : Str) → IsNumeral s → HasNoBar s
numeral-HasNoBar [] h = tt
numeral-HasNoBar (c ∷ s) h = ((λ e. omega (arith, e, h.0.1)), numeral-HasNoBar s h.1)

atoi_digits :
    (s ts uuid : Str) (n : ℕ)
    → IsNumeral s
    → parse_nat s ≡ some n
    → ltb n (2 ^ 63) ≡ true
    → atoi s ts uuid ≡ some (after_row (record { rank = n; ts_str = ts; uuid = uuid }))
unfolding atoi parse_nat
atoi_digits [] ts uuid n h e k = cc e
atoi_digits (c ∷ s) ts uuid n h e k = ground (arith, h.0.0, e, k)

parse_parts :
    (s rank_text rest ts uuid : Str) (o : Option Mark)
    → cut_bar s ≡ some (rank_text, rest)
    → cut_bar rest ≡ some (ts, uuid)
    → atoi rank_text ts uuid ≡ o
    → parse_sure_cursor s ≡ o
unfolding parse_sure_cursor
parse_parts s rank_text rest ts uuid o h k e = ground (arith, h, k, e)

-- A row's cursor reads back as its rank, time and id, where no bar stands in the time and the rank is
-- one of the ranks of a card.
pub parse_sure_cursor-sure_cursor :
    (r : RankedRow)
    → HasNoBar r.ts_str
    → r.rank ≤ 6
    → parse_sure_cursor (sure_cursor r) ≡ some (after_row r)
unfolding sure_cursor
parse_sure_cursor-sure_cursor r h k =
    let digits = print_nat-IsNumeral r.rank in
    parse_parts _ (print_nat r.rank) (r.ts_str ++ (b'|' ∷ r.uuid)) r.ts_str r.uuid _
      (cut_bar-append (print_nat r.rank) (r.ts_str ++ (b'|' ∷ r.uuid))
        (numeral-HasNoBar (print_nat r.rank) digits))
      (cut_bar-append r.ts_str r.uuid h)
      (atoi_digits (print_nat r.rank) r.ts_str r.uuid r.rank digits (parse_nat-print_nat r.rank)
        (ground arith))
