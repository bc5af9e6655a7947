-- ===== src/Review/Deck/Pages.antt =====
-- internal/integration/ui/sureness.go: following the cursors from page to page.
use texas_fold_em.Common.{
  ℕ, zero, suc, ◌≤◌, ◌≡◌, refl, sym, true, false, List, [], ◌∷◌, ◌++◌, ltb, arith, if◌then◌else◌,
  length, All, inl, inr, ◌⊎◌, ap, ◌∙◌, subst,
}
use texas_fold_em.Common.Text.{Str, is_empty}
use texas_fold_em.Common.Decimal.{print_nat}
use texas_fold_em.Common.Order.{sort_by-All, sort_by-perm, length-sort_by}
use texas_fold_em.Review.Deck.{
  RankedRow, before, newer, by_rank, after_row, is_after, drop_until, take, drop, last, next_cursor,
  from_cursor, surest_page, sure_cursor, parse_sure_cursor, cut_bar,
}
use texas_fold_em.Review.Deck.Order.{InOrder, before_asym, before_irrefl, by_rank-InOrder}
use texas_fold_em.Review.Deck.Cursor.{HasNoBar, parse_sure_cursor-sure_cursor}
use mathlib.Core.List.{append_assoc, append-nil, Perm}

-- A row whose cursor can be read back.
abbrev pub IsMarked : RankedRow → Type 0
IsMarked r = HasNoBar r.ts_str × (r.rank ≤ 6)

-- A reader who asks for one page after another, as long as there is a cursor and at most so often.
pub walk : ℕ → List RankedRow → Str → ℕ → List RankedRow
unfolding surest_page
walk zero read after limit = []
walk (suc n) read after limit =
    let p = surest_page read after limit in
    let rest = walk n read p.next limit in if is_empty p.next then p.rows else p.rows ++ rest

passed :
    (c : RankedRow) (xs ys : List RankedRow)
    → All (λ x. before c x ≡ false) xs
    → drop_until (after_row c) (xs ++ ys) ≡ drop_until (after_row c) ys
unfolding drop_until is_after
passed c [] ys h = refl
passed c (x ∷ xs) ys h = rw (h.0) (passed c xs ys h.1)

stopped :
    (c : RankedRow) (ys : List RankedRow)
    → All (λ y. before c y ≡ true) ys
    → drop_until (after_row c) ys ≡ ys
unfolding drop_until is_after
stopped c [] h = refl
stopped c (y ∷ ys) h = rw (h.0) refl

All-left :
    (P : RankedRow → Type 0) (xs ys : List RankedRow) → All P (xs ++ ys) → All P xs × All P ys
All-left P [] ys h = (tt, h)
All-left P (x ∷ xs) ys h = let (k, m) = All-left P xs ys h.1 in ((h.0, k), m)

All-last :
    (P : RankedRow → Type 0) (r : RankedRow) (rs : List RankedRow) → All P (r ∷ rs) → P (last r rs)
unfolding last
All-last P r [] h = h.0
All-last P r (q ∷ rs) h = All-last P q rs h.1

-- The rows that follow the last row of a page come after it, and no row before does.
following :
    (r : RankedRow) (rs left : List RankedRow)
    → InOrder before (r ∷ (rs ++ left))
    → All (λ y. before (last r rs) y ≡ true) left
unfolding last
following r [] left h = h.0
following r (q ∷ rs) left h = following q rs left h.1

none_on_page :
    (r : RankedRow) (rs left : List RankedRow)
    → InOrder before (r ∷ (rs ++ left))
    → All (λ x. before (last r rs) x ≡ false) (r ∷ rs)
unfolding last
none_on_page r [] left h = (before_irrefl r, tt)
none_on_page r (q ∷ rs) left h = (
  before_asym r (last q rs)
      (All-last (λ x. before r x ≡ true) q rs (All-left _ (q ∷ rs) left h.0).0),
  none_on_page q rs left h.1,
)

seen_before :
    (seen : List RankedRow) (r : RankedRow) (rs left : List RankedRow)
    → InOrder before (seen ++ (r ∷ (rs ++ left)))
    → All (λ x. before (last r rs) x ≡ false) seen
seen_before [] r rs left h = tt
seen_before (x ∷ seen) r rs left h = (
  before_asym x (last r rs) (
      All-last (λ y. before x y ≡ true) r rs
        (All-left _ (r ∷ rs) left (All-left _ seen (r ∷ (rs ++ left)) h.0).1).0),
  seen_before seen r rs left h.1,
)

InOrder-right : (seen left : List RankedRow) → InOrder before (seen ++ left) → InOrder before left
InOrder-right [] left h = h
InOrder-right (x ∷ seen) left h = InOrder-right seen left h.1

-- After the cursor of a page's last row come the rows that follow the page.
resumes :
    (seen : List RankedRow) (r : RankedRow) (rs left : List RankedRow)
    → InOrder before (seen ++ (r ∷ (rs ++ left)))
    → IsMarked (last r rs)
    → from_cursor (sure_cursor (last r rs)) (seen ++ (r ∷ (rs ++ left))) ≡ left
unfolding from_cursor
resumes seen r rs left h m =
    let tail = InOrder-right seen (r ∷ (rs ++ left)) h in
    rw (parse_sure_cursor-sure_cursor (last r rs) m.0 m.1, from_cursor)
      (passed (last r rs) seen (r ∷ (rs ++ left)) (seen_before seen r rs left h)
        ∙ passed (last r rs) (r ∷ rs) left (none_on_page r rs left tail)
        ∙ stopped (last r rs) left (following r rs left tail))

take-drop : (n : ℕ) (l : List RankedRow) → take n l ++ drop n l ≡ l
unfolding take drop
take-drop zero l = refl
take-drop (suc n) [] = refl
take-drop (suc n) (r ∷ l) = ap (λ k. r ∷ k) (take-drop n l)

length-drop-le : (n : ℕ) (l : List RankedRow) → length (drop n l) ≤ length l
unfolding drop
length-drop-le zero l = omega arith
length-drop-le (suc n) [] = omega arith
length-drop-le (suc n) (r ∷ l) = omega (arith, length-drop-le n l)

sure_cursor_nonempty : (r : RankedRow) → is_empty (sure_cursor r) ≡ false
unfolding sure_cursor
sure_cursor_nonempty r = append_nonempty (print_nat r.rank)
  where
    append_nonempty : (s : Str) → is_empty (s ++ (b'|' ∷ (r.ts_str ++ (b'|' ∷ r.uuid)))) ≡ false
    append_nonempty [] = refl
    append_nonempty (c ∷ s) = refl

module _ (read : List RankedRow) (after : Str) (limit : ℕ) (left : List RankedRow)
    (here : from_cursor after (by_rank read) ≡ left) where
  walk_end :
      (n : ℕ)
      → is_empty (next_cursor (take limit left) (drop limit left)) ≡ true
      → walk (suc n) read after limit ≡ take limit left
  unfolding walk surest_page
  walk_end n e = ground (arith, here, e)

  walk_on :
      (n : ℕ)
      → is_empty (next_cursor (take limit left) (drop limit left)) ≡ false
      → walk (suc n) read after limit
        ≡ take limit left ++ walk n read (next_cursor (take limit left) (drop limit left)) limit
  unfolding walk surest_page
  walk_on n e = ground (arith, here, e)

List-cases :
    (l : List RankedRow) → (l ≡ []) ⊎ ((q : RankedRow) × (qs : List RankedRow) × (l ≡ q ∷ qs))
List-cases [] = inl refl
List-cases (q ∷ qs) = inr (q, qs, refl)

next-nil : (page : List RankedRow) → next_cursor page [] ≡ []
unfolding next_cursor
next-nil [] = refl
next-nil (r ∷ page) = refl

next_of :
    (r : RankedRow) (page left : List RankedRow) (q : RankedRow) (qs : List RankedRow)
    → left ≡ q ∷ qs
    → next_cursor (r ∷ page) left ≡ sure_cursor (last r page)
unfolding next_cursor
next_of r page left q qs e = rw e refl

IsMarked-last :
    (seen : List RankedRow) (r : RankedRow) (rs left : List RankedRow)
    → All IsMarked (seen ++ (r ∷ (rs ++ left)))
    → IsMarked (last r rs)
IsMarked-last seen r rs left h =
    All-last IsMarked r rs
      (All-left IsMarked (r ∷ rs) left (All-left IsMarked seen (r ∷ (rs ++ left)) h).1).0

from_start : (l : List RankedRow) → from_cursor [] l ≡ l
unfolding from_cursor parse_sure_cursor cut_bar
from_start l = refl

module _ (read : List RankedRow) (in_order : InOrder before (by_rank read))
    (marked : All IsMarked (by_rank read)) (k : ℕ) where
  follow :
      (n : ℕ) (seen left : List RankedRow) (after : Str)
      → by_rank read ≡ seen ++ left
      → from_cursor after (by_rank read) ≡ left
      → length left ≤ n
      → walk (suc n) read after (suc k) ≡ left
  unfolding take drop
  follow n seen [] after split here short =
      walk_end read after (suc k) [] here n (ap is_empty (next-nil []))
  follow zero seen (r ∷ rest) after split here short = absurd (omega arith)
  follow (suc n) seen (r ∷ rest) after split here short = elim (List-cases (drop k rest)) [
    | inl none_left ↦
        walk_end read after (suc k) (r ∷ rest) here (suc n) (
          ap (λ d. is_empty (next_cursor (r ∷ take k rest) d)) none_left
          ∙ ap is_empty (next-nil (r ∷ take k rest)))
        ∙ ap (λ l. r ∷ l)
            (sym (append-nil (take k rest))
              ∙ ap (λ d. take k rest ++ d) (sym none_left)
              ∙ take-drop k rest)
    | inr (q, qs, more) ↦
        let row = last r (take k rest) in
        let left = drop k rest in
        let whole : by_rank read ≡ seen ++ (r ∷ (take k rest ++ left)) =
          split ∙ ap (λ l. seen ++ (r ∷ l)) (sym (take-drop k rest)) in
        let next : next_cursor (r ∷ take k rest) left ≡ sure_cursor row =
          next_of r (take k rest) left q qs more in
        let resumed : from_cursor (sure_cursor row) (by_rank read) ≡ left =
          ap (from_cursor (sure_cursor row)) whole
          ∙ resumes seen r (take k rest) left (subst (InOrder before) whole in_order)
              (IsMarked-last seen r (take k rest) left (subst (All IsMarked) whole marked)) in
        walk_on read after (suc k) (r ∷ rest) here (suc n)
          (ap is_empty next ∙ sure_cursor_nonempty row)
        ∙ ap (λ c. (r ∷ take k rest) ++ walk (suc n) read c (suc k)) next
        ∙ ap (λ l. (r ∷ take k rest) ++ l)
            (follow n (seen ++ (r ∷ take k rest)) left (sure_cursor row)
              (whole ∙ sym (append_assoc seen (r ∷ take k rest) left)) resumed
              (omega (arith, short, length-drop-le k rest)))
        ∙ ap (λ l. r ∷ l) (take-drop k rest)
  ]

-- A reader who follows the cursors over rows that do not change, with pages of at least one row, gets
-- every row that was read exactly once, in the order of the deck, in no more requests than one for
-- each row and one more; where rows are read newest first, their times hold no bar, and their ranks
-- are those of cards.
pub walk_visits-All :
    (read : List RankedRow) (k : ℕ)
    → InOrder newer read
    → All IsMarked read
    → Perm (walk (suc (length read)) read [] (suc k)) read
      × InOrder before (walk (suc (length read)) read [] (suc k))
unfolding by_rank
walk_visits-All read k newest marked =
    let sorted = by_rank-InOrder read newest in
    let all =
      follow read sorted (sort_by-All IsMarked (λ a b. ltb a.rank b.rank) read marked) k
        (length read) [] (by_rank read) [] refl (from_start (by_rank read))
        (omega (arith, length-sort_by (λ (a b : RankedRow). ltb a.rank b.rank) read)) in
    (rw all (sort_by-perm (λ a b. ltb a.rank b.rank) read), rw all sorted)
