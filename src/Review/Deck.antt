-- ===== src/Review/Deck.antt =====
-- internal/integration/ui/sureness.go: the deck in the order Surest first, page by page.
pub mod Order
pub mod Cursor
pub mod Pages
use texas_fold_em.Common.{
  ℕ, zero, suc, ◌+◌, ◌<◌, ◌^◌, Bool, true, false, not, ◌&&◌, ◌||◌, Option, none, some, List, [],
  ◌∷◌, ◌++◌, ltb, ◌==◌, if◌then◌else◌, map,
}
use texas_fold_em.Common.Text.{Str, str, str_eq, is_empty}
use texas_fold_em.Common.Decimal.{print_nat, parse_nat}
use texas_fold_em.Common.Order.{str_lt, sort_by}

-- A waiting row with its place: the columns that the order and the cursor read.
pub record RankedRow : Type 0 where
  pub rank : ℕ
  pub ts_str : Str
  pub uuid : Str

-- Newest first, then by id.
unfoldable pub newer : RankedRow → RankedRow → Bool
newer a b = if str_eq a.ts_str b.ts_str then str_lt b.uuid a.uuid else str_lt b.ts_str a.ts_str

unfoldable pub before : RankedRow → RankedRow → Bool
before a b = if a.rank == b.rank then newer a b else ltb a.rank b.rank

unfoldable pub sure_cursor : RankedRow → Str
sure_cursor r = print_nat r.rank ++ (b'|' ∷ (r.ts_str ++ (b'|' ∷ r.uuid)))

-- What stands before the first bar and after it.
unfoldable pub cut_bar : Str → Option (Str × Str)
cut_bar [] = none
cut_bar (c ∷ s) =
    let rest = cut_bar s in
    if c == b'|' then some ([], s) else elim rest [ none ↦ none | some (a, b) ↦ some (c ∷ a, b) ]

-- A cursor: a place in the order, or one before every row, where its rank is negative.
pub data Mark : Type 0 where
  ahead : Mark
  after_row : RankedRow → Mark

-- strconv.Atoi: an int64 with an optional sign.
atoi : Str → Str → Str → Option Mark
atoi [] ts uuid = none
atoi (c ∷ s) ts uuid =
    if c == b'-'
    then elim (parse_nat s) [
      | none ↦ none
      | some zero ↦ some (after_row (record { rank = 0; ts_str = ts; uuid = uuid }))
      | some (suc n) ↦ if ltb n (2 ^ 63) then some ahead else none
    ]
    else elim (parse_nat (if c == b'+' then s else c ∷ s)) [
      | none ↦ none
      | some n ↦
          if ltb n (2 ^ 63)
          then some (after_row (record { rank = n; ts_str = ts; uuid = uuid }))
          else none
    ]

-- parseSureCursor.
unfoldable pub parse_sure_cursor : Str → Option Mark
unfolding cut_bar atoi
parse_sure_cursor s = elim (cut_bar s) [
  | none ↦ none
  | some (first, rest) ↦ elim (cut_bar rest) [ none ↦ none | some (ts, uuid) ↦ atoi first ts uuid ]
]

-- A row of the page comes after the mark.
unfoldable pub is_after : Mark → RankedRow → Bool
unfolding before
is_after ahead r = true
is_after (after_row c) r = before c r

-- `ranked[start:]`, for the start that sort.Search finds: the first row that comes after the mark.
unfoldable pub drop_until : Mark → List RankedRow → List RankedRow
drop_until m [] = []
drop_until m (r ∷ l) = let rest = drop_until m l in if is_after m r then r ∷ l else rest

unfoldable pub take : ℕ → List RankedRow → List RankedRow
take zero l = []
take (suc n) [] = []
take (suc n) (r ∷ l) = r ∷ take n l

unfoldable pub drop : ℕ → List RankedRow → List RankedRow
drop zero l = l
drop (suc n) [] = []
drop (suc n) (r ∷ l) = drop n l

unfoldable pub last : RankedRow → List RankedRow → RankedRow
last r [] = r
last r (q ∷ l) = last q l

-- `next`: the cursor of the page's last row, where rows are left.
unfoldable pub next_cursor : List RankedRow → List RankedRow → Str
unfolding last
next_cursor page [] = []
next_cursor [] (q ∷ l) = []
next_cursor (r ∷ page) (q ∷ l) = sure_cursor (last r page)

unfoldable pub by_rank : List RankedRow → List RankedRow
by_rank = sort_by (λ a b. ltb a.rank b.rank)

count_sure : List RankedRow → ℕ
count_sure [] = 0
count_sure (r ∷ l) = let n = count_sure l in if r.rank == 0 then suc n else n

pub record DeckPage : Type 0 where
  pub rows : List RankedRow
  pub next : Str
  pub sure : ℕ

-- The rows from the cursor on; a cursor that does not parse starts the deck.
unfoldable pub from_cursor : Str → List RankedRow → List RankedRow
from_cursor after l = elim (parse_sure_cursor after) [ none ↦ l | some m ↦ drop_until m l ]

-- surestPage, of the rows as they are read, with their ranks.
unfoldable pub surest_page : List RankedRow → Str → ℕ → DeckPage
unfolding from_cursor by_rank count_sure
surest_page read after limit =
    let left = from_cursor after (by_rank read) in
    let page = take limit left in
    record { rows = page; next = next_cursor page (drop limit left); sure = count_sure read }
