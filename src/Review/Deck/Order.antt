-- ===== src/Review/Deck/Order.antt =====
-- internal/integration/ui/sureness.go: the order of the deck.
use texas_fold_em.Common.{
  ◌≤◌, ◌≡◌, refl, Bool, true, false, List, [], ◌∷◌, ltb, arith, All, Bool-cases, inl, inr,
}
use texas_fold_em.Common.Text.{Str, str_eq_sound, str_eq_refl}
use texas_fold_em.Common.Order.{str_lt, insert_by, sort_by, sort_by-All}
use texas_fold_em.Review.Deck.{RankedRow, newer, before, by_rank}

str_lt_asym : (s t : Str) → str_lt s t ≡ true → str_lt t s ≡ false
unfolding str_lt
str_lt_asym [] [] h = refl
str_lt_asym (c ∷ s) [] h = cc h
str_lt_asym [] (d ∷ t) h = refl
str_lt_asym (c ∷ s) (d ∷ t) h = ground (arith, str_lt_asym s t)

pub before_asym : (a b : RankedRow) → before a b ≡ true → before b a ≡ false
unfolding before newer
before_asym a b h = ground (
  arith,
  str_lt_asym a.ts_str b.ts_str,
  str_lt_asym b.ts_str a.ts_str,
  str_lt_asym b.uuid a.uuid,
  str_eq_sound a.ts_str b.ts_str,
  str_eq_sound b.ts_str a.ts_str,
  str_eq_refl a.ts_str,
)

pub before_irrefl : (a : RankedRow) → before a a ≡ false
before_irrefl a = elim (Bool-cases (before a a)) [ inl e ↦ before_asym a a e | inr e ↦ e ]

-- Each row comes before all that follow it.
abbrev pub InOrder : (RankedRow → RankedRow → Bool) → List RankedRow → Type 0
InOrder lt [] = Unit
InOrder lt (r ∷ l) = All (λ q. lt r q ≡ true) l × InOrder lt l

before_of_rank : (a b : RankedRow) → ltb a.rank b.rank ≡ true → before a b ≡ true
unfolding before
before_of_rank a b h = ground (arith, h)

before_of_newer : (a b : RankedRow) → a.rank ≤ b.rank → newer a b ≡ true → before a b ≡ true
unfolding before
before_of_newer a b h n = ground (arith, n)

rank-le-before : (a b : RankedRow) → before a b ≡ true → a.rank ≤ b.rank
unfolding before
rank-le-before a b h = ground arith

All-before :
    (r q : RankedRow) (l : List RankedRow)
    → r.rank ≤ q.rank
    → All (λ p. before q p ≡ true) l
    → All (λ p. newer r p ≡ true) l
    → All (λ p. before r p ≡ true) l
All-before r q [] le h n = tt
All-before r q (p ∷ l) le h n = (
  before_of_newer r p (omega (arith, le, rank-le-before q p h.0)) n.0,
  All-before r q l le h.1 n.1,
)

All-insert :
    (P : RankedRow → Type 0) (lt : RankedRow → RankedRow → Bool) (r : RankedRow)
    (l : List RankedRow)
    → P r
    → All P l
    → All P (insert_by lt r l)
unfolding insert_by
All-insert P lt r [] p h = (p, tt)
All-insert P lt r (q ∷ l) p h = elim (Bool-cases (lt q r)) [
  | inl e ↦ rw e (h.0, All-insert P lt r l p h.1)
  | inr e ↦ rw e (p, h)
]

insert-InOrder :
    (r : RankedRow) (l : List RankedRow)
    → InOrder before l
    → All (λ q. newer r q ≡ true) l
    → InOrder before (insert_by (λ a b. ltb a.rank b.rank) r l)
unfolding insert_by
insert-InOrder r [] h n = (tt, tt)
insert-InOrder r (q ∷ l) h n = elim (Bool-cases (ltb q.rank r.rank)) [
  | inl e ↦ rw e (
    All-insert (λ p. before q p ≡ true) (λ a b. ltb a.rank b.rank) r l (before_of_rank q r e) h.0,
    insert-InOrder r l h.1 n.1,
  )
  | inr e ↦ rw e (
    (before_of_newer r q (ground (arith, e)) n.0, All-before r q l (ground (arith, e)) h.0 n.1),
    h,
  )
]

-- Rows that are read newest first stand, sorted by rank, in the order of the deck.
pub by_rank-InOrder : (l : List RankedRow) → InOrder newer l → InOrder before (by_rank l)
unfolding by_rank sort_by
by_rank-InOrder [] h = tt
by_rank-InOrder (r ∷ l) h =
    insert-InOrder r (by_rank l) (by_rank-InOrder l h.1)
      (sort_by-All (λ q. newer r q ≡ true) (λ a b. ltb a.rank b.rank) l h.0)
