-- ===== src/Review/Card/Blockers.antt =====
-- internal/integration/ui/review.go: the blockers of a card stand in the order to settle them.
use texas_fold_em.Common.{
  ◌≤◌, ◌≡◌, refl, Bool, true, false, not, List, [], ◌∷◌, ltb, ◌==◌, arith, All, Bool-cases, inl,
  inr,
}
use texas_fold_em.Common.Text.{Str, str, is_empty, trim_space}
use texas_fold_em.TxnType.{
  Problem, no_problem, direction, other_is_mine, other_not_mine, same_account, other_kind,
  own_not_mine, swapped,
}
use texas_fold_em.Review.Card.{
  Blocker, hold, payee, source, mine, type, swap, settle_rank, code_of, is_listed, place,
  insert_blocker, blockers_of, card_blockers, title_blockers, payee_missing, own_missing, add_if,
  contains,
}

-- In the order to settle them, none twice.
abbrev pub InOrder : List Blocker → Type 0
InOrder [] = Unit
InOrder (b ∷ l) =
    All (λ x. (settle_rank b ≤ settle_rank x) × ((code_of x == code_of b) ≡ false)) l × InOrder l

All-place :
    (b c : Blocker) (l : List Blocker)
    → All (λ x. (settle_rank c ≤ settle_rank x) × ((code_of x == code_of c) ≡ false)) l
    → settle_rank c ≤ settle_rank b
    → (code_of b == code_of c) ≡ false
    → All (λ x. (settle_rank c ≤ settle_rank x) × ((code_of x == code_of c) ≡ false)) (place b l)
unfolding place
All-place b c [] h le ne = ((le, ne), tt)
All-place b c (x ∷ l) h le ne = elim (Bool-cases (ltb (settle_rank b) (settle_rank x))) [
  | inl e ↦ rw e ((le, ne), h)
  | inr e ↦ rw e (h.0, All-place b c l h.1 le ne)
]

All-above :
    (b c : Blocker) (l : List Blocker)
    → settle_rank b ≤ settle_rank c
    → is_listed b l ≡ false
    → All (λ x. (settle_rank c ≤ settle_rank x) × ((code_of x == code_of c) ≡ false)) l
    → All (λ x. (settle_rank b ≤ settle_rank x) × ((code_of x == code_of b) ≡ false)) l
unfolding is_listed
All-above b c [] le n h = tt
All-above b c (x ∷ l) le n h =
    ((omega (arith, h.0.0), ground (arith, n)), All-above b c l le (ground (arith, n)) h.1)

place-InOrder :
    (b : Blocker) (l : List Blocker) → is_listed b l ≡ false → InOrder l → InOrder (place b l)
unfolding place is_listed
place-InOrder b [] n h = (tt, tt)
place-InOrder b (x ∷ l) n h = elim (Bool-cases (ltb (settle_rank b) (settle_rank x))) [
  | inl e ↦ rw e (
    (
      (ground (arith, e), ground (arith, n)),
      All-above b x l (ground (arith, e)) (ground (arith, n)) h.0,
    ),
    h,
  )
  | inr e ↦ rw e (
    All-place b x l h.0 (ground (arith, e)) (ground (arith, n)),
    place-InOrder b l (ground (arith, n)) h.1,
  )
]

insert_blocker-InOrder : (l : List Blocker) (b : Blocker) → InOrder l → InOrder (insert_blocker l b)
unfolding insert_blocker
insert_blocker-InOrder l b h = elim (Bool-cases (is_listed b l)) [
  | inl e ↦ rw e h
  | inr e ↦ rw e (place-InOrder b l e h)
]

-- Settled at the end: the two blockers of the title.
abbrev Late : Blocker → Type 0
Late x = (5 ≤ settle_rank x) × (6 ≤ code_of x)

abbrev Follows : Blocker → Blocker → Type 0
Follows b x = (settle_rank b ≤ settle_rank x) × ((code_of x == code_of b) ≡ false)

Late-Follows :
    (b : Blocker) (l : List Blocker)
    → settle_rank b ≤ 5
    → code_of b ≤ 5
    → All Late l
    → All (Follows b) l
Late-Follows b [] r c h = tt
Late-Follows b (x ∷ l) r c h =
    ((omega (arith, h.0.0), ground (arith, h.0.1)), Late-Follows b l r c h.1)

add_if-All :
    (P : Blocker → Type 0) (b : Bool) (x : Blocker) (l : List Blocker)
    → P x
    → All P l
    → All P (add_if b x l)
unfolding add_if
add_if-All P true x l p h = (p, h)
add_if-All P false x l p h = h

add_if-InOrder :
    (b : Bool) (x : Blocker) (l : List Blocker)
    → All (Follows x) l
    → InOrder l
    → InOrder (add_if b x l)
unfolding add_if
add_if-InOrder true x l h k = (h, k)
add_if-InOrder false x l h k = k

assembled :
    (a b c : Bool) (l : List Blocker)
    → InOrder l
    → All Late l
    → InOrder (add_if a hold (add_if b payee (add_if c source l)))
unfolding settle_rank code_of
assembled a b c l h k =
    add_if-InOrder a hold _
      (add_if-All (Follows hold) b payee _ (omega arith, refl)
        (add_if-All (Follows hold) c source l (omega arith, refl)
          (Late-Follows hold l (omega arith) (omega arith) k)))
      (add_if-InOrder b payee _
        (add_if-All (Follows payee) c source l (omega arith, refl)
          (Late-Follows payee l (omega arith) (omega arith) k))
        (add_if-InOrder c source l (Late-Follows source l (omega arith) (omega arith) k) h))

title_blockers-InOrder : (t : Str) → InOrder (title_blockers t) × All Late (title_blockers t)
unfolding title_blockers settle_rank code_of
title_blockers-InOrder t = elim (Bool-cases (is_empty (trim_space t))) [
  | inl e ↦ rw e ((tt, tt), ((omega arith, omega arith), tt))
  | inr e ↦ rw e (elim (Bool-cases (contains t (str "___"))) [
    | inl g ↦ rw g ((tt, tt), ((omega arith, omega arith), tt))
    | inr g ↦ rw g (tt, tt)
  ])
]

-- The blockers of a card come in the order in which a person settles them (the hold, the kind of
-- move, the other side, the own account, the title), and none twice, whatever its hold, its title and
-- its sides, and whatever problem its type has.
blockers_of-InOrder :
    (p : Problem) (card_hold title typ : Str) (has_source has_dest : Bool)
    → InOrder (blockers_of p (card_blockers card_hold title typ has_source has_dest))
unfolding blockers_of card_blockers
blockers_of-InOrder p card_hold title typ has_source has_dest = with_problem p
  where
    own : InOrder (card_blockers card_hold title typ has_source has_dest)
    own =
        let t = title_blockers-InOrder title in
        assembled (not (is_empty (trim_space card_hold))) (payee_missing typ has_source has_dest)
          (own_missing typ has_source has_dest) (title_blockers title) t.0 t.1

    with_problem :
        (q : Problem)
        → InOrder (blockers_of q (card_blockers card_hold title typ has_source has_dest))
    with_problem no_problem = own
    with_problem direction = insert_blocker-InOrder _ type own
    with_problem other_is_mine = insert_blocker-InOrder _ mine own
    with_problem other_not_mine = insert_blocker-InOrder _ payee own
    with_problem same_account = insert_blocker-InOrder _ payee own
    with_problem other_kind = insert_blocker-InOrder _ payee own
    with_problem own_not_mine = insert_blocker-InOrder _ source own
    with_problem swapped = insert_blocker-InOrder _ swap own
