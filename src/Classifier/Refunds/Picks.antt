-- ===== src/Classifier/Refunds/Picks.antt =====
-- internal/integration/classifier/refund.go: when a refund is matched without a person.
use texas_fold_em.Common.{
  ℕ, ◌≤◌, ◌<◌, ◌≡◌, refl, Bool, true, Option, none, some, List, [], ◌∷◌, arith, All, Bool-cases,
  Option-cases, inl, inr, ◌⊎◌, subst, ap, ◌∙◌,
}
use texas_fold_em.Classifier.Cards.{keep_if}
use texas_fold_em.Classifier.Refunds.{
  RefundCandidate, find_first, is_recent_exact, choose_recent, choose_older, choose_ungrouped,
  pick_refund_candidate,
}

-- A sure match: Fold groups the two, or the amount is exact and the purchase at most 30 days older.
abbrev pub IsSureMatch : RefundCandidate → Type 0
IsSureMatch c = (c.group_match ≡ true) ⊎ ((c.exact ≡ true) × (c.days_before ≤ 30))

find_first_holds :
    (P : RefundCandidate → Type 0) (p : RefundCandidate → Bool) (l : List RefundCandidate)
    (c : RefundCandidate)
    → All P l
    → find_first p l ≡ some c
    → P c × (p c ≡ true)
unfolding find_first
find_first_holds P p [] c h e = cc e
find_first_holds P p (x ∷ l) c h e = elim (Bool-cases (p x)) [
  | inl yes_x ↦ let same : x ≡ c = ground (arith, yes_x, e) in (subst P same h.0, cc (same, yes_x))
  | inr no_x ↦ find_first_holds P p l c h.1 (ground (arith, no_x, e))
]

keep_if-All :
    (P : RefundCandidate → Type 0) (p : RefundCandidate → Bool) (l : List RefundCandidate)
    → All P l
    → All (λ c. P c × (p c ≡ true)) (keep_if p l)
unfolding keep_if
keep_if-All P p [] h = tt
keep_if-All P p (x ∷ l) h = elim (Bool-cases (p x)) [
  | inl e ↦ rw e ((h.0, e), keep_if-All P p l h.1)
  | inr e ↦ rw e (keep_if-All P p l h.1)
]

recent_holds :
    (P : RefundCandidate → Type 0) (l : List RefundCandidate) (c : RefundCandidate) (n : ℕ)
    → All P l
    → choose_recent l ≡ some (c, n)
    → P c
unfolding choose_recent
recent_holds P [] c n h e = cc e
recent_holds P (x ∷ []) c n h e = subst P (ground (arith, e)) h.0
recent_holds P (x ∷ y ∷ l) c n h e = subst P (ground (arith, e)) h.0

older_is_doubtful : (l : List RefundCandidate) → (choose_older l).1 ≡ 60
unfolding choose_older
older_is_doubtful l = ground arith

-- What is chosen is among the candidates, and above the confidence of a guess it is a sure match.
chosen_recent :
    (P : RefundCandidate → Type 0) (l : List RefundCandidate) (c : RefundCandidate) (n : ℕ)
    → All P l
    → choose_recent (keep_if is_recent_exact l) ≡ some (c, n)
    → P c × IsSureMatch c
unfolding is_recent_exact
chosen_recent P l c n h e =
    let found =
      recent_holds (λ x. P x × (is_recent_exact x ≡ true)) (keep_if is_recent_exact l) c n
        (keep_if-All P is_recent_exact l h) e in
    (found.0, inr (ground (arith, found.1), ground (arith, found.1)))

chosen_ungrouped :
    (P : RefundCandidate → Type 0) (l : List RefundCandidate) (c : RefundCandidate) (n : ℕ)
    → All P l
    → choose_ungrouped l ≡ (some c, n)
    → 60 < n
    → P c × IsSureMatch c
unfolding choose_ungrouped
chosen_ungrouped P l c n h e more =
    elim (Option-cases (choose_recent (keep_if is_recent_exact l))) [
      | inl g ↦ absurd (
          omega (
            arith,
            more,
            older_is_doubtful l,
            ap (λ (p : Option RefundCandidate × ℕ). p.1) (older_of l g ∙ e),
          ))
      | inr ((d, m), g) ↦
          let same : d ≡ c = ground (arith, g, e) in
          subst (λ x. P x × IsSureMatch x) same (chosen_recent P l d m h g)
    ]
  where
    older_of :
        (k : List RefundCandidate)
        → choose_recent (keep_if is_recent_exact k) ≡ none
        → choose_older k ≡ choose_ungrouped k
    older_of k g = ground (arith, g)

-- The purchase that is picked for a refund with more confidence than 0.6 is one of the candidates,
-- and Fold groups the two, or it was for exactly the refund's amount and at most 30 days earlier.
pub pick_refund_candidate-IsSureMatch :
    (P : RefundCandidate → Type 0) (l : List RefundCandidate) (c : RefundCandidate) (n : ℕ)
    → All P l
    → pick_refund_candidate l ≡ (some c, n)
    → 60 < n
    → P c × IsSureMatch c
unfolding pick_refund_candidate
pick_refund_candidate-IsSureMatch P [] c n h e more =
    cc (ap (λ (p : Option RefundCandidate × ℕ). p.0) e)
pick_refund_candidate-IsSureMatch P (x ∷ l) c n h e more =
    elim (Option-cases (find_first (λ y. y.group_match) (x ∷ l))) [
      | inl g ↦ chosen_ungrouped P (x ∷ l) c n h (ungrouped x l g ∙ e) more
      | inr (d, g) ↦
          let same : d ≡ c = ground (arith, g, e) in
          let found = find_first_holds P (λ y. y.group_match) (x ∷ l) d h g in
          subst (λ y. P y × IsSureMatch y) same (found.0, inl found.1)
    ]
  where
    ungrouped :
        (y : RefundCandidate) (k : List RefundCandidate)
        → find_first (λ z. z.group_match) (y ∷ k) ≡ none
        → choose_ungrouped (y ∷ k) ≡ pick_refund_candidate (y ∷ k)
    ungrouped y k g = rw (g, pick_refund_candidate) refl
