-- ===== src/Classifier/Vote/Laws.antt =====
-- internal/integration/classifier/classifier.go: `modeAccount` elects a most frequent value.
use texas_fold_em.Common.{
  ℕ, suc, ◌+◌, ◌≤◌, ◌<◌, ◌≡◌, ◌≢◌, refl, sym, true, false, not, ◌&&◌, ◌||◌, Option, none, some,
  List, [], ◌∷◌, ltb, ◌==◌, arith, if◌then◌else◌, length, is_some, All, Bool-cases, inl, inr, ap,
  ◌∙◌,
}
use texas_fold_em.Classifier.Decision.{Floats, Named}
use texas_fold_em.Classifier.Vote.{
  Count, same_id, count_one, tally, better, winner, best_of, mode_account,
}

same_id_sound : (a b : Option ℕ) → same_id a b ≡ true → a ≡ b
unfolding same_id
same_id_sound none none h = refl
same_id_sound none (some b) h = cc h
same_id_sound (some a) none h = cc h
same_id_sound (some a) (some b) h = ground arith

same_id_refl : (a : Option ℕ) → same_id a a ≡ true
unfolding same_id
same_id_refl none = refl
same_id_refl (some a) = ground arith

-- How many hits have the id: the reference.
pub count_of : Option ℕ → List Named → ℕ
count_of k [] = 0
count_of k (h ∷ hits) = let n = count_of k hits in if same_id k h.id then suc n else n

votes_in : Option ℕ → List Count → ℕ
votes_in k [] = 0
votes_in k (c ∷ l) = let n = votes_in k l in if same_id k c.id then c.votes else n

votes_in-count_one :
    (k j : Option ℕ) (l : List Count)
    → votes_in k (count_one j l) ≡ votes_in k l + (if same_id k j then 1 else 0)
unfolding votes_in count_one
votes_in-count_one k j [] = ground arith
votes_in-count_one k j (c ∷ l) = ground (
  arith,
  same_id_sound j c.id,
  same_id_sound k c.id,
  same_id_sound k j,
  same_id_refl k,
  same_id_refl j,
  votes_in-count_one k j l,
)

votes_in-tally :
    (k : Option ℕ) (hits : List Named) (l : List Count)
    → votes_in k (tally hits l) ≡ votes_in k l + count_of k hits
unfolding tally count_of
votes_in-tally k [] l = omega arith
votes_in-tally k (h ∷ hits) l =
    ground (arith, votes_in-tally k hits (count_one h.id l), votes_in-count_one k h.id l)

-- No key stands twice.
abbrev IsKeyed : List Count → Type 0
IsKeyed [] = Unit
IsKeyed (c ∷ l) = All (λ d. same_id d.id c.id ≡ false) l × IsKeyed l

All-count_one :
    (k j : Option ℕ) (l : List Count)
    → same_id j k ≡ false
    → All (λ d. same_id d.id k ≡ false) l
    → All (λ d. same_id d.id k ≡ false) (count_one j l)
unfolding count_one
All-count_one k j [] n h = (n, tt)
All-count_one k j (c ∷ l) n h = elim (Bool-cases (same_id j c.id)) [
  | inl e ↦ rw e h
  | inr e ↦ rw e (h.0, All-count_one k j l n h.1)
]

count_one-IsKeyed : (j : Option ℕ) (l : List Count) → IsKeyed l → IsKeyed (count_one j l)
unfolding count_one
count_one-IsKeyed j [] h = (tt, tt)
count_one-IsKeyed j (c ∷ l) h = elim (Bool-cases (same_id j c.id)) [
  | inl e ↦ rw e h
  | inr e ↦ rw e (All-count_one c.id j l e h.0, count_one-IsKeyed j l h.1)
]

tally-IsKeyed : (hits : List Named) (l : List Count) → IsKeyed l → IsKeyed (tally hits l)
unfolding tally
tally-IsKeyed [] l h = h
tally-IsKeyed (x ∷ hits) l h = tally-IsKeyed hits (count_one x.id l) (count_one-IsKeyed x.id l h)

-- In a list with no key twice each entry is the one of its key.
All-own :
    (c : Count) (l m : List Count)
    → All (λ d. same_id d.id c.id ≡ false) m
    → All (λ d. d.votes ≡ votes_in d.id l) m
    → All (λ d. d.votes ≡ votes_in d.id (c ∷ l)) m
unfolding votes_in
All-own c l [] k h = tt
All-own c l (d ∷ m) k h = (ground (arith, k.0, h.0), All-own c l m k.1 h.1)

keyed_votes : (l : List Count) → IsKeyed l → All (λ d. d.votes ≡ votes_in d.id l) l
unfolding votes_in
keyed_votes [] h = tt
keyed_votes (c ∷ l) h = (ground (arith, same_id_refl c.id), All-own c l l h.0 (keyed_votes l h.1))

votes_in-le : (k : Option ℕ) (n : ℕ) (l : List Count) → All (λ d. d.votes ≤ n) l → votes_in k l ≤ n
unfolding votes_in
votes_in-le k n [] h = omega arith
votes_in-le k n (c ∷ l) h = ground (arith, votes_in-le k n l h.1)

-- `a` is as good as `c`: more votes, or as many and not empty where `c` is not.
abbrev IsAhead : Count → Count → Type 0
IsAhead a c = (c.votes ≤ a.votes) × (a.votes ≡ c.votes → c.id ≢ none → a.id ≢ none)

some_of : (o : Option ℕ) → o ≢ none → is_some o ≡ true
some_of none h = absurd (h refl)
some_of (some a) h = refl

none_of : (o : Option ℕ) → is_some o ≡ false → o ≡ none
none_of none h = refl
none_of (some a) h = cc

better-IsAhead : (a c : Count) → IsAhead (better a c) a × IsAhead (better a c) c
unfolding better
better-IsAhead a c = ground (arith, some_of a.id, some_of c.id, none_of a.id, none_of c.id)

IsAhead-trans : (a b c : Count) → IsAhead a b → IsAhead b c → IsAhead a c
IsAhead-trans a b c h k = (omega arith, λ e n. h.1 (omega arith) (k.1 (omega arith) n))

winner-IsAhead :
    (a : Count) (l : List Count) → IsAhead (winner a l) a × All (IsAhead (winner a l)) l
unfolding winner
winner-IsAhead a [] = ((omega arith, λ e n. n), tt)
winner-IsAhead a (c ∷ l) =
    let b = better a c in
    let ahead = winner-IsAhead b l in
    let both = better-IsAhead a c in
    (IsAhead-trans _ b a ahead.0 both.0, (IsAhead-trans _ b c ahead.0 both.1, ahead.1))

winner-All : (P : Count → Type 0) (a : Count) (l : List Count) → P a → All P l → P (winner a l)
unfolding winner better
winner-All P a [] p h = p
winner-All P a (c ∷ l) p h =
    winner-All P (better a c) l
      (elim (Bool-cases
        (ltb a.votes c.votes || (a.votes == c.votes && is_some c.id && not (is_some a.id)))) [
          | inl e ↦ rw e h.0
          | inr e ↦ rw e p
        ])
      h.1

-- A map's order: any that has the same entries.
pub record IsMapOrder (order : List Count → List Count) : Type 1 where
  pub keeps : (P : Count → Type 0) (l : List Count) → All P l → All P (order l)
  pub covers : (P : Count → Type 0) (l : List Count) → All P (order l) → All P l

best_of-IsAhead : (l : List Count) → All (IsAhead (best_of l)) l
unfolding best_of
best_of-IsAhead [] = tt
best_of-IsAhead (c ∷ l) = winner-IsAhead c l

best_of-All :
    (P : Count → Type 0) (l : List Count) → All P l → 0 < (best_of l).votes → P (best_of l)
unfolding best_of
best_of-All P [] h n = absurd (omega arith)
best_of-All P (c ∷ l) h n = winner-All P c l h.0 h.1

ahead_votes : (a : Count) (l : List Count) → All (IsAhead a) l → All (λ d. d.votes ≤ a.votes) l
ahead_votes a [] h = tt
ahead_votes a (c ∷ l) h = (h.0.0, ahead_votes a l h.1)

ahead_id :
    (a : Count) (k : Option ℕ) (l : List Count)
    → All (IsAhead a) l
    → a.votes ≡ votes_in k l
    → 0 < a.votes
    → k ≢ none
    → a.id ≢ none
unfolding votes_in
ahead_id a k [] h e n some_id = absurd (omega arith)
ahead_id a k (c ∷ l) h e n some_id = elim (Bool-cases (same_id k c.id)) [
  | inl same ↦ h.0.1 (ground (arith, e, same)) (λ z. some_id (same_id_sound k c.id same ∙ z))
  | inr other ↦ ahead_id a k l h.1 (ground (arith, e, other)) n some_id
]

-- The elected value, against the counts of the hits.
pub record IsMode (hits : List Named) (id : Option ℕ) : Type 0 where
  pub most : (k : Option ℕ) → count_of k hits ≤ count_of id hits
  pub set_first : (k : Option ℕ) → count_of k hits ≡ count_of id hits → k ≢ none → id ≢ none

module _ (order : List Count → List Count) (is_order : IsMapOrder order) (h : Named)
    (hits : List Named) where
  abbrev all_hits : List Named
  all_hits = h ∷ hits

  abbrev counts : List Count
  counts = tally all_hits []

  abbrev best : Count
  best = best_of (order counts)

  counted : (k : Option ℕ) → votes_in k counts ≡ count_of k all_hits
  unfolding votes_in
  counted k = omega (arith, votes_in-tally k all_hits [])

  best-IsAhead : All (IsAhead best) counts
  best-IsAhead = is_order.covers (IsAhead best) counts (best_of-IsAhead (order counts))

  most_votes : (k : Option ℕ) → count_of k all_hits ≤ best.votes
  most_votes k =
      omega
        (arith, counted k, votes_in-le k best.votes counts (ahead_votes best counts best-IsAhead))

  first_counts : 0 < count_of h.id all_hits
  unfolding count_of
  first_counts = ground (arith, same_id_refl h.id)

  best_counts : best.votes ≡ count_of best.id all_hits
  best_counts =
      best_of-All (λ d. d.votes ≡ votes_in d.id counts) (order counts)
        (is_order.keeps (λ d. d.votes ≡ votes_in d.id counts) counts
          (keyed_votes counts (tally-IsKeyed all_hits [] tt)))
        (omega (arith, first_counts, most_votes h.id))
      ∙ counted best.id

  -- The vote elects a value that no other has more hits than, an account rather than none among
  -- equals, in whatever order the map is gone through, and its share is its hits by all hits.
  pub mode_account-IsMode :
      (f : Floats)
      → IsMode (h ∷ hits) (mode_account f order (h ∷ hits)).choice.id
        × ((mode_account f order (h ∷ hits)).share
            ≡ f.ratio
                (count_of (mode_account f order (h ∷ hits)).choice.id (h ∷ hits))
                (length (h ∷ hits)))
  unfolding mode_account
  mode_account-IsMode f = (
    record {
      most = λ k. omega (arith, most_votes k, best_counts);
      set_first = λ k e n.
          ahead_id best k counts best-IsAhead (best_counts ∙ sym e ∙ sym (counted k))
            (omega (arith, first_counts, most_votes h.id)) n;
    },
    ap (λ (n : ℕ). f.ratio n (length (h ∷ hits))) best_counts,
  )
