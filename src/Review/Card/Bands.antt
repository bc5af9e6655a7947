-- ===== src/Review/Card/Bands.antt =====
-- internal/integration/ui/sureness.go: what the bands and the ranks of the cards mean.
use texas_fold_em.Common.{
  ℕ, ◌≤◌, ◌<◌, ◌≡◌, ◌≢◌, ◌↔◌, refl, true, false, not, Option, none, some, List, [], ◌∷◌, arith,
  Bool-cases, inl, inr, ◌⊎◌,
}
use texas_fold_em.Common.Text.{str, is_empty, empty_is_nil}
use texas_fold_em.Classifier.Decision.{Floats}
use texas_fold_em.Review.Card.{
  Blocker, hold, Band, sure, fairly, unsure, ReviewCard, SureFacts, is_listed,
}
use texas_fold_em.Review.Card.Sureness.{
  sureness, judge, given_score, band_of, at_most_fairly, is_unsettled, new_own_band, needs_pick,
  is_true, sure_rank, place_of, band_rank, MirrorAccount, CardRow, sure_facts,
}
use texas_fold_em.Review.Card.Sides.{
  IsKnown, own_side, other_side, kind_across, is_new_account-IsKnown, not_new-IsKnown,
}

module _ (f : Floats) (threshold fairly_at : f.Real) where
  -- The program's own confidence: a score at the threshold, on a settled card, with no new name.
  abbrev IsConfident : SureFacts f → Type 0
  IsConfident facts =
      ((v : f.Real) × (facts.score ≡ some v) × (f.below v threshold ≡ false))
      × (facts.tier ≢ some 4)
      × (facts.new_other ≡ false)

  -- What a card is that goes as it stands, by its facts.
  record IsSureBy (c : ReviewCard f) (facts : SureFacts f) : Type 0 where
    pub single : c.duplicate ≡ false
    pub picked : c.refund ≢ some true
    pub free : c.why_hold ≡ []
    pub reason :
        (c.manual ≡ true) ⊎ ((facts.new_own ≡ false) × ((facts.chosen ≡ true) ⊎ IsConfident facts))

  band_of_sure :
      (o : Option f.Real)
      → band_of f threshold fairly_at o ≡ sure
      → (v : f.Real) × (o ≡ some v) × (f.below v threshold ≡ false)
  unfolding band_of
  band_of_sure none h = cc h
  band_of_sure (some v) h = (v, refl, ground (arith, h))

  given_is_score :
      (facts : SureFacts f) (v : f.Real) → given_score f facts ≡ some v → facts.score ≡ some v
  unfolding given_score
  given_is_score facts v h = ground (arith, h)

  at_most_fairly_sure : (b : Band) → at_most_fairly f b ≢ sure
  unfolding at_most_fairly
  at_most_fairly_sure sure h = cc h
  at_most_fairly_sure fairly h = cc h
  at_most_fairly_sure unsure h = cc h

  new_own_sure : (facts : SureFacts f) → new_own_band f threshold fairly_at facts ≢ sure
  unfolding new_own_band
  new_own_sure facts h =
      ground (arith, h, at_most_fairly_sure (band_of f threshold fairly_at (given_score f facts)))

  settled_tier : (facts : SureFacts f) → is_unsettled f facts ≡ false → facts.tier ≢ some 4
  unfolding is_unsettled
  settled_tier facts h e = ground (arith, h, e)

  sure_by_engine :
      (facts : SureFacts f)
      → is_unsettled f facts ≡ false
      → facts.new_other ≡ false
      → band_of f threshold fairly_at (given_score f facts) ≡ sure
      → IsConfident facts
  sure_by_engine facts settled known h =
      let (v, given, confident) = band_of_sure (given_score f facts) h in
      ((v, given_is_score facts v given, confident), settled_tier facts settled, known)

  -- What the switch went through on its way to the band `sure`.
  judged :
      (c : ReviewCard f) (facts : SureFacts f)
      → (judge f threshold fairly_at c facts).0 ≡ sure
      → (c.duplicate ≡ false)
        × (needs_pick f c ≡ false)
        × (not (is_empty c.why_hold) ≡ false)
        × ((c.manual ≡ true)
            ⊎ ((facts.new_own ≡ false)
                × ((facts.chosen ≡ true)
                    ⊎ ((is_unsettled f facts ≡ false)
                        × (facts.new_other ≡ false)
                        × (band_of f threshold fairly_at (given_score f facts) ≡ sure)))))
  unfolding judge
  judged c facts h = ground (
    arith,
    new_own_sure facts,
    at_most_fairly_sure (band_of f threshold fairly_at (given_score f facts)),
  )

  not_picked : (c : ReviewCard f) → needs_pick f c ≡ false → c.refund ≢ some true
  unfolding needs_pick is_true
  not_picked c h e = ground (arith, h, e)

  sureness-IsSureBy :
      (c : ReviewCard f) (facts : SureFacts f)
      → (sureness f threshold fairly_at c facts).band ≡ sure
      → IsSureBy c facts
  unfolding sureness
  sureness-IsSureBy c facts h =
      let (single, picked, free, reason) = judged c facts h in
      record {
        single = single;
        picked = not_picked c picked;
        free = ground (arith, free, empty_is_nil c.why_hold);
        reason = elim reason [
          | inl m ↦ inl m
          | inr (own, inl chosen) ↦ inr (own, inl chosen)
          | inr (own, inr (settled, known, band)) ↦
              inr (own, inr (sure_by_engine facts settled known band))
        ];
      }

module _ (f : Floats) (threshold fairly_at : f.Real) (accounts : List MirrorAccount) where
  -- The program's own confidence: a score at the threshold, on a row that the classifier did not leave
  -- to a person, and another side that makes no new account.
  abbrev pub IsTrusted : CardRow f → ReviewCard f → Type 0
  IsTrusted r c =
      ((v : f.Real) × (r.score ≡ some v) × (f.below v threshold ≡ false))
      × (r.tier ≢ some 4)
      × IsKnown accounts (other_side r) (kind_across c.type)

  -- What a card is that goes as it stands.
  pub record IsEarned (r : CardRow f) (c : ReviewCard f) : Type 0 where
    pub single : c.duplicate ≡ false
    pub picked : c.refund ≢ some true
    pub free : c.why_hold ≡ []
    pub reason :
        (c.manual ≡ true)
        ⊎ (IsKnown accounts (own_side r) (str "asset")
            × ((r.chose_who ≡ some true) ⊎ IsTrusted r c))

  own_side-IsKnown :
      (r : CardRow f) (c : ReviewCard f)
      → c.manual ≡ false
      → (sure_facts f accounts r c).new_own ≡ false
      → IsKnown accounts (own_side r) (str "asset")
  unfolding sure_facts
  own_side-IsKnown r c m h =
      is_new_account-IsKnown accounts (own_side r) (str "asset") refl (ground (arith, m, h))

  other_side-IsKnown :
      (r : CardRow f) (c : ReviewCard f)
      → c.manual ≡ false
      → (sure_facts f accounts r c).new_other ≡ false
      → IsKnown accounts (other_side r) (kind_across c.type)
  unfolding sure_facts
  other_side-IsKnown r c m h = not_new-IsKnown c.type accounts (other_side r) (ground (arith, m, h))

  chose :
      (r : CardRow f) (c : ReviewCard f)
      → (sure_facts f accounts r c).chosen ≡ true
      → r.chose_who ≡ some true
  unfolding sure_facts is_true
  chose r c h = ground (arith, h)

  -- A card that is said to be sure raises no doubt (no duplicate, no refund to be picked, no case for
  -- holding it), and a person made it, or its own side makes no new account, and a person chose the
  -- other side, or else the score is at the threshold, the classifier did not leave the row to a
  -- person, and the other side makes no new account: a side that makes none is linked by id, or is in
  -- the mirror by its name and kind, or names no account.
  pub sureness-IsEarned :
      (r : CardRow f) (c : ReviewCard f)
      → (sureness f threshold fairly_at c (sure_facts f accounts r c)).band ≡ sure
      → IsEarned r c
  unfolding sure_facts
  sureness-IsEarned r c h =
      let facts = sure_facts f accounts r c in
      let by = sureness-IsSureBy f threshold fairly_at c facts h in
      record {
        single = by.single;
        picked = by.picked;
        free = by.free;
        reason = elim (Bool-cases c.manual) [
          | inl m ↦ inl m
          | inr m ↦ elim by.reason [
            | inl n ↦ inl n
            | inr (own, inl chosen) ↦ inr (own_side-IsKnown r c m own, inl (chose r c chosen))
            | inr (own, inr (score, tier, other)) ↦
                inr (own_side-IsKnown r c m own, inr (score, tier, other_side-IsKnown r c m other))
          ]
        ];
      }

-- The rank of a card, by what it says of the card.
pub record IsPlace (blockers : List Blocker) (band : Band) (rank : ℕ) : Type 0 where
  pub bounded : rank ≤ 6
  pub sendable : (rank < 3) ↔ (blockers ≡ [])
  pub first : (rank ≡ 0) ↔ ((blockers ≡ []) × (band ≡ sure))
  pub on_hold : (rank ≡ 6) ↔ (is_listed hold blockers ≡ true)

place_of-IsPlace :
    (blockers : List Blocker) (band : Band)
    → IsPlace blockers band (place_of (is_listed hold blockers) blockers band)
unfolding place_of band_rank is_listed
place_of-IsPlace [] sure = ground arith
place_of-IsPlace [] fairly = ground arith
place_of-IsPlace [] unsure = ground arith
place_of-IsPlace (b ∷ l) sure = ground arith
place_of-IsPlace (b ∷ l) fairly = ground arith
place_of-IsPlace (b ∷ l) unsure = ground arith

-- A card's rank is at most 6. It is below 3 exactly where nothing blocks the card, 0 exactly where
-- nothing blocks it and it is sure, and 6 exactly where it is on hold.
sure_rank-IsPlace : (f : Floats) (c : ReviewCard f) → IsPlace c.blockers c.sure.band (sure_rank f c)
unfolding sure_rank
sure_rank-IsPlace f c = place_of-IsPlace c.blockers c.sure.band
