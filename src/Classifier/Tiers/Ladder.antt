-- ===== src/Classifier/Tiers/Ladder.antt =====
-- internal/integration/classifier/classifier.go: ClassifyOne while the model is out.
use texas_fold_em.Common.{◌≡◌, ◌≢◌, refl, Option, none, some, arith, ◌⊎◌}
use texas_fold_em.Classifier.Decision.{Floats, Decision, StagedRow, Exclusion}
use texas_fold_em.Classifier.Tiers.{
  Engine, Found, failed, missed, found, Reply, unavailable, Classified, decided, deferred, broken,
  classify_one, tier_one_merchant_lookup, tier_two_fts_vote, synthesise, after_model, fallback,
  with_hint,
}

module _ (f : Floats) where
  -- The first tier's hint, or the second's where the first has none; else the row waits. No decision
  -- comes of it only where a tier fails.
  pub record IsStandIn (one two : Found (Decision f)) (o : Classified f) : Type 0 where
    pub hint :
        (d : Decision f) → o ≡ decided d → (one ≡ found d) ⊎ ((one ≡ missed) × (two ≡ found d))
    pub waits : o ≡ deferred → (one ≡ missed) × (two ≡ missed)
    pub first : (d : Decision f) → one ≡ found d → two ≢ failed → o ≡ decided d
    pub second : (d : Decision f) → one ≡ missed → two ≡ found d → o ≡ decided d
    pub breaks : o ≡ broken → (one ≡ failed) ⊎ (two ≡ failed)
    pub no_hint : one ≡ missed → two ≡ missed → o ≡ deferred

  module _ (e : Engine f) (s : StagedRow) (x : Exclusion)
      (ask : StagedRow → Option (Decision f) → Option (Decision f) → Exclusion → Reply f)
      (asked : e.model ≡ some ask)
      (out : (one two : Option (Decision f)) → ask s one two x ≡ unavailable) where
    synthesise_out :
        (one two : Option (Decision f))
        → synthesise f e s x one two ≡ after_model f s one two unavailable
    unfolding synthesise
    synthesise_out one two = rw asked (rw (out one two) refl)

    stand_in :
        (one two : Found (Decision f))
        → IsStandIn one two (with_hint f one (λ a. with_hint f two (λ b. synthesise f e s x a b)))
    unfolding with_hint after_model fallback
    stand_in failed two = ground arith
    stand_in missed failed = ground arith
    stand_in (found a) failed = ground arith
    stand_in missed missed = ground (arith, synthesise_out none none)
    stand_in missed (found b) = ground (arith, synthesise_out none (some b))
    stand_in (found a) missed = ground (arith, synthesise_out (some a) none)
    stand_in (found a) (found b) = ground (arith, synthesise_out (some a) (some b))

  -- While the model is out, a row that is no refund gets the lookup's decision, or else the vote's,
  -- where the lookup has none, and is deferred exactly where neither tier had one: it is never sent
  -- to review for the model's absence, and it ends without a decision otherwise only where one of
  -- the two tiers failed.
  pub classify_one-IsStandIn :
      (e : Engine f) (s : StagedRow) (x : Exclusion)
      → (ask : StagedRow → Option (Decision f) → Option (Decision f) → Exclusion → Reply f)
      → e.model ≡ some ask
      → ((one two : Option (Decision f)) → ask s one two x ≡ unavailable)
      → e.tier_refund s ≡ missed
      → IsStandIn
          (tier_one_merchant_lookup f e s x)
          (tier_two_fts_vote f e s x)
          (classify_one f e s x)
  unfolding classify_one
  classify_one-IsStandIn e s x ask m out r =
      rw (r, classify_one)
        (stand_in e s x ask m out (tier_one_merchant_lookup f e s x) (tier_two_fts_vote f e s x))
