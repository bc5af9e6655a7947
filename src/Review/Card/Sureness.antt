-- ===== src/Review/Card/Sureness.antt =====
-- internal/integration/ui/sureness.go: how sure the program is of a card, and its place in the deck.
use texas_fold_em.Common.{
  ℕ, ◌+◌, Bool, true, false, not, ◌&&◌, ◌||◌, Option, none, some, List, [], ◌∷◌, ◌==◌,
  if◌then◌else◌, is_some,
}
use texas_fold_em.Common.Text.{Str, str, str_eq, is_empty, trim_space, lower_ascii}
use texas_fold_em.TxnType.{TxnType, withdrawal, deposit, transfer}
use texas_fold_em.Classifier.Decision.{Floats}
use texas_fold_em.Review.Card.{
  Blocker, Band, SureReason, CardSure, ReviewCard, SureFacts, is_listed, hold, sure, fairly, unsure,
  no_reason, chosen, manual, duplicate, refund, held, unsettled, new_payee, new_account,
}

pub record MirrorAccount : Type 0 where
  pub name : Str
  pub type : Str

unfoldable pub has_account : Str → Str → List MirrorAccount → Bool
has_account name kind [] = false
has_account name kind (a ∷ l) =
    (str_eq (lower_ascii a.name) (lower_ascii name) && str_eq a.type kind)
    || has_account name kind l

-- storedSide.
pub record StoredSide : Type 0 where
  pub id : Option ℕ
  pub name : Str

-- isNewAccount.
unfoldable pub is_new_account : List MirrorAccount → StoredSide → Str → Bool
unfolding has_account
is_new_account accounts s kind =
    let name = trim_space s.name in
    if is_some s.id || is_empty name || str_eq name (str "(no name)") || is_empty kind
    then false
    else not (has_account name kind accounts)

unfoldable pub other_kind_of : TxnType → Str
other_kind_of withdrawal = str "expense"
other_kind_of deposit = str "revenue"
other_kind_of transfer = str "asset"

-- The columns of a row that its place depends on.
pub record CardRow (f : Floats) : Type 0 where
  pub uuid : Str
  pub type : Str
  pub ts_str : Str
  pub source : StoredSide
  pub destination : StoredSide
  pub score : Option f.Real
  pub tier : Option ℕ
  pub chose_who : Option Bool

unfoldable pub is_true : Option Bool → Bool
is_true none = false
is_true (some b) = b

unfoldable pub band_rank : Band → ℕ
band_rank sure = 0
band_rank fairly = 1
band_rank unsure = 2

-- The place of a card, by whether it is on hold, what blocks it, and its band.
unfoldable pub place_of : Bool → List Blocker → Band → ℕ
unfolding band_rank
place_of true blockers band = 6
place_of false [] band = band_rank band
place_of false (b ∷ l) band = band_rank band + 3

module _ (f : Floats) where
  -- sureFacts.
  unfoldable pub sure_facts : List MirrorAccount → CardRow f → ReviewCard f → SureFacts f
  unfolding other_kind_of is_true
  sure_facts accounts r c =
      let incoming = str_eq r.type (str "INCOMING") in
      let other = if incoming then r.source else r.destination in
      let own = if incoming then r.destination else r.source in
      record {
        score = r.score;
        tier = r.tier;
        chosen = is_true r.chose_who;
        new_other =
            if c.manual then false else is_new_account accounts other (other_kind_of c.type);
        new_own = if c.manual then false else is_new_account accounts own (str "asset");
      }

  -- The score that counts: one above zero.
  unfoldable pub given_score : SureFacts f → Option f.Real
  given_score facts = elim facts.score [
    | none ↦ none
    | some v ↦ if f.below f.zero v then some v else none
  ]

  -- The thresholds are DefaultConfidenceThreshold and sureFairlyAt.
  unfoldable pub band_of : f.Real → f.Real → Option f.Real → Band
  band_of threshold fairly_at none = unsure
  band_of threshold fairly_at (some v) =
      if not (f.below v threshold)
      then sure
      else if not (f.below v fairly_at)
      then fairly
      else unsure

  unfoldable pub at_most_fairly : Band → Band
  at_most_fairly sure = fairly
  at_most_fairly fairly = fairly
  at_most_fairly unsure = unsure

  -- No score, or the classifier's tier for a person.
  unfoldable pub is_unsettled : SureFacts f → Bool
  unfolding given_score
  is_unsettled facts =
      not (is_some (given_score facts)) || elim facts.tier [ none ↦ false | some t ↦ t == 4 ]

  unfoldable pub new_own_band : f.Real → f.Real → SureFacts f → Band
  unfolding band_of at_most_fairly is_unsettled given_score
  new_own_band threshold fairly_at facts =
      if facts.chosen
      then fairly
      else if is_unsettled facts
      then unsure
      else at_most_fairly (band_of threshold fairly_at (given_score facts))

  unfoldable pub needs_pick : ReviewCard f → Bool
  unfolding is_true
  needs_pick c = is_true c.refund

  -- The switch of sureness: a doubt, then what a person decided, then the classifier's own rules.
  unfoldable pub judge : f.Real → f.Real → ReviewCard f → SureFacts f → Band × SureReason
  unfolding needs_pick new_own_band is_unsettled at_most_fairly band_of given_score
  judge threshold fairly_at c facts =
      if c.duplicate
      then (unsure, duplicate)
      else if needs_pick c
      then (unsure, refund)
      else if not (is_empty c.why_hold)
      then (unsure, held)
      else if c.manual
      then (sure, manual)
      else if facts.new_own
      then (new_own_band threshold fairly_at facts, new_account)
      else if facts.chosen
      then (sure, chosen)
      else if is_unsettled facts
      then (unsure, unsettled)
      else if facts.new_other
      then (at_most_fairly (band_of threshold fairly_at (given_score facts)), new_payee)
      else (band_of threshold fairly_at (given_score facts), no_reason)

  unfoldable pub sureness : f.Real → f.Real → ReviewCard f → SureFacts f → CardSure f
  unfolding judge given_score
  sureness threshold fairly_at c facts =
      let (band, why) = judge threshold fairly_at c facts in
      record { band = band; why = why; score = given_score facts }

  -- sureRank.
  unfoldable pub sure_rank : ReviewCard f → ℕ
  unfolding place_of is_listed
  sure_rank c = place_of (is_listed hold c.blockers) c.blockers c.sure.band
