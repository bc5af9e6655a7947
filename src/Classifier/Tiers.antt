-- ===== src/Classifier/Tiers.antt =====
-- internal/integration/classifier/classifier.go: the tiers of ClassifyOne. The database and the tiers
-- of refund.go and tier3.go are parameters, the fields of `Engine`.
pub mod Ladder
use texas_fold_em.Common.{
  ℕ, ◌+◌, Bool, true, false, not, ◌&&◌, ◌||◌, Option, none, some, List, [], ◌∷◌, ◌++◌, map, leb,
  ◌==◌, if◌then◌else◌, is_some,
}
use texas_fold_em.Common.Text.{Str, str, str_eq, is_empty}
use texas_fold_em.Classifier.Query.{build_fts_query}
use texas_fold_em.Classifier.Decision.{
  Floats, Tier, merchant_lookup, fts_vote, human_review, LookupRow, Named, Hit, Evidence, Decision,
  StagedRow, Exclusion,
}
use texas_fold_em.Classifier.Vote.{Count, Vote, mode_account}

-- `(value, ok, err)`.
pub data Found (A : Type 0) : Type 0 where
  failed : Found A
  missed : Found A
  found : A → Found A

-- What the model's tier returns: an error, a suggestion, or a decision with `ok` false.
pub data Reply (f : Floats) : Type 0 where
  unavailable : Reply f
  answered : Decision f → Reply f
  unanswered : Decision f → Reply f

pub record Engine (f : Floats) : Type 0 where
  pub threshold : f.Real
  pub fts_top_k : ℕ
  pub tier_refund : StagedRow → Found (Decision f)
  pub query_merchant_lookup : Str → Found (LookupRow f)
  -- The query, the type, the journal left out and the limit; none where the database fails.
  pub search : Str → Str → ℕ → ℕ → Option (List (Hit f))
  pub in_map_order : List Count → List Count
  -- none where no model is configured.
  pub model : Option (StagedRow → Option (Decision f) → Option (Decision f) → Exclusion → Reply f)

unfoldable pub is_human_review : Tier → Bool
is_human_review human_review = true
is_human_review other = false

-- ClassifyOne's result: a decision, ErrLLMDeferred or another error.
pub data Classified (f : Floats) : Type 0 where
  decided : Decision f → Classified f
  deferred : Classified f
  broken : Classified f

-- fireflyTxnTypeFor.
unfoldable pub firefly_txn_type_for : Str → Str
firefly_txn_type_for type = if str_eq type (str "INCOMING") then str "deposit" else str "withdrawal"

module _ (f : Floats) where
  lookup_decision : StagedRow → LookupRow f → Decision f
  lookup_decision s row = record {
    tier = merchant_lookup;
    confidence = row.confidence;
    txn_type = [];
    destination_account_id = some row.destination_account_id;
    destination_account_name = row.destination_account_name;
    source_account_id = row.source_account_id;
    source_account_name = row.source_account_name;
    category_id = row.category_id;
    category_name = row.category_name;
    budget_id = row.budget_id;
    budget_name = row.budget_name;
    description = row.modal_description;
    tags = [];
    refund_of = [];
    engine = [];
    hold = [];
    evidence = record {
      tier = merchant_lookup;
      merchant_normalized = s.merchant_extracted;
      lookup_hit = some row;
      fts_hits = [];
      note = [];
    };
  }

  lookup_row_fits : Engine f → Exclusion → LookupRow f → Bool
  lookup_row_fits e x row =
      not (f.below row.confidence e.threshold)
      && not (not (x.firefly_id == 0) && leb row.sample_size 1)

  -- tierOneMerchantLookup.
  unfoldable pub tier_one_merchant_lookup : Engine f → StagedRow → Exclusion → Found (Decision f)
  unfolding lookup_decision lookup_row_fits
  tier_one_merchant_lookup e s x =
      if is_empty s.merchant_extracted
      then missed
      else if str_eq s.type (str "INCOMING")
      then missed
      else elim (e.query_merchant_lookup s.merchant_extracted) [
        | failed ↦ failed
        | missed ↦ missed
        | found row ↦ if lookup_row_fits e x row then found (lookup_decision s row) else missed
      ]

  text_of : Option Str → Str
  text_of none = []
  text_of (some s) = s

  overall_of : f.Real → Vote f → f.Real
  overall_of destination category =
      if is_some category.choice.id then f.mean destination category.share else destination

  vote_decision : Engine f → StagedRow → List (Hit f) → Decision f
  unfolding mode_account text_of overall_of
  vote_decision e s hits =
      let destination = mode_account f e.in_map_order (map (λ h. h.destination) hits) in
      let source = mode_account f e.in_map_order (map (λ h. h.source) hits) in
      let category = mode_account f e.in_map_order (map (λ h. h.category) hits) in
      let budget = mode_account f e.in_map_order (map (λ h. h.budget) hits) in
      record {
        tier = fts_vote;
        confidence = overall_of destination.share category;
        txn_type = [];
        destination_account_id = destination.choice.id;
        destination_account_name = text_of destination.choice.name;
        source_account_id = source.choice.id;
        source_account_name = text_of source.choice.name;
        category_id = category.choice.id;
        category_name = text_of category.choice.name;
        budget_id = budget.choice.id;
        budget_name = text_of budget.choice.name;
        description = [];
        tags = [];
        refund_of = [];
        engine = [];
        hold = [];
        evidence = record {
          tier = fts_vote;
          merchant_normalized = s.merchant_extracted;
          lookup_hit = none;
          fts_hits = hits;
          note = [];
        };
      }

  -- What the hits decide: nothing where there are none, or where no account wins.
  count_hits : Engine f → StagedRow → List (Hit f) → Found (Decision f)
  unfolding vote_decision
  count_hits e s [] = missed
  count_hits e s (h ∷ hits) =
      let d = vote_decision e s (h ∷ hits) in
      if is_some d.destination_account_id then found d else missed

  -- tierTwoFTSVote.
  unfoldable pub tier_two_fts_vote : Engine f → StagedRow → Exclusion → Found (Decision f)
  unfolding count_hits build_fts_query firefly_txn_type_for
  tier_two_fts_vote e s x =
      let query = build_fts_query s.merchant_extracted in
      if is_empty s.merchant_extracted || is_empty query
      then missed
      else elim (e.search query (firefly_txn_type_for s.type) x.firefly_id e.fts_top_k) [
        | none ↦ failed
        | some hits ↦ count_hits e s hits
      ]

  -- A decision for a person, where no tier had anything to say.
  nothing_found : StagedRow → Decision f
  nothing_found s = record {
    tier = human_review;
    confidence = f.zero;
    txn_type = [];
    destination_account_id = none;
    destination_account_name = [];
    source_account_id = none;
    source_account_name = [];
    category_id = none;
    category_name = [];
    budget_id = none;
    budget_name = [];
    description = [];
    tags = [];
    refund_of = [];
    engine = [];
    hold = [];
    evidence = record {
      tier = human_review;
      merchant_normalized = s.merchant_extracted;
      lookup_hit = none;
      fts_hits = [];
      note = str "no Tier-1 lookup match, no Tier-2 FTS hits, no usable Tier-3 LLM response";
    };
  }

  -- The fallback: the first tier's hint, the second's, what the model declined, or nothing.
  unfoldable pub fallback :
      StagedRow → Option (Decision f) → Option (Decision f) → Option (Decision f) → Decision f
  unfolding nothing_found
  fallback s (some d) two word = d
  fallback s none (some d) word = d
  fallback s none none (some d) = d
  fallback s none none none = nothing_found s

  after_model : StagedRow → Option (Decision f) → Option (Decision f) → Reply f → Classified f
  unfolding fallback
  after_model s one two unavailable =
      if not (is_some one) && not (is_some two) then deferred else decided (fallback s one two none)
  after_model s one two (answered d) = decided d
  after_model s one two (unanswered d) =
      decided (fallback s one two (if is_human_review d.tier then some d else none))

  synthesise :
      Engine f → StagedRow → Exclusion → Option (Decision f) → Option (Decision f) → Classified f
  unfolding after_model fallback
  synthesise e s x one two = elim e.model [
    | none ↦ decided (fallback s one two none)
    | some ask ↦ after_model s one two (ask s one two x)
  ]

  -- A tier that fails ends the row; a hint or none goes on.
  with_hint : Found (Decision f) → (Option (Decision f) → Classified f) → Classified f
  with_hint failed k = broken
  with_hint missed k = k none
  with_hint (found d) k = k (some d)

  -- classifyOne.
  unfoldable pub classify_one : Engine f → StagedRow → Exclusion → Classified f
  unfolding synthesise with_hint tier_one_merchant_lookup tier_two_fts_vote
  classify_one e s x = elim (e.tier_refund s) [
    | failed ↦ broken
    | found d ↦ decided d
    | missed ↦
        with_hint (tier_one_merchant_lookup e s x)
          (λ one. with_hint (tier_two_fts_vote e s x) (λ two. synthesise e s x one two))
  ]
