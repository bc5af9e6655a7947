-- ===== src/Examples/Classifiers.antt =====
-- internal/integration/classifier: the theorems on the classifier at concrete rows.
use texas_fold_em.Common.{ℕ, ◌≡◌, refl, false, Option, none, some, List, [], ◌∷◌, length, inl}
use texas_fold_em.Common.Text.{str, str_eq, str_eq_iff, trim_space, to_lower, is_space}
use texas_fold_em.FoldSync.Merchant.{fields, join}
use texas_fold_em.Push.Row.{Labels, pending, needs_review, pushed}
use texas_fold_em.Classifier.Decision.{merchant_lookup, Decision, Named, StagedRow}
use texas_fold_em.Classifier.Vote.{mode_account}
use texas_fold_em.Classifier.Vote.Laws.{IsMode, IsMapOrder, count_of, mode_account-IsMode}
use texas_fold_em.Classifier.Tiers.{
  Engine, missed, unavailable, classify_one, tier_one_merchant_lookup, tier_two_fts_vote,
  is_human_review,
}
use texas_fold_em.Classifier.Tiers.Ladder.{IsStandIn, classify_one-IsStandIn}
use texas_fold_em.Classifier.Cards.{FireflyAsset, FoldAccountRef, match_fold_card}
use texas_fold_em.Classifier.Apply.{
  TableRow, Table, table_row, decided_row, resolve_own_side, new_destination,
}
use texas_fold_em.Classifier.Apply.Accepted.{IsMatched, decided_row-IsMatched}
use texas_fold_em.Classifier.Run.{
  Setting, pending_only, selected, fetch_staged_for_classify, classify_matching, classify_and_apply,
  no_report, no_exclusion, keep_decision,
}
use texas_fold_em.Classifier.Run.Outside.{classify_matching_keeps}
use texas_fold_em.Classifier.Run.Kept.{IsStep, classify_matching-IsStep}
use texas_fold_em.Classifier.Run.Retried.{IsFresh, Listed, classify_and_apply-Listed}
use texas_fold_em.Classifier.Run.Named.{keep_decision_counts_new_names}
use texas_fold_em.Examples.Decks.{hundredths}

abbrev hit : Option ℕ → Named
hit id = record { id = id; name = some (str "Shop") }

same_order : IsMapOrder (λ l. l)
same_order = record { keeps = λ P l h. h; covers = λ P l h. h }

mode_account-IsMode_example :
    IsMode
      (hit (some 4) ∷ hit none ∷ [])
      (mode_account hundredths (λ l. l) (hit (some 4) ∷ hit none ∷ [])).choice.id
    × ((mode_account hundredths (λ l. l) (hit (some 4) ∷ hit none ∷ [])).share
        ≡ hundredths.ratio
            (count_of
              (mode_account hundredths (λ l. l) (hit (some 4) ∷ hit none ∷ [])).choice.id
              (hit (some 4) ∷ hit none ∷ []))
            (length (hit (some 4) ∷ hit none ∷ [])))
mode_account-IsMode_example =
    mode_account-IsMode (λ l. l) same_order (hit (some 4)) (hit none ∷ []) hundredths

-- An engine whose model is out and whose tables are empty.
abbrev out_engine : Engine hundredths
out_engine = record {
  threshold = 85;
  fts_top_k = 10;
  tier_refund = λ s. missed;
  query_merchant_lookup = λ merchant. missed;
  search = λ query type excluded limit. some [];
  in_map_order = λ l. l;
  model = some (λ s one two x. unavailable);
}

abbrev coffee : StagedRow
coffee = record {
  fold_uuid = str "u";
  narration = [];
  mode = str "UPI";
  type = str "OUTGOING";
  merchant_extracted = str "cafe";
  amount_paise = 4500;
  currency = str "INR";
  txn_timestamp = str "2026";
  raw_payload = str "{}";
}

classify_one-IsStandIn_example :
    IsStandIn hundredths
      (tier_one_merchant_lookup hundredths out_engine coffee no_exclusion)
      (tier_two_fts_vote hundredths out_engine coffee no_exclusion)
      (classify_one hundredths out_engine coffee no_exclusion)
classify_one-IsStandIn_example =
    classify_one-IsStandIn hundredths out_engine coffee no_exclusion (λ s one two x. unavailable)
      refl (λ one two. refl) refl

abbrev the_card : FireflyAsset
the_card = record { id = 3; name = str "ixigo au"; account_number = []; role = [] }

abbrev other_card : FireflyAsset
other_card = record { id = 5; name = str "axis ace"; account_number = []; role = [] }

abbrev cards : List FireflyAsset
cards = other_card ∷ the_card ∷ []

abbrev the_account : FoldAccountRef
the_account = record {
  id = str "f";
  kind = str "CREDIT_CARD";
  name = str "AU Ixigo";
  provider = str "AU";
  network = [];
  last_four = [];
  is_closed = false;
}

abbrev no_labels : Labels
no_labels = record {
  source_account_id = none;
  source_account_name = none;
  destination_account_id = none;
  destination_account_name = none;
  category_id = none;
  budget_id = none;
  description = none;
  txn_type = none;
}

abbrev pub new_row : TableRow hundredths
new_row = record {
  fold_uuid = str "u";
  status = pending;
  mode = str "UPI";
  type = str "OUTGOING";
  narration = [];
  merchant_extracted = some (str "cafe");
  amount_paise = 4500;
  currency = str "INR";
  txn_timestamp = str "2026";
  raw_payload = str "{}";
  confirmed = no_labels;
  confirmed_tags = none;
  confirmed_refund_of = none;
  proposed = no_labels;
  proposed_tags = none;
  proposed_refund_of = none;
  classifier_tier = none;
  classifier_confidence = none;
  classifier_evidence = none;
  classifier_model = none;
  classifier_version = none;
  hold_by = none;
  hold_reason = none;
  is_classified = false;
}

abbrev sent_row : TableRow hundredths
sent_row = record new_row { fold_uuid = str "v"; status = pushed }

abbrev two_rows : Table hundredths
two_rows = record { rows = new_row ∷ sent_row ∷ []; released = λ u. false }

abbrev pub setting : Setting hundredths
setting = record {
  engine = out_engine;
  version = 1;
  cut_mask = λ s. s;
  lookup_fold_account = λ raw. some the_account;
  assets = cards;
  reset_fails = λ u. false;
  apply_fails = λ u. false;
}

differ : str "u" ≡ str "v" → ⊥
unfolding str_eq
differ e = cc ((str_eq_iff (str "u") (str "v")).1 e)

classify_matching_keeps_example :
    table_row hundredths
      (str "v")
      (classify_matching hundredths setting (selected (str "v" ∷ [])) two_rows).table.rows
    ≡ some sent_row
unfolding table_row str_eq
classify_matching_keeps_example =
    classify_matching_keeps hundredths setting (selected (str "v" ∷ [])) two_rows sent_row refl
      ((λ e. absurd (differ e)), ((λ e. refl), tt)) (inl refl)

classify_matching-IsStep_example :
    IsStep hundredths two_rows (classify_matching hundredths setting pending_only two_rows).table
classify_matching-IsStep_example = classify_matching-IsStep hundredths setting pending_only two_rows

classify_and_apply-Listed_example :
    ((q : TableRow hundredths) × (table_row hundredths
          (str "u")
          (classify_and_apply hundredths setting coffee two_rows no_report).table.rows
        ≡ some q)
      × IsFresh hundredths q)
    × Listed (str "u") (
        fetch_staged_for_classify hundredths pending_only
          (classify_and_apply hundredths setting coffee two_rows no_report).table)
unfolding table_row str_eq classify_one tier_one_merchant_lookup tier_two_fts_vote fields is_space
classify_and_apply-Listed_example =
    classify_and_apply-Listed hundredths setting coffee two_rows no_report new_row refl refl refl
      (λ e. cc e)

abbrev decision : Decision hundredths
decision = record {
  tier = merchant_lookup;
  confidence = 90;
  txn_type = [];
  destination_account_id = none;
  destination_account_name = str "Cafe";
  source_account_id = some 5;
  source_account_name = str "axis ace";
  category_id = none;
  category_name = [];
  budget_id = none;
  budget_name = [];
  description = [];
  tags = [];
  refund_of = [];
  engine = [];
  hold = [];
  evidence = record {
    tier = merchant_lookup;
    merchant_normalized = [];
    lookup_hit = none;
    fts_hits = [];
    note = [];
  };
}

abbrev linked_decision : Decision hundredths
linked_decision = record decision { destination_account_id = some 9 }

decided_row-IsMatched_example :
    (coffee.type ≡ str "OUTGOING"
      → IsMatched
          (λ s. s)
          the_account
          cards
          (decided_row hundredths 85 1 false
            (resolve_own_side hundredths
              (λ s. s)
              (λ raw. some the_account)
              cards
              coffee
              linked_decision)
            new_row).proposed.source_account_id)
    × (coffee.type ≡ str "INCOMING"
        → IsMatched
            (λ s. s)
            the_account
            cards
            (decided_row hundredths 85 1 false
              (resolve_own_side hundredths
                (λ s. s)
                (λ raw. some the_account)
                cards
                coffee
                linked_decision)
              new_row).proposed.destination_account_id)
unfolding decided_row resolve_own_side match_fold_card str_eq trim_space is_human_review join fields
    to_lower
decided_row-IsMatched_example =
    decided_row-IsMatched hundredths (λ s. s) (λ raw. some the_account) cards coffee the_account
      refl refl 85 1 false linked_decision new_row refl

keep_decision_counts_new_names_example :
    ((keep_decision hundredths setting coffee decision two_rows no_report).report.auto_classified
      ≡ 1)
    × ((q : TableRow hundredths) × (table_row hundredths
            (str "u")
            (keep_decision hundredths setting coffee decision two_rows no_report).table.rows
          ≡ some q)
        × (q.status ≡ needs_review))
unfolding table_row str_eq resolve_own_side is_human_review new_destination trim_space
    match_fold_card join fields to_lower
keep_decision_counts_new_names_example =
    keep_decision_counts_new_names hundredths setting coffee decision two_rows no_report new_row
      refl refl refl refl (inl refl)
