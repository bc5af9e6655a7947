-- ===== src/Classifier/Apply.antt =====
-- internal/integration/classifier/classifier.go: what a decision writes to the row's columns.
pub mod Accepted
use texas_fold_em.Common.{
  ℕ, Bool, true, false, not, ◌&&◌, ◌||◌, Option, none, some, List, [], ◌∷◌, map, if◌then◌else◌,
  is_some,
}
use texas_fold_em.Common.Text.{Str, str, str_eq, is_empty, trim_space}
use texas_fold_em.Push.Row.{Labels, Status, pending, needs_review, ready_to_push}
use texas_fold_em.Classifier.Decision.{
  Floats, Tier, merchant_lookup, fts_vote, model, human_review, refund, Evidence, Decision,
  StagedRow,
}
use texas_fold_em.Classifier.Tiers.{is_human_review}
use texas_fold_em.Classifier.Cards.{FoldAccountRef, FireflyAsset, match_fold_card}

-- The columns of staged_fold_txns that the classifier reads or writes. The evidence and the tags,
-- which are stored as JSON, stand as they are.
pub record TableRow (f : Floats) : Type 0 where
  pub fold_uuid : Str
  pub status : Status
  pub mode : Str
  pub type : Str
  pub narration : Str
  pub merchant_extracted : Option Str
  pub amount_paise : ℕ
  pub currency : Str
  pub txn_timestamp : Str
  pub raw_payload : Str
  pub confirmed : Labels
  pub confirmed_tags : Option (List Str)
  pub confirmed_refund_of : Option Str
  pub proposed : Labels
  pub proposed_tags : Option (List Str)
  pub proposed_refund_of : Option Str
  pub classifier_tier : Option Tier
  pub classifier_confidence : Option f.Real
  pub classifier_evidence : Option (Evidence f)
  pub classifier_model : Option Str
  pub classifier_version : Option ℕ
  pub hold_by : Option Str
  pub hold_reason : Option Str
  pub is_classified : Bool

-- The table, and the rows on which review_feedback has a release.
pub record Table (f : Floats) : Type 0 where
  pub rows : List (TableRow f)
  pub released : Str → Bool

unfoldable pub nullable_string : Str → Option Str
nullable_string s = if is_empty s then none else some s

module _ (f : Floats) where
  unfoldable pub table_row : Str → List (TableRow f) → Option (TableRow f)
  table_row u [] = none
  table_row u (r ∷ rows) =
      let rest = table_row u rows in if str_eq r.fold_uuid u then some r else rest

  -- UPDATE ... WHERE fold_uuid = ?
  unfoldable pub update_rows :
      Str → (TableRow f → TableRow f) → List (TableRow f) → List (TableRow f)
  update_rows u change [] = []
  update_rows u change (r ∷ rows) =
      (if str_eq r.fold_uuid u then change r else r) ∷ update_rows u change rows

  unfoldable pub new_destination : Decision f → Bool
  new_destination d =
      not (is_some d.destination_account_id)
      && not (is_empty (trim_space d.destination_account_name))

  unfoldable pub new_source : Decision f → Bool
  new_source d =
      not (is_some d.source_account_id) && not (is_empty (trim_space d.source_account_name))

  unfoldable pub status_for : f.Real → Decision f → Status
  unfolding new_destination new_source
  status_for threshold d =
      if is_human_review d.tier
        || f.below d.confidence threshold
        || new_destination d
        || new_source d
      then needs_review
      else ready_to_push

  -- EngineVersion, a constant of learning.go, is an argument.
  engine_version_for : ℕ → Decision f → ℕ
  engine_version_for version d = elim d.tier [
    | model ↦ version
    | refund ↦ version
    | other ↦ if is_empty d.engine then 0 else version
  ]

  -- The condition foldMayHold.
  unfoldable pub fold_may_hold : Bool → Decision f → TableRow f → Bool
  fold_may_hold released d r = not (is_empty d.hold) && not (is_some r.hold_reason) && not released

  unfoldable pub decided_row : f.Real → ℕ → Bool → Decision f → TableRow f → TableRow f
  unfolding status_for engine_version_for fold_may_hold nullable_string
  decided_row threshold version released d r = record r {
    status = status_for threshold d;
    classifier_tier = some d.tier;
    classifier_confidence = some d.confidence;
    classifier_evidence = some d.evidence;
    proposed = record {
      source_account_id = d.source_account_id;
      source_account_name = nullable_string (trim_space d.source_account_name);
      destination_account_id = d.destination_account_id;
      destination_account_name =
          if new_destination d then some (trim_space d.destination_account_name) else none;
      category_id = d.category_id;
      budget_id = d.budget_id;
      description = nullable_string d.description;
      txn_type = nullable_string d.txn_type;
    };
    proposed_tags = elim d.tags [ [] ↦ r.proposed_tags | t ∷ l ↦ some (t ∷ l) ];
    proposed_refund_of = nullable_string d.refund_of;
    classifier_model = nullable_string d.engine;
    classifier_version = some (engine_version_for version d);
    hold_by = if fold_may_hold released d r then some (str "fold") else r.hold_by;
    hold_reason = if fold_may_hold released d r then some d.hold else r.hold_reason;
    is_classified = true;
  }

  -- ApplyDecision, where the statement succeeds.
  unfoldable pub apply_decision : f.Real → ℕ → Str → Decision f → Table f → Table f
  unfolding decided_row
  apply_decision threshold version u d t = record t {
    rows = update_rows u (decided_row threshold version (t.released u) d) t.rows;
  }

  unfoldable pub reset_row : TableRow f → TableRow f
  reset_row r = record r {
    status = pending;
    classifier_tier = none;
    classifier_confidence = none;
    classifier_evidence = none;
    proposed = record r.proposed {
      source_account_id = none;
      destination_account_id = none;
      category_id = none;
      budget_id = none;
      description = none;
      txn_type = none;
    };
    proposed_tags = none;
    proposed_refund_of = none;
    is_classified = false;
  }

  -- resetToPending, where the statement succeeds.
  unfoldable pub reset_to_pending : Str → Table f → Table f
  unfolding reset_row
  reset_to_pending u t = record t { rows = update_rows u reset_row t.rows }

  with_destination : Option FireflyAsset → Str → Decision f → Decision f
  with_destination (some a) name d = record d {
    destination_account_id = some a.id;
    destination_account_name = a.name;
  }
  with_destination none name d = record d {
    destination_account_id = none;
    destination_account_name = name;
  }

  with_source : Option FireflyAsset → Str → Decision f → Decision f
  with_source (some a) name d = record d {
    source_account_id = some a.id;
    source_account_name = a.name;
  }
  with_source none name d = record d { source_account_id = none; source_account_name = name }

  -- resolveOwnSide, by the account that the payload names, if it is mirrored, and the user's assets.
  unfoldable pub resolve_own_side :
      (Str → Str)
      → (Str → Option FoldAccountRef)
      → List FireflyAsset
      → StagedRow
      → Decision f
      → Decision f
  unfolding with_destination with_source
  resolve_own_side cut_mask lookup assets s d = elim (lookup s.raw_payload) [
    | none ↦ d
    | some account ↦
        if is_empty account.name
        then d
        else if str_eq s.type (str "INCOMING")
        then with_destination (match_fold_card cut_mask account assets) account.name d
        else if str_eq s.type (str "OUTGOING")
        then with_source (match_fold_card cut_mask account assets) account.name d
        else d
  ]
