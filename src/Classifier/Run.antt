-- ===== src/Classifier/Run.antt =====
-- internal/integration/classifier/classifier.go: the runs over the staged rows, ClassifyPending and
-- its wider scopes, one row after another.
pub mod Outside
pub mod Kept
pub mod Report
pub mod Retried
pub mod Named
use texas_fold_em.Common.{
  ℕ, suc, Bool, true, false, not, ◌&&◌, ◌||◌, Option, none, some, List, [], ◌∷◌, if◌then◌else◌,
  is_some,
}
use texas_fold_em.Common.Text.{Str, str, str_eq}
use texas_fold_em.Common.Order.{str_lt, sort_by}
use texas_fold_em.Push.Row.{
  Status, pending, needs_review, ready_to_push, pushed, skipped, text_of, Labels,
}
use texas_fold_em.Classifier.Decision.{
  Floats, Tier, merchant_lookup, fts_vote, human_review, refund, Decision, StagedRow, Exclusion,
}
use texas_fold_em.Classifier.Tiers.{
  Engine, Classified, decided, deferred, broken, classify_one, is_human_review,
}
use texas_fold_em.Classifier.Cards.{FoldAccountRef, FireflyAsset}
use texas_fold_em.Classifier.Apply.{
  TableRow, Table, apply_decision, reset_to_pending, resolve_own_side,
}

-- classifyScope, and the rows that the review page selects.
pub data Scope : Type 0 where
  pending_only include_review all_unconfirmed : Scope
  selected : List Str → Scope

pub record ClassifyReport : Type 0 where
  pub examined : ℕ
  pub auto_classified : ℕ
  pub needs_review : ℕ
  pub deferred : ℕ
  pub tier1_hits : ℕ
  pub tier2_hits : ℕ
  pub refund_hits : ℕ

abbrev pub no_report : ClassifyReport
no_report = record {
  examined = 0;
  auto_classified = 0;
  needs_review = 0;
  deferred = 0;
  tier1_hits = 0;
  tier2_hits = 0;
  refund_hits = 0;
}

-- What a run is made with: the tiers, the mirrors, and the statements that fail.
pub record Setting (f : Floats) : Type 0 where
  pub engine : Engine f
  pub version : ℕ
  pub cut_mask : Str → Str
  pub lookup_fold_account : Str → Option FoldAccountRef
  pub assets : List FireflyAsset
  pub reset_fails : Str → Bool
  pub apply_fails : Str → Bool

abbrev pub no_exclusion : Exclusion
no_exclusion = record { fold_uuid = []; firefly_id = 0; account_id = 0 }

is_pending : Status → Bool
is_pending pending = true
is_pending other = false

is_review : Status → Bool
is_review needs_review = true
is_review other = false

is_ready : Status → Bool
is_ready ready_to_push = true
is_ready other = false

is_pushed : Status → Bool
is_pushed pushed = true
is_pushed other = false

unfoldable pub no_human_edits : Labels → Bool
no_human_edits l =
    not (is_some l.destination_account_id)
    && not (is_some l.source_account_id)
    && not (is_some l.category_id)
    && not (is_some l.budget_id)
    && not (is_some l.description)

selects : Str → List Str → Bool
selects u [] = false
selects u (v ∷ l) = str_eq u v || selects u l

count_tier : Tier → ClassifyReport → ClassifyReport
count_tier merchant_lookup report = record report { tier1_hits = suc report.tier1_hits }
count_tier fts_vote report = record report { tier2_hits = suc report.tier2_hits }
count_tier refund report = record report { refund_hits = suc report.refund_hits }
count_tier other report = report

count_outcome : Bool → ClassifyReport → ClassifyReport
count_outcome true report = record report { needs_review = suc report.needs_review }
count_outcome false report = record report { auto_classified = suc report.auto_classified }

module _ (f : Floats) where
  -- The WHERE clause of a scope.
  unfoldable pub in_scope : Scope → TableRow f → Bool
  unfolding is_pending is_review is_ready is_pushed selects no_human_edits
  in_scope pending_only r = is_pending r.status
  in_scope include_review r =
      is_pending r.status || (is_review r.status && no_human_edits r.confirmed)
  in_scope all_unconfirmed r =
      is_pending r.status
      || ((is_review r.status || is_ready r.status) && no_human_edits r.confirmed)
  in_scope (selected uuids) r = selects r.fold_uuid uuids && not (is_pushed r.status)

  unfoldable pub is_fetched : Scope → TableRow f → Bool
  unfolding in_scope
  is_fetched scope r = in_scope scope r && not (str_eq r.mode (str "MANUAL"))

  slim : TableRow f → StagedRow
  slim r = record {
    fold_uuid = r.fold_uuid;
    narration = r.narration;
    mode = r.mode;
    type = r.type;
    merchant_extracted = text_of r.merchant_extracted;
    amount_paise = r.amount_paise;
    currency = r.currency;
    txn_timestamp = r.txn_timestamp;
    raw_payload = r.raw_payload;
  }

  unfoldable pub matching : Scope → List (TableRow f) → List StagedRow
  unfolding is_fetched slim
  matching scope [] = []
  matching scope (r ∷ rows) =
      let rest = matching scope rows in if is_fetched scope r then slim r ∷ rest else rest

  -- fetchStagedForClassify.
  unfoldable pub fetch_staged_for_classify : Scope → Table f → List StagedRow
  unfolding matching
  fetch_staged_for_classify scope t =
      sort_by (λ a b. str_lt b.txn_timestamp a.txn_timestamp) (matching scope t.rows)

  -- The counts of a row that was decided.
  unfoldable pub count_decision : f.Real → Decision f → ClassifyReport → ClassifyReport
  unfolding count_tier count_outcome
  count_decision threshold d report =
      count_outcome (is_human_review d.tier || f.below d.confidence threshold)
        (count_tier d.tier report)

  -- The table and the report, and whether the run goes on.
  pub record Progress : Type 0 where
    pub table : Table f
    pub report : ClassifyReport
    pub goes_on : Bool

  unfoldable pub keep_decision :
      Setting f → StagedRow → Decision f → Table f → ClassifyReport → Progress
  unfolding apply_decision count_decision resolve_own_side
  keep_decision c s d t report =
      let own = resolve_own_side f c.cut_mask c.lookup_fold_account c.assets s d in
      if c.apply_fails s.fold_uuid
      then record { table = t; report = report; goes_on = false }
      else record {
        table = apply_decision f c.engine.threshold c.version s.fold_uuid own t;
        report = count_decision c.engine.threshold own report;
        goes_on = true;
      }

  -- What becomes of a row that was classified.
  unfoldable pub after_classify :
      Setting f → StagedRow → Classified f → Table f → ClassifyReport → Progress
  unfolding keep_decision reset_to_pending
  after_classify c s (decided d) t report = keep_decision c s d t report
  after_classify c s deferred t report = record {
    table = if c.reset_fails s.fold_uuid then t else reset_to_pending f s.fold_uuid t;
    report = record report { deferred = suc report.deferred };
    goes_on = true;
  }
  after_classify c s broken t report = record { table = t; report = report; goes_on = true }

  -- classifyAndApply.
  unfoldable pub classify_and_apply : Setting f → StagedRow → Table f → ClassifyReport → Progress
  unfolding after_classify
  classify_and_apply c s t report =
      after_classify c s (classify_one f c.engine s no_exclusion) t
        (record report { examined = suc report.examined })

  -- runClassify, on one row after another.
  unfoldable pub run_classify : Setting f → List StagedRow → Table f → ClassifyReport → Progress
  unfolding classify_and_apply
  run_classify c [] t report = record { table = t; report = report; goes_on = true }
  run_classify c (s ∷ staged) t report =
      let p = classify_and_apply c s t report in
      let rest = run_classify c staged p.table p.report in if p.goes_on then rest else p

  -- classifyMatching, and ReclassifyUUIDs. The read does not fail here.
  unfoldable pub classify_matching : Setting f → Scope → Table f → Progress
  unfolding run_classify fetch_staged_for_classify
  classify_matching c scope t = run_classify c (fetch_staged_for_classify scope t) t no_report
