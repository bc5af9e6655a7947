-- ===== src/Classifier/Run/Named.antt =====
-- internal/integration/classifier/classifier.go: how a run counts a decision that names a new account.
use texas_fold_em.Common.{
  suc, ◌≡◌, refl, true, false, ◌⊎◌, arith, some, List, [], ◌∷◌, Bool-cases, inl, inr,
}
use texas_fold_em.Common.Text.{Str, str_eq}
use texas_fold_em.Push.Row.{needs_review}
use texas_fold_em.Classifier.Decision.{
  Floats, Tier, merchant_lookup, fts_vote, model, human_review, refund, Decision, StagedRow,
}
use texas_fold_em.Classifier.Tiers.{is_human_review}
use texas_fold_em.Classifier.Apply.{
  TableRow, Table, table_row, update_rows, apply_decision, decided_row, status_for, new_destination,
  new_source, resolve_own_side,
}
use texas_fold_em.Classifier.Run.{
  Setting, keep_decision, ClassifyReport, count_decision, count_tier, count_outcome,
}

count_tier_auto :
    (t : Tier) (report : ClassifyReport)
    → (count_tier t report).auto_classified ≡ report.auto_classified
unfolding count_tier
count_tier_auto merchant_lookup report = refl
count_tier_auto fts_vote report = refl
count_tier_auto model report = refl
count_tier_auto human_review report = refl
count_tier_auto refund report = refl

module _ (f : Floats) where
  pub table_row_decided :
      (u : Str) (change : TableRow f → TableRow f) (r : TableRow f) (rows : List (TableRow f))
      → ((q : TableRow f) → (change q).fold_uuid ≡ q.fold_uuid)
      → table_row f u rows ≡ some r
      → table_row f u (update_rows f u change rows) ≡ some (change r)
  unfolding table_row update_rows
  table_row_decided u change r [] k h = cc h
  table_row_decided u change r (q ∷ rows) k h = elim (Bool-cases (str_eq q.fold_uuid u)) [
    | inl e ↦ ground (arith, e, k q)
    | inr e ↦ ground (arith, e, k q, table_row_decided u change r rows k)
  ]

  -- A confident decision that names an account which Firefly does not have is counted as classified
  -- by itself, although its row goes to review.
  pub keep_decision_counts_new_names :
      (c : Setting f) (s : StagedRow) (d : Decision f) (t : Table f) (report : ClassifyReport)
      (r : TableRow f)
      → table_row f s.fold_uuid t.rows ≡ some r
      → c.apply_fails s.fold_uuid ≡ false
      → is_human_review (resolve_own_side f c.cut_mask c.lookup_fold_account c.assets s d).tier
        ≡ false
      → f.below
          (resolve_own_side f c.cut_mask c.lookup_fold_account c.assets s d).confidence
          c.engine.threshold
        ≡ false
      → (new_destination f (resolve_own_side f c.cut_mask c.lookup_fold_account c.assets s d)
          ≡ true)
        ⊎ (new_source f (resolve_own_side f c.cut_mask c.lookup_fold_account c.assets s d) ≡ true)
      → ((keep_decision f c s d t report).report.auto_classified ≡ suc report.auto_classified)
        × ((q : TableRow f) × (table_row f s.fold_uuid (keep_decision f c s d t report).table.rows
              ≡ some q)
            × (q.status ≡ needs_review))
  unfolding keep_decision apply_decision count_decision count_outcome decided_row status_for
  keep_decision_counts_new_names c s d t report r e ok tier confident new =
      let own = resolve_own_side f c.cut_mask c.lookup_fold_account c.assets s d in
      let change = decided_row f c.engine.threshold c.version (t.released s.fold_uuid) own in
      (
        ground (arith, count_tier_auto own.tier report),
        (
          change r,
          rw ok (table_row_decided s.fold_uuid change r t.rows (λ q. refl) e),
          ground arith,
        ),
      )
