-- ===== src/Classifier/Run/Report.antt =====
-- internal/integration/classifier/classifier.go: the counts of a run.
use texas_fold_em.Common.{
  ℕ, suc, ◌+◌, ◌≤◌, ◌≡◌, refl, Bool, true, false, List, [], ◌∷◌, arith, length, Bool-cases, inl,
  inr,
}
use texas_fold_em.Classifier.Decision.{
  Floats, Tier, merchant_lookup, fts_vote, model, human_review, refund, StagedRow,
}
use texas_fold_em.Classifier.Tiers.{classify_one, Classified, decided, deferred, broken}
use texas_fold_em.Classifier.Apply.{Table, resolve_own_side}
use texas_fold_em.Classifier.Run.{
  Scope, Setting, fetch_staged_for_classify, classify_and_apply, after_classify, keep_decision,
  run_classify, classify_matching, ClassifyReport, no_report, no_exclusion, count_decision,
  count_tier, count_outcome,
}

-- The counts of a run over rows that were examined, and no more than the rows there were.
pub record IsTally (rows : ℕ) (report : ClassifyReport) : Type 0 where
  pub outcomes : report.auto_classified + report.needs_review + report.deferred ≤ report.examined
  pub tiers :
      report.tier1_hits + report.tier2_hits + report.refund_hits
      ≤ report.auto_classified + report.needs_review
  pub examined : report.examined ≤ rows

count_tier_outcome :
    (tier : Tier) (b : Bool) (n : ℕ) (report : ClassifyReport)
    → IsTally n report
    → suc report.examined ≤ n
    → IsTally n
        (count_outcome b (count_tier tier (record report { examined = suc report.examined })))
unfolding count_outcome count_tier
count_tier_outcome merchant_lookup true n report h k = ground arith
count_tier_outcome merchant_lookup false n report h k = ground arith
count_tier_outcome fts_vote true n report h k = ground arith
count_tier_outcome fts_vote false n report h k = ground arith
count_tier_outcome model true n report h k = ground arith
count_tier_outcome model false n report h k = ground arith
count_tier_outcome human_review true n report h k = ground arith
count_tier_outcome human_review false n report h k = ground arith
count_tier_outcome refund true n report h k = ground arith
count_tier_outcome refund false n report h k = ground arith

module _ (f : Floats) where
  after_classify-IsTally :
      (c : Setting f) (s : StagedRow) (o : Classified f) (t : Table f) (n : ℕ)
      (report : ClassifyReport)
      → IsTally n report
      → suc report.examined ≤ n
      → IsTally n
          (after_classify f c s o t (record report { examined = suc report.examined })).report
  unfolding after_classify keep_decision count_decision
  after_classify-IsTally c s (decided d) t n report h k =
      let own = resolve_own_side f c.cut_mask c.lookup_fold_account c.assets s d in
      elim (Bool-cases (c.apply_fails s.fold_uuid)) [
        | inl e ↦ rw e (ground arith)
        | inr e ↦ rw e (count_tier_outcome own.tier _ n report h k)
      ]
  after_classify-IsTally c s deferred t n report h k = ground arith
  after_classify-IsTally c s broken t n report h k = ground arith

  after_classify_examined :
      (c : Setting f) (s : StagedRow) (o : Classified f) (t : Table f) (report : ClassifyReport)
      → (after_classify f c s o t report).report.examined ≡ report.examined
  unfolding after_classify keep_decision count_decision count_outcome count_tier
  after_classify_examined c s (decided d) t report = ground arith
  after_classify_examined c s deferred t report = refl
  after_classify_examined c s broken t report = refl

  run_classify-IsTally :
      (c : Setting f) (staged : List StagedRow) (t : Table f) (n : ℕ) (report : ClassifyReport)
      → IsTally n report
      → report.examined + length staged ≤ n
      → IsTally n (run_classify f c staged t report).report
  unfolding run_classify classify_and_apply
  run_classify-IsTally c [] t n report h k = h
  run_classify-IsTally c (s ∷ staged) t n report h k =
      let p = classify_and_apply f c s t report in
      let o = classify_one f c.engine s no_exclusion in
      let first = after_classify-IsTally c s o t n report h (omega arith) in
      elim (Bool-cases p.goes_on) [
        | inl e ↦ rw e (
            run_classify-IsTally c staged p.table n p.report first (
              omega (
                arith,
                after_classify_examined c s o t (record report { examined = suc report.examined }),
              )))
        | inr e ↦ rw e first
      ]

  -- A run examines at most the rows that it fetched; those that it classified, sent to review or
  -- deferred are at most those examined, and the hits of the tiers at most those decided.
  classify_matching-IsTally :
      (c : Setting f) (scope : Scope) (t : Table f)
      → IsTally
          (length (fetch_staged_for_classify f scope t))
          (classify_matching f c scope t).report
  unfolding classify_matching
  classify_matching-IsTally c scope t =
      run_classify-IsTally c (fetch_staged_for_classify f scope t) t _ no_report (ground arith)
        (omega arith)
