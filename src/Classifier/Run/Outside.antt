-- ===== src/Classifier/Run/Outside.antt =====
-- internal/integration/classifier/classifier.go: the rows that a run leaves alone.
use texas_fold_em.Common.{
  ◌≡◌, ◌≢◌, refl, false, ◌⊎◌, inl, inr, none, some, List, [], ◌∷◌, arith, All, Bool-cases, ap, ◌∙◌,
  suc,
}
use texas_fold_em.Common.Text.{Str, str, str_eq, str_eq_sound, str_eq_refl}
use texas_fold_em.Common.Order.{sort_by-All}
use texas_fold_em.Push.Row.{pending, pushed, skipped, Labels}
use texas_fold_em.Classifier.Decision.{Floats, StagedRow}
use texas_fold_em.Classifier.Tiers.{classify_one, Classified, decided, deferred, broken}
use texas_fold_em.Classifier.Apply.{
  TableRow, Table, table_row, update_rows, apply_decision, reset_to_pending, decided_row, reset_row,
  resolve_own_side,
}
use texas_fold_em.Classifier.Run.{
  Scope, pending_only, include_review, all_unconfirmed, selected, Setting, is_fetched, in_scope,
  matching, fetch_staged_for_classify, classify_and_apply, after_classify, keep_decision,
  run_classify, classify_matching, ClassifyReport, no_report, no_human_edits, no_exclusion,
  is_pending, is_review, is_ready, is_pushed, slim,
}

-- A person set one of the fields that the runs look at: not the name of an account.
abbrev pub HasEdit : Labels → Type 0
HasEdit l =
    (l.destination_account_id ≢ none)
    ⊎ (l.source_account_id ≢ none)
    ⊎ (l.category_id ≢ none)
    ⊎ (l.budget_id ≢ none)
    ⊎ (l.description ≢ none)

module _ (f : Floats) where
  abbrev pub IsSettled : Scope → TableRow f → Type 0
  IsSettled (selected uuids) r = (r.status ≡ pushed) ⊎ (r.mode ≡ str "MANUAL")
  IsSettled other r =
      (r.status ≡ pushed)
      ⊎ (r.status ≡ skipped)
      ⊎ (r.mode ≡ str "MANUAL")
      ⊎ ((r.status ≢ pending) × HasEdit r.confirmed)

  manual_is_not_fetched :
      (scope : Scope) (r : TableRow f) → r.mode ≡ str "MANUAL" → is_fetched f scope r ≡ false
  unfolding is_fetched
  manual_is_not_fetched scope r e =
      ground (arith, ap (λ m. str_eq m (str "MANUAL")) e, str_eq_refl (str "MANUAL"))

  edited_has_edits : (l : Labels) → HasEdit l → no_human_edits l ≡ false
  unfolding no_human_edits
  edited_has_edits l h = ground arith

  out_of_scope_is_not_fetched :
      (scope : Scope) (r : TableRow f) → in_scope f scope r ≡ false → is_fetched f scope r ≡ false
  unfolding is_fetched
  out_of_scope_is_not_fetched scope r e = ground (arith, e)

  settled_is_not_fetched :
      (scope : Scope) (r : TableRow f) → IsSettled scope r → is_fetched f scope r ≡ false
  unfolding in_scope is_pending is_review is_ready is_pushed
  settled_is_not_fetched pending_only r h =
      ground
        (arith, manual_is_not_fetched pending_only r, out_of_scope_is_not_fetched pending_only r)
  settled_is_not_fetched include_review r h = ground (
    arith,
    manual_is_not_fetched include_review r,
    out_of_scope_is_not_fetched include_review r,
    edited_has_edits r.confirmed,
  )
  settled_is_not_fetched all_unconfirmed r h = ground (
    arith,
    manual_is_not_fetched all_unconfirmed r,
    out_of_scope_is_not_fetched all_unconfirmed r,
    edited_has_edits r.confirmed,
  )
  settled_is_not_fetched (selected uuids) r h = ground (
    arith,
    manual_is_not_fetched (selected uuids) r,
    out_of_scope_is_not_fetched (selected uuids) r,
  )

  pub table_row-update_rows :
      (u v : Str) (change : TableRow f → TableRow f) (rows : List (TableRow f))
      → ((r : TableRow f) → (change r).fold_uuid ≡ r.fold_uuid)
      → v ≢ u
      → table_row f u (update_rows f v change rows) ≡ table_row f u rows
  unfolding table_row update_rows
  table_row-update_rows u v change [] k n = refl
  table_row-update_rows u v change (r ∷ rows) k n = ground (
    arith,
    k r,
    n,
    str_eq_sound r.fold_uuid v,
    str_eq_sound r.fold_uuid u,
    table_row-update_rows u v change rows k n,
  )

  after_classify_elsewhere :
      (c : Setting f) (s : StagedRow) (o : Classified f) (t : Table f) (report : ClassifyReport)
      (u : Str)
      → s.fold_uuid ≢ u
      → table_row f u (after_classify f c s o t report).table.rows ≡ table_row f u t.rows
  unfolding after_classify keep_decision apply_decision reset_to_pending decided_row reset_row
  after_classify_elsewhere c s (decided d) t report u n =
      let own = resolve_own_side f c.cut_mask c.lookup_fold_account c.assets s d in
      ground (
        arith,
        table_row-update_rows u s.fold_uuid
            (decided_row f c.engine.threshold c.version (t.released s.fold_uuid) own) t.rows
            (λ r. refl) n,
      )
  after_classify_elsewhere c s deferred t report u n =
      ground (arith, table_row-update_rows u s.fold_uuid (reset_row f) t.rows (λ r. refl) n)
  after_classify_elsewhere c s broken t report u n = refl

  run_classify_elsewhere :
      (c : Setting f) (staged : List StagedRow) (t : Table f) (report : ClassifyReport) (u : Str)
      → All (λ s. s.fold_uuid ≢ u) staged
      → table_row f u (run_classify f c staged t report).table.rows ≡ table_row f u t.rows
  unfolding run_classify classify_and_apply
  run_classify_elsewhere c [] t report u h = refl
  run_classify_elsewhere c (s ∷ staged) t report u h =
      let p = classify_and_apply f c s t report in
      let first =
        after_classify_elsewhere c s (classify_one f c.engine s no_exclusion) t
          (record report { examined = suc report.examined }) u h.0 in
      ground (arith, first, run_classify_elsewhere c staged p.table p.report u h.1)

  matching_elsewhere :
      (scope : Scope) (r : TableRow f) (rows : List (TableRow f))
      → All (λ s. s.fold_uuid ≡ r.fold_uuid → s ≡ r) rows
      → is_fetched f scope r ≡ false
      → All (λ s. s.fold_uuid ≢ r.fold_uuid) (matching f scope rows)
  unfolding matching slim
  matching_elsewhere scope r [] k h = tt
  matching_elsewhere scope r (q ∷ rows) k h = elim (Bool-cases (is_fetched f scope q)) [
    | inl e ↦ rw e ((λ same. absurd (cc (e, h, k.0 same))), matching_elsewhere scope r rows k.1 h)
    | inr e ↦ rw e (matching_elsewhere scope r rows k.1 h)
  ]

  -- A run of ClassifyPending, of the reclassification of what awaits review or of all that nobody
  -- confirmed, leaves every pushed, skipped or hand-made row as it is, and every classified row in
  -- which a person set an account by id, a category, a budget or a description (an account set by its
  -- name alone does not count); a run over selected rows leaves the pushed and the hand-made ones.
  -- Whatever the tiers answer and whichever writes fail;
  -- the row's id is the key of the table.
  pub classify_matching_keeps :
      (c : Setting f) (scope : Scope) (t : Table f) (r : TableRow f)
      → table_row f r.fold_uuid t.rows ≡ some r
      → All (λ s. s.fold_uuid ≡ r.fold_uuid → s ≡ r) t.rows
      → IsSettled scope r
      → table_row f r.fold_uuid (classify_matching f c scope t).table.rows ≡ some r
  unfolding classify_matching fetch_staged_for_classify
  classify_matching_keeps c scope t r e k h =
      run_classify_elsewhere c (fetch_staged_for_classify f scope t) t no_report r.fold_uuid (
        sort_by-All (λ s. s.fold_uuid ≢ r.fold_uuid) _ (matching f scope t.rows)
          (matching_elsewhere scope r t.rows k (settled_is_not_fetched scope r h)))
      ∙ e
