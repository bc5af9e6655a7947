-- ===== src/Classifier/Run/Retried.antt =====
-- internal/integration/classifier/classifier.go: a row whose model is out.
use texas_fold_em.Common.{
  ◌≡◌, ◌≢◌, refl, Bool, true, false, none, some, List, [], ◌∷◌, arith, Bool-cases, ◌⊎◌, inl, inr,
}
use texas_fold_em.Common.Text.{Str, str, str_eq, str_eq_sound}
use texas_fold_em.Common.Order.{sort_by, insert_by}
use texas_fold_em.Push.Row.{pending}
use texas_fold_em.Classifier.Decision.{Floats, StagedRow}
use texas_fold_em.Classifier.Tiers.{classify_one, deferred}
use texas_fold_em.Classifier.Apply.{
  TableRow, Table, table_row, update_rows, reset_to_pending, reset_row,
}
use texas_fold_em.Classifier.Run.{
  Setting, pending_only, fetch_staged_for_classify, matching, is_fetched, in_scope, is_pending,
  slim, classify_and_apply, after_classify, ClassifyReport, no_exclusion,
}

-- The row is in the list.
abbrev pub Listed : Str → List StagedRow → Type 0
Listed u [] = ⊥
Listed u (s ∷ l) = (s.fold_uuid ≡ u) ⊎ Listed u l

insert_by-Listed :
    (before : StagedRow → StagedRow → Bool) (x : StagedRow) (l : List StagedRow) (u : Str)
    → Listed u (x ∷ l)
    → Listed u (insert_by before x l)
unfolding insert_by
insert_by-Listed before x [] u h = h
insert_by-Listed before x (y ∷ l) u h = ground (arith, insert_by-Listed before x l u)

sort_by-Listed :
    (before : StagedRow → StagedRow → Bool) (l : List StagedRow) (u : Str)
    → Listed u l
    → Listed u (sort_by before l)
unfolding sort_by
sort_by-Listed before [] u h = h
sort_by-Listed before (x ∷ l) u h =
    insert_by-Listed before x (sort_by before l) u
      (elim h [ inl e ↦ inl e | inr m ↦ inr (sort_by-Listed before l u m) ])

module _ (f : Floats) where
  -- Nothing is proposed, but for the names of two accounts, and no tier is on record with its
  -- confidence and its evidence.
  abbrev pub IsFresh : TableRow f → Type 0
  IsFresh r =
      (r.status ≡ pending)
      × (r.is_classified ≡ false)
      × (r.classifier_tier ≡ none)
      × (r.classifier_confidence ≡ none)
      × (r.classifier_evidence ≡ none)
      × (r.proposed.source_account_id ≡ none)
      × (r.proposed.destination_account_id ≡ none)
      × (r.proposed.category_id ≡ none)
      × (r.proposed.budget_id ≡ none)
      × (r.proposed.description ≡ none)
      × (r.proposed.txn_type ≡ none)
      × (r.proposed_tags ≡ none)
      × (r.proposed_refund_of ≡ none)

  table_row-reset :
      (u : Str) (r : TableRow f) (rows : List (TableRow f))
      → table_row f u rows ≡ some r
      → table_row f u (update_rows f u (reset_row f) rows) ≡ some (reset_row f r)
  unfolding table_row update_rows reset_row
  table_row-reset u r [] h = cc h
  table_row-reset u r (q ∷ rows) h = elim (Bool-cases (str_eq q.fold_uuid u)) [
    | inl e ↦ ground (arith, e)
    | inr e ↦ ground (arith, e, table_row-reset u r rows)
  ]

  is_fetched_pending :
      (r : TableRow f)
      → r.status ≡ pending
      → r.mode ≢ str "MANUAL"
      → is_fetched f pending_only r ≡ true
  unfolding is_fetched in_scope is_pending
  is_fetched_pending r h n = ground (arith, h, n, str_eq_sound r.mode (str "MANUAL"))

  matching-Listed :
      (u : Str) (r : TableRow f) (rows : List (TableRow f))
      → table_row f u rows ≡ some r
      → is_fetched f pending_only r ≡ true
      → Listed u (matching f pending_only rows)
  unfolding table_row matching slim
  matching-Listed u r [] h k = cc h
  matching-Listed u r (q ∷ rows) h k = elim (Bool-cases (str_eq q.fold_uuid u)) [
    | inl e ↦ ground (arith, e, h, k, str_eq_sound q.fold_uuid u)
    | inr e ↦ ground (arith, e, h, matching-Listed u r rows)
  ]

  -- A row that is deferred because the model is out, where the database takes the reset, ends
  -- pending and as not yet classified, with no tier, and nothing proposed but the names of two
  -- accounts; and the next run of ClassifyPending fetches it, unless a person made it by hand.
  pub classify_and_apply-Listed :
      (c : Setting f) (s : StagedRow) (t : Table f) (report : ClassifyReport) (r : TableRow f)
      → table_row f s.fold_uuid t.rows ≡ some r
      → classify_one f c.engine s no_exclusion ≡ deferred
      → c.reset_fails s.fold_uuid ≡ false
      → r.mode ≢ str "MANUAL"
      → ((q : TableRow f) × (table_row f s.fold_uuid (classify_and_apply f c s t report).table.rows
            ≡ some q)
          × IsFresh q)
        × Listed s.fold_uuid
            (fetch_staged_for_classify f pending_only (classify_and_apply f c s t report).table)
  unfolding classify_and_apply after_classify fetch_staged_for_classify reset_to_pending reset_row
  classify_and_apply-Listed c s t report r e d n m =
      let found = table_row-reset s.fold_uuid r t.rows e in
      rw (d, n)
        (
          (
            reset_row f r,
            found,
            (refl, refl, refl, refl, refl, refl, refl, refl, refl, refl, refl, refl, refl),
          ),
          sort_by-Listed _ _ s.fold_uuid (
              matching-Listed s.fold_uuid (reset_row f r) _ found
                (is_fetched_pending (reset_row f r) refl m)),
        )
