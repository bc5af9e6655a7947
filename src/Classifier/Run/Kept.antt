-- ===== src/Classifier/Run/Kept.antt =====
-- internal/integration/classifier/classifier.go: what a run keeps of every row, whichever it touches.
use texas_fold_em.Common.{
  ℕ, ◌≡◌, ◌≢◌, refl, sym, Bool, true, none, List, [], ◌∷◌, arith, Bool-cases, inl, inr, suc, ap,
  ◌∙◌, subst,
}
use texas_fold_em.Common.Text.{Str, str_eq, str_eq_sound}
use texas_fold_em.Classifier.Decision.{Floats, StagedRow, Decision}
use texas_fold_em.Classifier.Tiers.{classify_one, Classified, decided, deferred, broken}
use texas_fold_em.Classifier.Apply.{
  TableRow, Table, update_rows, apply_decision, reset_to_pending, decided_row, reset_row,
  resolve_own_side, fold_may_hold,
}
use texas_fold_em.Classifier.Run.{
  Scope, Setting, fetch_staged_for_classify, classify_and_apply, after_classify, keep_decision,
  run_classify, classify_matching, ClassifyReport, no_report, no_exclusion,
}

module _ (f : Floats) where
  -- Two lists of the same length, related row by row.
  abbrev pub Along :
      (TableRow f → TableRow f → Type 0) → List (TableRow f) → List (TableRow f) → Type 0
  Along R [] [] = Unit
  Along R [] (q ∷ l) = ⊥
  Along R (r ∷ k) [] = ⊥
  Along R (r ∷ k) (q ∷ l) = R r q × Along R k l

  abbrev pub SameHold : TableRow f → TableRow f → Type 0
  SameHold r q = (q.hold_reason ≡ r.hold_reason) × (q.hold_by ≡ r.hold_by)

  -- What came from Fold and from a person is the same, and so is a hold that was there, or any on a
  -- row that a person released.
  pub record IsKept (released : Str → Bool) (r q : TableRow f) : Type 0 where
    pub fold_uuid : q.fold_uuid ≡ r.fold_uuid
    pub mode : q.mode ≡ r.mode
    pub type : q.type ≡ r.type
    pub narration : q.narration ≡ r.narration
    pub merchant : q.merchant_extracted ≡ r.merchant_extracted
    pub currency : q.currency ≡ r.currency
    pub timestamp : q.txn_timestamp ≡ r.txn_timestamp
    pub amount : q.amount_paise ≡ r.amount_paise
    pub raw_payload : q.raw_payload ≡ r.raw_payload
    pub confirmed : q.confirmed ≡ r.confirmed
    pub confirmed_tags : q.confirmed_tags ≡ r.confirmed_tags
    pub confirmed_refund_of : q.confirmed_refund_of ≡ r.confirmed_refund_of
    pub held : r.hold_reason ≢ none → SameHold r q
    pub released_once : released r.fold_uuid ≡ true → SameHold r q

  IsKept-refl : (released : Str → Bool) (r : TableRow f) → IsKept released r r
  IsKept-refl released r = ground arith

  IsKept-trans :
      (released : Str → Bool) (r q p : TableRow f)
      → IsKept released r q
      → IsKept released q p
      → IsKept released r p
  IsKept-trans released r q p a b = record {
    fold_uuid = b.fold_uuid ∙ a.fold_uuid;
    mode = b.mode ∙ a.mode;
    type = b.type ∙ a.type;
    narration = b.narration ∙ a.narration;
    merchant = b.merchant ∙ a.merchant;
    currency = b.currency ∙ a.currency;
    timestamp = b.timestamp ∙ a.timestamp;
    amount = b.amount ∙ a.amount;
    raw_payload = b.raw_payload ∙ a.raw_payload;
    confirmed = b.confirmed ∙ a.confirmed;
    confirmed_tags = b.confirmed_tags ∙ a.confirmed_tags;
    confirmed_refund_of = b.confirmed_refund_of ∙ a.confirmed_refund_of;
    held = λ n.
        let first = a.held n in
        let second = b.held (λ e. n (sym first.0 ∙ e)) in (second.0 ∙ first.0, second.1 ∙ first.1);
    released_once = λ e.
        let first = a.released_once e in
        let second = b.released_once (ap released a.fold_uuid ∙ e) in
        (second.0 ∙ first.0, second.1 ∙ first.1);
  }

  Along-refl : (released : Str → Bool) (l : List (TableRow f)) → Along (IsKept released) l l
  Along-refl released [] = tt
  Along-refl released (r ∷ l) = (IsKept-refl released r, Along-refl released l)

  Along-trans :
      (released : Str → Bool) (k l m : List (TableRow f))
      → Along (IsKept released) k l
      → Along (IsKept released) l m
      → Along (IsKept released) k m
  Along-trans released [] [] m a b = b
  Along-trans released [] (q ∷ l) m a b = absurd a
  Along-trans released (r ∷ k) [] m a b = absurd a
  Along-trans released (r ∷ k) (q ∷ l) [] a b = absurd b
  Along-trans released (r ∷ k) (q ∷ l) (p ∷ m) a b =
      (IsKept-trans released r q p a.0 b.0, Along-trans released k l m a.1 b.1)

  Along-update_rows :
      (released : Str → Bool) (u : Str) (change : TableRow f → TableRow f) (l : List (TableRow f))
      → ((r : TableRow f) → r.fold_uuid ≡ u → IsKept released r (change r))
      → Along (IsKept released) l (update_rows f u change l)
  unfolding update_rows
  Along-update_rows released u change [] k = tt
  Along-update_rows released u change (r ∷ l) k = elim (Bool-cases (str_eq r.fold_uuid u)) [
    | inl e ↦ rw e (k r (str_eq_sound r.fold_uuid u e), Along-update_rows released u change l k)
    | inr e ↦ rw e (IsKept-refl released r, Along-update_rows released u change l k)
  ]

  decided_row-IsKept :
      (released : Str → Bool) (threshold : f.Real) (version : ℕ) (d : Decision f) (u : Str)
      (r : TableRow f)
      → r.fold_uuid ≡ u
      → IsKept released r (decided_row f threshold version (released u) d r)
  unfolding decided_row fold_may_hold
  decided_row-IsKept released threshold version d u r same = ground (arith, ap released same)

  reset_row-IsKept : (released : Str → Bool) (r : TableRow f) → IsKept released r (reset_row f r)
  unfolding reset_row
  reset_row-IsKept released r = ground arith

  -- The rows, and the releases on record.
  pub record IsStep (t p : Table f) : Type 0 where
    pub rows : Along (IsKept t.released) t.rows p.rows
    pub released : p.released ≡ t.released

  IsStep-refl : (t : Table f) → IsStep t t
  IsStep-refl t = record { rows = Along-refl t.released t.rows; released = refl }

  IsStep-trans : (t p q : Table f) → IsStep t p → IsStep p q → IsStep t q
  IsStep-trans t p q a b = record {
    rows =
        Along-trans t.released t.rows p.rows q.rows a.rows
          (subst (λ g. Along (IsKept g) p.rows q.rows) a.released b.rows);
    released = b.released ∙ a.released;
  }

  after_classify-IsStep :
      (c : Setting f) (s : StagedRow) (o : Classified f) (t : Table f) (report : ClassifyReport)
      → IsStep t (after_classify f c s o t report).table
  unfolding after_classify keep_decision apply_decision reset_to_pending
  after_classify-IsStep c s (decided d) t report =
      let own = resolve_own_side f c.cut_mask c.lookup_fold_account c.assets s d in
      elim (Bool-cases (c.apply_fails s.fold_uuid)) [
        | inl e ↦ rw e (IsStep-refl t)
        | inr e ↦ rw e (record {
          rows =
              Along-update_rows t.released s.fold_uuid _ t.rows
                (decided_row-IsKept t.released c.engine.threshold c.version own s.fold_uuid);
          released = refl;
        })
      ]
  after_classify-IsStep c s deferred t report = elim (Bool-cases (c.reset_fails s.fold_uuid)) [
    | inl e ↦ rw e (IsStep-refl t)
    | inr e ↦ rw e (record {
      rows =
          Along-update_rows t.released s.fold_uuid (reset_row f) t.rows
            (λ r same. reset_row-IsKept t.released r);
      released = refl;
    })
  ]
  after_classify-IsStep c s broken t report = IsStep-refl t

  run_classify-IsStep :
      (c : Setting f) (staged : List StagedRow) (t : Table f) (report : ClassifyReport)
      → IsStep t (run_classify f c staged t report).table
  unfolding run_classify classify_and_apply
  run_classify-IsStep c [] t report = IsStep-refl t
  run_classify-IsStep c (s ∷ staged) t report =
      let p = classify_and_apply f c s t report in
      let first =
        after_classify-IsStep c s (classify_one f c.engine s no_exclusion) t
          (record report { examined = suc report.examined }) in
      elim (Bool-cases p.goes_on) [
        | inl e ↦
            rw e (IsStep-trans t p.table _ first (run_classify-IsStep c staged p.table p.report))
        | inr e ↦ rw e first
      ]

  -- A run over any scope keeps, in every row, what came from Fold and what a person confirmed; it
  -- keeps a hold that was there, and puts none on a row that a person released.
  pub classify_matching-IsStep :
      (c : Setting f) (scope : Scope) (t : Table f) → IsStep t (classify_matching f c scope t).table
  unfolding classify_matching
  classify_matching-IsStep c scope t =
      run_classify-IsStep c (fetch_staged_for_classify f scope t) t no_report
