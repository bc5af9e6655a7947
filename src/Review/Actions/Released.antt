-- ===== src/Review/Actions/Released.antt =====
-- internal/integration/ui/review.go and classifier/classifier.go: a hold that a person released.
use texas_fold_em.Common.{
  ◌≡◌, ◌≢◌, refl, sym, Bool, true, false, not, ◌&&◌, Option, none, some, List, [], ◌∷◌, arith,
  is_some, Bool-cases, inl, inr, ap, ◌∙◌, subst,
}
use texas_fold_em.Common.Text.{Str, str, str_eq, str_eq_sound, str_eq_refl, is_empty, trim_space}
use texas_fold_em.Classifier.Decision.{Floats}
use texas_fold_em.Classifier.Apply.{TableRow, Table, table_row}
use texas_fold_em.Classifier.Run.{Setting, Scope, classify_matching}
use texas_fold_em.Classifier.Run.Kept.{Along, IsKept, IsStep, classify_matching-IsStep}
use texas_fold_em.Classifier.Run.Named.{table_row_decided}
use texas_fold_em.Review.Actions.{
  Deck, Faults, handle_card_hold, decide, held_by_fold, hold_row, note_release, with_rows, set_for,
}

module _ (f : Floats) where
  -- Runs of the classifier, one after another.
  pub run_all : List (Setting f × Scope) → Table f → Table f
  run_all [] t = t
  run_all ((c, scope) ∷ runs) t = run_all runs (classify_matching f c scope t).table

  -- The row has no hold, and a release of it is on record.
  abbrev pub IsReleased : Str → Table f → Type 0
  IsReleased u t =
      (t.released u ≡ true)
      × ((r : TableRow f) × (table_row f u t.rows ≡ some r) × (r.hold_reason ≡ none))

  row-Along :
      (released : Str → Bool) (u : Str) (k l : List (TableRow f)) (r : TableRow f)
      → Along f (IsKept f released) k l
      → table_row f u k ≡ some r
      → (q : TableRow f) × (table_row f u l ≡ some q) × IsKept f released r q × (r.fold_uuid ≡ u)
  unfolding table_row
  row-Along released u [] [] r a e = cc e
  row-Along released u [] (q ∷ l) r a e = absurd a
  row-Along released u (x ∷ k) [] r a e = absurd a
  row-Along released u (x ∷ k) (q ∷ l) r a e = elim (Bool-cases (str_eq x.fold_uuid u)) [
    | inl here ↦
        let same : x ≡ r = ground (arith, here, e) in
        let uuid = a.0.fold_uuid in
        (
          q,
          ground (arith, ap (λ (s : Str). str_eq s u) uuid, here),
          subst (λ y. IsKept f released y q) same a.0,
          ap (λ (y : TableRow f). y.fold_uuid) (sym same) ∙ str_eq_sound x.fold_uuid u here,
        )
    | inr there ↦
        let uuid = a.0.fold_uuid in
        let (p, found, kept_row, id) = row-Along released u k l r a.1 (ground (arith, there, e)) in
        (p, ground (arith, ap (λ (s : Str). str_eq s u) uuid, there, found), kept_row, id)
  ]

  step-IsReleased : (u : Str) (t p : Table f) → IsStep f t p → IsReleased u t → IsReleased u p
  step-IsReleased u t p s (noted, (r, e, free)) =
      let (q, found, kept_row, id) = row-Along t.released u t.rows p.rows r s.rows e in
      (
        ap (λ (g : Str → Bool). g u) s.released ∙ noted,
        (q, found, (kept_row.released_once (ap t.released id ∙ noted)).0 ∙ free),
      )

  run_all-IsReleased :
      (runs : List (Setting f × Scope)) (u : Str) (t : Table f)
      → IsReleased u t
      → IsReleased u (run_all runs t)
  unfolding run_all
  run_all-IsReleased [] u t h = h
  run_all-IsReleased ((c, scope) ∷ runs) u t h =
      run_all-IsReleased runs u (classify_matching f c scope t).table (
        step-IsReleased u t (classify_matching f c scope t).table
          (classify_matching-IsStep f c scope t) h)

  some_is_some : (o : Option Str) → o ≢ none → is_some o ≡ true
  some_is_some none h = absurd (h refl)
  some_is_some (some s) h = refl

  fold_holds :
      (x : Faults) (u : Str) (w : Deck f) (r : TableRow f)
      → table_row f u w.table.rows ≡ some r
      → r.hold_reason ≢ none
      → r.hold_by ≡ some (str "fold")
      → x.held_read_fails ≡ false
      → held_by_fold f x u w ≡ true
  unfolding held_by_fold
  fold_holds x u w r e held by read =
      ground (arith, e, by, read, some_is_some r.hold_reason held, str_eq_refl (str "fold"))

  decided_200 :
      (x : Faults) (u : Str) (w w' : Deck f)
      → x.write_fails ≡ false
      → (decide f x u w w').1 ≡ 200
      → (decide f x u w w').0 ≡ w'
  unfolding decide
  decided_200 x u w w' ok h = ground arith

  release_noted :
      (u : Str) (w : Deck f) (r : TableRow f)
      → table_row f u w.table.rows ≡ some r
      → IsReleased u (note_release f u true (with_rows f u (hold_row f []) w)).table
  unfolding note_release with_rows set_for hold_row
  release_noted u w r e = (
    ground (arith, str_eq_refl u),
    (hold_row f [] r, table_row_decided f u (hold_row f []) r w.table.rows (λ q. refl) e, refl),
  )

  -- Where the program held a row and a person releases it by a blank reason, and the row and the note
  -- of the release are written, and who holds it was read, the row has no hold after any runs of the
  -- classifier: it is not held again by them, whatever the tiers answer and whichever of their writes
  -- fail.
  pub handle_card_hold-IsReleased :
      (x : Faults) (u reason : Str) (w : Deck f) (r : TableRow f) (runs : List (Setting f × Scope))
      → table_row f u w.table.rows ≡ some r
      → r.hold_reason ≢ none
      → r.hold_by ≡ some (str "fold")
      → trim_space reason ≡ []
      → x.held_read_fails ≡ false
      → x.write_fails ≡ false
      → x.note_fails ≡ false
      → (handle_card_hold f x u (some reason) w).1 ≡ 200
      → IsReleased u (run_all runs (handle_card_hold f x u (some reason) w).0.table)
  unfolding handle_card_hold
  handle_card_hold-IsReleased x u reason w r runs e held by blank read ok noted done =
      let text = trim_space reason in
      let b = is_empty text && held_by_fold f x u w && not x.note_fails in
      let w' = note_release f u b (with_rows f u (hold_row f text) w) in
      let noted_true : b ≡ true = ground (arith, blank, noted, fold_holds x u w r e held by read) in
      run_all-IsReleased runs u _
        (rw (decided_200 x u w w' ok done) (rw (noted_true, blank) (release_noted u w r e)))
