-- ===== src/Examples/Actions.antt =====
-- internal/integration/ui/review.go: the theorem on a released hold at a concrete row.
use texas_fold_em.Common.{refl, false, some, [], ◌∷◌}
use texas_fold_em.Common.Text.{str, str_eq, trim_space, is_space}
use texas_fold_em.Push.Row.{needs_review}
use texas_fold_em.Classifier.Apply.{TableRow, table_row}
use texas_fold_em.Classifier.Run.{include_review}
use texas_fold_em.Review.Actions.{Deck, Faults, handle_card_hold, is_decidable}
use texas_fold_em.Review.Actions.Released.{run_all, IsReleased, handle_card_hold-IsReleased}
use texas_fold_em.Examples.Decks.{hundredths}
use texas_fold_em.Examples.Classifiers.{new_row, setting}

abbrev held_row : TableRow hundredths
held_row = record new_row {
  status = needs_review;
  hold_by = some (str "fold");
  hold_reason = some (str "a released card hold");
}

abbrev held_deck : Deck hundredths
held_deck = record {
  table = record { rows = held_row ∷ []; released = λ u. false };
  later = λ u. false;
}

abbrev no_faults : Faults
no_faults = record {
  read_fails = false;
  held_read_fails = false;
  write_fails = false;
  note_fails = false;
}

handle_card_hold-IsReleased_example : IsReleased hundredths (str "u") (
    run_all hundredths
      ((setting, include_review) ∷ [])
      (handle_card_hold hundredths no_faults (str "u") (some (str " ")) held_deck).0.table)
unfolding table_row str_eq trim_space is_space handle_card_hold is_decidable
handle_card_hold-IsReleased_example =
    handle_card_hold-IsReleased hundredths no_faults (str "u") (str " ") held_deck held_row
      ((setting, include_review) ∷ []) refl (λ e. cc e) refl refl refl refl refl refl
