-- ===== src/Review/Actions.antt =====
-- internal/integration/ui/review.go: what a person does with a card, on the table staged_fold_txns. The
-- pile Later is a set of ids; `none` stands for a request body that does not parse.
-- Of the notes of decisions only the releases are kept: no part of the model reads the others.
pub mod Released
use texas_fold_em.Common.{
  ℕ, Bool, true, false, not, ◌&&◌, Option, none, some, ◌==◌, if◌then◌else◌, is_some,
}
use texas_fold_em.Common.Text.{Str, str, str_eq, is_empty, trim_space}
use texas_fold_em.Push.Row.{Status, pending, needs_review, ready_to_push, pushed, skipped}
use texas_fold_em.Classifier.Decision.{Floats}
use texas_fold_em.Classifier.Apply.{TableRow, Table, table_row, update_rows}

pub record Deck (f : Floats) : Type 0 where
  pub table : Table f
  pub later : Str → Bool

-- The statements that fail: the read of the status, the read of who holds the row, the write of the
-- row, and the note of the decision.
pub record Faults : Type 0 where
  pub read_fails : Bool
  pub held_read_fails : Bool
  pub write_fails : Bool
  pub note_fails : Bool

-- The status with which a row that waits for a decision is let through, or refused.
decidable_status : Status → ℕ
decidable_status pushed = 409
decidable_status skipped = 409
decidable_status pending = 409
decidable_status needs_review = 200
decidable_status ready_to_push = 200

set_for : Str → Bool → (Str → Bool) → Str → Bool
set_for u b g v = if str_eq v u then b else g v

module _ (f : Floats) where
  -- isDecidable.
  unfoldable pub is_decidable : Faults → Str → Deck f → ℕ
  unfolding decidable_status
  is_decidable x u w =
      if x.read_fails
      then 500
      else elim (table_row f u w.table.rows) [ none ↦ 404 | some r ↦ decidable_status r.status ]

  with_rows : Str → (TableRow f → TableRow f) → Deck f → Deck f
  with_rows u change w = record w {
    table = record w.table { rows = update_rows f u change w.table.rows };
  }

  -- The write of a handler, where the row is decidable and the statement succeeds.
  decide : Faults → Str → Deck f → Deck f → Deck f × ℕ
  unfolding is_decidable
  decide x u w w' =
      if is_decidable x u w == 200
      then (if x.write_fails then (w, 500) else (w', 200))
      else (w, is_decidable x u w)

  -- handleCardLater.
  unfoldable pub handle_card_later : Faults → Str → Option Bool → Deck f → Deck f × ℕ
  unfolding decide set_for
  handle_card_later x u none w = (w, 400)
  handle_card_later x u (some later) w = decide x u w (record w { later = set_for u later w.later })

  hold_row : Str → TableRow f → TableRow f
  hold_row reason r = record r {
    hold_reason = if is_empty reason then none else some reason;
    hold_by = none;
  }

  -- heldByFold.
  held_by_fold : Faults → Str → Deck f → Bool
  held_by_fold x u w = elim (table_row f u w.table.rows) [
    | none ↦ false
    | some r ↦
        not x.held_read_fails
        && is_some r.hold_reason
        && elim r.hold_by [ none ↦ false | some s ↦ str_eq s (str "fold") ]
  ]

  note_release : Str → Bool → Deck f → Deck f
  unfolding set_for
  note_release u noted w =
      if noted
      then record w { table = record w.table { released = set_for u true w.table.released } }
      else w

  -- handleCardHold; a blank reason releases the card.
  unfoldable pub handle_card_hold : Faults → Str → Option Str → Deck f → Deck f × ℕ
  unfolding decide hold_row held_by_fold note_release with_rows
  handle_card_hold x u none w = (w, 400)
  handle_card_hold x u (some reason) w =
      let text = trim_space reason in
      decide x u w (
        note_release u (is_empty text && held_by_fold x u w && not x.note_fails)
          (with_rows u (hold_row text) w))

  -- handleCardSkip.
  unfoldable pub handle_card_skip : Faults → Str → Deck f → Deck f × ℕ
  unfolding decide with_rows set_for
  handle_card_skip x u w =
      decide x u w (record (with_rows u (λ r. record r { status = skipped }) w) {
        later = set_for u false w.later;
      })

  status_is_skipped : Option (TableRow f) → Bool
  status_is_skipped none = false
  status_is_skipped (some r) = elim r.status [ skipped ↦ true | other ↦ false ]

  -- handleCardRestore.
  unfoldable pub handle_card_restore : Faults → Str → Deck f → Deck f × ℕ
  unfolding status_is_skipped with_rows
  handle_card_restore x u w =
      if x.write_fails
      then (w, 500)
      else if status_is_skipped (table_row f u w.table.rows)
      then (with_rows u (λ r. record r { status = needs_review }) w, 200)
      else (w, 409)
