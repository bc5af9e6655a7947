-- ===== src/Push/Gates.antt =====
-- internal/integration/push.go: the gates that a push and an update pass before they touch anything.
use texas_fold_em.Common.{
  ◌≡◌, ◌≢◌, refl, Bool, true, false, none, some, arith, Bool-cases, Option-cases, inl, inr,
}
use texas_fold_em.Common.Text.{Str}
use texas_fold_em.TxnType.{
  Problem, no_problem, direction, other_is_mine, other_not_mine, same_account, other_kind,
  own_not_mine, swapped,
}
use texas_fold_em.Push.Row.{Row, number_of}
use texas_fold_em.Push.Request.{check_row}
use texas_fold_em.Push.Firefly.{Service}
use texas_fold_em.Push.World.{World as PushWorld, Pusher, Attempt, find_row}
use texas_fold_em.Push.{
  push, push_found, push_row, is_pushable, type_fits, stored_group, group_of, update, update_found,
  update_pushed,
}

type_fits_sound : (q : Problem) → type_fits q ≡ true → q ≡ no_problem
unfolding type_fits
type_fits_sound no_problem h = refl
type_fits_sound direction h = cc h
type_fits_sound other_is_mine h = cc h
type_fits_sound other_not_mine h = cc h
type_fits_sound same_account h = cc h
type_fits_sound other_kind h = cc h
type_fits_sound own_not_mine h = cc h
type_fits_sound swapped h = cc h

-- What a row must be for a push to send it.
abbrev pub IsSendable : {f : Service} → Row → PushWorld f → Type 0
IsSendable r w =
    (is_pushable r.status ≡ true)
    × (number_of r.firefly_txn_id ≡ 0)
    × ((check_row (some w.accounts) r).problem ≡ no_problem)

module _ (f : Service) where
  push_row_gate :
      (p : Pusher) (a : Attempt) (confirm : Bool) (r : Row) (w : PushWorld f)
      → (push_row f p a confirm r w).0 ≢ w
      → (confirm ≡ true) × IsSendable r w
  unfolding push_row
  push_row_gate p a confirm r w n =
      elim (Bool-cases (type_fits (check_row (some w.accounts) r).problem)) [
        | inl e ↦ ground (arith, e, type_fits_sound (check_row (some w.accounts) r).problem e)
        | inr e ↦ ground (arith, e)
      ]

  push_missing :
      (p : Pusher) (a : Attempt) (confirm : Bool) (u : Str) (w : PushWorld f)
      → find_row u w.rows ≡ none
      → ¬ ((push f p a confirm u w).0 ≢ w)
  unfolding push push_found
  push_missing p a confirm u w e n = ground (arith, e)

  push_found_gate :
      (p : Pusher) (a : Attempt) (confirm : Bool) (u : Str) (w : PushWorld f) (r : Row)
      → find_row u w.rows ≡ some r
      → (push f p a confirm u w).0 ≢ w
      → (p.read_only ≡ false) × (confirm ≡ true) × IsSendable r w
  unfolding push push_found
  push_found_gate p a confirm u w r e n = ground (arith, e, push_row_gate p a confirm r w)

  -- A push that changes anything, in Firefly or in the database, was confirmed, on a server that is
  -- not read-only, for a row that exists, is ready or needs review, has no journal yet, and whose
  -- type fits its two sides.
  pub push_changes_only-IsSendable :
      (p : Pusher) (a : Attempt) (confirm : Bool) (u : Str) (w : PushWorld f)
      → (push f p a confirm u w).0 ≢ w
      → (p.read_only ≡ false)
        × (confirm ≡ true)
        × ((r : Row) × (find_row u w.rows ≡ some r) × IsSendable r w)
  push_changes_only-IsSendable p a confirm u w n = elim (Option-cases (find_row u w.rows)) [
    | inl e ↦ elim (push_missing p a confirm u w e n) [ ]
    | inr (r, e) ↦
        let (online, confirmed, sendable) = push_found_gate p a confirm u w r e n in
        (online, confirmed, (r, e, sendable))
  ]

  -- What a row must be for an update to send it: its group is known, and its type fits.
  abbrev IsUpdatable : Row → PushWorld f → Type 0
  IsUpdatable r w =
      (stored_group r.firefly_group_id (group_of (number_of r.firefly_txn_id) w.mirrored) ≢ 0)
      × ((check_row (some w.accounts) r).problem ≡ no_problem)

  update_pushed_gate :
      (p : Pusher) (a : Attempt) (r : Row) (w : PushWorld f)
      → (update_pushed f p a r w).0 ≢ w
      → IsUpdatable r w
  unfolding update_pushed
  update_pushed_gate p a r w n =
      elim (Bool-cases (type_fits (check_row (some w.accounts) r).problem)) [
        | inl e ↦ ground (arith, e, type_fits_sound (check_row (some w.accounts) r).problem e)
        | inr e ↦ ground (arith, e)
      ]

  update_missing :
      (p : Pusher) (a : Attempt) (u : Str) (w : PushWorld f)
      → find_row u w.rows ≡ none
      → ¬ ((update f p a u w).0 ≢ w)
  unfolding update update_found
  update_missing p a u w e n = ground (arith, e)

  update_found_gate :
      (p : Pusher) (a : Attempt) (u : Str) (w : PushWorld f) (r : Row)
      → find_row u w.rows ≡ some r
      → (update f p a u w).0 ≢ w
      → (p.read_only ≡ false) × IsUpdatable r w
  unfolding update update_found
  update_found_gate p a u w r e n = ground (arith, e, update_pushed_gate p a r w)

  -- An update that changes anything, in Firefly or in the database, was made on a server that is
  -- not read-only, for a row that exists, whose group in Firefly is known from the row or from the
  -- mirror, and whose type fits its two sides.
  update_changes_only-IsUpdatable :
      (p : Pusher) (a : Attempt) (u : Str) (w : PushWorld f)
      → (update f p a u w).0 ≢ w
      → (p.read_only ≡ false) × ((r : Row) × ((find_row u w.rows ≡ some r) × IsUpdatable r w))
  update_changes_only-IsUpdatable p a u w n = elim (Option-cases (find_row u w.rows)) [
    | inl e ↦ elim (update_missing p a u w e n) [ ]
    | inr (r, e) ↦
        let (online, updatable) = update_found_gate p a u w r e n in (online, (r, (e, updatable)))
  ]
