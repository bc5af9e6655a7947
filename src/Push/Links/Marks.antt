-- ===== src/Push/Links/Marks.antt =====
-- internal/integration/refund_link.go: linking leaves what a push has written on the rows.
use texas_fold_em.Common.{
  ℕ, ◌≡◌, refl, ap, ◌∙◌, Bool, true, false, Option, none, some, List, [], ◌∷◌, if◌then◌else◌, ◌==◌,
  arith, Bool-cases, Option-cases, inl, inr,
}
use texas_fold_em.Common.Text.{Str, str_eq, str_eq_refl}
use texas_fold_em.RefundRef.{parse}
use texas_fold_em.Push.Row.{Row, Status, pushed, number_of}
use texas_fold_em.Push.Firefly.{Service, Answer, answer, failure}
use texas_fold_em.Push.World.{
  World, Pusher, Attempt, Outcome, ok, refused, firefly_error, find_row, update_row, marked,
  set_link_id,
}
use texas_fold_em.Push.Links.{
  link_refund, link_refunds, link_waiting, link_all, link_row, link_to_original, link_journals,
  make_link, record_link, create_transaction_link, refund_link_type_id, waiting_for, references_to,
  journal_of_row, effective_refund_of, original_journal, existing_link, links_of,
}

-- The status, the journal and the group of a row.
abbrev pub Marks : Type 0
Marks = Status × (Option ℕ × Option ℕ)

abbrev pub marks_of : Str → List Row → Option Marks
marks_of u rows = elim (find_row u rows) [
  | none ↦ none
  | some r ↦ some (r.status, (r.firefly_txn_id, r.firefly_group_id))
]

marks_of-link :
    (u x : Str) (id : ℕ) (rows : List Row)
    → marks_of u (update_row x (λ r. record r { firefly_link_id = some id }) rows) ≡ marks_of u rows
unfolding find_row update_row
marks_of-link u x id [] = refl
marks_of-link u x id (r ∷ rs) =
    let rest = marks_of-link u x id rs in
    elim (Bool-cases (str_eq r.fold_uuid x)) [
      | inl e ↦ ground (arith, e, rest)
      | inr e ↦ ground (arith, e, rest)
    ]

pub marks_of-marked :
    (u : Str) (journal group : ℕ) (rows : List Row) (r : Row)
    → find_row u rows ≡ some r
    → marks_of u (update_row r.fold_uuid (marked journal group) rows)
      ≡ some (pushed, (some journal, if group == 0 then none else some group))
unfolding find_row update_row
marks_of-marked u journal group [] r h = cc h
marks_of-marked u journal group (x ∷ xs) r h =
    let rest = marks_of-marked u journal group xs r in
    let same = str_eq_refl x.fold_uuid in
    elim (Bool-cases (str_eq x.fold_uuid u)) [
      | inl e ↦ ground (arith, e, h, same)
      | inr e ↦ ground (arith, e, h, rest)
    ]

module _ (f : Service) (uuid : Str) where
  abbrev pub marks_in : World f → Option Marks
  marks_in w = marks_of uuid w.rows

  refund_link_type_id_same : (at : ℕ) (w : World f) → (refund_link_type_id f at w).0.rows ≡ w.rows
  unfolding refund_link_type_id
  refund_link_type_id_same at w = ground arith

  record_link_marks :
      (a : Attempt) (u : Str) (r id : ℕ) (adopted : Bool) (w : World f)
      → marks_in (record_link f a u r id adopted w).0 ≡ marks_in w
  unfolding record_link set_link_id
  record_link_marks a u r id adopted w = elim (Bool-cases a.marks) [
    | inl e ↦ rw (e, record_link) (marks_of-link uuid u id w.rows)
    | inr e ↦ rw (e, record_link) refl
  ]

  create_transaction_link_same :
      (at : ℕ) (w : World f) (t i o : ℕ) → (create_transaction_link f at w t i o).0.rows ≡ w.rows
  unfolding create_transaction_link
  create_transaction_link_same at w t i o = ground arith

  make_link_marks :
      (a : Attempt) (u : Str) (r : ℕ) (x : World f × Answer ℕ)
      → marks_in (make_link f a u r x).0 ≡ marks_in x.0
  unfolding make_link
  make_link_marks a u r (w, failure s) = refl
  make_link_marks a u r (w, answer id) = record_link_marks a u r id false w

  link_journals_marks :
      (a : Attempt) (u : Str) (r p : ℕ) (x : World f × Outcome ℕ)
      → marks_in (link_journals f a u r p x).0 ≡ marks_in x.0
  unfolding link_journals
  link_journals_marks a u r p (w, ok t) =
      elim (Option-cases (existing_link t r p (links_of (f.get_journal_links a.at w.ledger r)))) [
        | inl e ↦
            let made = create_transaction_link f a.at w t r p in
            rw (e, link_journals)
              (make_link_marks a u r made
                ∙ ap (marks_of uuid) (create_transaction_link_same a.at w t r p))
        | inr (id, e) ↦ rw (e, link_journals) (record_link_marks a u r id true w)
      ]
  link_journals_marks a u r p (w, refused (firefly_error s)) = refl
  link_journals_marks a u r p (w, refused x) = refl

  link_to_original_marks :
      (a : Attempt) (u : Str) (r : ℕ) (p : Option ℕ) (w : World f)
      → marks_in (link_to_original f a u r p w).0 ≡ marks_in w
  unfolding link_to_original
  link_to_original_marks a u r none w = refl
  link_to_original_marks a u r (some p) w = ground (
    arith,
    link_journals_marks a u r p (refund_link_type_id f a.at w),
    refund_link_type_id_same a.at w,
  )

  link_row_marks :
      (a : Attempt) (r : Row) (w : World f) → marks_in (link_row f a r w).0 ≡ marks_in w
  unfolding link_row
  link_row_marks a r w = ground (
    arith,
    link_to_original_marks a r.fold_uuid (number_of r.firefly_txn_id)
        (original_journal (parse (effective_refund_of r)) w.rows) w,
  )

  link_refund_marks :
      (p : Pusher) (a : Attempt) (u : Str) (w : World f)
      → marks_in (link_refund f p a u w).0 ≡ marks_in w
  unfolding link_refund
  link_refund_marks p a u w = elim (Option-cases (find_row u w.rows)) [
    | inl e ↦ ground (arith, e)
    | inr (r, e) ↦ ground (arith, e, link_row_marks a r w)
  ]

  link_all_marks :
      (p : Pusher) (a : Attempt) (us : List Str) (w : World f)
      → marks_in (link_all f p a us w) ≡ marks_in w
  unfolding link_all
  link_all_marks p a [] w = refl
  link_all_marks p a (u ∷ us) w =
      link_all_marks p a us (link_refund f p a u w).0 ∙ link_refund_marks p a u w

  link_waiting_marks :
      (p : Pusher) (a : Attempt) (u : Str) (w : World f)
      → marks_in (link_waiting f p a u w) ≡ marks_in w
  unfolding link_waiting
  link_waiting_marks p a u w =
      link_all_marks p a
        (waiting_for u (references_to u (journal_of_row (find_row u w.rows))) w.rows) w

  pub link_refunds_marks :
      (p : Pusher) (a : Attempt) (u : Str) (w : World f)
      → marks_in (link_refunds f p a u w) ≡ marks_in w
  unfolding link_refunds
  link_refunds_marks p a u w =
      ground (arith, link_refund_marks p a u w, link_waiting_marks p a u (link_refund f p a u w).0)
