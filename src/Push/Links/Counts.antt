-- ===== src/Push/Links/Counts.antt =====
-- internal/integration/refund_link.go: linking makes no journal.
use texas_fold_em.Common.{
  ℕ, ◌≡◌, refl, ◌∙◌, Bool, true, Option, none, some, List, [], ◌∷◌, arith, Option-cases, inl, inr,
}
use texas_fold_em.Common.Text.{Str}
use texas_fold_em.RefundRef.{parse}
use texas_fold_em.Push.Row.{Row, number_of}
use texas_fold_em.Push.Firefly.{Service, Answer, answer, failure, CountsJournals}
use texas_fold_em.Push.World.{World, Pusher, Attempt, Outcome, ok, refused, firefly_error, find_row}
use texas_fold_em.Push.Links.{
  link_refund, link_refunds, link_waiting, link_all, link_row, link_to_original, link_journals,
  make_link, record_link, create_transaction_link, refund_link_type_id, waiting_for, references_to,
  journal_of_row, effective_refund_of, original_journal,
}

module _ (f : Service) (c : CountsJournals f) (uuid : Str) where
  open c use {count}

  -- How many journals with the id there are.
  abbrev pub journals : World f → ℕ
  journals w = count w.ledger uuid

  refund_link_type_id_same :
      (at : ℕ) (w : World f) → (refund_link_type_id f at w).0.ledger ≡ w.ledger
  unfolding refund_link_type_id
  refund_link_type_id_same at w = ground arith

  record_link_same :
      (a : Attempt) (u : Str) (r id : ℕ) (adopted : Bool) (w : World f)
      → (record_link f a u r id adopted w).0.ledger ≡ w.ledger
  unfolding record_link
  record_link_same a u r id adopted w = ground arith

  create_transaction_link_adds_none :
      (at : ℕ) (w : World f) (t i o : ℕ)
      → journals (create_transaction_link f at w t i o).0 ≡ journals w
  unfolding create_transaction_link
  create_transaction_link_adds_none at w t i o =
      ground (arith, c.link_adds_none at w.ledger t i o uuid)

  make_link_same :
      (a : Attempt) (u : Str) (r : ℕ) (x : World f × Answer ℕ)
      → (make_link f a u r x).0.ledger ≡ x.0.ledger
  unfolding make_link
  make_link_same a u r (w, failure s) = refl
  make_link_same a u r (w, answer id) = ground arith

  link_journals_adds_none :
      (a : Attempt) (u : Str) (r p : ℕ) (x : World f × Outcome ℕ)
      → journals (link_journals f a u r p x).0 ≡ journals x.0
  unfolding link_journals
  link_journals_adds_none a u r p (w, ok t) =
      let made = create_transaction_link f a.at w t r p in
      ground (
        arith,
        create_transaction_link_adds_none a.at w t r p,
        make_link_same a u r made,
        λ (id : ℕ). record_link_same a u r id true w,
      )
  link_journals_adds_none a u r p (w, refused (firefly_error s)) = refl
  link_journals_adds_none a u r p (w, refused x) = refl

  link_to_original_adds_none :
      (a : Attempt) (u : Str) (r : ℕ) (p : Option ℕ) (w : World f)
      → journals (link_to_original f a u r p w).0 ≡ journals w
  unfolding link_to_original
  link_to_original_adds_none a u r none w = refl
  link_to_original_adds_none a u r (some p) w = ground (
    arith,
    link_journals_adds_none a u r p (refund_link_type_id f a.at w),
    refund_link_type_id_same a.at w,
  )

  link_row_adds_none :
      (a : Attempt) (r : Row) (w : World f) → journals (link_row f a r w).0 ≡ journals w
  unfolding link_row
  link_row_adds_none a r w = ground (
    arith,
    link_to_original_adds_none a r.fold_uuid (number_of r.firefly_txn_id)
        (original_journal (parse (effective_refund_of r)) w.rows) w,
  )

  link_refund_adds_none :
      (p : Pusher) (a : Attempt) (u : Str) (w : World f)
      → journals (link_refund f p a u w).0 ≡ journals w
  unfolding link_refund
  link_refund_adds_none p a u w = elim (Option-cases (find_row u w.rows)) [
    | inl e ↦ ground (arith, e)
    | inr (r, e) ↦ ground (arith, e, link_row_adds_none a r w)
  ]

  link_all_adds_none :
      (p : Pusher) (a : Attempt) (us : List Str) (w : World f)
      → journals (link_all f p a us w) ≡ journals w
  unfolding link_all
  link_all_adds_none p a [] w = refl
  link_all_adds_none p a (u ∷ us) w =
      link_all_adds_none p a us (link_refund f p a u w).0 ∙ link_refund_adds_none p a u w

  link_waiting_adds_none :
      (p : Pusher) (a : Attempt) (u : Str) (w : World f)
      → journals (link_waiting f p a u w) ≡ journals w
  unfolding link_waiting
  link_waiting_adds_none p a u w =
      link_all_adds_none p a
        (waiting_for u (references_to u (journal_of_row (find_row u w.rows))) w.rows) w

  -- The links that a push completes make no journal, in a Firefly that counts journals as documented.
  pub link_refunds_adds_none :
      (p : Pusher) (a : Attempt) (u : Str) (w : World f)
      → journals (link_refunds f p a u w) ≡ journals w
  unfolding link_refunds
  link_refunds_adds_none p a u w =
      ground (
        arith,
        link_refund_adds_none p a u w,
        link_waiting_adds_none p a u (link_refund f p a u w).0,
      )
