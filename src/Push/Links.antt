-- ===== src/Push/Links.antt =====
-- internal/integration/refund_link.go: the links in Firefly between a refund and its purchase.
pub mod Counts
pub mod Marks
use texas_fold_em.Common.{
  ℕ, ◌≡◌, refl, Bool, true, false, ◌&&◌, ◌||◌, not, Option, none, some, List, [], ◌∷◌, ◌++◌,
  if◌then◌else◌, ◌==◌,
}
use texas_fold_em.Common.Text.{Str, str, str_eq, is_empty, trim_space, lower_ascii}
use texas_fold_em.RefundRef.{
  Reference, fold, journal, no_purchase, unrecognised, fold_ref, journal_ref, parse,
}
use texas_fold_em.Push.Row.{
  Row, Status, pending, needs_review, ready_to_push, pushed, skipped, text_of, number_of,
}
use texas_fold_em.Push.Firefly.{Service, Answer, answer, failure, Link}
use texas_fold_em.Push.World.{
  World, Pusher, Attempt, Refusal, read_only_mode, not_found, database_error, firefly_error,
  not_a_refund, already_linked, not_pushed, original_not_in_firefly, refunds_itself, Outcome, ok,
  refused, find_row, set_link_id, audit, link_error, link_existing, link_created,
}

abbrev pub is_pushed : Status → Bool
is_pushed pushed = true
is_pushed _ = false

abbrev is_unlinked : Option ℕ → Bool
is_unlinked none = true
is_unlinked (some id) = false

-- effectiveRefundOfSQL: a person's reference, else the classifier's; "" for NULL.
unfoldable pub effective_refund_of : Row → Str
effective_refund_of r =
    if not (is_empty (text_of r.confirmed_refund_of))
    then text_of r.confirmed_refund_of
    else text_of r.proposed_refund_of

abbrev pushed_journal : Option Row → Option ℕ
pushed_journal none = none
pushed_journal (some r) =
    if is_pushed r.status && not (number_of r.firefly_txn_id == 0)
    then some (number_of r.firefly_txn_id)
    else none

-- originalJournal: the purchase's journal, none where it is only staged.
unfoldable pub original_journal : Reference → List Row → Option ℕ
original_journal (journal id) rows = some id
original_journal (fold uuid) rows = pushed_journal (find_row uuid rows)
original_journal _ rows = none

abbrev names_purchase : Reference → Bool
names_purchase (journal id) = true
names_purchase (fold uuid) = true
names_purchase _ = false

-- The first link type named "Refund".
refund_type_in : List (Str × ℕ) → Option ℕ
refund_type_in [] = none
refund_type_in ((name, id) ∷ l) =
    if str_eq (lower_ascii (trim_space name)) (str "refund") && not (id == 0)
    then some id
    else refund_type_in l

-- A Refund link that Firefly has between the two journals, either way round.
existing_link : ℕ → ℕ → ℕ → List Link → Option ℕ
existing_link type r o [] = none
existing_link type r o (l ∷ ls) =
    if (l.link_type_id == type
        && ((l.inward_id == r && l.outward_id == o) || (l.inward_id == o && l.outward_id == r)))
      && not (l.id == 0)
    then some l.id
    else existing_link type r o ls

links_of : Answer (List Link) → List Link
links_of (answer ls) = ls
links_of (failure s) = []

text_in : Str → List Str → Bool
text_in s [] = false
text_in s (x ∷ xs) = str_eq s x || text_in s xs

-- The pushed refunds without a link that name one of the references.
waiting_for : Str → List Str → List Row → List Str
unfolding text_in effective_refund_of
waiting_for uuid refs [] = []
waiting_for uuid refs (r ∷ rs) =
    let rest = waiting_for uuid refs rs in
    if is_pushed r.status
      && (is_unlinked r.firefly_link_id
          && (not (str_eq r.fold_uuid uuid) && text_in (effective_refund_of r) refs))
    then r.fold_uuid ∷ rest
    else rest

journal_of_row : Option Row → ℕ
journal_of_row none = 0
journal_of_row (some r) = number_of r.firefly_txn_id

-- How a refund can name this row: by its id, and by its journal.
references_to : Str → ℕ → List Str
references_to uuid id = fold_ref uuid ∷ (if id == 0 then [] else journal_ref id ∷ [])

module _ (f : Service) where
  open f use {get_link_types, get_journal_links, post_link}

  -- refundLinkTypeID, looked up once; 0 stands for the status of "no such type".
  refund_link_type_id : ℕ → World f → World f × Outcome ℕ
  unfolding refund_type_in
  refund_link_type_id at w =
      if not (w.refund_link_type == 0)
      then (w, ok w.refund_link_type)
      else elim (get_link_types at w.ledger) [
        | failure s ↦ (w, refused (firefly_error s))
        | answer types ↦ elim (refund_type_in types) [
          | none ↦ (w, refused (firefly_error 0))
          | some id ↦ (record w { refund_link_type = id }, ok id)
        ]
      ]

  -- CreateTransactionLink, which fails where an id is 0.
  create_transaction_link : ℕ → World f → ℕ → ℕ → ℕ → World f × Answer ℕ
  create_transaction_link at w type inward outward =
      if type == 0 || inward == 0 || outward == 0
      then (w, failure 0)
      else (let (l, a) = post_link at w.ledger type inward outward in
          (
            record w { ledger = l },
            elim a [ failure s ↦ failure s | answer id ↦ if id == 0 then failure 0 else answer id ],
          ))

  -- The link's id is written on the row, and the audit entry follows.
  record_link : Attempt → Str → ℕ → ℕ → Bool → World f → World f × Outcome ℕ
  unfolding set_link_id
  record_link a uuid refund id adopted w =
      if a.marks
      then (
        audit (if adopted then link_existing else link_created) uuid refund 200
            (set_link_id uuid id w),
        ok id,
      )
      else (w, refused database_error)

  make_link : Attempt → Str → ℕ → World f × Answer ℕ → World f × Outcome ℕ
  unfolding record_link
  make_link a uuid refund (w, failure s) =
      (audit link_error uuid refund s w, refused (firefly_error s))
  make_link a uuid refund (w, answer id) = record_link a uuid refund id false w

  link_journals : Attempt → Str → ℕ → ℕ → World f × Outcome ℕ → World f × Outcome ℕ
  unfolding record_link make_link existing_link links_of create_transaction_link
  link_journals a uuid refund purchase (w, refused (firefly_error s)) =
      (audit link_error uuid refund s w, refused (firefly_error s))
  link_journals a uuid refund purchase (w, refused x) = (w, refused x)
  link_journals a uuid refund purchase (w, ok type) =
      elim (existing_link type refund purchase
        (links_of (get_journal_links a.at w.ledger refund))) [
          | some id ↦ record_link a uuid refund id true w
          | none ↦ make_link a uuid refund (create_transaction_link a.at w type refund purchase)
        ]

  link_to_original : Attempt → Str → ℕ → Option ℕ → World f → World f × Outcome ℕ
  unfolding link_journals refund_link_type_id
  link_to_original a uuid refund none w = (w, refused original_not_in_firefly)
  link_to_original a uuid refund (some purchase) w =
      if purchase == refund
      then (w, refused refunds_itself)
      else link_journals a uuid refund purchase (refund_link_type_id a.at w)

  link_row : Attempt → Row → World f → World f × Outcome ℕ
  unfolding link_to_original original_journal effective_refund_of
  link_row a r w =
      let ref = parse (effective_refund_of r) in
      let refund = number_of r.firefly_txn_id in
      if not (names_purchase ref)
      then (w, refused not_a_refund)
      else if not (number_of r.firefly_link_id == 0)
      then (w, refused already_linked)
      else if not (is_pushed r.status) || refund == 0
      then (w, refused not_pushed)
      else link_to_original a r.fold_uuid refund (original_journal ref w.rows) w

  link_found : Attempt → Option Row → World f → World f × Outcome ℕ
  unfolding link_row
  link_found a none w = (w, refused not_found)
  link_found a (some r) w = link_row a r w

  -- LinkRefund.
  unfoldable pub link_refund : Pusher → Attempt → Str → World f → World f × Outcome ℕ
  unfolding link_found find_row
  link_refund p a uuid w =
      if p.read_only
      then (w, refused read_only_mode)
      else if not a.reads
      then (w, refused database_error)
      else link_found a (find_row uuid w.rows) w

  link_all : Pusher → Attempt → List Str → World f → World f
  unfolding link_refund
  link_all p a [] w = w
  link_all p a (u ∷ us) w = link_all p a us (link_refund p a u w).0

  -- The refunds that waited for this row as their purchase.
  unfoldable pub link_waiting : Pusher → Attempt → Str → World f → World f
  unfolding waiting_for link_all find_row journal_of_row references_to
  link_waiting p a uuid w =
      link_all p a
        (waiting_for uuid (references_to uuid (journal_of_row (find_row uuid w.rows))) w.rows) w

  -- linkRefunds: this row as a refund, then those that waited for it.
  unfoldable pub link_refunds : Pusher → Attempt → Str → World f → World f
  link_refunds p a uuid w =
      let linked = link_waiting p a uuid (link_refund p a uuid w).0 in
      if p.read_only || not a.reads then w else linked
