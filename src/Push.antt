-- ===== src/Push.antt =====
-- internal/integration/push.go: Push and Update, which send a staged row to Firefly.
pub mod Row
pub mod Request
pub mod Firefly
pub mod World
pub mod Links
pub mod Once
pub mod Again
pub mod Gates
pub mod Body
use texas_fold_em.Common.{
  ℕ, ◌≡◌, refl, Bool, true, false, ◌&&◌, ◌||◌, not, Option, none, some, List, [], ◌∷◌, ◌++◌,
  if◌then◌else◌, ◌==◌,
}
use texas_fold_em.Common.Text.{Str, str, is_empty}
use texas_fold_em.Common.Decimal.{print_nat}
use texas_fold_em.TxnType.{Problem, no_problem, TypeCheck}
use texas_fold_em.TxnType.Accounts.{Account}
use Row.{Status, pending, needs_review, ready_to_push, pushed, skipped, number_of}
use Row.{Row as StagedRow}
use Request.{Line, check_row, build_create_request}
use Firefly.{
  Service, Answer, answer, failure, Created, search_by_external_id, ensure_currency,
  create_transaction, update_transaction,
}
use World.{
  World as PushWorld, Pusher, Attempt, Refusal, read_only_mode, not_found, not_ready,
  database_error, no_group_id, type_error, firefly_error, Outcome, ok, refused, find_row,
  mark_pushed, audit, search_error, dedup_hit, ensure_currency_error, create_error, created,
  update_error, updated,
}
use Links.{link_refunds}

-- PushReport, by its action.
pub data Report : Type 0 where
  preview : Line → Report
  deduped : ℕ → Report
  created_as : ℕ → ℕ → Report
  updated_as : ℕ → ℕ → Report

abbrev first_or : List ℕ → ℕ → ℕ
first_or [] d = d
first_or (j ∷ js) d = j

abbrev member : ℕ → List ℕ → Bool
member n [] = false
member n (x ∷ xs) = n == x || member n xs

-- Only rows that the classifier has seen and that are not done.
abbrev is_pushable : Status → Bool
is_pushable ready_to_push = true
is_pushable needs_review = true
is_pushable _ = false

-- typeFits.
unfoldable pub type_fits : Problem → Bool
type_fits no_problem = true
type_fits _ = false

in_group : ℕ → List ℕ → List (ℕ × ℕ)
in_group g [] = []
in_group g (j ∷ js) = (j, g) ∷ in_group g js

-- The journal's group as the mirror last saw it.
unfoldable pub group_of : ℕ → List (ℕ × ℕ) → ℕ
group_of journal [] = 0
group_of journal ((j, g) ∷ l) = if j == journal then g else group_of journal l

abbrev pub stored_group : Option ℕ → ℕ → ℕ
stored_group none g = g
stored_group (some g) _ = g

module _ (f : Service) where
  -- The eager mirror of a created journal.
  mirror_journal : Attempt → ℕ → Answer (ℕ × List ℕ) → PushWorld f → PushWorld f
  mirror_journal a journal (failure s) w = w
  mirror_journal a journal (answer (group, journals)) w =
      if member journal journals && a.marks
      then record w { mirrored = (journal, group) ∷ w.mirrored }
      else w

  eager_mirror : Pusher → Attempt → ℕ → ℕ → PushWorld f → PushWorld f
  unfolding mirror_journal
  eager_mirror p a journal group w =
      if p.has_syncer && not (group == 0)
      then mirror_journal a journal (f.get_transaction a.at w.ledger group) w
      else w

  learn : Pusher → Str → PushWorld f → PushWorld f
  learn p uuid w = record w {
    learned = if p.has_learner then uuid ∷ w.learned else w.learned;
    decisions = uuid ∷ w.decisions;
  }

  -- Push after CreateTransaction.
  after_create :
      Pusher → Attempt → Str → PushWorld f × Answer Created → PushWorld f × Outcome Report
  unfolding eager_mirror learn
  after_create p a uuid (w, failure s) = (audit create_error uuid 0 s w, refused (firefly_error s))
  after_create p a uuid (w, answer c) =
      let journal = first_or c.journal_ids 0 in
      let kept = audit created uuid journal 200 (mark_pushed uuid journal c.group_id w) in
      if a.marks
      then (
        link_refunds f p a uuid (learn p uuid (eager_mirror p a journal c.group_id kept)),
        ok (created_as journal c.group_id),
      )
      else (w, refused database_error)

  post_line : Pusher → Attempt → Line → PushWorld f → PushWorld f × Outcome Report
  unfolding after_create
  post_line p a line w =
      let (l, c) = create_transaction f a.at w.ledger line in
      after_create p a line.external_id (record w { ledger = l }, c)

  after_currency :
      Pusher → Attempt → Line → PushWorld f × Answer (Unit {0}) → PushWorld f × Outcome Report
  unfolding post_line
  after_currency p a line (w, failure s) =
      (audit ensure_currency_error line.external_id 0 s w, refused (firefly_error s))
  after_currency p a line (w, answer _) = post_line p a line w

  with_currency : Attempt → Line → PushWorld f → PushWorld f × Answer (Unit {0})
  with_currency a line w =
      let (l, c) = ensure_currency f a.at w.ledger line.foreign_currency_code in
      if is_empty line.foreign_currency_code then (w, answer tt) else (record w { ledger = l }, c)

  -- Push after the search for journals with the row's id.
  after_search :
      Pusher → Attempt → Line → Answer (List ℕ) → PushWorld f → PushWorld f × Outcome Report
  unfolding after_currency with_currency
  after_search p a line (failure s) w =
      (audit search_error line.external_id 0 0 w, refused (firefly_error s))
  after_search p a line (answer []) w = after_currency p a line (with_currency a line w)
  after_search p a line (answer (journal ∷ more)) w =
      let uuid = line.external_id in
      if a.marks
      then (
        link_refunds f p a uuid (audit dedup_hit uuid journal 200 (mark_pushed uuid journal 0 w)),
        ok (deduped journal),
      )
      else (w, refused database_error)

  -- Push of a row that was read.
  push_row : Pusher → Attempt → Bool → StagedRow → PushWorld f → PushWorld f × Outcome Report
  unfolding after_search type_fits
  push_row p a confirm r w =
      let line = build_create_request p.decode_tags (some w.accounts) r in
      let problem = (check_row (some w.accounts) r).problem in
      let sent = after_search p a line (search_by_external_id f a.at w.ledger r.fold_uuid) w in
      if not (is_pushable r.status)
      then (w, refused not_ready)
      else if not (number_of r.firefly_txn_id == 0)
      then (w, ok (deduped (number_of r.firefly_txn_id)))
      else if not (type_fits problem)
      then (w, refused (type_error problem))
      else if not confirm
      then (w, ok (preview line))
      else sent

  push_found :
      Pusher → Attempt → Bool → Option StagedRow → PushWorld f → PushWorld f × Outcome Report
  unfolding push_row
  push_found p a confirm none w = (w, refused not_found)
  push_found p a confirm (some r) w = push_row p a confirm r w

  -- Push.
  unfoldable pub push : Pusher → Attempt → Bool → Str → PushWorld f → PushWorld f × Outcome Report
  unfolding push_found find_row
  push p a confirm uuid w =
      if p.read_only && confirm
      then (w, refused read_only_mode)
      else if not a.reads
      then (w, refused database_error)
      else push_found p a confirm (find_row uuid w.rows) w

  -- Every journal of the group is mirrored after an update.
  mirror_group : Attempt → ℕ → Answer (ℕ × List ℕ) → PushWorld f → PushWorld f
  mirror_group a group (failure s) w = w
  mirror_group a group (answer (g, journals)) w =
      if a.marks then record w { mirrored = in_group group journals ++ w.mirrored } else w

  after_update :
      Pusher → Attempt → Str → ℕ → ℕ → PushWorld f × Answer Created → PushWorld f × Outcome Report
  unfolding mirror_group learn in_group
  after_update p a uuid group old (w, failure s) =
      (audit update_error uuid old s w, refused (firefly_error s))
  after_update p a uuid group old (w, answer c) =
      let journal = first_or c.journal_ids old in
      let kept = audit updated uuid journal 200 (mark_pushed uuid journal group w) in
      let seen =
        if p.has_syncer
        then mirror_group a group (f.get_transaction a.at kept.ledger group) kept
        else kept in
      if a.marks
      then (link_refunds f p a uuid (learn p uuid seen), ok (updated_as journal group))
      else (w, refused database_error)

  put_line :
      Pusher
      → Attempt
      → Line
      → ℕ
      → ℕ
      → PushWorld f × Answer (Unit {0})
      → PushWorld f × Outcome Report
  unfolding after_update
  put_line p a line group old (w, failure s) =
      (audit ensure_currency_error line.external_id 0 s w, refused (firefly_error s))
  put_line p a line group old (w, answer _) =
      let (l, c) = update_transaction f a.at w.ledger group line in
      after_update p a line.external_id group old (record w { ledger = l }, c)

  update_pushed : Pusher → Attempt → StagedRow → PushWorld f → PushWorld f × Outcome Report
  unfolding put_line with_currency type_fits group_of
  update_pushed p a r w =
      let group =
        stored_group r.firefly_group_id (group_of (number_of r.firefly_txn_id) w.mirrored) in
      let old = number_of r.firefly_txn_id in
      let line = record (build_create_request p.decode_tags (some w.accounts) r) {
        transaction_journal_id = elim r.firefly_txn_id [ none ↦ [] | some id ↦ print_nat id ];
      } in
      let problem = (check_row (some w.accounts) r).problem in
      let sent = put_line p a line group old (with_currency a line w) in
      if group == 0
      then (w, refused no_group_id)
      else if not (type_fits problem)
      then (w, refused (type_error problem))
      else sent

  update_found : Pusher → Attempt → Option StagedRow → PushWorld f → PushWorld f × Outcome Report
  unfolding update_pushed
  update_found p a none w = (w, refused not_found)
  update_found p a (some r) w = update_pushed p a r w

  -- Update: the row's corrected fields on its transaction in Firefly.
  unfoldable pub update : Pusher → Attempt → Str → PushWorld f → PushWorld f × Outcome Report
  unfolding update_found find_row
  update p a uuid w =
      if p.read_only
      then (w, refused read_only_mode)
      else if not a.reads
      then (w, refused database_error)
      else update_found p a (find_row uuid w.rows) w
