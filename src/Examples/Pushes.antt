-- ===== src/Examples/Pushes.antt =====
-- push.go and refund_link.go: the theorems on pushes with a Firefly that is a list of external ids.
use texas_fold_em.Common.{
  ℕ, suc, ◌+◌, ◌≤◌, ◌≡◌, ◌≢◌, refl, ap, true, false, none, some, List, [], ◌∷◌, if◌then◌else◌, ◌==◌,
  length, arith, Bool-cases, inl, inr,
}
use texas_fold_em.Common.Text.{
  Str, str, str_eq, str_eq_sound, lower_ascii, to_lower, to_upper, trim_space,
}
use texas_fold_em.TxnType.{
  valid_type, is_incoming, check_type, find_problem, type_allowed, settled_type, chosen_type,
  default_type, check_sides, type_eq, types_for,
}
use texas_fold_em.TxnType.Accounts.{side_asset, asset_by_name, account_kind, find, side_is_empty}
use texas_fold_em.Push.Row.{
  Row, Labels, no_labels, pos, ready_to_push, pushed, source_side, destination_side, resolve_side,
}
use texas_fold_em.Push.Request.{check_row, build_create_request, foreign_of}
use texas_fold_em.Push.Firefly.{
  Service, answer, failure, CountsJournals, search_by_external_id, collect, drop_zeros,
  create_transaction, update_transaction, ensure_currency,
}
use texas_fold_em.Push.World.{World, Pusher, Attempt, find_row}
use texas_fold_em.Push.Once.{Call, pushes, pushes_at_most_one}
use texas_fold_em.Push.Gates.{IsSendable, push_changes_only-IsSendable}
use texas_fold_em.Push.{push, update, group_of, type_fits}
use texas_fold_em.Examples.Types.{accounts_of_user}

abbrev pub count_of : Str → List Str → ℕ
count_of u [] = 0
count_of u (x ∷ xs) = let rest = count_of u xs in if str_eq u x then suc rest else rest

-- The first POST is stored and answers nothing, the first PUT fails, and the others answer journal 1.
abbrev pub listed : Service
listed = record {
  Ledger = List Str;
  get_search = λ at l u. if count_of u l == 0 then answer [] else answer ((1 ∷ []) ∷ []);
  get_currency = λ at l code. answer true;
  post_enable = λ at l code. (l, answer tt);
  post_currency = λ at l code. (l, answer tt);
  post_transaction = λ at l line. (
    line.external_id ∷ l,
    if at == 0 then failure 0 else answer (record { group_id = 1; journal_ids = 1 ∷ [] }),
  );
  put_transaction = λ at l group line. (
    l,
    if at == 0 then failure 0 else answer (record { group_id = group; journal_ids = 1 ∷ [] }),
  );
  get_transaction = λ at l group. answer (group, 1 ∷ []);
  get_link_types = λ at l. answer ((str "Refund", 3) ∷ []);
  get_journal_links = λ at l journal. answer [];
  post_link = λ at l t i o. (l, answer 9);
}

listed_misses :
    (at : ℕ) (l : List Str) (u : Str)
    → search_by_external_id listed at l u ≡ answer []
    → count_of u l ≡ 0
unfolding search_by_external_id
listed_misses at l u h = elim (Bool-cases (count_of u l == 0)) [
  | inl e ↦ ground (arith, e)
  | inr e ↦ ground (arith, e, h)
]

listed_adds : (u : Str) (l : List Str) → count_of u (u ∷ l) ≤ count_of u l + 1
listed_adds u l = ground arith

listed_spares : (u x : Str) (l : List Str) → u ≢ x → count_of u (x ∷ l) ≡ count_of u l
listed_spares u x l n = elim (Bool-cases (str_eq u x)) [
  | inl e ↦ absurd (n (str_eq_sound u x e))
  | inr e ↦ ground (arith, e)
]

abbrev listed_counts : CountsJournals listed
listed_counts = record {
  count = λ l u. count_of u l;
  search_misses = listed_misses;
  post_adds = λ at l line. listed_adds line.external_id l;
  post_spares = λ at l line u n. listed_spares u line.external_id l n;
  enable_adds_none = λ at l code u. refl;
  currency_adds_none = λ at l code u. refl;
  link_adds_none = λ at l t i o u. refl;
}

abbrev pub ready_row : Row
ready_row = record {
  fold_uuid = str "r1";
  amount_paise = pos 12345;
  currency = str "INR";
  foreign_amount_paise = some (pos 150);
  foreign_currency = some (str "USD");
  txn_timestamp = 7;
  type = str "OUTGOING";
  status = ready_to_push;
  confirmed = record no_labels { source_account_id = some 1 };
  proposed = record no_labels { destination_account_name = some (str "Shop") };
  confirmed_tags_json = none;
  confirmed_amount_paise = none;
  confirmed_foreign_amount_paise = none;
  confirmed_txn_timestamp = none;
  mode = str "CARD";
  raw_payload = [];
  narration = str "CARD/1/Shop";
  merchant_extracted = str "shop";
  firefly_txn_id = none;
  firefly_group_id = none;
  confirmed_refund_of = none;
  proposed_refund_of = none;
  firefly_link_id = none;
}

abbrev sent_row : Row
sent_row = record ready_row { status = pushed; firefly_txn_id = some 1; firefly_group_id = some 1 }

abbrev pub world_of : Row → World listed
world_of r = record {
  rows = r ∷ [];
  accounts = accounts_of_user;
  ledger = [];
  audits = [];
  mirrored = [];
  learned = [];
  decisions = [];
  refund_link_type = 0;
}

abbrev pub no_tags : Str → List Str
no_tags s = []

abbrev pub pusher : Pusher
pusher = record { read_only = false; has_syncer = true; has_learner = true; decode_tags = no_tags }

abbrev pub attempt : ℕ → Attempt
attempt n = record { at = n; reads = true; marks = true }

abbrev call_at : ℕ → Call
call_at n = record { attempt = attempt n; confirm = true; uuid = str "r1" }

-- The answer of the first push is lost, so the row is pushed again.
pushes_at_most_one_example :
    count_of
      (str "r1")
      (pushes listed pusher (call_at 0 ∷ call_at 1 ∷ []) (world_of ready_row)).ledger
    ≤ 1
pushes_at_most_one_example =
    pushes_at_most_one listed listed_counts pusher (call_at 0 ∷ call_at 1 ∷ []) (world_of ready_row)
      (str "r1") (omega arith)

one_audit_of_push :
    length (push listed pusher (attempt 0) true (str "r1") (world_of ready_row)).0.audits ≡ 1
unfolding push str_eq check_row check_type find_problem type_allowed is_incoming lower_ascii
    settled_type chosen_type valid_type to_lower trim_space side_asset source_side destination_side
    asset_by_name default_type find_row type_fits account_kind find side_is_empty check_sides
    type_eq types_for resolve_side search_by_external_id collect drop_zeros create_transaction
    ensure_currency build_create_request foreign_of to_upper
one_audit_of_push = refl

push_changes :
    (push listed pusher (attempt 0) true (str "r1") (world_of ready_row)).0 ≢ world_of ready_row
push_changes e =
    let none_before = ap (λ w. length w.audits) e in omega (arith, none_before, one_audit_of_push)

push_changes_only-IsSendable_example :
    (pusher.read_only ≡ false)
    × (true ≡ true)
    × ((r : Row) × (find_row (str "r1") (world_of ready_row).rows ≡ some r)
        × IsSendable {f = listed} r (world_of ready_row))
push_changes_only-IsSendable_example =
    push_changes_only-IsSendable listed pusher (attempt 0) true (str "r1") (world_of ready_row)
      push_changes

one_audit_of_update :
    length (update listed pusher (attempt 0) (str "r1") (world_of sent_row)).0.audits ≡ 1
unfolding update str_eq check_row check_type find_problem type_allowed is_incoming lower_ascii
    settled_type chosen_type valid_type to_lower trim_space side_asset source_side destination_side
    asset_by_name default_type find_row type_fits account_kind find side_is_empty check_sides
    type_eq types_for resolve_side update_transaction ensure_currency build_create_request
    foreign_of group_of to_upper
one_audit_of_update = refl

update_changes :
    (update listed pusher (attempt 0) (str "r1") (world_of sent_row)).0 ≢ world_of sent_row
update_changes e =
    let none_before = ap (λ w. length w.audits) e in omega (arith, none_before, one_audit_of_update)

abbrev other_labels : Labels
other_labels = record no_labels { category_id = some 8; txn_type = some (str "transfer") }
