-- ===== src/Push/Body.antt =====
-- internal/integration/push.go: what the body of a push says.
use texas_fold_em.Common.{
  ℕ, ◌≡◌, ◌≢◌, refl, Bool, true, false, Option, none, some, List, [], ◌∷◌, ◌++◌, if◌then◌else◌,
  is_some, arith, Bool-cases, Option-cases, inl, inr,
}
use texas_fold_em.Common.Text.{Str, is_empty}
use texas_fold_em.Common.Decimal.{print_nat}
use texas_fold_em.TxnType.{TxnType, is_incoming, valid_type, chosen_type, check_type}
use texas_fold_em.TxnType.Accounts.{Mirror, Side}
use texas_fold_em.Push.Row.{
  Row, Labels, ℤ, paise_to_decimal, text_of, pick_int64, pick_string, source_side, destination_side,
  resolve_side,
}
use texas_fold_em.Push.Request.{
  Line, check_row, build_create_request, foreign_of, money_text, sent_source, sent_destination,
  by_asset, description_of,
}

is_empty-append : (s t : Str) (c : ℕ) → is_empty (s ++ (c ∷ t)) ≡ false
is_empty-append [] t c = refl
is_empty-append (x ∷ s) t c = refl

paise_to_decimal-full : (p : ℤ) → is_empty (paise_to_decimal p) ≡ false
unfolding paise_to_decimal
paise_to_decimal-full p = is_empty-append _ _ _

-- An amount and its currency are both there, or neither.
abbrev IsPair : Option ℤ × Str → Type 0
IsPair (amount, code) = is_empty (money_text amount) ≡ is_empty code

foreign_of-IsPair : (r : Row) → IsPair (foreign_of r)
unfolding foreign_of
foreign_of-IsPair r =
    let amount =
      if is_some r.confirmed_foreign_amount_paise
      then r.confirmed_foreign_amount_paise
      else r.foreign_amount_paise in
    elim (Option-cases amount) [
      | inl e ↦ ground (arith, e)
      | inr (p, e) ↦ ground (arith, e, paise_to_decimal-full p)
    ]

-- The body has a foreign amount exactly when it has a foreign currency.
foreign_both_or_neither :
    (decode : Str → List Str) (q : Mirror) (r : Row)
    → let l = build_create_request decode q r in
      is_empty l.foreign_amount ≡ is_empty l.foreign_currency_code
unfolding build_create_request
foreign_both_or_neither decode q r = foreign_of-IsPair r

-- The account on the user's own side of a body, by its id and its name.
abbrev pub own_account : Bool → Line → Str × Str
own_account true l = (l.destination_id, l.destination_name)
own_account false l = (l.source_id, l.source_name)

-- Where the own side is one of the user's accounts, the body names it by its id and by no name: as
-- the destination of money that comes in, else as the source.
own_account_by_id :
    (decode : Str → List Str) (q : Mirror) (r : Row)
    → (check_row q r).own_asset ≢ 0
    → own_account (is_incoming r.type) (build_create_request decode q r)
      ≡ (print_nat (check_row q r).own_asset, [])
unfolding build_create_request sent_source sent_destination by_asset
own_account_by_id decode q r h = elim (Bool-cases (is_incoming r.type)) [
  | inl e ↦ ground (arith, e)
  | inr e ↦ ground (arith, e)
]

-- Every label set by a person, with a type that is one of the three and a title that is not "".
abbrev pub all_set : ℕ → ℕ → ℕ → ℕ → Str → Str → Labels
all_set source destination category budget title type = record {
  source_account_id = some source;
  source_account_name = none;
  destination_account_id = some destination;
  destination_account_name = none;
  category_id = some category;
  budget_id = some budget;
  description = some title;
  txn_type = some type;
}

check_type-proposed :
    (q : Mirror) (dir type proposed other : Str) (src dst : Side) (t : TxnType)
    → valid_type type ≡ some t
    → check_type q dir type proposed src dst ≡ check_type q dir type other src dst
unfolding check_type chosen_type
check_type-proposed q dir type proposed other src dst t v = rw (v, check_type) refl

-- Where a person has set every label, what the classifier proposes changes nothing of the body.
confirmed_labels_win :
    (decode : Str → List Str) (q : Mirror) (r : Row) (proposed other : Labels) (s d k b : ℕ)
    (title type : Str) (t : TxnType)
    → is_empty title ≡ false
    → valid_type type ≡ some t
    → let row = record r { confirmed = all_set s d k b title type } in
      build_create_request decode q (record row { proposed = proposed })
      ≡ build_create_request decode q (record row { proposed = other })
unfolding build_create_request check_row description_of pick_string source_side destination_side
    resolve_side pick_int64 sent_source sent_destination foreign_of
confirmed_labels_win decode q r proposed other s d k b title type t e v =
    let row = record r { confirmed = all_set s d k b title type } in
    let same =
      check_type-proposed q r.type type (text_of proposed.txn_type) (text_of other.txn_type)
        (source_side row) (destination_side row) t v in
    rw (same, e) refl
