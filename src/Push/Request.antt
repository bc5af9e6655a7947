-- ===== src/Push/Request.antt =====
-- internal/integration/push.go: the body that a push sends to Firefly.
use texas_fold_em.Common.{
  ℕ, Bool, true, ◌&&◌, not, Option, none, some, List, [], if◌then◌else◌, ◌==◌, is_some,
}
use texas_fold_em.Common.Text.{Str, str_eq, is_empty}
use texas_fold_em.Common.Decimal.{print_nat}
use texas_fold_em.TxnType.{TxnType, transfer, type_eq, TypeCheck, is_incoming, check_type}
use texas_fold_em.TxnType.Accounts.{Mirror, Side}
use texas_fold_em.Push.Row.{
  ℤ, Row, text_of, pick_int64, pick_string, source_side, destination_side, paise_to_decimal,
}

-- CreateTransactionLine; a request has always one. An id that is not sent is "".
pub record Line : Type 0 where
  pub transaction_journal_id : Str
  pub type : TxnType
  pub date : ℕ
  pub amount : Str
  pub currency_code : Str
  pub foreign_amount : Str
  pub foreign_currency_code : Str
  pub description : Str
  pub source_id : Str
  pub source_name : Str
  pub destination_id : Str
  pub destination_name : Str
  pub category_id : Str
  pub budget_id : Str
  pub tags : List Str
  pub external_id : Str
  pub notes : Str

-- (Pusher).checkType.
unfoldable pub check_row : Mirror → Row → TypeCheck
check_row q r =
    check_type q r.type (text_of r.confirmed.txn_type) (text_of r.proposed.txn_type) (source_side r)
      (destination_side r)

-- A side that is one of the user's asset accounts goes by its id.
unfoldable pub by_asset : Bool → ℕ → Side → Side
by_asset applies id s = if applies && not (id == 0) then record { id = id; name = [] } else s

unfoldable pub sent_source : Row → TypeCheck → Side
unfolding by_asset
sent_source r c =
    if is_incoming r.type
    then by_asset (type_eq c.type transfer) c.other_asset (source_side r)
    else by_asset true c.own_asset (source_side r)

unfoldable pub sent_destination : Row → TypeCheck → Side
unfolding by_asset
sent_destination r c =
    if is_incoming r.type
    then by_asset true c.own_asset (destination_side r)
    else by_asset (type_eq c.type transfer) c.other_asset (destination_side r)

-- The title: a person's, the classifier's, the merchant, the narration.
unfoldable pub description_of : Row → Str
unfolding pick_string
description_of r =
    let picked = pick_string r.confirmed.description r.proposed.description in
    if not (is_empty picked)
    then picked
    else if not (is_empty r.merchant_extracted)
    then r.merchant_extracted
    else r.narration

abbrev pub or_else {ℓ} : {A : Type ℓ} → Option A → A → A
or_else none d = d
or_else (some a) d = a

-- The original charge, where it was in another currency than the row's.
unfoldable pub foreign_of : Row → Option ℤ × Str
foreign_of r =
    let code = text_of r.foreign_currency in
    let amount =
      if is_some r.confirmed_foreign_amount_paise
      then r.confirmed_foreign_amount_paise
      else r.foreign_amount_paise in
    if not (is_empty code) && (not (str_eq code r.currency) && is_some amount)
    then (amount, code)
    else (none, [])

abbrev id_text : ℕ → Str
id_text id = if id == 0 then [] else print_nat id

abbrev name_text : Side → Str
name_text s = if s.id == 0 then s.name else []

abbrev pub money_text : Option ℤ → Str
money_text none = []
money_text (some p) = paise_to_decimal p

-- json.Unmarshal of the tags is `decode`, which gives none for text that is no list of them.
abbrev tags_of : (Str → List Str) → Option Str → List Str
tags_of decode t = if is_empty (text_of t) then [] else decode (text_of t)

-- buildCreateRequest.
unfoldable pub build_create_request : (Str → List Str) → Mirror → Row → Line
unfolding check_row sent_source sent_destination description_of foreign_of pick_int64
build_create_request decode q r =
    let c = check_row q r in
    let source = sent_source r c in
    let destination = sent_destination r c in
    let foreign = foreign_of r in
    record {
      transaction_journal_id = [];
      type = c.type;
      date = or_else r.confirmed_txn_timestamp r.txn_timestamp;
      amount = paise_to_decimal (or_else r.confirmed_amount_paise r.amount_paise);
      currency_code = r.currency;
      foreign_amount = money_text foreign.0;
      foreign_currency_code = foreign.1;
      description = description_of r;
      source_id = id_text source.id;
      source_name = name_text source;
      destination_id = id_text destination.id;
      destination_name = name_text destination;
      category_id = id_text (pick_int64 r.confirmed.category_id r.proposed.category_id);
      budget_id = id_text (pick_int64 r.confirmed.budget_id r.proposed.budget_id);
      tags = tags_of decode r.confirmed_tags_json;
      external_id = r.fold_uuid;
      notes = r.narration;
    }
