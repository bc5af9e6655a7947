-- ===== src/Push/Row.antt =====
-- internal/integration/push.go: the row of staged_fold_txns that a push reads. Ids are at least 0;
-- instants are numbers.
use texas_fold_em.Common.{
  ℕ, suc, ◌+◌, ◌/◌, ◌%◌, not, Option, none, some, [], ◌∷◌, ◌++◌, if◌then◌else◌,
}
use texas_fold_em.Common.Text.{Str, is_empty, trim_space}
use texas_fold_em.Common.Decimal.{print_nat}
use texas_fold_em.TxnType.Accounts.{Side}

-- Signed amounts: `negsuc n` is -(n + 1).
pub data ℤ : Type 0 where
  pos : ℕ → ℤ
  negsuc : ℕ → ℤ

abbrev pub magnitude : ℤ → ℕ
magnitude (pos n) = n
magnitude (negsuc n) = suc n

pub data Status : Type 0 where
  pending needs_review ready_to_push pushed skipped : Status

-- The columns confirmed_* or proposed_*.
pub record Labels : Type 0 where
  pub source_account_id : Option ℕ
  pub source_account_name : Option Str
  pub destination_account_id : Option ℕ
  pub destination_account_name : Option Str
  pub category_id : Option ℕ
  pub budget_id : Option ℕ
  pub description : Option Str
  pub txn_type : Option Str

pub record Row : Type 0 where
  pub fold_uuid : Str
  pub amount_paise : ℤ
  pub currency : Str
  pub foreign_amount_paise : Option ℤ
  pub foreign_currency : Option Str
  pub txn_timestamp : ℕ
  pub type : Str
  pub status : Status
  pub confirmed : Labels
  pub proposed : Labels
  pub confirmed_tags_json : Option Str
  pub confirmed_amount_paise : Option ℤ
  pub confirmed_foreign_amount_paise : Option ℤ
  pub confirmed_txn_timestamp : Option ℕ
  pub mode : Str
  pub raw_payload : Str
  pub narration : Str
  pub merchant_extracted : Str
  pub firefly_txn_id : Option ℕ
  pub firefly_group_id : Option ℕ
  pub confirmed_refund_of : Option Str
  pub proposed_refund_of : Option Str
  pub firefly_link_id : Option ℕ

-- `.String` and `.Int64` of a nullable column.
abbrev pub text_of : Option Str → Str
text_of none = []
text_of (some s) = s

abbrev pub number_of : Option ℕ → ℕ
number_of none = 0
number_of (some n) = n

-- pickInt64 and pickString.
unfoldable pub pick_int64 : Option ℕ → Option ℕ → ℕ
pick_int64 (some c) p = c
pick_int64 none (some p) = p
pick_int64 none none = 0

unfoldable pub pick_string : Option Str → Option Str → Str
pick_string c p = if not (is_empty (text_of c)) then text_of c else text_of p

-- One side as push sends it: a person's account or name, else the classifier's.
unfoldable pub resolve_side : Option ℕ → Option Str → Option ℕ → Option Str → Side
resolve_side (some id) name other_id other_name = record { id = id; name = [] }
resolve_side none name other_id other_name =
    if not (is_empty (trim_space (text_of name)))
    then record { id = 0; name = trim_space (text_of name) }
    else elim other_id [
      | some id ↦ record { id = id; name = [] }
      | none ↦ record { id = 0; name = trim_space (text_of other_name) }
    ]

-- sides: the source and the destination.
unfoldable pub source_side : Row → Side
unfolding resolve_side
source_side r =
    resolve_side r.confirmed.source_account_id r.confirmed.source_account_name
      r.proposed.source_account_id r.proposed.source_account_name

unfoldable pub destination_side : Row → Side
unfolding resolve_side
destination_side r =
    resolve_side r.confirmed.destination_account_id r.confirmed.destination_account_name
      r.proposed.destination_account_id r.proposed.destination_account_name

two_digits : ℕ → Str
two_digits n = (48 + n / 10) ∷ (48 + n % 10) ∷ []

-- paiseToDecimal, of an amount other than -2^63, whose sign Go cannot turn.
unfoldable pub paise_to_decimal : ℤ → Str
unfolding two_digits
paise_to_decimal p = print_nat (magnitude p / 100) ++ (b'.' ∷ two_digits (magnitude p % 100))

abbrev pub no_labels : Labels
no_labels = record {
  source_account_id = none;
  source_account_name = none;
  destination_account_id = none;
  destination_account_name = none;
  category_id = none;
  budget_id = none;
  description = none;
  txn_type = none;
}
