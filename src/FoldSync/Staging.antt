-- ===== src/FoldSync/Staging.antt =====
-- internal/integration/fold_sync.go: staging one transaction: a new row, or the two refreshes.
use texas_fold_em.Common.{
  ℕ, ◌+◌, Bool, true, false, not, ◌&&◌, Option, none, some, List, [], ◌∷◌, ◌++◌, if◌then◌else◌,
  ◌==◌,
}
use texas_fold_em.Common.Text.{Str, str_eq, is_empty}
use texas_fold_em.Push.Row.{ℤ, pos, negsuc, Row, Status, pending, pushed, skipped, no_labels}
use texas_fold_em.Push.World.{find_row, update_row}
use texas_fold_em.FoldSync.Wire.{Codec, Txn, Money, fold_money, raw_payload_string, bare_txn}
use texas_fold_em.FoldSync.Merchant.{extract_merchant, normalize_merchant}

-- The rows, the rows of each fold_money_refresh in audit_log, latest first, and the report so far. The
-- column updated_at is not modelled.
pub record Walk : Type 0 where
  pub rows : List Row
  pub changes : List Str
  pub fetched : ℕ
  pub inserted : ℕ
  pub skipped : ℕ
  pub raw_refreshed : ℕ
  pub money_refreshed : ℕ
  pub pages : ℕ
  pub newest : Str
  pub oldest : Str

-- report.Inserted + report.Skipped.
abbrev pub handled : Walk → ℕ
handled w = w.inserted + w.skipped

abbrev pub is_closed : Status → Bool
is_closed pushed = true
is_closed skipped = true
is_closed _ = false

abbrev pub money_of : Row → Money
money_of r = record {
  amount = r.amount_paise;
  currency = r.currency;
  foreign_amount = r.foreign_amount_paise;
  foreign_currency = r.foreign_currency;
}

unfoldable pub int_eq : ℤ → ℤ → Bool
int_eq (pos m) (pos n) = m == n
int_eq (negsuc m) (negsuc n) = m == n
int_eq _ _ = false

-- Equality of sql.NullInt64 and of sql.NullString.
unfoldable pub same_amount : Option ℤ → Option ℤ → Bool
unfolding int_eq
same_amount none none = true
same_amount (some m) (some n) = int_eq m n
same_amount _ _ = false

unfoldable pub same_text : Option Str → Option Str → Bool
same_text none none = true
same_text (some s) (some t) = str_eq s t
same_text _ _ = false

unfoldable pub same_money : Money → Money → Bool
unfolding same_amount same_text
same_money a b =
    int_eq a.amount b.amount
    && (str_eq a.currency b.currency
        && (same_amount a.foreign_amount b.foreign_amount
            && same_text a.foreign_currency b.foreign_currency))

-- The assignments of refreshMoney and of refreshRawPayloadSQL.
abbrev pub with_money : Money → Row → Row
with_money m r = record r {
  amount_paise = m.amount;
  currency = m.currency;
  foreign_amount_paise = m.foreign_amount;
  foreign_currency = m.foreign_currency;
}

-- The UPDATE of refreshMoney spares closed rows by its WHERE as well.
abbrev pub set_money : Money → Row → Row
set_money m r = if is_closed r.status then r else with_money m r

abbrev pub with_raw : Str → Row → Row
with_raw raw r = record r { raw_payload = raw }

abbrev pub start : List Row → Walk
start rows = record {
  rows = rows;
  changes = [];
  fetched = 0;
  inserted = 0;
  skipped = 0;
  raw_refreshed = 0;
  money_refreshed = 0;
  pages = 0;
  newest = [];
  oldest = [];
}

module _ (c : Codec) where
  unfoldable pub staged_row : Txn c → ℕ → Row
  unfolding fold_money raw_payload_string extract_merchant normalize_merchant
  staged_row t stamp =
      let m = fold_money c t in
      record {
        fold_uuid = t.uuid;
        amount_paise = m.amount;
        currency = m.currency;
        foreign_amount_paise = m.foreign_amount;
        foreign_currency = m.foreign_currency;
        txn_timestamp = stamp;
        type = t.type;
        status = pending;
        confirmed = no_labels;
        proposed = no_labels;
        confirmed_tags_json = none;
        confirmed_amount_paise = none;
        confirmed_foreign_amount_paise = none;
        confirmed_txn_timestamp = none;
        mode = t.mode;
        raw_payload = raw_payload_string c t t.raw;
        narration = t.narration;
        merchant_extracted = normalize_merchant c.to_lower (extract_merchant t.narration t.mode);
        firefly_txn_id = none;
        firefly_group_id = none;
        confirmed_refund_of = none;
        proposed_refund_of = none;
        firefly_link_id = none;
      }

  -- refreshRawPayload on the row that was found.
  unfoldable pub refresh_raw_payload : Txn c → Row → Walk → Walk
  unfolding update_row raw_payload_string
  refresh_raw_payload t r w =
      let raw = raw_payload_string c (bare_txn c t.uuid) t.raw in
      if str_eq r.raw_payload raw then w else record w {
        rows = update_row t.uuid (with_raw raw) w.rows;
        raw_refreshed = w.raw_refreshed + 1;
      }

  -- refreshMoney on the row that was found.
  unfoldable pub refresh_money : Txn c → Row → Walk → Walk
  unfolding update_row same_money fold_money
  refresh_money t r w =
      let m = fold_money c t in
      if is_closed r.status then w else if same_money (money_of r) m then w else record w {
        rows = update_row t.uuid (set_money m) w.rows;
        changes = t.uuid ∷ w.changes;
        money_refreshed = w.money_refreshed + 1;
      }

  -- The UPDATE of refreshMoney fails: it would put NULL, for no currency, into a NOT NULL column.
  unfoldable pub refuses_money : Txn c → Option Row → Bool
  unfolding same_money fold_money
  refuses_money t none = false
  refuses_money t (some r) =
      let m = fold_money c t in
      is_empty m.currency && (not (is_closed r.status) && not (same_money (money_of r) m))

  -- insertStaged, INSERT OR IGNORE by the row's id, and the two refreshes of a row that is there. A
  -- transaction with no currency is ignored too, as the column takes no NULL.
  unfoldable pub stage : Txn c → ℕ → Option Row → Walk → Walk
  unfolding staged_row refresh_raw_payload refresh_money fold_money
  stage t stamp none w =
      if is_empty (fold_money c t).currency
      then record w { skipped = w.skipped + 1 }
      else record w { rows = w.rows ++ (staged_row t stamp ∷ []); inserted = w.inserted + 1 }
  stage t stamp (some r) w =
      refresh_money t r (refresh_raw_payload t r (record w { skipped = w.skipped + 1 }))

  unfoldable pub handle_txn : Txn c → ℕ → Walk → Walk
  unfolding stage find_row
  handle_txn t stamp w = record (stage t stamp (find_row t.uuid w.rows) w) { oldest = t.uuid }
