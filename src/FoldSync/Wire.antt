-- ===== src/FoldSync/Wire.antt =====
-- internal/integration/fold_sync.go: a transaction of Fold, and what a row takes from it.
use texas_fold_em.Common.{ℕ, ◌&&◌, not, Option, none, some, List, [], ◌∷◌, if◌then◌else◌}
use texas_fold_em.Common.Text.{Str, str, str_eq, is_empty}
use texas_fold_em.Push.Row.{ℤ, pos}

-- What the sync uses of others: float64 amounts with amountToPaise, which are not modelled,
-- time.Parse by its layout, strings.ToLower, and json.Marshal of a transaction, by its texts and its
-- two amounts.
pub record Codec : Type 1 where
  pub Float : Type 0
  pub zero : Float
  pub amount_to_paise : Float → ℕ
  pub parse_time : Str → Str → Option ℕ
  pub to_lower : Str → Str
  pub marshal : List Str → Float → Float → Str

-- fold.Transaction; `raw` is the transaction as it came, "" where that was not kept.
pub record Txn (c : Codec) : Type 0 where
  pub uuid : Str
  pub amount : Codec.Float c
  pub currency : Str
  pub source_amount : Codec.Float c
  pub source_currency : Str
  pub txn_timestamp : Str
  pub mode : Str
  pub type : Str
  pub narration : Str
  pub raw : Str

-- A page of transactions, latest first, and the cursor after it, "" at the end.
pub record Page (c : Codec) : Type 0 where
  pub transactions : List (Txn c)
  pub after : Str

-- The four results of foldMoney.
pub record Money : Type 0 where
  pub amount : ℤ
  pub currency : Str
  pub foreign_amount : Option ℤ
  pub foreign_currency : Option Str

module _ (c : Codec) where
  -- foldMoney: the home side, or else the source side; the source side is foreign if it differs.
  unfoldable pub fold_money : Txn c → Money
  fold_money t =
      let home = not (is_empty t.currency) in
      let amount = if home then t.amount else t.source_amount in
      let currency = if home then t.currency else t.source_currency in
      let abroad = not (is_empty t.source_currency) && not (str_eq t.source_currency currency) in
      record {
        amount = pos (c.amount_to_paise amount);
        currency = currency;
        foreign_amount = if abroad then some (pos (c.amount_to_paise t.source_amount)) else none;
        foreign_currency = if abroad then some t.source_currency else none;
      }

  first_layout : List Str → Str → Option ℕ
  first_layout [] s = none
  first_layout (l ∷ ls) s = elim (c.parse_time l s) [ some t ↦ some t | none ↦ first_layout ls s ]

  -- parseFoldTimestamp.
  unfoldable pub parse_fold_timestamp : Str → Option ℕ
  unfolding first_layout
  parse_fold_timestamp s =
      first_layout
        (str "2006-01-02T15:04:05.999999999Z07:00"
          ∷ str "2006-01-02T15:04:05Z07:00"
          ∷ str "2006-01-02T15:04:05Z"
          ∷ [])
        s

  -- latestFireflyTxnDate, of MAX(date): an error, or the date if there is one.
  unfoldable pub latest_firefly_txn_date : Option Str → Option (Option ℕ)
  unfolding first_layout
  latest_firefly_txn_date none = some none
  latest_firefly_txn_date (some s) =
      if is_empty s
      then some none
      else elim (first_layout
          (str "2006-01-02 15:04:05 -0700 MST"
            ∷ str "2006-01-02T15:04:05Z07:00"
            ∷ str "2006-01-02 15:04:05"
            ∷ str "2006-01-02"
            ∷ [])
          s) [ some t ↦ some (some t) | none ↦ none ]

  -- fold.Transaction{UUID: …}.
  abbrev pub bare_txn : Str → Txn c
  bare_txn uuid = record {
    uuid = uuid;
    amount = c.zero;
    currency = [];
    source_amount = c.zero;
    source_currency = [];
    txn_timestamp = [];
    mode = [];
    type = [];
    narration = [];
    raw = [];
  }

  -- rawPayloadString, where marshalling does not fail.
  unfoldable pub raw_payload_string : Txn c → Str → Str
  raw_payload_string t raw =
      if not (is_empty raw)
      then raw
      else c.marshal
          (t.uuid ∷ t.currency ∷ t.source_currency ∷ t.txn_timestamp ∷ t.mode ∷ t.type ∷ t.narration
            ∷ [])
          t.amount t.source_amount
