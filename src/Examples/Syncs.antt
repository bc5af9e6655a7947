-- ===== src/Examples/Syncs.antt =====
-- fold_sync.go: the theorems on the sync with one page of Fold.
use texas_fold_em.Common.{ℕ, refl, true, Option, none, some, [], ◌∷◌}
use texas_fold_em.Common.Text.{Str, str, str_eq}
use texas_fold_em.Push.Row.{Row, no_labels, pos, skipped}
use texas_fold_em.Push.World.{find_row}
use texas_fold_em.FoldSync.Wire.{Codec, Txn, Page}
use texas_fold_em.FoldSync.{sync_since_firefly}
use texas_fold_em.FoldSync.Bounds.{StopsWithin, sync_since_firefly_stops}
use texas_fold_em.FoldSync.Rows.{KeptBySync, sync_since_firefly_keeps}

abbrev whole_amounts : Codec
whole_amounts = record {
  Float = ℕ;
  zero = 0;
  amount_to_paise = λ n. n;
  parse_time = λ layout s. some 9;
  to_lower = λ s. s;
  marshal = λ texts a b. [];
}

abbrev txn_of : Str → ℕ → Txn whole_amounts
txn_of uuid amount = record {
  uuid = uuid;
  amount = amount;
  currency = str "INR";
  source_amount = amount;
  source_currency = str "INR";
  txn_timestamp = [];
  mode = [];
  type = [];
  narration = [];
  raw = str "{}";
}

abbrev pages : ℕ → Str → Option (Page whole_amounts)
pages n cursor =
    some (record {
      transactions = txn_of (str "t1") 70 ∷ txn_of (str "t2") 80 ∷ [];
      after = str "next";
    })

-- A row that was skipped, and whose amount has changed at Fold since.
abbrev skipped_row : Row
skipped_row = record {
  fold_uuid = str "t1";
  amount_paise = pos 60;
  currency = str "INR";
  foreign_amount_paise = none;
  foreign_currency = none;
  txn_timestamp = 7;
  type = [];
  status = skipped;
  confirmed = no_labels;
  proposed = no_labels;
  confirmed_tags_json = none;
  confirmed_amount_paise = none;
  confirmed_foreign_amount_paise = none;
  confirmed_txn_timestamp = none;
  mode = [];
  raw_payload = [];
  narration = [];
  merchant_extracted = [];
  firefly_txn_id = none;
  firefly_group_id = none;
  confirmed_refund_of = none;
  proposed_refund_of = none;
  firefly_link_id = none;
}

sync_since_firefly_stops_example :
    StopsWithin 3
      (sync_since_firefly whole_amounts pages (λ n. true) true none 3 (skipped_row ∷ []))
sync_since_firefly_stops_example =
    sync_since_firefly_stops whole_amounts pages (λ n. true) true none 3 (skipped_row ∷ [])

sync_since_firefly_keeps_example :
    KeptBySync
      (str "t1")
      skipped_row
      (sync_since_firefly whole_amounts pages (λ n. true) true none 3 (skipped_row ∷ []))
unfolding find_row str_eq
sync_since_firefly_keeps_example =
    sync_since_firefly_keeps whole_amounts pages (λ n. true) true none 3 (skipped_row ∷ [])
      (str "t1") skipped_row refl
