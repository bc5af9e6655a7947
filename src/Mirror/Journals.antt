-- ===== src/Mirror/Journals.antt =====
-- internal/integration/sync.go: SyncAll and MirrorJournal, on the table firefly_txns. What
-- rebuildMerchantLookup puts into merchant_lookup is left out, and whether it fails is not.
use texas_fold_em.Common.{
  ℕ, Bool, true, false, Option, none, some, List, [], ◌∷◌, ◌||◌, if◌then◌else◌, map, ◌≡◌, ◌≢◌, ◌≤◌,
}
use texas_fold_em.Common.Text.{Str, str, is_empty, trim_space}
use texas_fold_em.Push.Row.{ℤ}
use texas_fold_em.FoldSync.Staging.{int_eq}
use texas_fold_em.FoldSync.Merchant.{normalize_merchant}
use texas_fold_em.Mirror.Amounts.{parse_int, decimal_to_paise}
use texas_fold_em.Mirror.Pages.{ListPage, IsPaged, each}
use texas_fold_em.Mirror.Rows.{Read, refused, row, keep_entry, sync_rows}
use texas_fold_em.Mirror.Rows.Latest.{sync_rows_succeeds}

-- TransactionJournal.
pub record Journal : Type 0 where
  pub journal_id : Str
  pub type : Str
  pub amount : Str
  pub currency_code : Str
  pub date : Str
  pub source_id : Str
  pub source_name : Str
  pub destination_id : Str
  pub destination_name : Str
  pub category_id : Str
  pub category_name : Str
  pub budget_id : Str
  pub budget_name : Str
  pub description : Str
  pub tags : List Str
  pub external_id : Str
  pub notes : Str

-- TransactionGroup.
pub record Group : Type 0 where
  pub id : Str
  pub journals : List Journal

-- A row of firefly_txns.
pub record JournalRow : Type 0 where
  pub firefly_id : ℤ
  pub group_id : ℤ
  pub txn_type : Str
  pub amount_paise : ℤ
  pub currency : Str
  pub date : ℕ
  pub source_account_id : Option ℤ
  pub source_account_name : Option Str
  pub destination_account_id : Option ℤ
  pub destination_account_name : Option Str
  pub destination_account_name_normalized : Option Str
  pub category_id : Option ℤ
  pub category_name : Option Str
  pub budget_id : Option ℤ
  pub budget_name : Option Str
  pub description : Str
  pub tags_json : Str
  pub external_id : Option Str
  pub notes : Option Str

-- time.Parse of a text by a layout, json.Marshal of tags, and strings.ToLower.
pub record Formats : Type 0 where
  pub parse_time : Str → Str → Option ℕ
  pub marshal_tags : List Str → Option Str
  pub to_lower : Str → Str

-- nullIfEmpty.
unfoldable pub null_if_empty : Str → Option Str
null_if_empty s = if is_empty s then none else some s

-- nullableID.
unfoldable pub nullable_id : Str → Option ℤ
nullable_id text = let s = trim_space text in if is_empty s then none else parse_int s

first_parsed : (Str → Option ℕ) → List Str → Option ℕ
first_parsed parse [] = none
first_parsed parse (layout ∷ l) =
    let rest = first_parsed parse l in elim (parse layout) [ none ↦ rest | some t ↦ some t ]

-- parseFireflyDate, with time.RFC3339Nano and time.RFC3339 written out.
unfoldable pub parse_firefly_date : Formats → Str → Option ℕ
unfolding first_parsed
parse_firefly_date f text =
    let s = trim_space text in
    if is_empty s
    then none
    else first_parsed (λ layout. f.parse_time layout s)
        (str "2006-01-02T15:04:05.999999999Z07:00"
          ∷ str "2006-01-02T15:04:05Z07:00"
          ∷ str "2006-01-02"
          ∷ [])

journal_row : Formats → Journal → ℤ → ℤ → ℤ → ℕ → Str → JournalRow
unfolding null_if_empty nullable_id
journal_row f j group id amount date tags = record {
  firefly_id = id;
  group_id = group;
  txn_type = j.type;
  amount_paise = amount;
  currency = j.currency_code;
  date = date;
  source_account_id = nullable_id j.source_id;
  source_account_name = null_if_empty j.source_name;
  destination_account_id = nullable_id j.destination_id;
  destination_account_name = null_if_empty j.destination_name;
  destination_account_name_normalized =
      null_if_empty (normalize_merchant f.to_lower j.destination_name);
  category_id = nullable_id j.category_id;
  category_name = null_if_empty j.category_name;
  budget_id = nullable_id j.budget_id;
  budget_name = null_if_empty j.budget_name;
  description = j.description;
  tags_json = tags;
  external_id = null_if_empty j.external_id;
  notes = null_if_empty j.notes;
}

infixl 5 ◌>>=◌
abbrev ◌>>=◌ : {A B : Type 0} → Option A → (A → Option B) → Option B
none >>= f = none
some a >>= f = f a

row_of : Formats → ℤ → Journal → Option JournalRow
unfolding journal_row
row_of f group j = do
  id ← parse_int j.journal_id
  amount ← decimal_to_paise j.amount
  date ← parse_firefly_date f j.date
  tags ← f.marshal_tags j.tags
  some (journal_row f j group id amount date tags)

-- upsertJournal, up to its statement.
unfoldable pub read_journal : Formats → ℤ → Journal → Read JournalRow
unfolding row_of
read_journal f group j = elim (row_of f group j) [ none ↦ refused | some r ↦ row r ]

-- A group whose id is malformed is left out.
unfoldable pub read_group : Formats → Group → List (Read JournalRow)
unfolding read_journal
read_group f g = elim (parse_int g.id) [
  | none ↦ []
  | some group ↦ map (read_journal f group) g.journals
]

-- What SyncAll meets.
pub record SyncMoment : Type 0 where
  pub user_fails : Bool
  pub begin_fails : Bool
  pub list : ℕ → Option (ListPage Group)
  pub upsert_fails : JournalRow → Bool
  pub rebuild_fails : Bool
  pub commit_fails : Bool

-- SyncAll, with so many pages at most.
unfoldable pub sync_all : Formats → ℕ → SyncMoment → List JournalRow → List JournalRow × Bool
sync_all f pages m rows =
    sync_rows int_eq (λ (r : JournalRow). r.firefly_id) m.upsert_fails (read_group f) m.list
      (m.user_fails || m.begin_fails) (m.rebuild_fails || m.commit_fails) pages rows

-- SyncAll succeeds, where no request and no statement fails, every page is answered, what is on it
-- can be stored, and Firefly numbers its pages as it is asked and has no more than the bound.
pub sync_all_succeeds :
    (f : Formats) (pages : ℕ) (m : SyncMoment) (rows : List JournalRow)
    → (m.user_fails || m.begin_fails) ≡ false
    → (m.rebuild_fails || m.commit_fails) ≡ false
    → ((i : ℕ) → m.list i ≢ none)
    → ((i : ℕ) (p : ListPage Group)
        → m.list i ≡ some p
        → (s : List JournalRow)
        → (each
            (keep_entry int_eq (λ (r : JournalRow). r.firefly_id) m.upsert_fails (read_group f))
            p.items
            s).1
          ≡ true)
    → IsPaged pages m.list
    → 1 ≤ pages
    → (sync_all f pages m rows).1 ≡ true
unfolding sync_all
sync_all_succeeds f pages m rows begun closed answered stored paged some_page =
    sync_rows_succeeds int_eq (λ (r : JournalRow). r.firefly_id) m.upsert_fails (read_group f)
      m.list (m.user_fails || m.begin_fails) (m.rebuild_fails || m.commit_fails) pages rows begun
      closed answered stored paged some_page
