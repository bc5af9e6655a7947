-- ===== src/Mirror/Accounts.antt =====
-- internal/integration/firefly_accounts_sync.go and fold_accounts_sync.go: the accounts of Firefly, in
-- the table firefly_accounts, and those of Fold, in fold_accounts. The counts of the reports and the
-- times of the rows are left out.
use texas_fold_em.Common.{
  ℕ, Bool, true, false, not, Option, none, some, List, [], ◌∷◌, if◌then◌else◌, ◌≡◌, refl,
  Bool-cases, is_some, inl, inr,
}
use texas_fold_em.Common.Text.{Str, str_eq, str_eq_iff, is_empty}
use texas_fold_em.Push.Row.{ℤ}
use texas_fold_em.FoldSync.Staging.{int_eq}
use texas_fold_em.Mirror.Amounts.{parse_int}
use texas_fold_em.Mirror.Pages.{ListPage, items_from}
use texas_fold_em.Mirror.Rows.{Read, left_out, refused, row, sync_rows}
use texas_fold_em.Mirror.Rows.Latest.{row_at, otherwise, latest_of, sync_rows-IsSynced}
use texas_fold_em.Mirror.Categories.{Category, CategoryMoment, sync_categories}
use texas_fold_em.Mirror.Journals.{null_if_empty}

-- Account of Firefly, as it is listed.
pub record FireflyAccount : Type 0 where
  pub id : Str
  pub name : Str
  pub type : Str
  pub account_role : Str
  pub account_number : Str
  pub currency_code : Str
  pub active : Bool

-- A row of firefly_accounts.
pub record FireflyAccountRow : Type 0 where
  pub firefly_id : ℤ
  pub name : Str
  pub type : Str
  pub account_role : Option Str
  pub account_number : Option Str
  pub currency_code : Option Str
  pub active : Bool
  pub raw_payload : Str

firefly_row : FireflyAccount → ℤ → Str → FireflyAccountRow
unfolding null_if_empty
firefly_row a id raw = record {
  firefly_id = id;
  name = a.name;
  type = a.type;
  account_role = null_if_empty a.account_role;
  account_number = null_if_empty a.account_number;
  currency_code = null_if_empty a.currency_code;
  active = a.active;
  raw_payload = raw;
}

-- One account of a page, with json.Marshal as `marshal`; an account whose id is malformed is left out.
pub read_account : (FireflyAccount → Option Str) → FireflyAccount → List (Read FireflyAccountRow)
unfolding firefly_row
read_account marshal a = elim (parse_int a.id) [
  | none ↦ left_out ∷ []
  | some id ↦ elim (marshal a) [ none ↦ refused ∷ [] | some raw ↦ row (firefly_row a id raw) ∷ [] ]
]

-- What a sync of Firefly's accounts meets, and then that of the categories.
pub record AccountsMoment : Type 0 where
  pub marshal : FireflyAccount → Option Str
  pub list : ℕ → Option (ListPage FireflyAccount)
  pub begin_fails : Bool
  pub upsert_fails : FireflyAccountRow → Bool
  pub commit_fails : Bool
  pub categories : CategoryMoment

pub record Mirrors : Type 0 where
  pub accounts : List FireflyAccountRow
  pub categories : List Category

-- Sync of FireflyAccountsSyncer: whether it went well, and how many categories were kept.
unfoldable pub sync_firefly_accounts : ℕ → AccountsMoment → Mirrors → Mirrors × Bool × Option ℕ
unfolding read_account
sync_firefly_accounts pages m w =
    let (accounts, fine) =
      sync_rows int_eq (λ (r : FireflyAccountRow). r.firefly_id) m.upsert_fails
        (read_account m.marshal) m.list m.begin_fails m.commit_fails pages w.accounts in
    let (categories, kept) = sync_categories pages m.categories w.categories in
    if fine
    then (record { accounts = accounts; categories = categories }, true, kept)
    else (record w { accounts = accounts }, false, none)

-- Account of Fold.
pub record FoldAccount : Type 0 where
  pub id : Str
  pub kind : Str
  pub name : Str
  pub provider : Str
  pub network : Str
  pub last_four : Str
  pub nickname : Str
  pub holder_name : Str
  pub is_closed : Bool
  pub raw : Str

-- A row of fold_accounts.
pub record FoldAccountRow : Type 0 where
  pub fold_account_id : Str
  pub kind : Str
  pub name : Str
  pub provider : Option Str
  pub network : Option Str
  pub last_four : Option Str
  pub nickname : Option Str
  pub holder_name : Option Str
  pub raw_payload : Str
  pub is_closed : Bool

fold_row : FoldAccount → Str → FoldAccountRow
unfolding null_if_empty
fold_row a raw = record {
  fold_account_id = a.id;
  kind = a.kind;
  name = a.name;
  provider = null_if_empty a.provider;
  network = null_if_empty a.network;
  last_four = null_if_empty a.last_four;
  nickname = null_if_empty a.nickname;
  holder_name = null_if_empty a.holder_name;
  raw_payload = raw;
  is_closed = a.is_closed;
}

read_fold_account : (FoldAccount → Option Str) → FoldAccount → List (Read FoldAccountRow)
unfolding fold_row
read_fold_account marshal a =
    if not (is_empty a.raw)
    then row (fold_row a a.raw) ∷ []
    else elim (marshal a) [ none ↦ refused ∷ [] | some raw ↦ row (fold_row a raw) ∷ [] ]

-- The one answer of Fold, as a list of a single page.
one_page : Option (List FoldAccount) → ℕ → Option (ListPage FoldAccount)
one_page none n = none
one_page (some l) n = some (record { items = l; current = 1; total = 1 })

-- Sync of FoldAccountsSyncer; `answer` is what ListAccounts gives.
unfoldable pub sync_fold_accounts :
    (FoldAccount → Option Str)
    → Option (List FoldAccount)
    → (FoldAccountRow → Bool)
    → Bool
    → Bool
    → List FoldAccountRow
    → List FoldAccountRow × Bool
unfolding read_fold_account one_page
sync_fold_accounts marshal answer upsert_fails begin_fails commit_fails rows =
    sync_rows str_eq (λ (r : FoldAccountRow). r.fold_account_id) upsert_fails
      (read_fold_account marshal) (one_page answer) begin_fails commit_fails 1 rows

abbrev fold_key : FoldAccountRow → Str
fold_key r = r.fold_account_id

otherwise_some : {A : Type 0} (o p : Option A) → is_some p ≡ true → is_some (otherwise o p) ≡ true
otherwise_some none p h = h
otherwise_some (some x) p h = refl

-- A sync of Fold's accounts loses none: an account that had a row has one afterwards, also where Fold
-- no longer lists it and where the sync fails.
sync_fold_accounts_keeps :
    (marshal : FoldAccount → Option Str) (answer : Option (List FoldAccount))
    (upsert_fails : FoldAccountRow → Bool) (begin_fails commit_fails : Bool)
    (rows : List FoldAccountRow) (k : Str)
    → is_some (row_at str_eq fold_key k rows) ≡ true
    → is_some (
        row_at str_eq fold_key k
          (sync_fold_accounts marshal answer upsert_fails begin_fails commit_fails rows).0)
      ≡ true
unfolding sync_fold_accounts
sync_fold_accounts_keeps marshal answer upsert_fails begin_fails commit_fails rows k h =
    let list = one_page answer in
    let reads = read_fold_account marshal in
    let r = sync_rows str_eq fold_key upsert_fails reads list begin_fails commit_fails 1 rows in
    let synced =
      sync_rows-IsSynced str_eq fold_key str_eq_iff upsert_fails reads list begin_fails commit_fails
        1 rows k in
    elim (Bool-cases r.1) [
      | inl e ↦
          rw (synced.0 e)
            (otherwise_some (latest_of str_eq fold_key reads k (items_from list 1 1)) _ h)
      | inr e ↦ rw (synced.1 e) h
    ]
