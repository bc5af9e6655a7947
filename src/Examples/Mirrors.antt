-- ===== src/Examples/Mirrors.antt =====
-- internal/integration/sync.go and firefly_accounts_sync.go: the theorems on the mirror at concrete
-- lists of Firefly.
use texas_fold_em.Common.{
  ℕ, ◌≡◌, ◌≢◌, refl, true, false, Option, none, some, [], ◌∷◌, arith, is_some, if◌then◌else◌, ltb,
}
use texas_fold_em.Common.Text.{str, str_eq, trim_space, lower_ascii}
use texas_fold_em.Push.Row.{pos, negsuc, paise_to_decimal}
use texas_fold_em.FoldSync.Staging.{int_eq}
use texas_fold_em.Mirror.Amounts.{decimal_to_paise}
use texas_fold_em.Mirror.Amounts.RoundTrip.{decimal_to_paise-paise_to_decimal}
use texas_fold_em.Mirror.Pages.{ListPage, IsPaged, items_from}
use texas_fold_em.Mirror.Categories.{Category, CategoryMoment, sync_categories}
use texas_fold_em.Mirror.Categories.Exact.{IsExact, listed_name, sync_categories-IsExact}
use texas_fold_em.Mirror.Categories.Success.{sync_categories_succeeds}
use texas_fold_em.Mirror.NewCategory.{
  Shelf, NewMoment, known, create_category, category_by_name, named_category,
}
use texas_fold_em.Mirror.NewCategory.Once.{create_category_once}
use texas_fold_em.FoldSync.Merchant.{fields, join}
use texas_fold_em.Mirror.Journals.{Journal, Formats, SyncMoment}
use texas_fold_em.Mirror.Accounts.{FireflyAccount, AccountsMoment, Mirrors}

-- A list of two pages.
abbrev two_pages : {A : Type 0} → A → A → ℕ → Option (ListPage A)
two_pages x y n = some (record { items = (if ltb n 2 then x else y) ∷ []; current = n; total = 2 })

abbrev food : Category
food = record { firefly_id = pos 1; name = str "Food"; last_synced_at = 500 }

abbrev category_moment : CategoryMoment
category_moment = record {
  now = 400;
  list =
      two_pages (record { id = str "2"; name = str "Rent" })
        (record { id = str "3"; name = str "Fun" });
  begin_fails = false;
  upsert_fails = λ id. false;
  drop_fails = false;
  commit_fails = false;
}

abbrev journal : Journal
journal = record {
  journal_id = str "7";
  type = str "withdrawal";
  amount = str "70.50";
  currency_code = str "INR";
  date = str "2026-05-08";
  source_id = str "1";
  source_name = str "Bank";
  destination_id = [];
  destination_name = str "Cafe";
  category_id = [];
  category_name = [];
  budget_id = [];
  budget_name = [];
  description = str "lunch";
  tags = [];
  external_id = [];
  notes = [];
}

abbrev formats : Formats
formats = record {
  parse_time = λ layout s. some 5;
  marshal_tags = λ tags. some (str "[]");
  to_lower = λ s. s;
}

abbrev sync_moment : SyncMoment
sync_moment = record {
  user_fails = false;
  begin_fails = false;
  list =
      two_pages (record { id = str "1"; journals = journal ∷ [] })
        (record { id = str "x"; journals = journal ∷ [] });
  upsert_fails = λ r. false;
  rebuild_fails = false;
  commit_fails = false;
}

abbrev bank : FireflyAccount
bank = record {
  id = str "1";
  name = str "Bank";
  type = str "asset";
  account_role = [];
  account_number = str "1234";
  currency_code = str "INR";
  active = true;
}

abbrev accounts_moment : AccountsMoment
accounts_moment = record {
  marshal = λ a. some a.name;
  list = two_pages bank (record bank { id = str "2" });
  begin_fails = false;
  upsert_fails = λ r. false;
  commit_fails = false;
  categories = category_moment;
}

decimal_to_paise-paise_to_decimal_example :
    decimal_to_paise (paise_to_decimal (negsuc 7049)) ≡ some (pos 7050)
decimal_to_paise-paise_to_decimal_example =
    decimal_to_paise-paise_to_decimal (negsuc 7049) (omega arith)

sync_categories-IsExact_example :
    IsExact
      (pos 2)
      (listed_name (pos 2) (items_from category_moment.list 2 1))
      (food ∷ [])
      (sync_categories 2 category_moment (food ∷ []))
sync_categories-IsExact_example = sync_categories-IsExact 2 category_moment (food ∷ []) (pos 2)

category-IsPaged : IsPaged 2 category_moment.list
unfolding IsPaged
category-IsPaged page p e = ground (arith, e)

category_answered : (i : ℕ) → category_moment.list i ≢ none
category_answered i e = cc

sync_categories_succeeds_example : is_some (sync_categories 2 category_moment (food ∷ [])).1 ≡ true
sync_categories_succeeds_example =
    sync_categories_succeeds 2 category_moment (food ∷ []) refl refl (λ id. refl) category_answered
      category-IsPaged (omega arith)

abbrev no_mirror : Mirrors
no_mirror = record { accounts = []; categories = [] }

-- A new category, and its name again in small letters.
abbrev new_moment : NewMoment
new_moment = record {
  read_only = false;
  has_client = true;
  answer = some (pos 9);
  now = 600;
  insert_fails = false;
}

abbrev shelf : Shelf
shelf = record { categories = food ∷ []; journals = []; asked = [] }

create_category_once_example :
    create_category new_moment
      (str "pet  care")
      (create_category new_moment (str "Pet Care") shelf).0
    ≡ ((create_category new_moment (str "Pet Care") shelf).0, known (pos 9) (str "Pet Care"))
unfolding create_category category_by_name named_category fields join trim_space lower_ascii str_eq
    int_eq
create_category_once_example =
    create_category_once new_moment new_moment (str "Pet Care") (str "pet  care") shelf
      (create_category new_moment (str "Pet Care") shelf).0 (pos 9) (str "Pet Care") refl refl
