-- ===== src/Mirror/Categories/Success.antt =====
-- internal/integration/firefly_accounts_sync.go: syncCategories succeeds where nothing fails.
use texas_fold_em.Common.{
  ℕ, ◌≤◌, ◌≡◌, ◌≢◌, refl, Bool, true, false, ◌||◌, Option, none, some, List, [], arith, is_some,
}
use texas_fold_em.Common.Text.{Str}
use texas_fold_em.Push.Row.{ℤ}
use texas_fold_em.Mirror.Amounts.{parse_int}
use texas_fold_em.Mirror.Pages.{IsPaged, each_fine, walk_list_succeeds}
use texas_fold_em.Mirror.Categories.{
  Category, ListedCategory, Pass, CategoryMoment, keep_parsed, keep_category, began_at,
  after_categories, sync_categories,
}

keep_parsed_fine :
    (fails : ℤ → Bool) (began : ℕ) (name : Str) (o : Option ℤ) (s : Pass)
    → ((id : ℤ) → fails id ≡ false)
    → (keep_parsed fails began name o s).1 ≡ true
unfolding keep_parsed
keep_parsed_fine fails began name none s h = refl
keep_parsed_fine fails began name (some id) s h = ground (arith, h id)

-- syncCategories succeeds, where no statement fails, every page is answered, and Firefly numbers its
-- pages as it is asked and has no more than the bound; a category with a malformed id or with no name
-- does not make it fail.
pub sync_categories_succeeds :
    (pages : ℕ) (m : CategoryMoment) (rows : List Category)
    → m.begin_fails ≡ false
    → (m.drop_fails || m.commit_fails) ≡ false
    → ((id : ℤ) → m.upsert_fails id ≡ false)
    → ((i : ℕ) → m.list i ≢ none)
    → IsPaged pages m.list
    → 1 ≤ pages
    → is_some (sync_categories pages m rows).1 ≡ true
unfolding sync_categories keep_category after_categories
sync_categories_succeeds pages m rows b c fine answered paged k =
    let began = began_at m.now rows in
    let act = keep_category m.upsert_fails began in
    let kept = λ (x : ListedCategory) (s : Pass).
      keep_parsed_fine m.upsert_fails began x.name (parse_int x.id) s fine in
    let (s, e) =
      walk_list_succeeds act m.list pages pages 1 (record { rows = rows; seen = [] }) answered
        (λ i p q t. each_fine act kept p.items t) paged (omega arith) k in
    rw (b, e, c) refl
