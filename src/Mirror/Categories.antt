-- ===== src/Mirror/Categories.antt =====
-- internal/integration/firefly_accounts_sync.go: syncCategories, on the table firefly_categories. The
-- stamps are in milliseconds.
pub mod Exact
pub mod Success
use texas_fold_em.Common.{
  ℕ, zero, suc, ◌+◌, Bool, true, false, not, ◌&&◌, ◌||◌, Option, none, some, List, [], ◌∷◌, ◌++◌,
  if◌then◌else◌, ltb, leb, length,
}
use texas_fold_em.Common.Text.{Str, is_empty}
use texas_fold_em.Push.Row.{ℤ}
use texas_fold_em.FoldSync.Staging.{int_eq}
use texas_fold_em.Mirror.Amounts.{parse_int}
use texas_fold_em.Mirror.Pages.{ListPage, Walked, finished, stopped, unfinished, walk_list}

pub record Category : Type 0 where
  pub firefly_id : ℤ
  pub name : Str
  pub last_synced_at : ℕ

-- A category as Firefly lists it.
pub record ListedCategory : Type 0 where
  pub id : Str
  pub name : Str

-- The rows, and the ids that were seen.
pub record Pass : Type 0 where
  pub rows : List Category
  pub seen : List ℤ

-- What a sync meets: the clock, Firefly's pages, and the statements that fail.
pub record CategoryMoment : Type 0 where
  pub now : ℕ
  pub list : ℕ → Option (ListPage ListedCategory)
  pub begin_fails : Bool
  pub upsert_fails : ℤ → Bool
  pub drop_fails : Bool
  pub commit_fails : Bool

unfoldable pub upsert_category : ℤ → Str → ℕ → List Category → List Category
upsert_category id name at [] = record { firefly_id = id; name = name; last_synced_at = at } ∷ []
upsert_category id name at (r ∷ l) =
    let rest = upsert_category id name at l in
    if int_eq r.firefly_id id then record r { name = name; last_synced_at = at } ∷ l else r ∷ rest

keep_parsed : (ℤ → Bool) → ℕ → Str → Option ℤ → Pass → Pass × Bool
unfolding upsert_category
keep_parsed fails began name none s = (s, true)
keep_parsed fails began name (some id) s =
    if is_empty name
    then (s, true)
    else if fails id
    then (s, false)
    else (record { rows = upsert_category id name began s.rows; seen = s.seen ++ id ∷ [] }, true)

-- One category of a page; whether the statement went well.
unfoldable pub keep_category : (ℤ → Bool) → ℕ → ListedCategory → Pass → Pass × Bool
unfolding keep_parsed
keep_category fails began c s = keep_parsed fails began c.name (parse_int c.id) s

later_of : ℕ → Option ℕ → ℕ
later_of a none = a
later_of a (some b) = if ltb b a then a else b

-- MAX(last_synced_at).
latest_stamp : List Category → Option ℕ
unfolding later_of
latest_stamp [] = none
latest_stamp (r ∷ l) = some (later_of r.last_synced_at (latest_stamp l))

after_stamp : ℕ → Option ℕ → ℕ
after_stamp now none = now
after_stamp now (some t) = if leb now t then t + 1 else now

-- The stamp of a sync, later than every stamp that is stored.
unfoldable pub began_at : ℕ → List Category → ℕ
unfolding latest_stamp after_stamp
began_at now rows = after_stamp now (latest_stamp rows)

unfoldable pub is_seen_id : ℤ → List ℤ → Bool
is_seen_id id [] = false
is_seen_id id (i ∷ l) = int_eq i id || is_seen_id id l

-- The rows that Firefly no longer has are dropped.
unfoldable pub drop_unseen : ℕ → List ℤ → List Category → List Category
unfolding is_seen_id
drop_unseen began seen [] = []
drop_unseen began seen (r ∷ l) =
    let rest = drop_unseen began seen l in
    if ltb r.last_synced_at began && not (is_seen_id r.firefly_id seen) then rest else r ∷ rest

after_categories : CategoryMoment → ℕ → List Category → Walked Pass → List Category × Option ℕ
unfolding drop_unseen
after_categories m began rows unfinished = (rows, none)
after_categories m began rows (stopped s) = (rows, none)
after_categories m began rows (finished s) =
    if m.drop_fails || m.commit_fails
    then (rows, none)
    else (drop_unseen began s.seen s.rows, some (length s.seen))

-- syncCategories, with so many pages at most; `none` is an error, after which the transaction is
-- rolled back.
unfoldable pub sync_categories : ℕ → CategoryMoment → List Category → List Category × Option ℕ
unfolding after_categories
sync_categories pages m rows =
    let began = began_at m.now rows in
    if m.begin_fails
    then (rows, none)
    else after_categories m began rows (
        walk_list m.list (keep_category m.upsert_fails began) pages 1
          (record { rows = rows; seen = [] }))
