-- ===== src/Mirror/NewCategory.antt =====
-- internal/integration/category_create.go: CategoryByName and CreateCategory, on the tables
-- firefly_categories and firefly_txns.
pub mod Once
use texas_fold_em.Common.{
  ℕ, ◌+◌, Bool, true, false, ◌||◌, Option, none, some, List, [], ◌∷◌, if◌then◌else◌, ltb, length,
}
use texas_fold_em.Common.Text.{Str, str_eq, is_empty, trim_space, lower_ascii}
use texas_fold_em.Push.Row.{ℤ, pos}
use texas_fold_em.FoldSync.Staging.{int_eq}
use texas_fold_em.FoldSync.Merchant.{fields, join}
use texas_fold_em.Mirror.Categories.{Category, upsert_category}
use texas_fold_em.Mirror.Journals.{JournalRow}

-- The tables, and the names that Firefly was asked to make, latest first.
pub record Shelf : Type 0 where
  pub categories : List Category
  pub journals : List JournalRow
  pub asked : List Str

-- What a call meets: a Pusher that is read-only, or that has no client of Firefly; the id that Firefly
-- answers (`none` is an error); the clock; and whether the insert fails.
pub record NewMoment : Type 0 where
  pub read_only : Bool
  pub has_client : Bool
  pub answer : Option ℤ
  pub now : ℕ
  pub insert_fails : Bool

pub data NewCategory : Type 0 where
  bad_name : NewCategory
  known : ℤ → Str → NewCategory
  refused_read_only : NewCategory
  not_set_up : NewCategory
  firefly_failed : NewCategory
  created : ℤ → Str → NewCategory
  unrecorded : ℤ → Str → NewCategory

unfoldable pub named_category : Str → List Category → Option (ℤ × Str)
named_category lower [] = none
named_category lower (r ∷ l) =
    let rest = named_category lower l in
    if str_eq (lower_ascii r.name) lower then some (r.firefly_id, r.name) else rest

journal_category : Str → JournalRow → Option (ℤ × Str)
journal_category lower r = elim r.category_id [
  | none ↦ none
  | some id ↦ elim r.category_name [
    | none ↦ none
    | some name ↦ if str_eq (lower_ascii name) lower then some (id, name) else none
  ]
]

unfoldable pub mirrored_category : Str → List JournalRow → Option (ℤ × Str)
unfolding journal_category
mirrored_category lower [] = none
mirrored_category lower (r ∷ l) =
    let rest = mirrored_category lower l in
    elim (journal_category lower r) [ none ↦ rest | some found ↦ some found ]

-- CategoryByName; of several that match in one table the first is taken.
unfoldable pub category_by_name : Str → Shelf → Option (ℤ × Str)
unfolding named_category mirrored_category
category_by_name text w =
    let name = trim_space text in
    let lower = lower_ascii name in
    if is_empty name then none else elim (named_category lower w.categories) [
      | none ↦ mirrored_category lower w.journals
      | some found ↦ some found
    ]

-- The client's CreateCategory: an answer without an id is an error.
unfoldable pub ask_firefly : Option ℤ → Option ℤ
ask_firefly none = none
ask_firefly (some id) = if int_eq id (pos 0) then none else some id

after_request : NewMoment → Str → Shelf → Option ℤ → Shelf × NewCategory
after_request m name w none = (w, firefly_failed)
after_request m name w (some id) =
    if m.insert_fails
    then (w, unrecorded id name)
    else (record w { categories = upsert_category id name m.now w.categories }, created id name)

make_category : NewMoment → Str → Shelf → Option (ℤ × Str) → Shelf × NewCategory
unfolding after_request ask_firefly
make_category m name w (some (id, canonical)) = (w, known id canonical)
make_category m name w none =
    if m.read_only
    then (w, refused_read_only)
    else if m.has_client
    then after_request m name (record w { asked = name ∷ w.asked }) (ask_firefly m.answer)
    else (w, not_set_up)

-- CreateCategory.
unfoldable pub create_category : NewMoment → Str → Shelf → Shelf × NewCategory
unfolding make_category
create_category m text w =
    let name = join (fields text) in
    if is_empty name || ltb 100 (length name)
    then (w, bad_name)
    else make_category m name w (category_by_name name w)
