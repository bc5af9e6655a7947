-- ===== src/Mirror/Categories/Exact.antt =====
-- internal/integration/firefly_accounts_sync.go: after syncCategories the table is Firefly's list.
use texas_fold_em.Common.{
  ℕ, ◌<◌, ◌≡◌, refl, ap, ◌∙◌, Bool, true, false, ◌||◌, Option, none, some, List, [], ◌∷◌, ◌++◌,
  if◌then◌else◌, arith, All, is_some, Bool-cases, if_elim, inl, inr, subst,
}
use texas_fold_em.Common.Text.{Str, is_empty}
use texas_fold_em.Push.Row.{ℤ}
use texas_fold_em.FoldSync.Staging.{int_eq}
use texas_fold_em.Mirror.Amounts.{parse_int}
use texas_fold_em.Mirror.Pages.{
  Walked, finished, stopped, unfinished, each, walk_list, items_from, walk_list-finished,
}
use texas_fold_em.Mirror.Rows.Latest.{int_eq_iff, otherwise}
use texas_fold_em.Mirror.Categories.{
  Category, ListedCategory, Pass, CategoryMoment, upsert_category, keep_parsed, keep_category,
  later_of, latest_stamp, after_stamp, began_at, is_seen_id, drop_unseen, after_categories,
  sync_categories,
}

-- The name that the table has for an id.
pub name_of : ℤ → List Category → Option Str
name_of id [] = none
name_of id (r ∷ l) = if int_eq r.firefly_id id then some r.name else name_of id l

-- The name that a listed category gives to an id, if it has a name and is of that id.
named_parsed : ℤ → Str → Option ℤ → Option Str
named_parsed id name none = none
named_parsed id name (some i) =
    if is_empty name then none else if int_eq i id then some name else none

named_by : ℤ → ListedCategory → Option Str
named_by id c = named_parsed id c.name (parse_int c.id)

-- The last name that a list gives to an id.
pub listed_name : ℤ → List ListedCategory → Option Str
listed_name id [] = none
listed_name id (c ∷ l) = otherwise (listed_name id l) (named_by id c)

name_of-upsert :
    (id i : ℤ) (name : Str) (at : ℕ) (l : List Category)
    → name_of id (upsert_category i name at l) ≡ (if int_eq i id then some name else name_of id l)
unfolding name_of upsert_category
name_of-upsert id i name at [] = refl
name_of-upsert id i name at (r ∷ l) = ground (
  arith,
  int_eq_iff r.firefly_id i,
  int_eq_iff r.firefly_id id,
  int_eq_iff i id,
  name_of-upsert id i name at l,
)

is_seen_id-append :
    (id i : ℤ) (l : List ℤ) → is_seen_id id (l ++ i ∷ []) ≡ (int_eq i id || is_seen_id id l)
unfolding is_seen_id
is_seen_id-append id i [] = ground arith
is_seen_id-append id i (j ∷ l) = ground (arith, is_seen_id-append id i l)

-- The rows of an id that was not seen are older than the sync.
abbrev IsOld : ℕ → ℤ → Bool → List Category → Type 0
IsOld began id seen =
    All (λ r. int_eq r.firefly_id id ≡ true → seen ≡ false → r.last_synced_at < began)

IsOld-weaken :
    (began : ℕ) (id : ℤ) (a b : Bool) (l : List Category)
    → IsOld began id b l
    → IsOld began id (a || b) l
IsOld-weaken began id a b [] h = tt
IsOld-weaken began id a b (r ∷ l) h =
    (λ p q. h.0 p (ground (arith, q)), IsOld-weaken began id a b l h.1)

upsert-IsOld :
    (began : ℕ) (id i : ℤ) (name : Str) (b : Bool) (l : List Category)
    → IsOld began id b l
    → IsOld began id (int_eq i id || b) (upsert_category i name began l)
unfolding upsert_category
upsert-IsOld began id i name b [] h = (λ p q. absurd (ground (arith, p, q)), tt)
upsert-IsOld began id i name b (r ∷ l) h = elim (Bool-cases (int_eq r.firefly_id i)) [
  | inl e ↦ rw e (
    λ p q. absurd (
        ground
          (arith, p, q, e, int_eq_iff r.firefly_id i, int_eq_iff r.firefly_id id, int_eq_iff i id)),
    IsOld-weaken began id (int_eq i id) b l h.1,
  )
  | inr e ↦ rw e (λ p q. h.0 p (ground (arith, q)), upsert-IsOld began id i name b l h.1)
]

-- What a list of categories does to the table at an id: where it names the id, the table has its
-- last name and the id was seen; else nothing changed there.
record IsTracked (began : ℕ) (id : ℤ) (named : Option Str) (s s' : Pass) : Type 0 where
  name : name_of id s'.rows ≡ otherwise named (name_of id s.rows)
  seen : is_seen_id id s'.seen ≡ (is_some named || is_seen_id id s.seen)
  old :
      IsOld began id (is_seen_id id s.seen) s.rows → IsOld began id (is_seen_id id s'.seen) s'.rows

IsTracked-trans :
    (began : ℕ) (id : ℤ) (a b : Option Str) (s t u : Pass)
    → IsTracked began id a s t
    → IsTracked began id b t u
    → IsTracked began id (otherwise b a) s u
IsTracked-trans began id a none s t u h k = record {
  name = k.name ∙ h.name;
  seen = k.seen ∙ h.seen;
  old = λ o. k.old (h.old o);
}
IsTracked-trans began id a (some n) s t u h k = record {
  name = k.name;
  seen = k.seen;
  old = λ o. k.old (h.old o);
}

kept_row :
    (began : ℕ) (id i : ℤ) (name : Str) (s : Pass)
    → IsTracked began id
        (if int_eq i id then some name else none)
        s
        (record { rows = upsert_category i name began s.rows; seen = s.seen ++ i ∷ [] })
kept_row began id i name s = record {
  name = name_of-upsert id i name began s.rows ∙ ground arith;
  seen = is_seen_id-append id i s.seen ∙ ground arith;
  old = λ o.
      rw (is_seen_id-append id i s.seen)
        (upsert-IsOld began id i name (is_seen_id id s.seen) s.rows o);
}

unchanged : (began : ℕ) (id : ℤ) (s : Pass) → IsTracked began id none s s
unchanged began id s = record { name = refl; seen = refl; old = λ o. o }

keep_parsed-IsTracked :
    (fails : ℤ → Bool) (began : ℕ) (id : ℤ) (name : Str) (o : Option ℤ) (s : Pass)
    → (keep_parsed fails began name o s).1 ≡ true
    → IsTracked began id (named_parsed id name o) s (keep_parsed fails began name o s).0
unfolding keep_parsed named_parsed
keep_parsed-IsTracked fails began id name none s h = unchanged began id s
keep_parsed-IsTracked fails began id name (some i) s h = elim (Bool-cases (is_empty name)) [
  | inl e ↦ rw e (unchanged began id s)
  | inr e ↦ elim (Bool-cases (fails i)) [
    | inl f ↦ absurd (ground (arith, h, e, f))
    | inr f ↦ rw (e, f) (kept_row began id i name s)
  ]
]

keep-IsTracked :
    (fails : ℤ → Bool) (began : ℕ) (id : ℤ) (c : ListedCategory) (s : Pass)
    → (keep_category fails began c s).1 ≡ true
    → IsTracked began id (named_by id c) s (keep_category fails began c s).0
unfolding keep_category named_by
keep-IsTracked fails began id c s h =
    keep_parsed-IsTracked fails began id c.name (parse_int c.id) s h

each-IsTracked :
    (fails : ℤ → Bool) (began : ℕ) (id : ℤ) (l : List ListedCategory) (s : Pass)
    → (each (keep_category fails began) l s).1 ≡ true
    → IsTracked began id (listed_name id l) s (each (keep_category fails began) l s).0
unfolding each listed_name
each-IsTracked fails began id [] s h = unchanged began id s
each-IsTracked fails began id (c ∷ l) s h = elim (Bool-cases (keep_category fails began c s).1) [
  | inl e ↦
      let t = (keep_category fails began c s).0 in
      rw e (
        IsTracked-trans began id (named_by id c) (listed_name id l) s t _
          (keep-IsTracked fails began id c s e)
          (each-IsTracked fails began id l t (ground (arith, h, e))))
  | inr e ↦ absurd (ground (arith, h, e))
]

-- Dropping keeps the rows of an id that was seen, and no row of another, if those are old.
name_of-drop_unseen :
    (began : ℕ) (id : ℤ) (seen : List ℤ) (l : List Category)
    → IsOld began id (is_seen_id id seen) l
    → name_of id (drop_unseen began seen l) ≡ (if is_seen_id id seen then name_of id l else none)
unfolding name_of drop_unseen
name_of-drop_unseen began id seen [] h = ground arith
name_of-drop_unseen began id seen (r ∷ l) h = elim (Bool-cases (int_eq r.firefly_id id)) [
  | inl e ↦ ground (
    arith,
    e,
    h.0 e,
    name_of-drop_unseen began id seen l h.1,
    ap (λ (i : ℤ). is_seen_id i seen) ((int_eq_iff r.firefly_id id).0 e),
  )
  | inr e ↦ ground (arith, e, name_of-drop_unseen began id seen l h.1)
]

abbrev IsBefore : ℕ → Option ℕ → Type 0
IsBefore b none = Unit
IsBefore b (some t) = t < b

later_of-IsBefore : (b t : ℕ) (o : Option ℕ) → later_of t o < b → (t < b) × IsBefore b o
unfolding later_of
later_of-IsBefore b t none h = (h, tt)
later_of-IsBefore b t (some u) h = (ground arith, ground arith)

stamps-IsOld :
    (b : ℕ) (id : ℤ) (l : List Category) → IsBefore b (latest_stamp l) → IsOld b id false l
unfolding latest_stamp
stamps-IsOld b id [] h = tt
stamps-IsOld b id (r ∷ l) h =
    let (here, there) = later_of-IsBefore b r.last_synced_at (latest_stamp l) h in
    (λ p q. here, stamps-IsOld b id l there)

after_stamp-IsBefore : (now : ℕ) (o : Option ℕ) → IsBefore (after_stamp now o) o
unfolding after_stamp
after_stamp-IsBefore now none = tt
after_stamp-IsBefore now (some t) = ground arith

-- Every stored stamp is older than the sync.
began-IsOld : (now : ℕ) (id : ℤ) (l : List Category) → IsOld (began_at now l) id false l
unfolding began_at
began-IsOld now id l =
    stamps-IsOld (began_at now l) id l (after_stamp-IsBefore now (latest_stamp l))

-- The table after a pass over a whole list.
pass-names :
    (began : ℕ) (id : ℤ) (named : Option Str) (rows : List Category) (s : Pass)
    → IsOld began id false rows
    → IsTracked began id named (record { rows = rows; seen = [] }) s
    → name_of id (drop_unseen began s.seen s.rows) ≡ named
unfolding is_seen_id
pass-names began id none rows s old k =
    rw (name_of-drop_unseen began id s.seen s.rows (k.old old), k.seen) refl
pass-names began id (some n) rows s old k =
    rw (name_of-drop_unseen began id s.seen s.rows (k.old old), k.seen) k.name

-- What is to hold of the result at an id that Firefly names so.
abbrev pub IsExact : ℤ → Option Str → List Category → List Category × Option ℕ → Type 0
IsExact id named rows r =
    ((n : ℕ) → r.1 ≡ some n → name_of id r.0 ≡ named) × (r.1 ≡ none → r.0 ≡ rows)

failed-IsExact :
    (id : ℤ) (named : Option Str) (rows : List Category) → IsExact id named rows (rows, none)
failed-IsExact id named rows = (λ n h. absurd (ground (arith, h)), λ h. refl)

after-IsExact :
    (m : CategoryMoment) (began : ℕ) (rows : List Category) (id : ℤ) (named : Option Str)
    (w : Walked Pass)
    → ((s : Pass) → w ≡ finished s → name_of id (drop_unseen began s.seen s.rows) ≡ named)
    → IsExact id named rows (after_categories m began rows w)
unfolding after_categories
after-IsExact m began rows id named unfinished h = failed-IsExact id named rows
after-IsExact m began rows id named (stopped s) h = failed-IsExact id named rows
after-IsExact m began rows id named (finished s) h =
    if_elim (IsExact id named rows) (m.drop_fails || m.commit_fails)
      (λ _. failed-IsExact id named rows) (λ _. (λ n e. h s refl, λ e. absurd (ground (arith, e))))

walked-names :
    (pages : ℕ) (m : CategoryMoment) (began : ℕ) (rows : List Category) (id : ℤ) (s : Pass)
    → IsOld began id false rows
    → walk_list m.list
        (keep_category m.upsert_fails began)
        pages
        1
        (record { rows = rows; seen = [] })
      ≡ finished s
    → name_of id (drop_unseen began s.seen s.rows) ≡ listed_name id (items_from m.list pages 1)
walked-names pages m began rows id s old h =
    let act = keep_category m.upsert_fails began in
    let first : Pass = record { rows = rows; seen = [] } in
    let all = walk_list-finished act m.list pages 1 first s h in
    let items = items_from m.list pages 1 in
    pass-names began id (listed_name id items) rows s old (
      subst (λ (t : Pass). IsTracked began id (listed_name id items) first t)
        (ap (λ (r : Pass × Bool). r.0) all)
        (each-IsTracked m.upsert_fails began id items first (ap (λ (r : Pass × Bool). r.1) all)))

-- Where syncCategories succeeds, each id has in the table the last name that Firefly's pages give to
-- it, and an id that they do not name has none there; where it fails, the table is as it was.
pub sync_categories-IsExact :
    (pages : ℕ) (m : CategoryMoment) (rows : List Category) (id : ℤ)
    → IsExact id (listed_name id (items_from m.list pages 1)) rows (sync_categories pages m rows)
unfolding sync_categories
sync_categories-IsExact pages m rows id =
    let named = listed_name id (items_from m.list pages 1) in
    let began = began_at m.now rows in
    if_elim (IsExact id named rows) m.begin_fails (λ _. failed-IsExact id named rows)
      (λ _.
        after-IsExact m began rows id named _
          (λ s h. walked-names pages m began rows id s (began-IsOld m.now id rows) h))
