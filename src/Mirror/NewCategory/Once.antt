-- ===== src/Mirror/NewCategory/Once.antt =====
-- internal/integration/category_create.go: a category is made once.
use texas_fold_em.Common.{
  ℕ, ◌≡◌, refl, sym, ap, ◌∙◌, Bool, false, ◌||◌, Option, none, some, List, [], ◌∷◌, ◌++◌, ltb,
  length, All, arith, Bool-cases, Option-cases, inl, inr, subst,
}
use texas_fold_em.Common.Text.{
  Str, str_eq_iff, is_empty, is_space, trim_left, trim_space, lower_ascii,
}
use texas_fold_em.Common.Trim.{IsSpaceless, reverse-IsSpaceless}
use mathlib.Core.List.{reverse, reverse-append, reverse-cons, reverse-reverse}
use texas_fold_em.Push.Row.{ℤ}
use texas_fold_em.FoldSync.Merchant.{fields, join}
use texas_fold_em.FoldSync.Merchant.Spaces.{IsWord, fields-words}
use texas_fold_em.Mirror.Rows.Latest.{int_eq_iff}
use texas_fold_em.Mirror.Categories.{Category, upsert_category}
use texas_fold_em.Mirror.NewCategory.{
  Shelf, NewMoment, known, created, named_category, category_by_name, ask_firefly, after_request,
  make_category, create_category,
}

-- The text is not empty, and does not start with a space.
abbrev StartsFull : Str → Type 0
StartsFull [] = ⊥
StartsFull (c ∷ s) = is_space c ≡ false

StartsFull-append : (s t : Str) → StartsFull s → StartsFull (s ++ t)
StartsFull-append [] t h = absurd h
StartsFull-append (c ∷ s) t h = h

StartsFull-snoc : (s : Str) (c : ℕ) → IsSpaceless s → is_space c ≡ false → StartsFull (s ++ c ∷ [])
StartsFull-snoc [] c h e = e
StartsFull-snoc (d ∷ s) c h e = h.0

word-StartsFull : (s : Str) → IsWord s → StartsFull s
word-StartsFull [] h = absurd (ground (arith, h.0))
word-StartsFull (c ∷ s) h = h.1.0

reverse-StartsFull : (s : Str) → IsWord s → StartsFull (reverse s)
reverse-StartsFull [] h = absurd (ground (arith, h.0))
reverse-StartsFull (c ∷ s) h =
    subst StartsFull (sym (reverse-cons c s))
      (StartsFull-snoc (reverse s) c (reverse-IsSpaceless s h.1.1) h.1.0)

join-StartsFull : (s : Str) (l : List Str) → All IsWord (s ∷ l) → StartsFull (join (s ∷ l))
unfolding join
join-StartsFull s [] h = word-StartsFull s h.0
join-StartsFull s (t ∷ l) h = StartsFull-append s _ (word-StartsFull s h.0)

reverse-join-StartsFull :
    (s : Str) (l : List Str) → All IsWord (s ∷ l) → StartsFull (reverse (join (s ∷ l)))
unfolding join
reverse-join-StartsFull s [] h = reverse-StartsFull s h.0
reverse-join-StartsFull s (t ∷ l) h =
    subst StartsFull (sym (reverse-append s (32 ∷ join (t ∷ l)))) (
      StartsFull-append (reverse (32 ∷ join (t ∷ l))) (reverse s) (
        subst StartsFull (sym (reverse-cons 32 (join (t ∷ l))))
          (StartsFull-append (reverse (join (t ∷ l))) (32 ∷ []) (reverse-join-StartsFull t l h.1))))

trim_left-StartsFull : (s : Str) → StartsFull s → trim_left s ≡ s
unfolding trim_left
trim_left-StartsFull [] h = refl
trim_left-StartsFull (c ∷ s) h = rw h refl

-- Words with one space between each two have nothing to trim.
trim_space-join : (l : List Str) → All IsWord l → trim_space (join l) ≡ join l
unfolding trim_space
trim_space-join [] h = unfold join trim_left in refl
trim_space-join (s ∷ l) h =
    rw
      (
        trim_left-StartsFull (join (s ∷ l)) (join-StartsFull s l h),
        trim_left-StartsFull (reverse (join (s ∷ l))) (reverse-join-StartsFull s l h),
      )
      (reverse-reverse (join (s ∷ l)))

-- A name that was in no row is found as it was written.
named_category-upsert :
    (lower name : Str) (id : ℤ) (at : ℕ) (l : List Category)
    → lower_ascii name ≡ lower
    → named_category lower l ≡ none
    → named_category lower (upsert_category id name at l) ≡ some (id, name)
unfolding named_category upsert_category
named_category-upsert lower name id at [] e h =
    ground (arith, str_eq_iff (lower_ascii name) lower, e)
named_category-upsert lower name id at (r ∷ l) e h = ground (
  arith,
  e,
  h,
  str_eq_iff (lower_ascii name) lower,
  int_eq_iff r.firefly_id id,
  named_category-upsert lower name id at l,
)

length-lower_ascii : (s : Str) → length (lower_ascii s) ≡ length s
unfolding lower_ascii
length-lower_ascii [] = refl
length-lower_ascii (c ∷ s) = omega (arith, length-lower_ascii s)

-- Whether a name can be a category.
is_bad : Str → Bool
is_bad name = is_empty name || ltb 100 (length name)

is_bad-length : (s t : Str) → length s ≡ length t → is_bad s ≡ is_bad t
unfolding is_bad
is_bad-length [] [] e = refl
is_bad-length [] (d ∷ t) e = absurd (omega (arith, e))
is_bad-length (c ∷ s) [] e = absurd (omega (arith, e))
is_bad-length (c ∷ s) (d ∷ t) e = ground (arith, e)

is_bad-lower_ascii : (s t : Str) → lower_ascii s ≡ lower_ascii t → is_bad s ≡ is_bad t
is_bad-lower_ascii s t e =
    is_bad-length s t (sym (length-lower_ascii s) ∙ ap length e ∙ length-lower_ascii t)

good_is_full : (s : Str) → is_bad s ≡ false → is_empty s ≡ false
unfolding is_bad
good_is_full s h = ground (arith, h)

module _ (m : NewMoment) (name : Str) (w w' : Shelf) (id : ℤ) (n : Str) where
  -- What a creation leaves.
  abbrev Leaves : Type 0
  Leaves = (n ≡ name) × (w'.categories ≡ upsert_category id name m.now w.categories)

  after_request-created :
      (v : Shelf) (o : Option ℤ)
      → v.categories ≡ w.categories
      → after_request m name v o ≡ (w', created id n)
      → Leaves
  unfolding after_request
  after_request-created v none e h = absurd (ground (arith, h))
  after_request-created v (some i) e h = ground (arith, e, h)

  make_category-created :
      (o : Option (ℤ × Str)) → make_category m name w o ≡ (w', created id n) → (o ≡ none) × Leaves
  unfolding make_category
  make_category-created (some (i, k)) h = absurd (ground (arith, h))
  make_category-created none h = elim (Bool-cases m.read_only) [
    | inl e ↦ absurd (ground (arith, h, e))
    | inr e ↦ elim (Bool-cases m.has_client) [
      | inl f ↦ (
        refl,
        after_request-created (record w { asked = name ∷ w.asked }) (ask_firefly m.answer) refl
            (ground (arith, h, e, f)),
      )
      | inr f ↦ absurd (ground (arith, h, e, f))
    ]
  ]

unnamed :
    (name : Str) (w : Shelf)
    → trim_space name ≡ name
    → is_empty name ≡ false
    → category_by_name name w ≡ none
    → named_category (lower_ascii name) w.categories ≡ none
unfolding category_by_name
unnamed name w t e h = elim (Option-cases (named_category (lower_ascii name) w.categories)) [
  | inl q ↦ q
  | inr (p, q) ↦ absurd (ground (arith, h, t, e, q))
]

found_by_name :
    (name : Str) (w : Shelf) (p : ℤ × Str)
    → trim_space name ≡ name
    → is_empty name ≡ false
    → named_category (lower_ascii name) w.categories ≡ some p
    → category_by_name name w ≡ some p
unfolding category_by_name
found_by_name name w p t e h = ground (arith, h, t, e)

made :
    (m : NewMoment) (text : Str) (w w' : Shelf) (id : ℤ) (n : Str)
    → is_bad (join (fields text)) ≡ false
    → create_category m text w ≡ (w', created id n)
    → make_category m (join (fields text)) w (category_by_name (join (fields text)) w)
      ≡ (w', created id n)
unfolding create_category is_bad
made m text w w' id n good h = ground (arith, good, h)

known_again :
    (m : NewMoment) (text : Str) (w : Shelf) (p : ℤ × Str)
    → is_bad (join (fields text)) ≡ false
    → category_by_name (join (fields text)) w ≡ some p
    → create_category m text w ≡ (w, known p.0 p.1)
unfolding create_category is_bad make_category
known_again m text w p good h = ground (arith, good, h)

-- After a category was made under a name, another call with that name, in any case of its ASCII
-- letters and with any spaces between its words, asks Firefly for nothing, changes nothing, and
-- answers the category that was made, on a read-only server too.
pub create_category_once :
    (m m' : NewMoment) (text text' : Str) (w w' : Shelf) (id : ℤ) (n : Str)
    → create_category m text w ≡ (w', created id n)
    → lower_ascii (join (fields text')) ≡ lower_ascii (join (fields text))
    → create_category m' text' w' ≡ (w', known id n)
unfolding create_category
create_category_once m m' text text' w w' id n h same =
    let name = join (fields text) in
    let name' = join (fields text') in
    elim (Bool-cases (is_bad name)) [
      | inl bad ↦ absurd (unfold is_bad in ground (arith, h, bad))
      | inr good ↦
          let good' : is_bad name' ≡ false = is_bad-lower_ascii name' name same ∙ good in
          let trimmed = trim_space-join (fields text) (fields-words text) in
          let trimmed' = trim_space-join (fields text') (fields-words text') in
          let (new, (kept, shelf)) =
            make_category-created m name w w' id n (category_by_name name w)
              (made m text w w' id n good h) in
          let named =
            named_category-upsert (lower_ascii name') name id m.now w.categories (sym same) (
              ap (λ (x : Str). named_category x w.categories) same
              ∙ unnamed name w trimmed (good_is_full name good) new) in
          let found =
            found_by_name name' w' (id, name) trimmed' (good_is_full name' good')
              (ap (named_category (lower_ascii name')) shelf ∙ named) in
          known_again m' text' w' (id, name) good' found
          ∙ ap (λ (x : Str). (w', known id x)) (sym kept)
    ]
