-- ===== src/Mirror/Pages.antt =====
-- internal/integration/sync.go and firefly_accounts_sync.go: the loop over the pages of a list of
-- Firefly, which three syncs share, and the upsert of a row by its id.
use texas_fold_em.Common.{
  ℕ, zero, suc, ◌+◌, ◌≤◌, ◌<◌, ◌≡◌, ◌≢◌, refl, ◌∙◌, Bool, true, false, ◌||◌, Option, none, some,
  List, [], ◌∷◌, ◌++◌, arith, if◌then◌else◌, leb, ◌==◌, Bool-cases, inl, inr,
}

-- One page of a list, with the number that Firefly gives it and the number of all pages.
pub record ListPage (A : Type 0) : Type 0 where
  pub items : List A
  pub current : ℕ
  pub total : ℕ

pub data Walked (S : Type 0) : Type 0 where
  finished : S → Walked S
  stopped : S → Walked S
  unfinished : Walked S

abbrev pub is_last : {A : Type 0} → ListPage A → Bool
is_last p = leb p.total p.current || p.total == 0

module _ {A S : Type 0} where
  -- The items of a page in order, until one fails; a failed item leaves its state.
  unfoldable pub each : (A → S → S × Bool) → List A → S → S × Bool
  each act [] s = (s, true)
  each act (x ∷ l) s =
      let (s', fine) = act x s in let rest = each act l s' in if fine then rest else (s', false)

  -- What follows a page.
  unfoldable pub follow_page : (S → Walked S) → ListPage A → S × Bool → Walked S
  follow_page next p (s, false) = stopped s
  follow_page next p (s, true) = if is_last p then finished s else next s

  -- `none` is a request that failed.
  unfoldable pub read_page :
      (S → Walked S) → (A → S → S × Bool) → Option (ListPage A) → S → Walked S
  unfolding follow_page
  read_page next act none s = stopped s
  read_page next act (some p) s = follow_page next p (each act p.items s)

  -- The loop, on fuel: the pages still allowed.
  unfoldable pub walk_list : (ℕ → Option (ListPage A)) → (A → S → S × Bool) → ℕ → ℕ → S → Walked S
  unfolding read_page
  walk_list list act zero page s = unfinished
  walk_list list act (suc f) page s = read_page (walk_list list act f (page + 1)) act (list page) s

-- A list that Firefly numbers as it is asked, with so many pages at most.
unfoldable pub IsPaged : {A : Type 0} → ℕ → (ℕ → Option (ListPage A)) → Type 0
IsPaged {A} n list =
    (page : ℕ) (p : ListPage A) → list page ≡ some p → (p.current ≡ page) × (p.total ≤ n)

-- The items of a page, and of those that follow it.
unfoldable pub items_after : {A : Type 0} → List A → Option (ListPage A) → List A
items_after rest none = []
items_after rest (some p) = p.items ++ (if is_last p then [] else rest)

-- All items of the pages read.
unfoldable pub items_from : {A : Type 0} → (ℕ → Option (ListPage A)) → ℕ → ℕ → List A
unfolding items_after
items_from list zero page = []
items_from list (suc f) page =
    let rest = items_from list f (page + 1) in items_after rest (list page)

module _ {A S : Type 0} (act : A → S → S × Bool) where
  each-append :
      (l m : List A) (s : S)
      → (each act l s).1 ≡ true
      → each act (l ++ m) s ≡ each act m (each act l s).0
  unfolding each
  each-append [] m s h = refl
  each-append (x ∷ l) m s h = ground (arith, each-append l m (act x s).0)

  follow_page-finished :
      (next : S → Walked S) (p : ListPage A) (rest : List A) (r : S × Bool) (s' : S)
      → ((t : S) → next t ≡ finished s' → each act rest t ≡ (s', true))
      → follow_page next p r ≡ finished s'
      → (r.1 ≡ true) × (each act (if is_last p then [] else rest) r.0 ≡ (s', true))
  unfolding follow_page each
  follow_page-finished next p rest (s, false) s' k h = absurd (ground arith)
  follow_page-finished next p rest (s, true) s' k h = elim (Bool-cases (is_last p)) [
    | inl e ↦ (refl, rw e (ground (arith, e)))
    | inr e ↦ (refl, rw e (k s (ground (arith, e))))
  ]

  walked_page :
      (next : S → Walked S) (rest : List A) (o : Option (ListPage A)) (s s' : S)
      → ((t : S) → next t ≡ finished s' → each act rest t ≡ (s', true))
      → read_page next act o s ≡ finished s'
      → each act (items_after rest o) s ≡ (s', true)
  unfolding read_page items_after
  walked_page next rest none s s' k h = absurd (ground arith)
  walked_page next rest (some p) s s' k h =
      let (fine, tail) = follow_page-finished next p rest (each act p.items s) s' k h in
      each-append p.items (if is_last p then [] else rest) s fine ∙ tail

  -- A walk that finished has acted on all the items, in their order.
  pub walk_list-finished :
      (list : ℕ → Option (ListPage A)) (f page : ℕ) (s s' : S)
      → walk_list list act f page s ≡ finished s'
      → each act (items_from list f page) s ≡ (s', true)
  unfolding walk_list items_from
  walk_list-finished list zero page s s' h = absurd (ground arith)
  walk_list-finished list (suc f) page s s' h =
      walked_page (walk_list list act f (page + 1)) (items_from list f (page + 1)) (list page) s s'
        (λ t q. walk_list-finished list f (page + 1) t s' q) h

  pub each_fine :
      ((x : A) (s : S) → (act x s).1 ≡ true) → (l : List A) (s : S) → (each act l s).1 ≡ true
  unfolding each
  each_fine fine [] s = refl
  each_fine fine (x ∷ l) s = ground (arith, fine x s, each_fine fine l (act x s).0)

  follow_page_succeeds :
      (next : S → Walked S) (p : ListPage A) (r : S × Bool)
      → r.1 ≡ true
      → (is_last p ≡ false → (t : S) → (u : S) × (next t ≡ finished u))
      → (u : S) × (follow_page next p r ≡ finished u)
  unfolding follow_page
  follow_page_succeeds next p (s, false) h k = absurd (ground arith)
  follow_page_succeeds next p (s, true) h k = elim (Bool-cases (is_last p)) [
    | inl e ↦ (s, rw e refl)
    | inr e ↦ rw e (k e s)
  ]

  read_page_succeeds :
      (next : S → Walked S) (o : Option (ListPage A)) (s : S)
      → o ≢ none
      → ((p : ListPage A) → o ≡ some p → (t : S) → (each act p.items t).1 ≡ true)
      → ((p : ListPage A)
          → o ≡ some p
          → is_last p ≡ false
          → (t : S) → (u : S) × (next t ≡ finished u))
      → (u : S) × (read_page next act o s ≡ finished u)
  unfolding read_page
  read_page_succeeds next none s h fine k = absurd (h refl)
  read_page_succeeds next (some p) s h fine k =
      follow_page_succeeds next p (each act p.items s) (fine p refl s) (k p refl)

  -- Where besides every page is answered and nothing fails, the loop finishes.
  pub walk_list_succeeds :
      (list : ℕ → Option (ListPage A)) (n f page : ℕ) (s : S)
      → ((i : ℕ) → list i ≢ none)
      → ((i : ℕ) (p : ListPage A) → list i ≡ some p → (t : S) → (each act p.items t).1 ≡ true)
      → IsPaged n list
      → n < page + f
      → 1 ≤ f
      → (u : S) × (walk_list list act f page s ≡ finished u)
  unfolding walk_list IsPaged
  walk_list_succeeds list n zero page s answered fine h b k = absurd (omega arith)
  walk_list_succeeds list n (suc f) page s answered fine h b k =
      read_page_succeeds (walk_list list act f (page + 1)) (list page) s (answered page) (fine page)
        λ p e more t.
          let (current, total) = h page p e in
          walk_list_succeeds list n f (page + 1) t answered fine h (omega arith)
            (ground (arith, more, current, total))
