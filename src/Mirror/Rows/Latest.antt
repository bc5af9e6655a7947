-- ===== src/Mirror/Rows/Latest.antt =====
-- internal/integration/sync.go and firefly_accounts_sync.go: after a sync the rows are the latest that
-- were read.
use texas_fold_em.Common.{
  ℕ, ◌≡◌, ◌≢◌, ◌≤◌, ◌↔◌, refl, sym, ap, ◌∙◌, Bool, true, false, Option, none, some, List, [], ◌∷◌,
  if◌then◌else◌, arith, Bool-cases, if_elim, inl, inr,
}
use texas_fold_em.Push.Row.{ℤ, pos, negsuc}
use texas_fold_em.FoldSync.Staging.{int_eq}
use texas_fold_em.Mirror.Pages.{
  ListPage, Walked, finished, stopped, unfinished, each, walk_list, items_from, walk_list-finished,
  walk_list_succeeds, IsPaged,
}
use texas_fold_em.Mirror.Rows.{
  Read, left_out, refused, row, upsert_row, keep_read, keep_entry, committed, sync_rows,
}

pub int_eq_iff : (a b : ℤ) → (int_eq a b ≡ true) ↔ (a ≡ b)
unfolding int_eq
int_eq_iff (pos m) (pos n) = ground arith
int_eq_iff (negsuc m) (negsuc n) = ground arith
int_eq_iff (pos m) (negsuc n) = ground arith
int_eq_iff (negsuc m) (pos n) = ground arith

abbrev pub otherwise : {A : Type 0} → Option A → Option A → Option A
otherwise (some n) o = some n
otherwise none o = o

module _ {A K : Type 0} (same : K → K → Bool) (key : A → K) where
  -- The row of a key.
  pub row_at : K → List A → Option A
  row_at k [] = none
  row_at k (x ∷ l) = if same (key x) k then some x else row_at k l

  read_at : K → Read A → Option A
  read_at k left_out = none
  read_at k refused = none
  read_at k (row x) = if same (key x) k then some x else none

  -- The last row of a key among what was read.
  pub latest_read : K → List (Read A) → Option A
  latest_read k [] = none
  latest_read k (x ∷ l) = otherwise (latest_read k l) (read_at k x)

  pub latest_of : {B : Type 0} → (B → List (Read A)) → K → List B → Option A
  latest_of reads k [] = none
  latest_of reads k (b ∷ l) = otherwise (latest_of reads k l) (latest_read k (reads b))

  -- A sync whose pages are answered and numbered as asked succeeds, if nothing fails.
  pub sync_rows_succeeds :
      {B : Type 0} (fails : A → Bool) (reads : B → List (Read A)) (list : ℕ → Option (ListPage B))
      (begin_fails commit_fails : Bool) (pages : ℕ) (rows : List A)
      → begin_fails ≡ false
      → commit_fails ≡ false
      → ((i : ℕ) → list i ≢ none)
      → ((i : ℕ) (p : ListPage B)
          → list i ≡ some p
          → (s : List A) → (each (keep_entry same key fails reads) p.items s).1 ≡ true)
      → IsPaged pages list
      → 1 ≤ pages
      → (sync_rows same key fails reads list begin_fails commit_fails pages rows).1 ≡ true
  unfolding sync_rows committed
  sync_rows_succeeds fails reads list begin_fails commit_fails pages rows b c answered fine paged
        k =
      let act = keep_entry same key fails reads in
      let (s, e) =
        walk_list_succeeds act list pages pages 1 rows answered fine paged (omega arith) k in
      rw (b, e, c) refl

  module _ (same_iff : (a b : K) → (same a b ≡ true) ↔ (a ≡ b)) where
    row_at-upsert :
        (k : K) (x : A) (l : List A)
        → row_at k (upsert_row same key x l) ≡ (if same (key x) k then some x else row_at k l)
    unfolding row_at upsert_row
    row_at-upsert k x [] = refl
    row_at-upsert k x (y ∷ l) = ground (
      arith,
      same_iff (key y) (key x),
      same_iff (key y) k,
      same_iff (key x) k,
      row_at-upsert k x l,
    )

    otherwise_assoc : (a b c : Option A) → otherwise a (otherwise b c) ≡ otherwise (otherwise a b) c
    otherwise_assoc none b c = refl
    otherwise_assoc (some x) b c = refl

    row_at-keep_read :
        (fails : A → Bool) (k : K) (x : Read A) (rows : List A)
        → (keep_read same key fails x rows).1 ≡ true
        → row_at k (keep_read same key fails x rows).0 ≡ otherwise (read_at k x) (row_at k rows)
    unfolding keep_read read_at
    row_at-keep_read fails k left_out rows h = refl
    row_at-keep_read fails k refused rows h = absurd (ground (arith, h))
    row_at-keep_read fails k (row x) rows h = elim (Bool-cases (fails x)) [
      | inl e ↦ absurd (ground (arith, h, e))
      | inr e ↦ rw e (row_at-upsert k x rows ∙ ground arith)
    ]

    -- What a list of steps does to the rows, if each step does so to them.
    row_at-each :
        {B : Type 0} (act : B → List A → List A × Bool) (at : B → Option A)
        (all : List B → Option A) (k : K)
        → (all [] ≡ none)
        → ((b : B) (l : List B) → all (b ∷ l) ≡ otherwise (all l) (at b))
        → ((b : B) (rows : List A)
            → (act b rows).1 ≡ true
            → row_at k (act b rows).0 ≡ otherwise (at b) (row_at k rows))
        → (l : List B) (rows : List A) → (each act l rows).1 ≡ true
        → row_at k (each act l rows).0 ≡ otherwise (all l) (row_at k rows)
    unfolding each
    row_at-each act at all k nothing more one [] rows h = rw nothing refl
    row_at-each act at all k nothing more one (b ∷ l) rows h = elim (Bool-cases (act b rows).1) [
      | inl e ↦
          let next = (act b rows).0 in
          let ih = row_at-each act at all k nothing more one l next (ground (arith, h, e)) in
          rw e (
            ih
            ∙ ap (otherwise (all l)) (one b rows e)
            ∙ otherwise_assoc (all l) (at b) (row_at k rows)
            ∙ ap (λ (o : Option A). otherwise o (row_at k rows)) (sym (more b l)))
      | inr e ↦ absurd (ground (arith, h, e))
    ]

    row_at-keep_entry :
        {B : Type 0} (fails : A → Bool) (reads : B → List (Read A)) (k : K) (b : B) (rows : List A)
        → (keep_entry same key fails reads b rows).1 ≡ true
        → row_at k (keep_entry same key fails reads b rows).0
          ≡ otherwise (latest_read k (reads b)) (row_at k rows)
    unfolding keep_entry latest_read
    row_at-keep_entry fails reads k b rows h =
        row_at-each (keep_read same key fails) (read_at k) (latest_read k) k refl (λ x l. refl)
          (row_at-keep_read fails k) (reads b) rows h

    -- What holds of the rows of a key after a sync: it went well, and the key has the latest row
    -- read, or else its old one; or it failed, and all rows are as they were.
    abbrev pub IsSynced : K → Option A → List A → List A × Bool → Type 0
    IsSynced k read rows r =
        (r.1 ≡ true → row_at k r.0 ≡ otherwise read (row_at k rows)) × (r.1 ≡ false → r.0 ≡ rows)

    rolled_back : (k : K) (o : Option A) (rows : List A) → IsSynced k o rows (rows, false)
    rolled_back k o rows = (λ h. absurd (ground (arith, h)), λ h. refl)

    committed-IsSynced :
        (commit_fails : Bool) (k : K) (o : Option A) (rows : List A) (w : Walked (List A))
        → ((s : List A) → w ≡ finished s → row_at k s ≡ otherwise o (row_at k rows))
        → IsSynced k o rows (committed commit_fails rows w)
    unfolding committed
    committed-IsSynced commit_fails k o rows unfinished h = rolled_back k o rows
    committed-IsSynced commit_fails k o rows (stopped s) h = rolled_back k o rows
    committed-IsSynced commit_fails k o rows (finished s) h =
        if_elim (IsSynced k o rows) commit_fails (λ _. rolled_back k o rows)
          (λ _. (λ _. h s refl, λ q. absurd (ground (arith, q))))

    pub sync_rows-IsSynced :
        {B : Type 0} (fails : A → Bool) (reads : B → List (Read A)) (list : ℕ → Option (ListPage B))
        (begin_fails commit_fails : Bool) (pages : ℕ) (rows : List A) (k : K)
        → IsSynced k
            (latest_of reads k (items_from list pages 1))
            rows
            (sync_rows same key fails reads list begin_fails commit_fails pages rows)
    unfolding sync_rows latest_of
    sync_rows-IsSynced fails reads list begin_fails commit_fails pages rows k =
        let act = keep_entry same key fails reads in
        let items = items_from list pages 1 in
        let o = latest_of reads k items in
        if_elim (IsSynced k o rows) begin_fails (λ _. rolled_back k o rows)
          (λ _. committed-IsSynced commit_fails k o rows (walk_list list act pages 1 rows) (λ s h.
            let all = walk_list-finished act list pages 1 rows s h in
            ap (λ (r : List A × Bool). row_at k r.0) (sym all)
            ∙ row_at-each act (λ b. latest_read k (reads b)) (latest_of reads k) k refl
                (λ b l. refl) (row_at-keep_entry fails reads k) items rows
                (ap (λ (r : List A × Bool). r.1) all)))
