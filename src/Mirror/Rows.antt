-- ===== src/Mirror/Rows.antt =====
-- internal/integration/sync.go, firefly_accounts_sync.go and fold_accounts_sync.go: rows that are
-- upserted by their key, as the syncs of the mirror do in one transaction.
pub mod Latest
use texas_fold_em.Common.{
  ℕ, Bool, true, false, not, ◌||◌, Option, none, some, List, [], ◌∷◌, ◌++◌, if◌then◌else◌, map,
}
use texas_fold_em.Mirror.Pages.{ListPage, Walked, finished, stopped, unfinished, each, walk_list}

-- What becomes of one item: it is left out with a warning, it ends the sync, or it is a row.
pub data Read (A : Type 0) : Type 0 where
  left_out : Read A
  refused : Read A
  row : A → Read A

module _ {A K : Type 0} (same : K → K → Bool) (key : A → K) where
  -- INSERT … ON CONFLICT(key) DO UPDATE of every column.
  unfoldable pub upsert_row : A → List A → List A
  upsert_row x [] = x ∷ []
  upsert_row x (y ∷ l) =
      let rest = upsert_row x l in if same (key y) (key x) then x ∷ l else y ∷ rest

  -- One item in the transaction; whether it went well.
  unfoldable pub keep_read : (A → Bool) → Read A → List A → List A × Bool
  unfolding upsert_row
  keep_read fails left_out rows = (rows, true)
  keep_read fails refused rows = (rows, false)
  keep_read fails (row x) rows = if fails x then (rows, false) else (upsert_row x rows, true)

  -- The items of one entry of a page.
  unfoldable pub keep_entry :
      {B : Type 0} → (A → Bool) → (B → List (Read A)) → B → List A → List A × Bool
  keep_entry fails reads b rows = each (keep_read fails) (reads b) rows

-- The end of the transaction: the rows are committed, or rolled back.
unfoldable pub committed : {A : Type 0} → Bool → List A → Walked (List A) → List A × Bool
committed commit_fails rows unfinished = (rows, false)
committed commit_fails rows (stopped s) = (rows, false)
committed commit_fails rows (finished s) = if commit_fails then (rows, false) else (s, true)

-- A whole sync over the pages of a list, with so many at most, and whether it went well.
unfoldable pub sync_rows :
    {A B K : Type 0}
    → (K → K → Bool)
    → (A → K)
    → (A → Bool)
    → (B → List (Read A))
    → (ℕ → Option (ListPage B))
    → Bool
    → Bool
    → ℕ
    → List A
    → List A × Bool
unfolding committed keep_entry
sync_rows same key fails reads list begin_fails commit_fails pages rows =
    if begin_fails
    then (rows, false)
    else committed commit_fails rows (walk_list list (keep_entry same key fails reads) pages 1 rows)
