-- ===== src/Push/Firefly.antt =====
-- internal/integration/firefly/write.go: the calls of Firefly that a push makes. Firefly itself is
-- the record `Service`: its endpoints on a ledger that it keeps, where the number says at which
-- moment a call is made, so that an endpoint may answer one call and fail the next.
use texas_fold_em.Common.{
  ℕ, ◌+◌, ◌≤◌, ◌≡◌, ◌≢◌, Bool, true, false, List, [], ◌∷◌, ◌++◌, if◌then◌else◌, ◌==◌,
}
use texas_fold_em.Common.Text.{Str, is_empty, trim_space, to_upper}
use texas_fold_em.Push.Request.{Line}

-- An answer, or the HTTP status of a failure, 0 where there was none (statusFromErr).
pub data Answer {ℓ} (A : Type ℓ) : Type ℓ where
  answer : A → Answer A
  failure : ℕ → Answer A

-- CreateTransactionResponse, as decoded: 0 is an id that is missing or no number.
pub record Created : Type 0 where
  pub group_id : ℕ
  pub journal_ids : List ℕ

-- A link between two journals, by its id, its type and its two ends.
pub record Link : Type 0 where
  pub id : ℕ
  pub link_type_id : ℕ
  pub inward_id : ℕ
  pub outward_id : ℕ

pub record Service : Type 1 where
  pub Ledger : Type 0
  -- GET /api/v1/search/transactions with external_id_is: the journals of each group
  pub get_search : ℕ → Ledger → Str → Answer (List (List ℕ))
  -- GET /api/v1/currencies/{code}: whether it is enabled
  pub get_currency : ℕ → Ledger → Str → Answer Bool
  -- POST /api/v1/currencies/{code}/enable and POST /api/v1/currencies
  pub post_enable : ℕ → Ledger → Str → Ledger × Answer (Unit {0})
  pub post_currency : ℕ → Ledger → Str → Ledger × Answer (Unit {0})
  -- POST /api/v1/transactions and PUT /api/v1/transactions/{group}
  pub post_transaction : ℕ → Ledger → Line → Ledger × Answer Created
  pub put_transaction : ℕ → Ledger → ℕ → Line → Ledger × Answer Created
  -- GET /api/v1/transactions/{group}: its id and its journals
  pub get_transaction : ℕ → Ledger → ℕ → Answer (ℕ × List ℕ)
  -- GET /api/v1/transaction-link-types: the names and ids
  pub get_link_types : ℕ → Ledger → Answer (List (Str × ℕ))
  -- GET /api/v1/transaction-journals/{journal}/links and POST /api/v1/transaction-links
  pub get_journal_links : ℕ → Ledger → ℕ → Answer (List Link)
  pub post_link : ℕ → Ledger → ℕ → ℕ → ℕ → Ledger × Answer ℕ

unfoldable pub drop_zeros : List ℕ → List ℕ
drop_zeros [] = []
drop_zeros (n ∷ l) = if n == 0 then drop_zeros l else n ∷ drop_zeros l

unfoldable pub collect : List (List ℕ) → List ℕ
unfolding drop_zeros
collect [] = []
collect (g ∷ gs) = drop_zeros g ++ collect gs

module _ (f : Service) where
  open f use {
    Ledger, get_search, get_currency, post_enable, post_currency, post_transaction, put_transaction,
  }

  -- SearchByExternalID.
  unfoldable pub search_by_external_id : ℕ → Ledger → Str → Answer (List ℕ)
  unfolding collect
  search_by_external_id at l uuid =
      if is_empty uuid then failure 0 else elim (get_search at l uuid) [
        | failure s ↦ failure s
        | answer groups ↦ answer (collect groups)
      ]

  -- EnsureCurrency.
  unfoldable pub ensure_currency : ℕ → Ledger → Str → Ledger × Answer (Unit {0})
  ensure_currency at l code =
      let wanted = to_upper (trim_space code) in
      let made = post_currency at l wanted in
      if is_empty wanted then (l, answer tt) else elim (get_currency at l wanted) [
        | answer true ↦ (l, answer tt)
        | answer false ↦ post_enable at l wanted
        | failure s ↦ if s == 404 then made else (l, failure s)
      ]

  kept : Answer Created → Answer Created
  kept (failure s) = failure s
  kept (answer c) = answer (record c { journal_ids = drop_zeros c.journal_ids })

  -- CreateTransaction and UpdateTransaction.
  unfoldable pub create_transaction : ℕ → Ledger → Line → Ledger × Answer Created
  unfolding kept
  create_transaction at l line = let (l', a) = post_transaction at l line in (l', kept a)

  unfoldable pub update_transaction : ℕ → Ledger → ℕ → Line → Ledger × Answer Created
  unfolding kept
  update_transaction at l group line =
      if group == 0
      then (l, failure 0)
      else (let (l', a) = put_transaction at l group line in (l', kept a))

-- What Firefly documents of external ids: the search by one finds no journal only where the ledger
-- has none with it; a POST of a transaction adds at most one journal, under the line's external id,
-- whether it answers or fails; and enabling a currency, defining one, and linking add none.
pub record CountsJournals (f : Service) : Type 0 where
  pub count : Service.Ledger f → Str → ℕ
  pub search_misses :
      (at : ℕ) (l : Service.Ledger f) (uuid : Str)
      → search_by_external_id f at l uuid ≡ answer []
      → count l uuid ≡ 0
  pub post_adds :
      (at : ℕ) (l : Service.Ledger f) (line : Line)
      → count (f.post_transaction at l line).0 line.external_id ≤ count l line.external_id + 1
  pub post_spares :
      (at : ℕ) (l : Service.Ledger f) (line : Line) (uuid : Str)
      → uuid ≢ line.external_id
      → count (f.post_transaction at l line).0 uuid ≡ count l uuid
  pub enable_adds_none :
      (at : ℕ) (l : Service.Ledger f) (code uuid : Str)
      → count (f.post_enable at l code).0 uuid ≡ count l uuid
  pub currency_adds_none :
      (at : ℕ) (l : Service.Ledger f) (code uuid : Str)
      → count (f.post_currency at l code).0 uuid ≡ count l uuid
  pub link_adds_none :
      (at : ℕ) (l : Service.Ledger f) (t i o : ℕ) (uuid : Str)
      → count (f.post_link at l t i o).0 uuid ≡ count l uuid
