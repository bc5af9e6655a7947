-- ===== src/FoldSync.antt =====
-- internal/integration/fold_sync.go: the sync that stages the transactions of Fold as rows.
pub mod Wire
pub mod Merchant
pub mod Staging
pub mod Bounds
pub mod Refresh
pub mod Rows
use texas_fold_em.Common.{
  ℕ, zero, suc, ◌+◌, ◌≡◌, refl, Bool, true, false, ◌&&◌, ◌||◌, not, Option, none, some, List, [],
  ◌∷◌, ◌++◌, if◌then◌else◌, leb, ltb, ◌==◌, length,
}
use texas_fold_em.Common.Text.{Str, str, str_eq, is_empty}
use texas_fold_em.Push.Row.{
  ℤ, pos, negsuc, Row, Status, pending, needs_review, ready_to_push, pushed, skipped, text_of,
  no_labels,
}
use texas_fold_em.Push.World.{find_row, update_row}
use Wire.{
  Codec, Txn, Page, Money, fold_money, parse_fold_timestamp, latest_firefly_txn_date,
  raw_payload_string, bare_txn,
}
use Staging.{
  Walk, handled, is_closed, money_of, same_money, with_money, set_money, with_raw, start,
  staged_row, refresh_raw_payload, refresh_money, refuses_money, stage, handle_txn,
}

-- What the walk of a page comes to: an error, the cutoff, the cap, or the page's end.
pub data PageEnd : Type 0 where
  failed : PageEnd
  crossed : Walk → PageEnd
  capped : Walk → PageEnd
  through : Walk → PageEnd

pub data Reason : Type 0 where
  cutoff_reached hard_cap exhausted : Reason

-- What a sync comes to; an error rolls the transaction back. The last is no outcome of the code.
pub data SyncEnd : Type 0 where
  aborted : SyncEnd
  stopped : Reason → Walk → SyncEnd
  out_of_fuel : SyncEnd

module _ (c : Codec) where
  abbrev past_cutoff : Option ℕ → ℕ → Bool
  past_cutoff none stamp = false
  past_cutoff (some cutoff) stamp = leb stamp cutoff

  -- The walk of a page. `saves` says whether the statements for a transaction succeed, by how many
  -- were handled before it.
  walk_page : (ℕ → Bool) → Option ℕ → ℕ → List (Txn c) → Walk → PageEnd
  unfolding handle_txn parse_fold_timestamp refuses_money find_row
  walk_page saves cutoff max [] w = through w
  walk_page saves cutoff max (t ∷ ts) w = elim (parse_fold_timestamp c t.txn_timestamp) [
    | none ↦ failed
    | some stamp ↦
        (let w' = handle_txn c t stamp w in
          let rest = walk_page saves cutoff max ts w' in
          if past_cutoff cutoff stamp
          then crossed w
          else if not (saves (handled w)) || refuses_money c t (find_row t.uuid w.rows)
          then failed
          else if leb max (handled w')
          then capped w'
          else rest)
  ]

  -- The page's transactions, where there are any.
  page_end : (ℕ → Bool) → Option ℕ → ℕ → Txn c → List (Txn c) → Walk → PageEnd
  unfolding walk_page
  page_end saves cutoff max t ts w = walk_page saves cutoff max (t ∷ ts) (record w {
    fetched = w.fetched + (length ts + 1);
    newest = if is_empty w.newest then t.uuid else w.newest;
  })

  -- What follows a page's walk; `more` is the loop from a cursor on.
  after_page : (Str → Walk → SyncEnd) → Str → PageEnd → SyncEnd
  after_page more after failed = aborted
  after_page more after (crossed w) = stopped cutoff_reached w
  after_page more after (capped w) = stopped hard_cap w
  after_page more after (through w) = if is_empty after then stopped exhausted w else more after w

  on_page : (ℕ → Bool) → Option ℕ → ℕ → (Str → Walk → SyncEnd) → List (Txn c) → Str → Walk → SyncEnd
  unfolding after_page page_end
  on_page saves cutoff max more [] after w = stopped exhausted w
  on_page saves cutoff max more (t ∷ ts) after w =
      after_page more after (page_end saves cutoff max t ts w)

  -- The loop of SyncSinceFirefly. `list` is ListTransactionsAfter by the number of the page and the
  -- cursor; none is its error, and the end of the context.
  walk_pages : (ℕ → Str → Option (Page c)) → (ℕ → Bool) → Option ℕ → ℕ → ℕ → Str → Walk → SyncEnd
  unfolding on_page
  walk_pages list saves cutoff max zero cursor w = out_of_fuel
  walk_pages list saves cutoff max (suc n) cursor w = elim (list w.pages cursor) [
    | none ↦ aborted
    | some page ↦
        on_page saves cutoff max (λ after w'. walk_pages list saves cutoff max n after w')
          page.transactions page.after (record w { pages = w.pages + 1 })
  ]

  commit : Bool → SyncEnd → SyncEnd
  commit committed (stopped why w) = if committed then stopped why w else aborted
  commit committed aborted = aborted
  commit committed out_of_fuel = out_of_fuel

  -- SyncSinceFirefly, with MAX(date) of the mirror. Each page but the last stages one at least.
  unfoldable pub sync_since_firefly :
      (ℕ → Str → Option (Page c)) → (ℕ → Bool) → Bool → Option Str → ℕ → List Row → SyncEnd
  unfolding walk_pages commit latest_firefly_txn_date
  sync_since_firefly list saves committed max_date max rows =
      if max == 0 then aborted else elim (latest_firefly_txn_date c max_date) [
        | none ↦ aborted
        | some cutoff ↦ commit committed (walk_pages list saves cutoff max max [] (start rows))
      ]

  stage_all : (ℕ → Bool) → List (Txn c) → Walk → Option Walk
  unfolding stage parse_fold_timestamp find_row refuses_money
  stage_all saves [] w = some w
  stage_all saves (t ∷ ts) w = elim (parse_fold_timestamp c t.txn_timestamp) [
    | none ↦ none
    | some stamp ↦
        (let rest = stage_all saves ts (stage c t stamp (find_row t.uuid w.rows) w) in
          if saves (handled w) && not (refuses_money c t (find_row t.uuid w.rows))
          then rest
          else none)
  ]

  abbrev first_uuid : List (Txn c) → Str
  first_uuid [] = []
  first_uuid (t ∷ ts) = t.uuid

  -- SyncRecent.
  unfoldable pub sync_recent : Option (List (Txn c)) → (ℕ → Bool) → Bool → List Row → SyncEnd
  unfolding stage_all
  sync_recent none saves committed rows = aborted
  sync_recent (some ts) saves committed rows =
      elim (stage_all saves ts
        (record (start rows) { fetched = length ts; newest = first_uuid ts; pages = 1 })) [
          | none ↦ aborted
          | some w ↦ if committed then stopped exhausted w else aborted
        ]
