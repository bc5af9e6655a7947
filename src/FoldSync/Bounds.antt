-- ===== src/FoldSync/Bounds.antt =====
-- internal/integration/fold_sync.go: the walk back through Fold ends, within its cap.
use texas_fold_em.Common.{
  ℕ, zero, suc, ◌+◌, ◌≤◌, ◌<◌, ◌≡◌, Bool, true, false, Option, none, some, List, [], ◌∷◌,
  if◌then◌else◌, arith, Option-cases, inl, inr, length,
}
use texas_fold_em.Common.Text.{Str, is_empty}
use texas_fold_em.Push.Row.{Row}
use texas_fold_em.Push.World.{find_row}
use texas_fold_em.FoldSync.Wire.{Codec, Txn, Page, parse_fold_timestamp, latest_firefly_txn_date}
use texas_fold_em.FoldSync.{
  PageEnd, failed, crossed, capped, through, SyncEnd, aborted, stopped, out_of_fuel, walk_page,
  page_end, walk_pages, after_page, on_page, commit, sync_since_firefly,
}
use texas_fold_em.FoldSync.Staging.{
  Walk, handled, start, stage, handle_txn, refresh_money, refresh_raw_payload,
}

-- Within the cap, and after the page's end below the cap with `least` handled.
abbrev EndFits : ℕ → ℕ → PageEnd → Type 0
EndFits max least failed = Unit
EndFits max least (crossed w) = handled w ≤ max
EndFits max least (capped w) = handled w ≤ max
EndFits max least (through w) = (handled w < max) × (least ≤ handled w)

-- The sync ends, and the transactions that it inserted or skipped are within the cap.
abbrev pub StopsWithin : ℕ → SyncEnd → Type 0
StopsWithin max aborted = Unit
StopsWithin max (stopped why w) = handled w ≤ max
StopsWithin max out_of_fuel = ⊥

module _ (c : Codec) where
  handled-stage :
      (t : Txn c) (stamp : ℕ) (r : Option Row) (w : Walk)
      → handled (stage c t stamp r w) ≡ handled w + 1
  unfolding stage refresh_money refresh_raw_payload
  handled-stage t stamp none w = ground arith
  handled-stage t stamp (some r) w = ground arith

  handled-handle_txn :
      (t : Txn c) (stamp : ℕ) (w : Walk) → handled (handle_txn c t stamp w) ≡ handled w + 1
  unfolding handle_txn
  handled-handle_txn t stamp w = handled-stage t stamp (find_row t.uuid w.rows) w

  weaken : (max m n : ℕ) (e : PageEnd) → m ≤ n → EndFits max n e → EndFits max m e
  weaken max m n failed h k = k
  weaken max m n (crossed w) h k = k
  weaken max m n (capped w) h k = k
  weaken max m n (through w) h (k, l) = (k, omega arith)

  walk_page_fits :
      (saves : ℕ → Bool) (cutoff : Option ℕ) (max : ℕ) (ts : List (Txn c)) (w : Walk)
      → handled w < max
      → EndFits max (handled w + length ts) (walk_page c saves cutoff max ts w)
  unfolding walk_page
  walk_page_fits saves cutoff max [] w h = (h, omega arith)
  walk_page_fits saves cutoff max (t ∷ ts) w h =
      elim (Option-cases (parse_fold_timestamp c t.txn_timestamp)) [
        | inl e ↦ ground (arith, e)
        | inr (stamp, e) ↦
            let w' = handle_txn c t stamp w in
            let more = handled-handle_txn t stamp w in
            let ih : handled w' < max
                → EndFits max (handled w + suc (length ts)) (walk_page c saves cutoff max ts w') =
              λ k.
                weaken max (handled w + suc (length ts)) (handled w' + length ts)
                  (walk_page c saves cutoff max ts w') (omega (arith, more))
                  (walk_page_fits saves cutoff max ts w' k) in
            ground (arith, e, more, ih)
      ]

  page_end_fits :
      (saves : ℕ → Bool) (cutoff : Option ℕ) (max : ℕ) (t : Txn c) (ts : List (Txn c)) (w : Walk)
      → handled w < max
      → EndFits max (handled w + 1) (page_end c saves cutoff max t ts w)
  unfolding page_end
  page_end_fits saves cutoff max t ts w h =
      let looked = record w {
        fetched = w.fetched + (length ts + 1);
        newest = if is_empty w.newest then t.uuid else w.newest;
      } in
      weaken max (handled w + 1) (handled looked + suc (length ts))
        (page_end c saves cutoff max t ts w) (omega arith)
        (walk_page_fits saves cutoff max (t ∷ ts) looked h)

  -- The loop from a cursor on stops within the cap, if `n` is left of it.
  abbrev GoesOn : ℕ → ℕ → (Str → Walk → SyncEnd) → Type 0
  GoesOn max n more =
      (cursor : Str) (w : Walk)
      → handled w < max
      → max ≤ handled w + n
      → StopsWithin max (more cursor w)

  after_page_stops :
      (max n least : ℕ) (more : Str → Walk → SyncEnd) (after : Str) (e : PageEnd)
      → max ≤ least + n
      → EndFits max least e
      → GoesOn max n more
      → StopsWithin max (after_page c more after e)
  unfolding after_page
  after_page_stops max n least more after failed k h ih = tt
  after_page_stops max n least more after (crossed w) k h ih = h
  after_page_stops max n least more after (capped w) k h ih = h
  after_page_stops max n least more after (through w) k (below, much) ih =
      let rest = ih after w below (omega arith) in ground (arith, rest)

  on_page_stops :
      (saves : ℕ → Bool) (cutoff : Option ℕ) (max n : ℕ) (more : Str → Walk → SyncEnd)
      (ts : List (Txn c)) (after : Str) (w : Walk)
      → handled w < max
      → max ≤ handled w + suc n
      → GoesOn max n more
      → StopsWithin max (on_page c saves cutoff max more ts after w)
  unfolding on_page
  on_page_stops saves cutoff max n more [] after w h k ih = omega arith
  on_page_stops saves cutoff max n more (t ∷ ts) after w h k ih =
      after_page_stops max n (handled w + 1) more after (page_end c saves cutoff max t ts w)
        (omega arith) (page_end_fits saves cutoff max t ts w h) ih

  walk_pages_stops :
      (list : ℕ → Str → Option (Page c)) (saves : ℕ → Bool) (cutoff : Option ℕ) (max fuel : ℕ)
      (cursor : Str) (w : Walk)
      → handled w < max
      → max ≤ handled w + fuel
      → StopsWithin max (walk_pages c list saves cutoff max fuel cursor w)
  unfolding walk_pages
  walk_pages_stops list saves cutoff max zero cursor w h k =
      let no : ⊥ = omega (arith, h, k) in elim no [ ]
  walk_pages_stops list saves cutoff max (suc n) cursor w h k =
      elim (Option-cases (list w.pages cursor)) [
        | inl e ↦ ground (arith, e)
        | inr (page, e) ↦
            let rest =
              on_page_stops saves cutoff max n (λ a w'. walk_pages c list saves cutoff max n a w')
                page.transactions page.after (record w { pages = w.pages + 1 }) h k
                (λ a w' b l. walk_pages_stops list saves cutoff max n a w' b l) in
            ground (arith, e, rest)
      ]

  commit_stops :
      (max : ℕ) (committed : Bool) (e : SyncEnd)
      → StopsWithin max e
      → StopsWithin max (commit c committed e)
  unfolding commit
  commit_stops max true (stopped why w) h = h
  commit_stops max false (stopped why w) h = tt
  commit_stops max committed aborted h = tt
  commit_stops max committed out_of_fuel h = elim h [ ]

  -- SyncSinceFirefly ends, by an error or with a reason, whatever pages Fold answers, and the
  -- transactions that it inserted or skipped are at most `max`.
  pub sync_since_firefly_stops :
      (list : ℕ → Str → Option (Page c)) (saves : ℕ → Bool) (committed : Bool)
      (max_date : Option Str) (max : ℕ) (rows : List Row)
      → StopsWithin max (sync_since_firefly c list saves committed max_date max rows)
  unfolding sync_since_firefly
  sync_since_firefly_stops list saves committed max_date zero rows = tt
  sync_since_firefly_stops list saves committed max_date (suc m) rows =
      elim (Option-cases (latest_firefly_txn_date c max_date)) [
        | inl e ↦ ground (arith, e)
        | inr (cutoff, e) ↦
            let rest =
              commit_stops (suc m) committed
                (walk_pages c list saves cutoff (suc m) (suc m) [] (start rows))
                (walk_pages_stops list saves cutoff (suc m) (suc m) [] (start rows) (omega arith)
                  (omega arith)) in
            ground (arith, e, rest)
      ]
