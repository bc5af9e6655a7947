-- ===== src/FoldSync/Rows.antt =====
-- internal/integration/fold_sync.go: what a sync may change of a row that is staged already.
use texas_fold_em.Common.{
  ℕ, zero, suc, ◌+◌, ◌≡◌, refl, subst, Bool, true, false, not, ◌||◌, ◌++◌, leb, Option, none, some,
  List, [], ◌∷◌, if◌then◌else◌, arith, Option-cases, inl, inr, length,
}
use texas_fold_em.Common.Text.{Str, str_eq, is_empty}
use texas_fold_em.Push.Row.{Row}
use texas_fold_em.Push.World.{find_row, update_row}
use texas_fold_em.FoldSync.Wire.{
  Codec, Txn, Page, parse_fold_timestamp, latest_firefly_txn_date, raw_payload_string, fold_money,
  bare_txn,
}
use texas_fold_em.FoldSync.{
  PageEnd, failed, crossed, capped, through, SyncEnd, aborted, stopped, out_of_fuel, walk_page,
  page_end, walk_pages, after_page, on_page, commit, sync_since_firefly, stage_all, sync_recent,
  past_cutoff, first_uuid, exhausted,
}
use texas_fold_em.FoldSync.Staging.{
  Walk, start, money_of, with_raw, set_money, is_closed, staged_row, stage, handle_txn,
  refresh_money, refresh_raw_payload, same_money, handled, refuses_money,
}
use texas_fold_em.FoldSync.Refresh.{
  HasRefreshed, with_raw-IsRefreshed, set_money-IsRefreshed, set_money_uuid, find_row-append,
  update_row-HasRefreshed,
}

if_holds : {A : Type 0} (P : A → Type 0) (b : Bool) (x y : A) → P x → P y → P (if b then x else y)
if_holds P true x y h k = h
if_holds P false x y h k = k

abbrev Kept : Str → Row → Walk → Type 0
Kept uuid old w = HasRefreshed uuid old w.rows

-- The same of a page's end and of a sync's: an error keeps the rows by the rollback.
abbrev KeptAtEnd : Str → Row → PageEnd → Type 0
KeptAtEnd uuid old failed = Unit
KeptAtEnd uuid old (crossed w) = Kept uuid old w
KeptAtEnd uuid old (capped w) = Kept uuid old w
KeptAtEnd uuid old (through w) = Kept uuid old w

abbrev pub KeptBySync : Str → Row → SyncEnd → Type 0
KeptBySync uuid old aborted = Unit
KeptBySync uuid old (stopped why w) = Kept uuid old w
KeptBySync uuid old out_of_fuel = Unit

module _ (c : Codec) (uuid : Str) (old : Row) where
  stage_keeps :
      (t : Txn c) (stamp : ℕ) (r : Option Row) (w : Walk)
      → Kept uuid old w
      → Kept uuid old (stage c t stamp r w)
  unfolding stage refresh_money refresh_raw_payload
  stage_keeps t stamp none w (new, (found, fits)) =
      if_holds (Kept uuid old) (is_empty (fold_money c t).currency)
        (record w { skipped = w.skipped + 1 })
        (record w { rows = w.rows ++ (staged_row c t stamp ∷ []); inserted = w.inserted + 1 })
        (new, (found, fits))
        (new, (find_row-append uuid w.rows (staged_row c t stamp ∷ []) new found, fits))
  stage_keeps t stamp (some r) w h =
      let raw = raw_payload_string c (bare_txn c t.uuid) t.raw in
      let m = fold_money c t in
      let counted = record w { skipped = w.skipped + 1 } in
      let after_raw = refresh_raw_payload c t r counted in
      let raw_kept : Kept uuid old after_raw =
        if_holds (Kept uuid old) (str_eq r.raw_payload raw) counted
          (record counted {
            rows = update_row t.uuid (with_raw raw) w.rows;
            raw_refreshed = w.raw_refreshed + 1;
          })
          h
          (update_row-HasRefreshed uuid t.uuid (with_raw raw) old w.rows (λ x. refl)
            (with_raw-IsRefreshed raw old) h) in
      let paid = record after_raw {
        rows = update_row t.uuid (set_money m) after_raw.rows;
        changes = t.uuid ∷ after_raw.changes;
        money_refreshed = after_raw.money_refreshed + 1;
      } in
      let paid_kept : Kept uuid old paid =
        update_row-HasRefreshed uuid t.uuid (set_money m) old after_raw.rows (set_money_uuid m)
          (set_money-IsRefreshed m old) raw_kept in
      if_holds (Kept uuid old) (is_closed r.status) after_raw
        (if same_money (money_of r) m then after_raw else paid) raw_kept
        (if_holds (Kept uuid old) (same_money (money_of r) m) after_raw paid raw_kept paid_kept)

  handle_txn_keeps :
      (t : Txn c) (stamp : ℕ) (w : Walk) → Kept uuid old w → Kept uuid old (handle_txn c t stamp w)
  unfolding handle_txn
  handle_txn_keeps t stamp w h = stage_keeps t stamp (find_row t.uuid w.rows) w h

  walk_page_keeps :
      (saves : ℕ → Bool) (cutoff : Option ℕ) (max : ℕ) (ts : List (Txn c)) (w : Walk)
      → Kept uuid old w
      → KeptAtEnd uuid old (walk_page c saves cutoff max ts w)
  unfolding walk_page
  walk_page_keeps saves cutoff max [] w h = h
  walk_page_keeps saves cutoff max (t ∷ ts) w h =
      elim (Option-cases (parse_fold_timestamp c t.txn_timestamp)) [
        | inl e ↦ ground (arith, e)
        | inr (stamp, e) ↦
            let w' = handle_txn c t stamp w in
            let handled_kept = handle_txn_keeps t stamp w h in
            let rest = walk_page_keeps saves cutoff max ts w' handled_kept in
            let P = KeptAtEnd uuid old in
            let end_kept = if_holds P (past_cutoff c cutoff stamp) (crossed w) _ h (
              if_holds P (not (saves (handled w)) || refuses_money c t (find_row t.uuid w.rows))
                failed _ tt (if_holds P (leb max (handled w')) (capped w') _ handled_kept rest)) in
            ground (arith, e, end_kept)
      ]

  after_page_keeps :
      (more : Str → Walk → SyncEnd) (after : Str) (e : PageEnd)
      → ((cursor : Str) (w : Walk) → Kept uuid old w → KeptBySync uuid old (more cursor w))
      → KeptAtEnd uuid old e
      → KeptBySync uuid old (after_page c more after e)
  unfolding after_page
  after_page_keeps more after failed ih h = tt
  after_page_keeps more after (crossed w) ih h = h
  after_page_keeps more after (capped w) ih h = h
  after_page_keeps more after (through w) ih h =
      if_holds (KeptBySync uuid old) (is_empty after) (stopped exhausted w) (more after w) h
        (ih after w h)

  on_page_keeps :
      (saves : ℕ → Bool) (cutoff : Option ℕ) (max : ℕ) (more : Str → Walk → SyncEnd)
      (ts : List (Txn c)) (after : Str) (w : Walk)
      → ((cursor : Str) (x : Walk) → Kept uuid old x → KeptBySync uuid old (more cursor x))
      → Kept uuid old w
      → KeptBySync uuid old (on_page c saves cutoff max more ts after w)
  unfolding on_page page_end
  on_page_keeps saves cutoff max more [] after w ih h = h
  on_page_keeps saves cutoff max more (t ∷ ts) after w ih h =
      after_page_keeps more after (page_end c saves cutoff max t ts w) ih (
        walk_page_keeps saves cutoff max (t ∷ ts)
          (record w {
            fetched = w.fetched + (length ts + 1);
            newest = if is_empty w.newest then t.uuid else w.newest;
          })
          h)

  walk_pages_keeps :
      (list : ℕ → Str → Option (Page c)) (saves : ℕ → Bool) (cutoff : Option ℕ) (max fuel : ℕ)
      (cursor : Str) (w : Walk)
      → Kept uuid old w
      → KeptBySync uuid old (walk_pages c list saves cutoff max fuel cursor w)
  unfolding walk_pages
  walk_pages_keeps list saves cutoff max zero cursor w h = tt
  walk_pages_keeps list saves cutoff max (suc n) cursor w h =
      elim (Option-cases (list w.pages cursor)) [
        | inl e ↦ ground (arith, e)
        | inr (page, e) ↦
            let rest =
              on_page_keeps saves cutoff max (λ a x. walk_pages c list saves cutoff max n a x)
                page.transactions page.after (record w { pages = w.pages + 1 })
                (λ a x k. walk_pages_keeps list saves cutoff max n a x k) h in
            ground (arith, e, rest)
      ]

  commit_keeps :
      (committed : Bool) (e : SyncEnd)
      → KeptBySync uuid old e
      → KeptBySync uuid old (commit c committed e)
  unfolding commit
  commit_keeps true (stopped why w) h = h
  commit_keeps false (stopped why w) h = tt
  commit_keeps committed aborted h = tt
  commit_keeps committed out_of_fuel h = tt

  stage_all_keeps :
      (saves : ℕ → Bool) (ts : List (Txn c)) (w w' : Walk)
      → Kept uuid old w
      → stage_all c saves ts w ≡ some w'
      → Kept uuid old w'
  unfolding stage_all
  stage_all_keeps saves [] w w' h e =
      let same : w ≡ w' = ground (arith, e) in subst (Kept uuid old) same h
  stage_all_keeps saves (t ∷ ts) w w' h e =
      elim (Option-cases (parse_fold_timestamp c t.txn_timestamp)) [
        | inl none_there ↦ ground (arith, e, none_there)
        | inr (stamp, found) ↦
            let x = stage c t stamp (find_row t.uuid w.rows) w in
            stage_all_keeps saves ts x w' (stage_keeps t stamp (find_row t.uuid w.rows) w h)
              (ground (arith, e, found))
      ]

-- After SyncSinceFirefly a row that was staged before is there under its id, and is the same row
-- but for its raw payload and its money; the money of a row that was pushed or skipped is the same
-- too. So nothing that a person or the classifier set is lost.
pub sync_since_firefly_keeps :
    (c : Codec) (list : ℕ → Str → Option (Page c)) (saves : ℕ → Bool) (committed : Bool)
    (max_date : Option Str) (max : ℕ) (rows : List Row) (uuid : Str) (old : Row)
    → find_row uuid rows ≡ some old
    → KeptBySync uuid old (sync_since_firefly c list saves committed max_date max rows)
unfolding sync_since_firefly
sync_since_firefly_keeps c list saves committed max_date zero rows uuid old h = tt
sync_since_firefly_keeps c list saves committed max_date (suc m) rows uuid old h =
    elim (Option-cases (latest_firefly_txn_date c max_date)) [
      | inl e ↦ ground (arith, e)
      | inr (cutoff, e) ↦
          let rest =
            commit_keeps c uuid old committed
              (walk_pages c list saves cutoff (suc m) (suc m) [] (start rows))
              (walk_pages_keeps c uuid old list saves cutoff (suc m) (suc m) [] (start rows)
                (old, (h, (refl, λ _. refl)))) in
          ground (arith, e, rest)
    ]

-- The same of SyncRecent.
sync_recent_keeps :
    (c : Codec) (answer : Option (List (Txn c))) (saves : ℕ → Bool) (committed : Bool)
    (rows : List Row) (uuid : Str) (old : Row)
    → find_row uuid rows ≡ some old
    → KeptBySync uuid old (sync_recent c answer saves committed rows)
unfolding sync_recent
sync_recent_keeps c none saves committed rows uuid old h = tt
sync_recent_keeps c (some ts) saves committed rows uuid old h =
    let w = record (start rows) { fetched = length ts; newest = first_uuid c ts; pages = 1 } in
    elim (Option-cases (stage_all c saves ts w)) [
      | inl e ↦ ground (arith, e)
      | inr (w', e) ↦
          let rest =
            if_holds (KeptBySync uuid old) committed (stopped exhausted w') aborted
              (stage_all_keeps c uuid old saves ts w w' (old, (h, (refl, λ _. refl))) e) tt in
          ground (arith, e, rest)
    ]
