-- ===== src/FoldSync/Refresh.antt =====
-- internal/integration/fold_sync.go: the updates of a row that is staged already.
use texas_fold_em.Common.{
  ◌≡◌, sym, subst, ap, true, false, some, List, [], ◌∷◌, ◌++◌, if◌then◌else◌, arith, Bool-cases,
  inl, inr,
}
use texas_fold_em.Common.Text.{Str, str_eq}
use texas_fold_em.Push.Row.{Row}
use texas_fold_em.Push.World.{find_row, update_row}
use texas_fold_em.FoldSync.Wire.{Money}
use texas_fold_em.FoldSync.Staging.{money_of, with_money, with_raw, set_money, is_closed}

-- `new` is `old` up to the raw payload and the money, and up to the raw payload alone if the row
-- was pushed or skipped.
abbrev pub IsRefreshed : Row → Row → Type 0
IsRefreshed old new =
    (with_money (money_of old) (with_raw old.raw_payload new) ≡ old)
    × (is_closed old.status ≡ true → money_of new ≡ money_of old)

-- The row with the id is `old`, refreshed.
abbrev pub HasRefreshed : Str → Row → List Row → Type 0
HasRefreshed uuid old rows = (new : Row) × ((find_row uuid rows ≡ some new) × IsRefreshed old new)

pub with_raw-IsRefreshed :
    (raw : Str) (old new : Row) → IsRefreshed old new → IsRefreshed old (with_raw raw new)
with_raw-IsRefreshed raw old new h = h

status_kept : (old new : Row) → IsRefreshed old new → new.status ≡ old.status
status_kept old new (same, _) = ap (λ r. r.status) same

pub set_money-IsRefreshed :
    (m : Money) (old new : Row) → IsRefreshed old new → IsRefreshed old (set_money m new)
set_money-IsRefreshed m old new (same, kept) = elim (Bool-cases (is_closed new.status)) [
  | inl e ↦ subst (λ b. IsRefreshed old (if b then new else with_money m new)) (sym e) (same, kept)
  | inr e ↦
      let open_row : is_closed old.status ≡ false =
        subst (λ s. is_closed s ≡ false) (status_kept old new (same, kept)) e in
      subst (λ b. IsRefreshed old (if b then new else with_money m new)) (sym e)
        (same, λ c. ground (arith, c, open_row))
]

pub set_money_uuid : (m : Money) (r : Row) → (set_money m r).fold_uuid ≡ r.fold_uuid
set_money_uuid m r = ground arith

pub find_row-append :
    (uuid : Str) (rows more : List Row) (r : Row)
    → find_row uuid rows ≡ some r
    → find_row uuid (rows ++ more) ≡ some r
unfolding find_row
find_row-append uuid [] more r h = cc h
find_row-append uuid (x ∷ xs) more r h =
    let rest = find_row-append uuid xs more r in ground (arith, h, rest)

-- What an UPDATE by id makes of a row.
abbrev hit : Str → (Row → Row) → Row → Row
hit u g r = if str_eq r.fold_uuid u then g r else r

find_row-update_row :
    (uuid u : Str) (g : Row → Row) (rows : List Row) (r : Row)
    → ((x : Row) → (g x).fold_uuid ≡ x.fold_uuid)
    → find_row uuid rows ≡ some r
    → find_row uuid (update_row u g rows) ≡ some (hit u g r)
unfolding find_row update_row
find_row-update_row uuid u g [] r same h = cc h
find_row-update_row uuid u g (x ∷ xs) r same h =
    let rest = find_row-update_row uuid u g xs r same in
    let x_same = same x in
    elim (Bool-cases (str_eq x.fold_uuid u)) [
      | inl e ↦ ground (arith, e, h, rest, x_same)
      | inr e ↦ ground (arith, e, h, rest)
    ]

pub update_row-HasRefreshed :
    (uuid u : Str) (g : Row → Row) (old : Row) (rows : List Row)
    → ((x : Row) → (g x).fold_uuid ≡ x.fold_uuid)
    → ((new : Row) → IsRefreshed old new → IsRefreshed old (g new))
    → HasRefreshed uuid old rows
    → HasRefreshed uuid old (update_row u g rows)
update_row-HasRefreshed uuid u g old rows same keeps (new, (found, fits)) = (
  hit u g new,
  (
    find_row-update_row uuid u g rows new same found,
    elim (Bool-cases (str_eq new.fold_uuid u)) [
      | inl e ↦ subst (λ b. IsRefreshed old (if b then g new else new)) (sym e) (keeps new fits)
      | inr e ↦ subst (λ b. IsRefreshed old (if b then g new else new)) (sym e) fits
    ],
  ),
)
