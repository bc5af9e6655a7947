-- ===== src/TxnType/Accounts.antt =====
-- internal/integration/txntype.go: the table firefly_accounts as its queries read it.
use texas_fold_em.Common.{
  ℕ, ◌≡◌, ◌⊎◌, refl, Bool, true, false, ◌&&◌, ◌||◌, Option, none, some, List, [], ◌∷◌,
  if◌then◌else◌, ◌==◌, ltb, arith, Option-cases, inl, inr,
}
use texas_fold_em.Common.Text.{Str, str_eq, is_empty, trim_space, lower_ascii}

-- The column `type`.
pub data AccountKind : Type 0 where
  asset expense revenue other_account : AccountKind

pub record Account : Type 0 where
  pub firefly_id : ℕ
  pub name : Str
  pub kind : AccountKind
  pub active : Bool

-- `none` where there is no database to ask.
abbrev pub Mirror : Type 0
Mirror = Option (List Account)

pub record Side : Type 0 where
  pub id : ℕ
  pub name : Str

-- (Side).Empty.
unfoldable pub side_is_empty : Side → Bool
side_is_empty s = s.id == 0 && is_empty (trim_space s.name)

abbrev pub is_asset : AccountKind → Bool
is_asset asset = true
is_asset _ = false

unfoldable pub find : ℕ → List Account → Option Account
find id [] = none
find id (a ∷ l) = if a.firefly_id == id then some a else find id l

-- accountKind; `none` is its empty string.
unfoldable pub account_kind : Mirror → ℕ → Option AccountKind
unfolding find
account_kind none id = none
account_kind (some l) id = if id == 0 then none else kind_of (find id l)
  where
    kind_of : Option Account → Option AccountKind
    kind_of none = none
    kind_of (some a) = some a.kind

named : Str → Account → Bool
named name a = str_eq (lower_ascii a.name) (lower_ascii name) && (is_asset a.kind && a.active)

-- The first by id of the active assets with the name, 0 if there is none.
least_named : Str → List Account → ℕ
unfolding named
least_named name [] = 0
least_named name (a ∷ l) =
    let rest = least_named name l in
    if named name a
    then (if rest == 0 || ltb a.firefly_id rest then a.firefly_id else rest)
    else rest

-- AssetByName.
unfoldable pub asset_by_name : Mirror → Str → ℕ
unfolding least_named
asset_by_name none name = 0
asset_by_name (some l) name =
    let trimmed = trim_space name in if is_empty trimmed then 0 else least_named trimmed l

-- What is known of a side: the asset that it is, or 0, and whether the mirror could tell.
abbrev pub Known : Type 0
Known = ℕ × Bool

side_of_row : Mirror → Side → Option Account → Known
side_of_row q s (some a) =
    if is_asset a.kind && a.active then (s.id, true) else (asset_by_name q a.name, true)
side_of_row q s none =
    let named = asset_by_name q s.name in if named == 0 then (0, false) else (named, true)

-- sideAsset.
unfoldable pub side_asset : Mirror → Side → Known
unfolding side_of_row find
side_asset none s = (0, false)
side_asset (some l) s =
    if s.id == 0
    then (asset_by_name (some l) s.name, true)
    else side_of_row (some l) s (find s.id l)

-- An active asset of the mirror.
abbrev pub IsAsset : ℕ → List Account → Type 0
IsAsset id [] = ⊥
IsAsset id (a ∷ l) = ((a.firefly_id ≡ id) × (a.kind ≡ asset) × (a.active ≡ true)) ⊎ IsAsset id l

-- The name finds nothing, or an active asset of the mirror.
least_named-IsAsset :
    (name : Str) (l : List Account) → (least_named name l ≡ 0) ⊎ IsAsset (least_named name l) l
unfolding least_named
least_named-IsAsset name [] = inl refl
least_named-IsAsset name (a ∷ l) = ground (arith, least_named-IsAsset name l)

asset_by_name-IsAsset :
    (l : List Account) (name : Str)
    → (asset_by_name (some l) name ≡ 0) ⊎ IsAsset (asset_by_name (some l) name) l
unfolding asset_by_name
asset_by_name-IsAsset l name = ground (arith, least_named-IsAsset (trim_space name) l)

found-IsAsset :
    (l : List Account) (id : ℕ) {a : Account}
    → find id l ≡ some a
    → a.kind ≡ asset
    → a.active ≡ true
    → IsAsset id l
unfolding find
found-IsAsset [] id e k c = absurd (ground arith)
found-IsAsset (x ∷ l) id {a} e k c = ground (arith, found-IsAsset l id {a = a})

-- The asset that a side resolves to is none, or an active asset account of the mirror.
side_asset-IsAsset :
    (l : List Account) (s : Side)
    → ((side_asset (some l) s).0 ≡ 0) ⊎ IsAsset (side_asset (some l) s).0 l
unfolding side_asset
side_asset-IsAsset l s = elim (Option-cases (find s.id l)) [
  | inl e ↦ ground (arith, e, asset_by_name-IsAsset l s.name)
  | inr (a, e) ↦ ground (
    arith,
    e,
    asset_by_name-IsAsset l s.name,
    asset_by_name-IsAsset l a.name,
    found-IsAsset l s.id {a = a} e,
  )
]
