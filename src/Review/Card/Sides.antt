-- ===== src/Review/Card/Sides.antt =====
-- internal/integration/ui/sureness.go: the sides of a row that make no new account.
use texas_fold_em.Common.{
  ◌≡◌, ◌≢◌, refl, true, false, none, List, [], ◌∷◌, arith, if◌then◌else◌, ◌⊎◌,
}
use texas_fold_em.Common.Text.{
  Str, str, str_eq, str_eq_sound, is_empty, trim_space, lower_ascii, empty_is_nil,
}
use texas_fold_em.TxnType.{TxnType, withdrawal, deposit, transfer}
use texas_fold_em.Classifier.Decision.{Floats}
use texas_fold_em.Review.Card.Sureness.{
  MirrorAccount, StoredSide, CardRow, has_account, is_new_account, other_kind_of,
}

-- The mirror has an account with the name, but for case, and of the kind.
abbrev pub InMirror : Str → Str → List MirrorAccount → Type 0
InMirror name kind [] = ⊥
InMirror name kind (a ∷ l) =
    ((lower_ascii a.name ≡ lower_ascii name) × (a.type ≡ kind)) ⊎ InMirror name kind l

-- A side that makes no new account: it is linked, or the mirror has it, or it names none.
abbrev pub IsKnown : List MirrorAccount → StoredSide → Str → Type 0
IsKnown accounts s kind =
    (s.id ≢ none)
    ⊎ (trim_space s.name ≡ [])
    ⊎ (trim_space s.name ≡ str "(no name)")
    ⊎ InMirror (trim_space s.name) kind accounts

has_account-InMirror :
    (name kind : Str) (accounts : List MirrorAccount)
    → has_account name kind accounts ≡ true
    → InMirror name kind accounts
unfolding has_account
has_account-InMirror name kind [] h = cc h
has_account-InMirror name kind (a ∷ l) h = ground (
  arith,
  h,
  str_eq_sound (lower_ascii a.name) (lower_ascii name),
  str_eq_sound a.type kind,
  has_account-InMirror name kind l,
)

pub is_new_account-IsKnown :
    (accounts : List MirrorAccount) (s : StoredSide) (kind : Str)
    → is_empty kind ≡ false
    → is_new_account accounts s kind ≡ false
    → IsKnown accounts s kind
unfolding is_new_account
is_new_account-IsKnown accounts s kind k h = ground (
  arith,
  h,
  k,
  empty_is_nil (trim_space s.name),
  str_eq_sound (trim_space s.name) (str "(no name)"),
  has_account-InMirror (trim_space s.name) kind accounts,
)

-- The kinds of account of the other side.
pub kind_across : TxnType → Str
kind_across withdrawal = str "expense"
kind_across deposit = str "revenue"
kind_across transfer = str "asset"

-- The user's side of a row, and the other.
abbrev pub own_side : {f : Floats} → CardRow f → StoredSide
own_side r = if str_eq r.type (str "INCOMING") then r.destination else r.source

abbrev pub other_side : {f : Floats} → CardRow f → StoredSide
other_side r = if str_eq r.type (str "INCOMING") then r.source else r.destination

pub not_new-IsKnown :
    (t : TxnType) (accounts : List MirrorAccount) (s : StoredSide)
    → is_new_account accounts s (other_kind_of t) ≡ false
    → IsKnown accounts s (kind_across t)
unfolding other_kind_of kind_across
not_new-IsKnown withdrawal accounts s h = is_new_account-IsKnown accounts s (str "expense") refl h
not_new-IsKnown deposit accounts s h = is_new_account-IsKnown accounts s (str "revenue") refl h
not_new-IsKnown transfer accounts s h = is_new_account-IsKnown accounts s (str "asset") refl h
