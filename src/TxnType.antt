-- ===== src/TxnType.antt =====
-- internal/integration/txntype.go: which of Firefly's three kinds a staged row is, and what can be
-- wrong between the kind and the row's two sides. The table firefly_accounts is a list; a query on
-- it does not fail. Account ids are at least 0, and 0 is no account.
pub mod Accounts
pub mod Sound
use texas_fold_em.Common.{
  ℕ, ◌≡◌, refl, Bool, true, false, ◌&&◌, ◌||◌, not, Option, none, some, List, [], ◌∷◌,
  if◌then◌else◌, ◌==◌, is_some,
}
use texas_fold_em.Common.Text.{Str, str, str_eq, is_empty, trim_space, to_lower, lower_ascii}
use texas_fold_em.TxnType.Accounts.{
  AccountKind, asset, expense, revenue, other_account, Account, Side, side_is_empty, side_asset,
  account_kind, Known, Mirror,
}

pub data TxnType : Type 0 where
  withdrawal deposit transfer : TxnType

pub TxnType-discrete : Discrete TxnType
TxnType-discrete = hlevel

unfoldable pub type_eq : TxnType → TxnType → Bool
type_eq withdrawal withdrawal = true
type_eq deposit deposit = true
type_eq transfer transfer = true
type_eq _ _ = false

-- isIncoming: strings.EqualFold(direction, "INCOMING").
unfoldable pub is_incoming : Str → Bool
is_incoming dir = str_eq (lower_ascii dir) (str "incoming")

-- TypesFor, the everyday type first.
unfoldable pub types_for : Str → List TxnType
types_for dir = if is_incoming dir then deposit ∷ transfer ∷ [] else withdrawal ∷ transfer ∷ []

type_in : TxnType → List TxnType → Bool
type_in t [] = false
type_in t (x ∷ xs) = type_eq x t || type_in t xs

-- TypeAllowed.
unfoldable pub type_allowed : Str → TxnType → Bool
unfolding types_for type_in type_eq
type_allowed dir t = type_in t (types_for dir)

-- DefaultType.
unfoldable pub default_type : Str → TxnType
default_type dir = if is_incoming dir then deposit else withdrawal

-- A stored type after ToLower and TrimSpace, if validType accepts it.
unfoldable pub valid_type : Str → Option TxnType
valid_type t =
    let spelled = to_lower (trim_space t) in
    if str_eq spelled (str "withdrawal")
    then some withdrawal
    else if str_eq spelled (str "deposit")
    then some deposit
    else if str_eq spelled (str "transfer")
    then some transfer
    else none

-- The Problem* codes.
pub data Problem : Type 0 where
  no_problem direction other_is_mine other_not_mine same_account : Problem
  other_kind own_not_mine swapped : Problem

pub record TypeCheck : Type 0 where
  pub type : TxnType
  pub explicit : Bool
  pub problem : Problem
  pub own_asset : ℕ
  pub other_asset : ℕ

-- The first switch: the type, and whether a person chose it.
unfoldable pub chosen_type : Str → Option TxnType → Option TxnType → TxnType × Bool
chosen_type dir (some t) proposed = (t, true)
chosen_type dir none (some t) = (if type_allowed dir t then t else default_type dir, false)
chosen_type dir none none = (default_type dir, false)

-- An undecided row with the user's own accounts on both sides is a transfer.
unfoldable pub settled_type : TxnType → Bool → ℕ → ℕ → TxnType
settled_type t explicit own other =
    if not explicit && (not (own == 0) && not (other == 0)) then transfer else t

-- Firefly takes no withdrawal to a payer and no deposit from a payee.
abbrev wrong_kind : TxnType → Option AccountKind → Bool
wrong_kind withdrawal (some revenue) = true
wrong_kind deposit (some expense) = true
wrong_kind _ _ = false

-- The second switch: the first case that applies.
unfoldable pub find_problem :
    Str → TxnType → Side → Known → Side → Known → Option AccountKind → Problem
unfolding type_eq
find_problem dir t own (own_asset, own_known) other (other_asset, other_known) kind =
    let moved = type_eq t transfer in
    if not (type_allowed dir t)
    then direction
    else if not moved
        && (not (side_is_empty own) && (own_known && (own_asset == 0 && not (other_asset == 0))))
    then swapped
    else if not (own.id == 0) && (own_known && own_asset == 0)
    then own_not_mine
    else if side_is_empty other
    then no_problem
    else if moved && (other_known && other_asset == 0)
    then other_not_mine
    else if moved && (not (other_asset == 0) && other_asset == own_asset)
    then same_account
    else if not moved && not (other_asset == 0)
    then other_is_mine
    else if not moved && (not (other.id == 0) && wrong_kind t kind)
    then other_kind
    else no_problem

-- CheckType on the own side and the other side.
unfoldable pub check_sides :
    Mirror → Str → Option TxnType → Option TxnType → Side → Side → TypeCheck
check_sides q dir confirmed proposed own other =
    let (t, explicit) = chosen_type dir confirmed proposed in
    let own_known = side_asset q own in
    let other_known = side_asset q other in
    let settled = settled_type t explicit own_known.0 other_known.0 in
    record {
      type = settled;
      explicit = explicit;
      problem = find_problem dir settled own own_known other other_known (account_kind q other.id);
      own_asset = own_known.0;
      other_asset = other_known.0;
    }

-- Money arrives in the destination and leaves the source: the user's own side, and the other.
abbrev pub own_side : Str → Side → Side → Side
own_side dir src dst = if is_incoming dir then dst else src

abbrev pub other_side : Str → Side → Side → Side
other_side dir src dst = if is_incoming dir then src else dst

-- CheckType, with the types as they are stored.
unfoldable pub check_type : Mirror → Str → Str → Str → Side → Side → TypeCheck
unfolding check_sides
check_type q dir confirmed proposed src dst =
    check_sides q dir (valid_type confirmed) (valid_type proposed) (own_side dir src dst)
      (other_side dir src dst)
