-- ===== src/TxnType/Sound.antt =====
-- internal/integration/txntype.go: what a type check without a problem vouches for.
use texas_fold_em.Common.{ℕ, ◌≡◌, ◌≢◌, ◌↔◌, ◌⊎◌, refl, true, false, Option, none, some, arith}
use texas_fold_em.Common.Text.{Str}
use texas_fold_em.TxnType.Accounts.{Mirror, Side, side_asset, Known, AccountKind}
use texas_fold_em.TxnType.{
  TxnType, transfer, type_allowed, default_type, valid_type, no_problem, direction, chosen_type,
  settled_type, find_problem, check_type, own_side, other_side,
}

transfer-allowed : (dir : Str) → type_allowed dir transfer ≡ true
unfolding type_allowed
transfer-allowed dir = ground arith

default_type-allowed : (dir : Str) → type_allowed dir (default_type dir) ≡ true
unfolding type_allowed default_type
default_type-allowed dir = ground arith

-- A transfer to one of the user's other accounts, or no transfer and none of their accounts.
abbrev pub Fits : TxnType → ℕ → ℕ → Type 0
Fits t own other = ((t ≡ transfer) × (other ≢ 0) × (other ≢ own)) ⊎ ((t ≢ transfer) × (other ≡ 0))

find_problem-direction :
    (dir : Str) (t : TxnType) (own : Side) (mine : Known) (other : Side) (theirs : Known)
    (kind : Option AccountKind)
    → (find_problem dir t own mine other theirs kind ≡ direction) ↔ (type_allowed dir t ≡ false)
unfolding find_problem
find_problem-direction dir t own mine other theirs kind = ground arith

settled_type-explicit : (t : TxnType) (own other : ℕ) → settled_type t true own other ≡ t
unfolding settled_type
settled_type-explicit t own other = refl

-- A person's type is final, whatever the accounts are, and the only doubt that the bank's direction
-- raises is a type that it does not allow.
check_type-explicit :
    (q : Mirror) (dir confirmed proposed : Str) (src dst : Side) (t : TxnType)
    → valid_type confirmed ≡ some t
    → let c = check_type q dir confirmed proposed src dst in
      (c.type ≡ t) × (c.explicit ≡ true) × ((c.problem ≡ direction) ↔ (type_allowed dir t ≡ false))
unfolding check_type chosen_type settled_type
check_type-explicit q dir confirmed proposed src dst t e =
    rw (e, check_type)
      (
        refl,
        refl,
        find_problem-direction dir t (own_side dir src dst) _ (other_side dir src dst) _ _,
      )

settled_type-allowed :
    (dir : Str) (proposed : Option TxnType) (own other : ℕ)
    → type_allowed dir
        (settled_type (chosen_type dir none proposed).0 (chosen_type dir none proposed).1 own other)
      ≡ true
unfolding settled_type chosen_type
settled_type-allowed dir none own other =
    ground (arith, transfer-allowed dir, default_type-allowed dir)
settled_type-allowed dir (some t) own other =
    ground (arith, transfer-allowed dir, default_type-allowed dir)

chosen_type-undecided :
    (dir : Str) (proposed : Option TxnType) → (chosen_type dir none proposed).1 ≡ false
unfolding chosen_type
chosen_type-undecided dir none = refl
chosen_type-undecided dir (some t) = refl

-- The type of a row that nobody has decided always fits the bank's direction.
check_type-undecided :
    (q : Mirror) (dir confirmed proposed : Str) (src dst : Side)
    → valid_type confirmed ≡ none
    → let c = check_type q dir confirmed proposed src dst in
      (type_allowed dir c.type ≡ true) × (c.explicit ≡ false) × (c.problem ≢ direction)
unfolding check_type
check_type-undecided q dir confirmed proposed src dst e =
    let own = side_asset q (own_side dir src dst) in
    let other = side_asset q (other_side dir src dst) in
    let fits = settled_type-allowed dir (valid_type proposed) own.0 other.0 in
    rw (e, check_type)
      (
        fits,
        chosen_type-undecided dir (valid_type proposed),
        λ p. cc (
          fits,
          (find_problem-direction dir _ (own_side dir src dst) own (other_side dir src dst) other
                _).0
              p,
        ),
      )

settled_type-both_mine :
    (dir : Str) (proposed : Option TxnType) (own other : ℕ)
    → own ≢ 0
    → other ≢ 0
    → settled_type (chosen_type dir none proposed).0 (chosen_type dir none proposed).1 own other
      ≡ transfer
unfolding settled_type chosen_type
settled_type-both_mine dir none own other h k = ground arith
settled_type-both_mine dir (some t) own other h k = ground arith

find_problem-both_mine :
    (dir : Str) (own : Side) (mine : Known) (other : Side) (theirs : Known)
    (kind : Option AccountKind)
    → mine.0 ≢ 0
    → theirs.0 ≢ 0
    → mine.0 ≢ theirs.0
    → find_problem dir transfer own mine other theirs kind ≡ no_problem
unfolding find_problem
find_problem-both_mine dir own mine other theirs kind h k n = ground (arith, transfer-allowed dir)

-- A row that nobody has decided and whose sides are two different accounts of the user goes as a
-- transfer without a problem, whatever was proposed: a card bill paid from the bank.
check_type-both_mine :
    (q : Mirror) (dir confirmed proposed : Str) (src dst : Side)
    → valid_type confirmed ≡ none
    → (side_asset q (own_side dir src dst)).0 ≢ 0
    → (side_asset q (other_side dir src dst)).0 ≢ 0
    → (side_asset q (own_side dir src dst)).0 ≢ (side_asset q (other_side dir src dst)).0
    → let c = check_type q dir confirmed proposed src dst in
      (c.type ≡ transfer) × (c.problem ≡ no_problem)
unfolding check_type
check_type-both_mine q dir confirmed proposed src dst e own other ne =
    let mine = side_asset q (own_side dir src dst) in
    let theirs = side_asset q (other_side dir src dst) in
    rw (e, check_type)
      (
        settled_type-both_mine dir (valid_type proposed) mine.0 theirs.0 own other,
        rw (settled_type-both_mine dir (valid_type proposed) mine.0 theirs.0 own other) (
            find_problem-both_mine dir (own_side dir src dst) mine (other_side dir src dst) theirs _
              own other ne),
      )
