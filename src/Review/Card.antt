-- ===== src/Review/Card.antt =====
-- internal/integration/ui/sureness.go, and cardBlockers and insertBlocker of review.go: what stands in
-- the way of a card, and how sure the program is of it.
pub mod Blockers
pub mod Sureness
pub mod Sides
pub mod Bands
use texas_fold_em.Common.{
  ℕ, ◌+◌, Bool, true, false, not, ◌&&◌, ◌||◌, Option, none, some, List, [], ◌∷◌, ltb, ◌==◌,
  if◌then◌else◌, is_some,
}
use texas_fold_em.Common.Text.{Str, str, str_eq, is_empty, trim_space, has_prefix, lower_ascii}
use texas_fold_em.TxnType.{
  TxnType, withdrawal, deposit, transfer, Problem, no_problem, direction, other_is_mine,
  other_not_mine, same_account, other_kind, own_not_mine, swapped,
}
use texas_fold_em.Classifier.Decision.{Floats}

pub data Blocker : Type 0 where
  hold title_empty title_blank payee source mine type swap : Blocker

pub data Band : Type 0 where
  sure fairly unsure : Band

-- Why a card is in its band, when it is not the confidence alone.
pub data SureReason : Type 0 where
  no_reason chosen manual duplicate refund held unsettled new_payee new_account : SureReason

pub record CardSure (f : Floats) : Type 0 where
  pub band : Band
  pub why : SureReason
  pub score : Option f.Real

-- The parts of a card that its place in the deck depends on. `refund` says whether the purchase is to
-- be picked, and `why_hold` is the case for holding the card, empty where there is none.
pub record ReviewCard (f : Floats) : Type 0 where
  pub uuid : Str
  pub type : TxnType
  pub title : Str
  pub hold : Str
  pub manual : Bool
  pub duplicate : Bool
  pub refund : Option Bool
  pub why_hold : Str
  pub blockers : List Blocker
  pub sure : CardSure f

pub record SureFacts (f : Floats) : Type 0 where
  pub score : Option f.Real
  pub tier : Option ℕ
  pub chosen : Bool
  pub new_other : Bool
  pub new_own : Bool

-- What blocks a card ---------------------------------------------------------------------------

-- strings.Contains.
unfoldable pub contains : Str → Str → Bool
contains [] t = is_empty t
contains (c ∷ s) t = has_prefix (c ∷ s) t || contains s t

payee_missing : Str → Bool → Bool → Bool
payee_missing typ has_source has_dest =
    (str_eq typ (str "OUTGOING") && not has_dest) || (str_eq typ (str "INCOMING") && not has_source)

own_missing : Str → Bool → Bool → Bool
own_missing typ has_source has_dest =
    not (if str_eq typ (str "INCOMING") then has_dest else has_source)

title_blockers : Str → List Blocker
unfolding contains
title_blockers title =
    if is_empty (trim_space title)
    then title_empty ∷ []
    else if contains title (str "___")
    then title_blank ∷ []
    else []

add_if : Bool → Blocker → List Blocker → List Blocker
add_if true b l = b ∷ l
add_if false b l = l

-- cardBlockers, of the card's hold and title.
unfoldable pub card_blockers : Str → Str → Str → Bool → Bool → List Blocker
unfolding payee_missing own_missing title_blockers add_if
card_blockers card_hold title typ has_source has_dest =
    add_if (not (is_empty (trim_space card_hold))) hold (
      add_if (payee_missing typ has_source has_dest) payee
        (add_if (own_missing typ has_source has_dest) source (title_blockers title)))

-- The order in which a person settles them, and a code of each.
unfoldable pub settle_rank : Blocker → ℕ
settle_rank hold = 0
settle_rank type = 1
settle_rank swap = 1
settle_rank mine = 2
settle_rank payee = 3
settle_rank source = 4
settle_rank title_empty = 5
settle_rank title_blank = 5

unfoldable pub code_of : Blocker → ℕ
code_of hold = 0
code_of type = 1
code_of swap = 2
code_of mine = 3
code_of payee = 4
code_of source = 5
code_of title_empty = 6
code_of title_blank = 7

unfoldable pub is_listed : Blocker → List Blocker → Bool
unfolding code_of
is_listed b [] = false
is_listed b (x ∷ l) = code_of x == code_of b || is_listed b l

unfoldable pub place : Blocker → List Blocker → List Blocker
unfolding settle_rank
place b [] = b ∷ []
place b (x ∷ l) =
    let rest = place b l in if ltb (settle_rank b) (settle_rank x) then b ∷ x ∷ l else x ∷ rest

-- insertBlocker.
unfoldable pub insert_blocker : List Blocker → Blocker → List Blocker
unfolding is_listed place
insert_blocker l b = if is_listed b l then l else place b l

-- The blockers of a built card: its own, and what does not fit between its type and its accounts.
unfoldable pub blockers_of : Problem → List Blocker → List Blocker
blockers_of no_problem l = l
blockers_of other_is_mine l = insert_blocker l mine
blockers_of direction l = insert_blocker l type
blockers_of swapped l = insert_blocker l swap
blockers_of other_not_mine l = insert_blocker l payee
blockers_of same_account l = insert_blocker l payee
blockers_of other_kind l = insert_blocker l payee
blockers_of own_not_mine l = insert_blocker l source
