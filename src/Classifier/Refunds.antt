-- ===== src/Classifier/Refunds.antt =====
-- internal/integration/classifier/refund.go: which purchase a refund gives money back for. Times are
-- seconds, with 0 for the zero time; confidences are hundredths; the rows that the two queries of
-- findRefundCandidates select are parameters, and so is what the payload says.
pub mod Candidates
pub mod Match
pub mod Picks
pub mod Claims
pub mod Totals
pub mod Loop
use texas_fold_em.Common.{
  ℕ, zero, suc, ◌+◌, ◌-◌, ◌*◌, ◌/◌, Bool, true, false, not, ◌&&◌, ◌||◌, Option, none, some, List,
  [], ◌∷◌, ◌++◌, ltb, leb, ◌==◌, if◌then◌else◌,
}
use texas_fold_em.Common.Text.{Str, str, str_eq, is_empty, trim_space, to_lower, lower_ascii}
use texas_fold_em.Common.Order.{sort_by}
use texas_fold_em.RefundRef.{
  Reference, fold, journal, no_purchase, unrecognised, parse, journal_ref,
}
use texas_fold_em.Classifier.Decision.{StagedRow}
use texas_fold_em.Classifier.Cards.{keep_if}
use texas_fold_em.Review.Card.{contains}

pub record RefundCandidate : Type 0 where
  pub ref : Str
  pub when : ℕ
  pub amount_paise : ℕ
  pub description : Str
  pub merchant : Str
  pub status : Str
  -- 0 where the purchase is not in Firefly.
  pub journal_id : ℕ
  pub tags : List Str
  pub exact : Bool
  pub group_match : Bool
  pub claimed : ℕ
  pub days_before : ℕ
  pub fold_account_id : Str
  pub card_asset_id : ℕ

pub record RefundProbe : Type 0 where
  pub fold_uuid : Str
  pub fold_account_id : Str
  pub card_asset_id : ℕ
  pub merchant : Str
  pub amount_paise : ℕ
  pub when : ℕ
  pub group_id : Str

-- A row with what it is said to refund: its effective reference and amount.
pub record ClaimRow : Type 0 where
  pub fold_uuid : Str
  pub is_skipped : Bool
  pub ref : Option Str
  pub amount_paise : ℕ

-- What a refund is -------------------------------------------------------------------------------

contains_any : List Str → Str → Bool
contains_any [] n = false
contains_any (t ∷ l) n = contains n t || contains_any l n

not_refunds : List Str
not_refunds =
    str "payment"
    ∷ str "cashback"
    ∷ str "cash back"
    ∷ str "interest"
    ∷ str "reward"
    ∷ str "salary"
    ∷ str "dividend"
    ∷ []

-- refundSignal, with the group that the payload names.
unfoldable pub refund_signal : Str → StagedRow → Bool
unfolding contains_any not_refunds
refund_signal group_id s =
    let n = to_lower s.narration in
    if not (str_eq s.type (str "INCOMING"))
    then false
    else if contains_any not_refunds n
    then false
    else contains n (str "refund")
      || contains n (str "reversal")
      || contains n (str "reversed")
      || not (is_empty group_id)
      || str_eq (lower_ascii s.mode) (str "card")

-- The choice -------------------------------------------------------------------------------------

find_first : (RefundCandidate → Bool) → List RefundCandidate → Option RefundCandidate
find_first p [] = none
find_first p (c ∷ l) = let rest = find_first p l in if p c then some c else rest

-- Within exactConfidentWithin.
is_recent_exact : RefundCandidate → Bool
is_recent_exact c = c.exact && leb c.days_before 30

-- The choice among the recent purchases of exactly the amount, the first of them.
choose_recent : List RefundCandidate → Option (RefundCandidate × ℕ)
choose_recent [] = none
choose_recent (c ∷ []) = some (c, 100)
choose_recent (c ∷ d ∷ l) = some (c, 90)

choose_older : List RefundCandidate → Option RefundCandidate × ℕ
unfolding find_first
choose_older cands = elim (find_first (λ c. c.exact) cands) [
  | some c ↦ (some c, 60)
  | none ↦ elim (find_first (λ c. not c.exact) cands) [
    | some c ↦ if leb c.days_before 7 then (some c, 60) else (none, 60)
    | none ↦ (none, 60)
  ]
]

choose_ungrouped : List RefundCandidate → Option RefundCandidate × ℕ
unfolding choose_recent choose_older is_recent_exact keep_if
choose_ungrouped cands = elim (choose_recent (keep_if is_recent_exact cands)) [
  | some (c, confidence) ↦ (some c, confidence)
  | none ↦ choose_older cands
]

-- pickRefundCandidate: the purchase and the confidence.
unfoldable pub pick_refund_candidate : List RefundCandidate → Option RefundCandidate × ℕ
unfolding find_first choose_ungrouped
pick_refund_candidate [] = (none, 70)
pick_refund_candidate (c ∷ l) = elim (find_first (λ x. x.group_match) (c ∷ l)) [
  | some g ↦ (some g, 100)
  | none ↦ choose_ungrouped (c ∷ l)
]

-- refundDescription.
unfoldable pub refund_description : Option RefundCandidate → Str → Str
refund_description best merchant =
    let title : Str = elim best [ none ↦ [] | some c ↦ trim_space c.description ] in
    if not (is_empty title)
    then str "Refund for " ++ title
    else if not (is_empty (trim_space merchant))
    then str "Refund for ___ from " ++ trim_space merchant
    else str "Refund for ___"
