-- ===== src/Classifier/Refunds/Candidates.antt =====
-- internal/integration/classifier/refund.go: the purchases that a refund could be for.
use texas_fold_em.Common.{
  ℕ, ◌+◌, ◌-◌, ◌/◌, Bool, true, false, not, ◌&&◌, ◌||◌, Option, none, some, List, [], ◌∷◌, ◌++◌,
  ltb, ◌==◌, if◌then◌else◌,
}
use texas_fold_em.Common.Text.{Str, str_eq, is_empty}
use texas_fold_em.Common.Order.{sort_by}
use texas_fold_em.RefundRef.{fold, journal, no_purchase, unrecognised, parse, journal_ref}
use texas_fold_em.Classifier.Refunds.{RefundCandidate, RefundProbe, ClaimRow}

-- sameCard.
unfoldable pub same_card : RefundProbe → RefundCandidate → Bool
same_card p c =
    if not (is_empty p.fold_account_id) && not (is_empty c.fold_account_id)
    then str_eq p.fold_account_id c.fold_account_id
    else if not (p.card_asset_id == 0) && not (c.card_asset_id == 0)
    then p.card_asset_id == c.card_asset_id
    else is_empty p.fold_account_id && p.card_asset_id == 0

unfoldable pub is_purchase : Str → Bool
is_purchase s = elim (parse s) [
  | fold u ↦ true
  | journal n ↦ true
  | no_purchase ↦ false
  | unrecognised ↦ false
]

unfoldable pub claims_ref : Str → Option Str → Bool
unfolding is_purchase
claims_ref ref none = false
claims_ref ref (some r) = str_eq r ref && is_purchase r

-- `claims[ref]` of refundClaims: what the other refunds that are not skipped claim of a purchase.
unfoldable pub refund_claims : Str → List ClaimRow → Str → ℕ
unfolding claims_ref
refund_claims exclude [] ref = 0
refund_claims exclude (r ∷ rows) ref =
    let rest = refund_claims exclude rows ref in
    if not (str_eq r.fold_uuid exclude) && not r.is_skipped && claims_ref ref r.ref
    then r.amount_paise + rest
    else rest

unfoldable pub claimed_of : (Str → ℕ) → RefundCandidate → ℕ
claimed_of claims c =
    if c.journal_id == 0 then claims c.ref else claims c.ref + claims (journal_ref c.journal_id)

-- The purchase was made at most a minute after the refund and at most 180 days before it; two known
-- times are compared.
unfoldable pub is_timely : RefundProbe → RefundCandidate → Bool
is_timely p c =
    if p.when == 0 || c.when == 0
    then true
    else not (ltb (p.when + 60) c.when) && not (ltb (c.when + 15552000) p.when)

-- A candidate with what is known of it, if it is kept.
unfoldable pub is_kept : (Str → ℕ) → RefundProbe → RefundCandidate → Bool
unfolding same_card claimed_of is_timely
is_kept claims p c =
    same_card p c
    && (c.group_match
        || (is_timely p c && not (ltb c.amount_paise (claimed_of claims c + p.amount_paise))))

unfoldable pub fill : (Str → ℕ) → RefundProbe → RefundCandidate → RefundCandidate
unfolding claimed_of
fill claims p c = record c {
  claimed = claimed_of claims c;
  exact = c.amount_paise == p.amount_paise;
  days_before =
      if not (p.when == 0) && not (c.when == 0) && ltb c.when p.when
      then (p.when - c.when) / 86400
      else c.days_before;
}

-- The order: grouped first, then the exact amount, then the most recent.
unfoldable pub better_candidate : RefundCandidate → RefundCandidate → Bool
better_candidate a b =
    if a.group_match && not b.group_match
    then true
    else if not a.group_match && b.group_match
    then false
    else if a.exact && not b.exact
    then true
    else if not a.exact && b.exact
    then false
    else ltb b.when a.when

unfoldable pub is_seen : ℕ → List RefundCandidate → Bool
is_seen n [] = false
is_seen n (c ∷ l) = (not (n == 0) && c.journal_id == n) || is_seen n l

-- The journals that no staged row stands for.
unfoldable pub unseen : List RefundCandidate → List RefundCandidate → List RefundCandidate
unfolding is_seen
unseen staged [] = []
unseen staged (c ∷ l) =
    let rest = unseen staged l in if is_seen c.journal_id staged then rest else c ∷ rest

unfoldable pub keep_candidates :
    (Str → ℕ) → RefundProbe → List RefundCandidate → List RefundCandidate
unfolding is_kept fill
keep_candidates claims p [] = []
keep_candidates claims p (c ∷ l) =
    let rest = keep_candidates claims p l in
    if is_kept claims p c then fill claims p c ∷ rest else rest

-- findRefundCandidates, on the purchases of both queries; a journal with the row's own external id is
-- not among those of the second.
unfoldable pub find_refund_candidates :
    List ClaimRow → List RefundCandidate → List RefundCandidate → RefundProbe → List RefundCandidate
unfolding unseen keep_candidates better_candidate refund_claims
find_refund_candidates rows staged journals p =
    if is_empty p.merchant && is_empty p.group_id
    then []
    else sort_by better_candidate (
        keep_candidates (refund_claims p.fold_uuid rows) p (
          staged
          ++ (if p.card_asset_id == 0 || is_empty p.merchant then [] else unseen staged journals)))
