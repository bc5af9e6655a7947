-- ===== src/Classifier/Refunds/Totals.antt =====
-- internal/integration/classifier/refund.go: what all rows claim of a purchase.
use texas_fold_em.Common.{
  ℕ, ◌+◌, ◌≤◌, ◌≡◌, refl, false, not, ◌&&◌, ◌||◌, ◌==◌, Bool, Option, none, some, List, [], ◌∷◌,
  arith, if◌then◌else◌, All,
}
use texas_fold_em.Common.Text.{Str, str_eq}
use texas_fold_em.RefundRef.{journal_ref}
use texas_fold_em.Classifier.Refunds.Match.{RefundRow, effective_ref, claim_rows, propose}
use texas_fold_em.Classifier.Refunds.Candidates.{refund_claims, claims_ref, is_purchase}
use texas_fold_em.Classifier.Refunds.Claims.{claims_on}

-- A reference to a purchase: its own, or that of its journal in Firefly, where it has one.
unfoldable pub refers_to : Str → ℕ → Str → Bool
refers_to ref id x = str_eq x ref || (not (id == 0) && str_eq x (journal_ref id))

unfoldable pub refers_here : Str → ℕ → Option Str → Bool
unfolding refers_to
refers_here ref id none = false
refers_here ref id (some x) = refers_to ref id x && is_purchase x

-- What the rows that are not skipped claim of a purchase, under either reference.
unfoldable pub total_of : Str → ℕ → List RefundRow → ℕ
unfolding refers_here
total_of ref id [] = 0
total_of ref id (r ∷ rows) =
    let rest = total_of ref id rows in
    if not r.is_skipped && refers_here ref id (effective_ref r) then r.amount_paise + rest else rest

-- The amount of the row with the id.
unfoldable pub amount_of : Str → List RefundRow → ℕ
amount_of u [] = 0
amount_of u (r ∷ rows) =
    let rest = amount_of u rows in if str_eq r.fold_uuid u then r.amount_paise + rest else rest

refers_here-claims :
    (ref : Str) (id : ℕ) (x : Option Str)
    → refers_here ref id x ≡ (claims_ref ref x || (not (id == 0) && claims_ref (journal_ref id) x))
unfolding refers_here refers_to claims_ref
refers_here-claims ref id none = ground arith
refers_here-claims ref id (some x) = ground arith

pub total-le-claims :
    (u ref : Str) (id : ℕ) (rows : List RefundRow)
    → total_of ref id rows ≤ claims_on (refund_claims u (claim_rows rows)) ref id + amount_of u rows
unfolding total_of amount_of refund_claims claim_rows
total-le-claims u ref id [] = ground arith
total-le-claims u ref id (r ∷ rows) =
    ground (arith, refers_here-claims ref id (effective_ref r), total-le-claims u ref id rows)

pub claims-propose :
    (u ref x : Str) (rows : List RefundRow)
    → refund_claims u (claim_rows (propose u ref rows)) x ≡ refund_claims u (claim_rows rows) x
unfolding refund_claims claim_rows propose
claims-propose u ref x [] = refl
claims-propose u ref x (r ∷ rows) = ground (arith, claims-propose u ref x rows)

pub amount-propose :
    (v u ref : Str) (rows : List RefundRow) → amount_of v (propose u ref rows) ≡ amount_of v rows
unfolding amount_of propose
amount-propose v u ref [] = refl
amount-propose v u ref (r ∷ rows) = ground (arith, amount-propose v u ref rows)

refers_here-other :
    (ref : Str) (id : ℕ) (x : Str)
    → refers_to ref id x ≡ false
    → refers_here ref id (some x) ≡ false
unfolding refers_here
refers_here-other ref id x h = rw h refl

refers_here-none : (ref : Str) (id : ℕ) → refers_here ref id none ≡ false
unfolding refers_here
refers_here-none ref id = refl

pub total-propose_other :
    (u ref x : Str) (id : ℕ) (rows : List RefundRow)
    → refers_to x id ref ≡ false
    → total_of x id (propose u ref rows) ≡ total_of x id rows
unfolding total_of propose effective_ref
total-propose_other u ref x id [] n = refl
total-propose_other u ref x id (r ∷ rows) n = ground (
  arith,
  refers_here-other x id ref n,
  refers_here-none x id,
  total-propose_other u ref x id rows n,
)

pub amount_of_missing :
    (r : RefundRow) (rows : List RefundRow)
    → All (λ q. str_eq q.fold_uuid r.fold_uuid ≡ false) rows
    → amount_of r.fold_uuid rows ≡ 0
unfolding amount_of
amount_of_missing r [] h = refl
amount_of_missing r (q ∷ rows) h = ground (arith, h.0, amount_of_missing r rows h.1)
