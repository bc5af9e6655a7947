-- ===== src/Classifier/Refunds/Claims.antt =====
-- internal/integration/classifier/refund.go: the purchases that a refund is offered.
use texas_fold_em.Common.{
  ℕ, ◌+◌, ◌*◌, ◌≤◌, ◌<◌, ◌≡◌, ◌≢◌, Bool, true, false, ◌&&◌, ◌||◌, List, [], ◌∷◌, ltb, ◌==◌, arith,
  if◌then◌else◌, All, All-append, Bool-cases, inl, inr, ◌⊎◌, ap,
}
use texas_fold_em.Common.Text.{Str, is_empty, str_eq_sound, empty_is_nil}
use texas_fold_em.Common.Order.{sort_by-All}
use texas_fold_em.RefundRef.{journal_ref}
use texas_fold_em.Classifier.Refunds.{RefundCandidate, RefundProbe, ClaimRow}
use texas_fold_em.Classifier.Refunds.Candidates.{
  same_card, refund_claims, claimed_of, is_timely, is_kept, fill, keep_candidates,
  find_refund_candidates, unseen, better_candidate,
}

-- Both accounts of Fold are known and are the same; or one is not, and both accounts of Firefly are
-- known and are the same; or nothing is known of the refund's card.
abbrev pub IsSameCard : RefundProbe → RefundCandidate → Type 0
IsSameCard p c =
    ((p.fold_account_id ≢ []) × (p.fold_account_id ≡ c.fold_account_id))
    ⊎ (((p.fold_account_id ≡ []) ⊎ (c.fold_account_id ≡ []))
        × (p.card_asset_id ≢ 0)
        × (p.card_asset_id ≡ c.card_asset_id))
    ⊎ ((p.fold_account_id ≡ []) × (p.card_asset_id ≡ 0))

-- What is claimed under a reference, and under that of the journal in Firefly, where there is one.
abbrev pub claims_on : (Str → ℕ) → Str → ℕ → ℕ
claims_on claims ref id = claims ref + (if id == 0 then 0 else claims (journal_ref id))

-- What every purchase is that a refund is offered, against the claims of the other refunds.
abbrev pub IsOffered : (Str → ℕ) → RefundProbe → RefundCandidate → Type 0
IsOffered claims p c =
    IsSameCard p c
    × ((c.exact ≡ true) → c.amount_paise ≡ p.amount_paise)
    × ((c.group_match ≡ true)
        ⊎ ((claims_on claims c.ref c.journal_id + p.amount_paise ≤ c.amount_paise)
            × ((p.when ≡ 0)
                ⊎ (c.when ≡ 0)
                ⊎ ((c.when ≤ p.when + 60) × (p.when ≤ c.when + 15552000)))))

given_is_cons : (s : Str) → is_empty s ≡ false → s ≢ []
given_is_cons [] h e = cc h
given_is_cons (c ∷ s) h e = cc e

same_card-IsSameCard :
    (p : RefundProbe) (c : RefundCandidate) → same_card p c ≡ true → IsSameCard p c
unfolding same_card
same_card-IsSameCard p c h = ground (
  arith,
  h,
  empty_is_nil p.fold_account_id,
  empty_is_nil c.fold_account_id,
  given_is_cons p.fold_account_id,
  str_eq_sound p.fold_account_id c.fold_account_id,
)

timely :
    (p : RefundProbe) (c : RefundCandidate)
    → is_timely p c ≡ true
    → (p.when ≡ 0) ⊎ (c.when ≡ 0) ⊎ ((c.when ≤ p.when + 60) × (p.when ≤ c.when + 15552000))
unfolding is_timely
timely p c h = elim (Bool-cases (p.when == 0)) [
  | inl e ↦ inl (ground (arith, e))
  | inr e ↦ elim (Bool-cases (c.when == 0)) [
    | inl g ↦ inr (inl (ground (arith, g)))
    | inr g ↦ inr (inr (ground (arith, e, g, h), ground (arith, e, g, h)))
  ]
]

claims_within :
    (claims : Str → ℕ) (p : RefundProbe) (c : RefundCandidate)
    → ltb c.amount_paise (claimed_of claims c + p.amount_paise) ≡ false
    → claims_on claims c.ref c.journal_id + p.amount_paise ≤ c.amount_paise
unfolding claimed_of
claims_within claims p c h = ground (arith, h)

fill-IsOffered :
    (claims : Str → ℕ) (p : RefundProbe) (c : RefundCandidate)
    → is_kept claims p c ≡ true
    → IsOffered claims p (fill claims p c)
unfolding is_kept fill
fill-IsOffered claims p c h =
    let card : same_card p c ≡ true = ground (arith, h) in
    (
      same_card-IsSameCard p c card,
      (λ e. ground (arith, e)),
      elim (Bool-cases c.group_match) [
        | inl g ↦ inl g
        | inr g ↦
            inr (claims_within claims p c (ground (arith, g, h)), timely p c (ground (arith, g, h)))
      ],
    )

keep_candidates-IsOffered :
    (claims : Str → ℕ) (p : RefundProbe) (l : List RefundCandidate)
    → All (IsOffered claims p) (keep_candidates claims p l)
unfolding keep_candidates
keep_candidates-IsOffered claims p [] = tt
keep_candidates-IsOffered claims p (c ∷ l) = elim (Bool-cases (is_kept claims p c)) [
  | inl e ↦ rw e (fill-IsOffered claims p c e, keep_candidates-IsOffered claims p l)
  | inr e ↦ rw e (keep_candidates-IsOffered claims p l)
]

keep_candidates-All :
    (Q : RefundCandidate → Type 0)
    → ((claims : Str → ℕ) (p : RefundProbe) (c : RefundCandidate) → Q c → Q (fill claims p c))
    → (claims : Str → ℕ) (p : RefundProbe) (l : List RefundCandidate) → All Q l
    → All Q (keep_candidates claims p l)
unfolding keep_candidates
keep_candidates-All Q stable claims p [] h = tt
keep_candidates-All Q stable claims p (c ∷ l) h = elim (Bool-cases (is_kept claims p c)) [
  | inl e ↦ rw e (stable claims p c h.0, keep_candidates-All Q stable claims p l h.1)
  | inr e ↦ rw e (keep_candidates-All Q stable claims p l h.1)
]

-- Every purchase that a refund is offered was paid with the card that the refund came to, where
-- anything is known of that card; unless Fold groups the two, the refund and what other refunds claim
-- of it, under its reference and under that of its journal, are at most its amount, and it was made at most a minute after the refund and at most 180 days before it, where both
-- times are known. One that is marked exact has the refund's amount.
pub find_refund_candidates-IsOffered :
    (rows : List ClaimRow) (staged journals : List RefundCandidate) (p : RefundProbe)
    → All
        (IsOffered (refund_claims p.fold_uuid rows) p)
        (find_refund_candidates rows staged journals p)
unfolding find_refund_candidates
find_refund_candidates-IsOffered rows staged journals p =
    elim (Bool-cases (is_empty p.merchant && is_empty p.group_id)) [
      | inl e ↦ rw e tt
      | inr e ↦ rw e (
          sort_by-All (IsOffered (refund_claims p.fold_uuid rows) p) better_candidate _
            (keep_candidates-IsOffered (refund_claims p.fold_uuid rows) p _))
    ]

-- What the loop over the candidates keeps has what all of them had, but for what it fills in.
pub find_refund_candidates-All :
    (Q : RefundCandidate → Type 0)
    → ((claims : Str → ℕ) (p : RefundProbe) (c : RefundCandidate) → Q c → Q (fill claims p c))
    → (rows : List ClaimRow) (staged journals : List RefundCandidate) (p : RefundProbe)
    → All Q staged
    → All Q (unseen staged journals)
    → All Q (find_refund_candidates rows staged journals p)
unfolding find_refund_candidates
find_refund_candidates-All Q stable rows staged journals p h k =
    elim (Bool-cases (is_empty p.merchant && is_empty p.group_id)) [
      | inl e ↦ rw e tt
      | inr e ↦ rw e (
          sort_by-All Q better_candidate _ (
            keep_candidates-All Q stable (refund_claims p.fold_uuid rows) p _ (
              All-append Q staged _ h
                (journals_kept (p.card_asset_id == 0 || is_empty p.merchant)))))
    ]
  where
    journals_kept : (b : Bool) → All Q (if b then [] else unseen staged journals)
    journals_kept true = tt
    journals_kept false = k

-- The claims on a purchase that stands only in Firefly count twice: one of which a part was refunded
-- is not kept for a refund that would fit its rest, as soon as that refund and twice the claims are
-- more than its amount.
pub journal_claims_count_twice :
    (claims : Str → ℕ) (p : RefundProbe) (c : RefundCandidate)
    → c.journal_id ≢ 0
    → c.ref ≡ journal_ref c.journal_id
    → c.group_match ≡ false
    → c.amount_paise < claims c.ref * 2 + p.amount_paise
    → is_kept claims p c ≡ false
unfolding is_kept claimed_of
journal_claims_count_twice claims p c n e g h = ground (arith, n, g, h, ap claims e)
