-- ===== src/Classifier/Refunds/Loop.antt =====
-- internal/integration/classifier/refund.go: MatchRefunds never has a purchase refunded twice.
use texas_fold_em.Common.{
  ℕ, ◌+◌, ◌≤◌, ◌<◌, ◌≡◌, refl, false, true, Option, none, some, List, [], ◌∷◌, ltb, arith, All,
  Bool-cases, inl, inr,
}
use texas_fold_em.Common.Text.{Str, str_eq, str_eq_refl}
use texas_fold_em.RefundRef.{journal_ref}
use texas_fold_em.Classifier.Refunds.{RefundCandidate, RefundProbe, pick_refund_candidate}
use texas_fold_em.Classifier.Refunds.Match.{
  RefundRow, claim_rows, propose, propose_pick, match_row, match_each, match_refunds,
  select_unmatched, is_unmatched,
}
use texas_fold_em.Classifier.Refunds.Candidates.{
  refund_claims, find_refund_candidates, fill, unseen,
}
use texas_fold_em.Classifier.Refunds.Picks.{pick_refund_candidate-IsSureMatch}
use texas_fold_em.Classifier.Refunds.Claims.{
  claims_on, IsOffered, find_refund_candidates-IsOffered, find_refund_candidates-All,
}
use texas_fold_em.Classifier.Refunds.Totals.{
  refers_to, total_of, amount_of, total-le-claims, claims-propose, amount-propose,
  total-propose_other, amount_of_missing,
}

-- No id twice, and each row's probe has the row's amount and is about the row.
abbrev pub IsKeyed : List RefundRow → Type 0
IsKeyed [] = Unit
IsKeyed (r ∷ rows) =
    All (λ q. str_eq q.fold_uuid r.fold_uuid ≡ false) rows
    × All (λ q. str_eq r.fold_uuid q.fold_uuid ≡ false) rows
    × (r.probe.amount_paise ≡ r.amount_paise)
    × (r.probe.fold_uuid ≡ r.fold_uuid)
    × IsKeyed rows

-- The probe of a selected row stands for the row of the table.
abbrev IsProbed : List RefundRow → RefundRow → Type 0
IsProbed rows s =
    (amount_of s.fold_uuid rows ≤ s.probe.amount_paise) × (s.probe.fold_uuid ≡ s.fold_uuid)

IsProbed-later :
    (r : RefundRow) (rows l : List RefundRow)
    → All (λ q. str_eq r.fold_uuid q.fold_uuid ≡ false) l
    → All (IsProbed rows) l
    → All (IsProbed (r ∷ rows)) l
unfolding amount_of
IsProbed-later r rows [] n h = tt
IsProbed-later r rows (s ∷ l) n h =
    ((ground (arith, n.0, h.0.0), h.0.1), IsProbed-later r rows l n.1 h.1)

keyed_probes : (rows : List RefundRow) → IsKeyed rows → All (IsProbed rows) rows
unfolding amount_of
keyed_probes [] h = tt
keyed_probes (r ∷ rows) h = (
  (ground (arith, str_eq_refl r.fold_uuid, amount_of_missing r rows h.0, h.2), h.3),
  IsProbed-later r rows rows h.1 (keyed_probes rows h.4),
)

selected-All :
    (P : RefundRow → Type 0) (rows : List RefundRow) → All P rows → All P (select_unmatched rows)
unfolding select_unmatched
selected-All P [] h = tt
selected-All P (r ∷ rows) h = elim (Bool-cases (is_unmatched r)) [
  | inl e ↦ rw e (h.0, selected-All P rows h.1)
  | inr e ↦ rw e (selected-All P rows h.1)
]

amount-propose_pick :
    (threshold : ℕ) (v u : Str) (o : Option RefundCandidate × ℕ) (rows : List RefundRow)
    → amount_of v (propose_pick threshold u o rows) ≡ amount_of v rows
unfolding propose_pick
amount-propose_pick threshold v u (none, n) rows = refl
amount-propose_pick threshold v u (some c, n) rows = ground (arith, amount-propose v u c.ref rows)

IsProbed-propose_pick :
    (threshold : ℕ) (u : Str) (o : Option RefundCandidate × ℕ) (rows selected : List RefundRow)
    → All (IsProbed rows) selected
    → All (IsProbed (propose_pick threshold u o rows)) selected
IsProbed-propose_pick threshold u o rows [] h = tt
IsProbed-propose_pick threshold u o rows (s ∷ selected) h = (
  (omega (arith, amount-propose_pick threshold s.fold_uuid u o rows, h.0.0), h.0.1),
  IsProbed-propose_pick threshold u o rows selected h.1,
)

-- The purchase has a reference, a journal in Firefly or 0, and an amount.
module _ (threshold : ℕ) (staged journals : RefundProbe → List RefundCandidate) (ref : Str)
    (id paid : ℕ) where
  -- What is known of the purchases on offer: Fold groups none with a refund, and one that goes by a
  -- reference of the purchase is the purchase, for at most the amount.
  abbrev pub IsPlain : RefundCandidate → Type 0
  IsPlain c =
      (c.group_match ≡ false)
      × (refers_to ref id c.ref ≡ true
          → (c.ref ≡ ref) × (c.journal_id ≡ id) × (c.amount_paise ≤ paid))

  IsPlain-fill :
      (claims : Str → ℕ) (p : RefundProbe) (c : RefundCandidate)
      → IsPlain c
      → IsPlain (fill claims p c)
  unfolding fill
  IsPlain-fill claims p c h = h

  All-both :
      (P Q : RefundCandidate → Type 0) (l : List RefundCandidate)
      → All P l
      → All Q l
      → All (λ c. P c × Q c) l
  All-both P Q [] h k = tt
  All-both P Q (c ∷ l) h k = ((h.0, k.0), All-both P Q l h.1 k.1)

  module _ (plain_staged : (p : RefundProbe) → All IsPlain (staged p))
      (plain_journals : (p : RefundProbe) → All IsPlain (unseen (staged p) (journals p)))
      (sure : 60 < threshold) where
    proposed_within :
        (r : RefundRow) (rows : List RefundRow) (c : RefundCandidate) (n : ℕ)
        → IsProbed rows r
        → total_of ref id rows ≤ paid
        → pick_refund_candidate
            (find_refund_candidates (claim_rows rows) (staged r.probe) (journals r.probe) r.probe)
          ≡ (some c, n)
        → 60 < n
        → total_of ref id (propose r.fold_uuid c.ref rows) ≤ paid
    proposed_within r rows c n probed within e more =
        let cands =
          find_refund_candidates (claim_rows rows) (staged r.probe) (journals r.probe) r.probe in
        let claims = refund_claims r.probe.fold_uuid (claim_rows rows) in
        let found =
          pick_refund_candidate-IsSureMatch (λ x. IsOffered claims r.probe x × IsPlain x) cands c n
            (All-both (IsOffered claims r.probe) IsPlain cands
              (find_refund_candidates-IsOffered (claim_rows rows) (staged r.probe)
                (journals r.probe) r.probe)
              (find_refund_candidates-All IsPlain IsPlain-fill (claim_rows rows) (staged r.probe)
                (journals r.probe) r.probe (plain_staged r.probe) (plain_journals r.probe)))
            e more in
        elim (Bool-cases (refers_to ref id c.ref)) [
          | inr other ↦ rw (total-propose_other r.fold_uuid c.ref ref id rows other) within
          | inl same ↦
              let (equal, journal, small) = found.0.1.1 same in
              let free : claims_on claims c.ref c.journal_id + r.probe.amount_paise
                  ≤ c.amount_paise =
                ground (arith, found.0) in
              let free_here : claims_on (refund_claims r.fold_uuid (claim_rows rows)) ref id
                    + r.probe.amount_paise
                  ≤ paid =
                rw (← equal, ← journal, ← probed.1) (omega (arith, free, small)) in
              ground (
                arith,
                free_here,
                total-le-claims r.fold_uuid ref id (propose r.fold_uuid c.ref rows),
                claims-propose r.fold_uuid c.ref ref rows,
                claims-propose r.fold_uuid c.ref (journal_ref id) rows,
                amount-propose r.fold_uuid r.fold_uuid c.ref rows,
                probed.0,
              )
        ]

    picked_within :
        (r : RefundRow) (rows : List RefundRow) (o : Option RefundCandidate × ℕ)
        → IsProbed rows r
        → total_of ref id rows ≤ paid
        → pick_refund_candidate
            (find_refund_candidates (claim_rows rows) (staged r.probe) (journals r.probe) r.probe)
          ≡ o
        → total_of ref id (propose_pick threshold r.fold_uuid o rows) ≤ paid
    unfolding propose_pick
    picked_within r rows (none, n) probed within e = within
    picked_within r rows (some c, n) probed within e = elim (Bool-cases (ltb n threshold)) [
      | inl low ↦ rw low within
      | inr high ↦ rw high (proposed_within r rows c n probed within e (ground (arith, sure, high)))
    ]

    match_each_within :
        (selected rows : List RefundRow)
        → All (IsProbed rows) selected
        → total_of ref id rows ≤ paid
        → total_of ref id (match_each threshold staged journals selected rows) ≤ paid
    unfolding match_each match_row
    match_each_within [] rows h within = within
    match_each_within (r ∷ selected) rows h within =
        let o =
          pick_refund_candidate (
            find_refund_candidates (claim_rows rows) (staged r.probe) (journals r.probe) r.probe) in
        match_each_within selected (match_row threshold staged journals r rows)
          (IsProbed-propose_pick threshold r.fold_uuid o rows selected h.1)
          (picked_within r rows o h.0 within refl)

    -- MatchRefunds never has a purchase refunded for more than was paid: if what the rows claim of it
    -- under its reference and that of its journal is together at most that before, it is at most that
    -- afterwards, whatever rows are waiting; where the threshold is above 0.6, Fold groups no purchase
    -- on offer with a refund, what is on offer under either reference is the purchase, with its
    -- journal and for at most that amount, and ids and probes are those of the rows.
    pub match_refunds_within :
        (rows : List RefundRow)
        → IsKeyed rows
        → total_of ref id rows ≤ paid
        → total_of ref id (match_refunds threshold staged journals rows) ≤ paid
    unfolding match_refunds
    match_refunds_within rows keyed within =
        match_each_within (select_unmatched rows) rows
          (selected-All (IsProbed rows) rows (keyed_probes rows keyed)) within
