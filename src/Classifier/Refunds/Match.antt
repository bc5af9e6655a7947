-- ===== src/Classifier/Refunds/Match.antt =====
-- internal/integration/classifier/refund.go: MatchRefunds, over all refunds that have no purchase.
use texas_fold_em.Common.{
  ℕ, Bool, true, false, ◌&&◌, Option, none, some, List, [], ◌∷◌, ltb, if◌then◌else◌,
}
use texas_fold_em.Common.Text.{Str, str_eq, is_empty}
use texas_fold_em.Classifier.Refunds.{RefundCandidate, RefundProbe, ClaimRow, pick_refund_candidate}
use texas_fold_em.Classifier.Refunds.Candidates.{find_refund_candidates}

-- A row of the loop: its references, what the query selects by besides them, and its probe.
pub record RefundRow : Type 0 where
  pub fold_uuid : Str
  pub is_skipped : Bool
  pub amount_paise : ℕ
  pub confirmed_refund_of : Option Str
  pub proposed_refund_of : Option Str
  pub is_waiting : Bool
  pub probe : RefundProbe

-- effRefSQL.
unfoldable pub effective_ref : RefundRow → Option Str
effective_ref r = elim r.confirmed_refund_of [
  | none ↦ r.proposed_refund_of
  | some s ↦ if is_empty s then r.proposed_refund_of else some s
]

unfoldable pub claim_rows : List RefundRow → List ClaimRow
unfolding effective_ref
claim_rows [] = []
claim_rows (r ∷ rows) =
    record {
      fold_uuid = r.fold_uuid;
      is_skipped = r.is_skipped;
      ref = effective_ref r;
      amount_paise = r.amount_paise;
    }
    ∷ claim_rows rows

unfoldable pub is_unset : Option Str → Bool
is_unset none = true
is_unset (some s) = is_empty s

-- The rows of the query.
unfoldable pub is_unmatched : RefundRow → Bool
unfolding is_unset
is_unmatched r =
    r.is_waiting
    && elim r.proposed_refund_of [ none ↦ true | some s ↦ false ]
    && is_unset r.confirmed_refund_of

-- UPDATE ... SET proposed_refund_of = ? WHERE fold_uuid = ? AND proposed_refund_of IS NULL
unfoldable pub propose : Str → Str → List RefundRow → List RefundRow
propose u ref [] = []
propose u ref (r ∷ rows) =
    (if str_eq r.fold_uuid u && elim r.proposed_refund_of [ none ↦ true | some s ↦ false ]
      then record r { proposed_refund_of = some ref }
      else r)
    ∷ propose u ref rows

unfoldable pub propose_pick : ℕ → Str → Option RefundCandidate × ℕ → List RefundRow → List RefundRow
unfolding propose
propose_pick threshold u (none, confidence) rows = rows
propose_pick threshold u (some c, confidence) rows =
    if ltb confidence threshold then rows else propose u c.ref rows

unfoldable pub select_unmatched : List RefundRow → List RefundRow
unfolding is_unmatched
select_unmatched [] = []
select_unmatched (r ∷ rows) =
    let rest = select_unmatched rows in if is_unmatched r then r ∷ rest else rest

-- `staged` and `journals` are what the two queries select for a probe.
module _ (threshold : ℕ) (staged journals : RefundProbe → List RefundCandidate) where
  -- One row of the loop, by the claims as they are then.
  unfoldable pub match_row : RefundRow → List RefundRow → List RefundRow
  unfolding propose_pick pick_refund_candidate find_refund_candidates claim_rows
  match_row r rows =
      propose_pick threshold r.fold_uuid
        (pick_refund_candidate
          (find_refund_candidates (claim_rows rows) (staged r.probe) (journals r.probe) r.probe))
        rows

  unfoldable pub match_each : List RefundRow → List RefundRow → List RefundRow
  unfolding match_row
  match_each [] rows = rows
  match_each (r ∷ selected) rows = match_each selected (match_row r rows)

  -- MatchRefunds, on rows in the order of their times, where no query fails.
  unfoldable pub match_refunds : List RefundRow → List RefundRow
  unfolding match_each select_unmatched
  match_refunds rows = match_each (select_unmatched rows) rows
