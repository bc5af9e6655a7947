-- ===== src/Examples/Refunds.antt =====
-- internal/integration/classifier/refund.go: the theorems on refunds at concrete purchases.
use texas_fold_em.Common.{◌≤◌, ◌≡◌, refl, false, true, none, some, [], ◌∷◌, arith, All}
use texas_fold_em.Common.Text.{str, str_eq, trim_space, has_prefix, strip_prefix}
use texas_fold_em.Common.Decimal.{print_nat, parse_nat}
use texas_fold_em.RefundRef.{journal_ref, fold_ref, parse, parse_positive}
use texas_fold_em.Classifier.Refunds.{RefundCandidate, RefundProbe, pick_refund_candidate}
use texas_fold_em.Classifier.Refunds.Match.{RefundRow, match_refunds, effective_ref}
use texas_fold_em.Classifier.Refunds.Candidates.{
  find_refund_candidates, refund_claims, is_kept, is_purchase, unseen, is_seen,
}
use texas_fold_em.Classifier.Refunds.Picks.{IsSureMatch, pick_refund_candidate-IsSureMatch}
use texas_fold_em.Classifier.Refunds.Claims.{
  IsOffered, find_refund_candidates-IsOffered, journal_claims_count_twice,
}
use texas_fold_em.Classifier.Refunds.Totals.{total_of}
use texas_fold_em.Classifier.Refunds.Loop.{match_refunds_within}

abbrev dinner : RefundCandidate
dinner = record {
  ref = journal_ref 7;
  when = 1000000;
  amount_paise = 1000;
  description = str "Dinner";
  merchant = str "shop";
  status = str "firefly";
  journal_id = 7;
  tags = [];
  exact = true;
  group_match = false;
  claimed = 0;
  days_before = 0;
  fold_account_id = [];
  card_asset_id = 3;
}

abbrev refund_probe : RefundProbe
refund_probe = record {
  fold_uuid = str "r";
  fold_account_id = [];
  card_asset_id = 3;
  merchant = str "shop";
  amount_paise = 400;
  when = 1100000;
  group_id = [];
}

pick_refund_candidate-IsSureMatch_example : Unit {0} × IsSureMatch dinner
unfolding pick_refund_candidate
pick_refund_candidate-IsSureMatch_example =
    pick_refund_candidate-IsSureMatch (λ c. Unit {0}) (dinner ∷ []) dinner 100 (tt, tt) refl
      (omega arith)

find_refund_candidates-IsOffered_example :
    All
      (IsOffered (refund_claims (str "r") []) refund_probe)
      (find_refund_candidates [] [] (dinner ∷ []) refund_probe)
find_refund_candidates-IsOffered_example =
    find_refund_candidates-IsOffered [] [] (dinner ∷ []) refund_probe

-- 400 of 1000 paise are claimed, and a second refund of 400 is not offered the purchase.
journal_claims_count_twice_example : is_kept (λ s. 400) refund_probe dinner ≡ false
journal_claims_count_twice_example =
    journal_claims_count_twice (λ s. 400) refund_probe dinner (λ e. omega arith) refl refl
      (omega arith)

abbrev waiting_refund : RefundRow
waiting_refund = record {
  fold_uuid = str "r";
  is_skipped = false;
  amount_paise = 400;
  confirmed_refund_of = none;
  proposed_refund_of = none;
  is_waiting = true;
  probe = refund_probe;
}

-- The same purchase, as the row of Fold that was pushed.
abbrev staged_dinner : RefundCandidate
staged_dinner = record dinner { ref = fold_ref (str "p") }

-- An earlier refund of it, which names the journal.
abbrev earlier_refund : RefundRow
earlier_refund = record waiting_refund {
  fold_uuid = str "q";
  confirmed_refund_of = some (journal_ref 7);
  probe = record refund_probe { fold_uuid = str "q" };
}

-- 400 of 1000 paise are claimed under the journal, and another refund of 400 is waiting.
match_refunds_within_example :
    total_of (fold_ref (str "p")) 7 (
      match_refunds 85
        (λ p. staged_dinner ∷ [])
        (λ p. dinner ∷ [])
        (earlier_refund ∷ waiting_refund ∷ []))
    ≤ 1000
unfolding total_of is_purchase effective_ref unseen is_seen str_eq journal_ref fold_ref print_nat
    parse trim_space has_prefix parse_positive strip_prefix parse_nat
match_refunds_within_example =
    match_refunds_within 85 (λ p. staged_dinner ∷ []) (λ p. dinner ∷ []) (fold_ref (str "p")) 7 1000
      (λ p. ((refl, λ e. (refl, refl, omega arith)), tt)) (λ p. tt) (omega arith)
      (earlier_refund ∷ waiting_refund ∷ [])
      ((refl, tt), (refl, tt), refl, refl, (tt, tt, refl, refl, tt)) (omega arith)
