-- ===== src/Examples/Decks.antt =====
-- internal/integration/ui: the theorems on the cards and the deck at concrete rows.
use texas_fold_em.Common.{
  ℕ, suc, ◌-◌, ◌≤◌, ◌*◌, ◌/◌, ◌+◌, refl, false, none, some, List, [], ◌∷◌, arith, length, ltb,
}
use texas_fold_em.Common.Text.{lower_ascii, str, str_eq, trim_space}
use texas_fold_em.Common.Order.{str_lt}
use texas_fold_em.TxnType.{withdrawal}
use texas_fold_em.Classifier.Decision.{Floats}
use texas_fold_em.Review.Card.{sure, no_reason, ReviewCard}
use texas_fold_em.Review.Card.Sureness.{
  sureness, MirrorAccount, CardRow, sure_facts, is_new_account, has_account, other_kind_of,
}
use texas_fold_em.Review.Card.Bands.{IsEarned, sureness-IsEarned}
use texas_fold_em.Review.Memo.{rank}
use texas_fold_em.Review.Memo.Laws.{Call, keeps, run, WasKept, rank-WasKept}
use texas_fold_em.Review.Deck.{RankedRow, newer, before}
use texas_fold_em.Review.Deck.Order.{InOrder}
use texas_fold_em.Review.Deck.Pages.{walk, walk_visits-All}
use mathlib.Core.List.{Perm}

-- Scores in hundredths.
abbrev pub hundredths : Floats
hundredths = record {
  Real = ℕ;
  zero = 0;
  below = ltb;
  ratio = λ n m. n * 100 / m;
  mean = λ a b. (a + b) / 2;
}

abbrev third_row : RankedRow
third_row = record { rank = 2; ts_str = str "3"; uuid = str "c" }

abbrev second_row : RankedRow
second_row = record { rank = 0; ts_str = str "2"; uuid = str "b" }

abbrev first_row : RankedRow
first_row = record { rank = 0; ts_str = str "1"; uuid = str "a" }

abbrev waiting : List RankedRow
waiting = third_row ∷ second_row ∷ first_row ∷ []

waiting-InOrder : InOrder newer waiting
unfolding newer str_eq str_lt
waiting-InOrder = ((refl, (refl, tt)), ((refl, tt), (tt, tt)))

walk_visits-All_example :
    Perm (walk (suc (length waiting)) waiting [] 2) waiting
    × InOrder before (walk (suc (length waiting)) waiting [] 2)
walk_visits-All_example = walk_visits-All waiting 1 waiting-InOrder (
  (((λ e. omega arith), tt), omega arith),
  ((((λ e. omega arith), tt), omega arith), ((((λ e. omega arith), tt), omega arith), tt)),
)

abbrev lunch : ReviewCard hundredths
lunch = record {
  uuid = str "a";
  type = withdrawal;
  title = str "Lunch";
  hold = [];
  manual = false;
  duplicate = false;
  refund = none;
  why_hold = [];
  blockers = [];
  sure = record { band = sure; why = no_reason; score = some 90 };
}

-- A payee that the mirror has, paid from a linked account.
abbrev lunch_row : CardRow hundredths
lunch_row = record {
  uuid = str "u";
  type = str "OUTGOING";
  ts_str = [];
  source = record { id = some 1; name = [] };
  destination = record { id = none; name = str "Cafe" };
  score = some 90;
  tier = some 1;
  chose_who = none;
}

abbrev mirrored : List MirrorAccount
mirrored = record { name = str "cafe"; type = str "expense" } ∷ []

sureness-IsEarned_example : IsEarned hundredths 85 60 mirrored lunch_row lunch
unfolding sureness sure_facts is_new_account has_account other_kind_of str_eq trim_space lower_ascii
sureness-IsEarned_example = sureness-IsEarned hundredths 85 60 mirrored lunch_row lunch refl

abbrev one_call : List Call
one_call = keeps (str "a") 7 (str "m") 2 100 ∷ []

rank-WasKept_example : (at : ℕ) × WasKept (str "a") 7 (str "m") 2 at one_call × (150 - at ≤ 3600)
unfolding rank run str_eq
rank-WasKept_example = rank-WasKept 3600 one_call (str "a") 7 (str "m") 150 2 refl
