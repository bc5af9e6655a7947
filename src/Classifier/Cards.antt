-- ===== src/Classifier/Cards.antt =====
-- internal/integration/classifier/source.go: which of the user's accounts in Firefly is the card or
-- account that Fold saw. The masked digits are cut by a regular expression, which is a parameter.
pub mod Match
pub mod Only
use texas_fold_em.Common.{
  ℕ, suc, ◌+◌, ◌*◌, Bool, true, false, not, ◌&&◌, ◌||◌, Option, none, some, List, [], ◌∷◌, ◌++◌,
  map, ltb, leb, ◌==◌, if◌then◌else◌, length,
}
use texas_fold_em.Common.Text.{Str, str, str_eq, is_empty, to_lower, has_prefix}
use texas_fold_em.FoldSync.Merchant.{fields, join}
use mathlib.Core.List.{reverse}

pub record FireflyAsset : Type 0 where
  pub id : ℕ
  pub name : Str
  pub account_number : Str
  pub role : Str

pub record FoldAccountRef : Type 0 where
  pub id : Str
  pub kind : Str
  pub name : Str
  pub provider : Str
  pub network : Str
  pub last_four : Str
  pub is_closed : Bool

is_digit : ℕ → Bool
is_digit c = leb b'0' c && leb c b'9'

unfoldable pub keep_if : {A : Type 0} → (A → Bool) → List A → List A
keep_if p [] = []
keep_if p (x ∷ l) = let rest = keep_if p l in if p x then x ∷ rest else rest

unfoldable pub digits_only : Str → Str
unfolding is_digit keep_if
digits_only = keep_if is_digit

-- strings.HasSuffix.
pub has_suffix : Str → Str → Bool
has_suffix s t = has_prefix (reverse s) (reverse t)

-- A text that is in the list.
unfoldable pub is_in : Str → List Str → Bool
is_in t [] = false
is_in t (u ∷ l) = str_eq t u || is_in t l

-- nonAlnumRe, whose runs become one space when the fields are joined again.
blank_other : ℕ → ℕ
unfolding is_digit
blank_other c = if is_digit c || (leb b'a' c && leb c b'z') then c else b' '

account_stopwords : List Str
account_stopwords = map str (
    "bank" ∷ "credit" ∷ "card" ∷ "cards" ∷ "the" ∷ "a" ∷ "an" ∷ "account" ∷ "accounts" ∷ "savings"
    ∷ "saving" ∷ "plus" ∷ "prime" ∷ "fixed" ∷ "deposit" ∷ "deposits" ∷ "fund" ∷ "funds" ∷ "ltd"
    ∷ "limited" ∷ "co" ∷ "corp" ∷ "india" ∷ "indian" ∷ "of" ∷ "and" ∷ "debit" ∷ "wallet" ∷ "us"
    ∷ "visa" ∷ "rupay" ∷ "mastercard" ∷ "master" ∷ "amex" ∷ "maestro" ∷ "discover" ∷ "diners"
    ∷ "dinersclub" ∷ [])

-- A set without repetition.
distinct : List Str → List Str
unfolding is_in
distinct [] = []
distinct (t ∷ l) = let rest = distinct l in if is_in t rest then rest else t ∷ rest

is_distinctive : Str → Bool
unfolding account_stopwords is_in digits_only
is_distinctive t = not (is_in t account_stopwords) && not (str_eq (digits_only t) t)

unfoldable pub overlap_count : List Str → List Str → ℕ
unfolding is_in
overlap_count [] b = 0
overlap_count (t ∷ a) b = let n = overlap_count a b in if is_in t b then suc n else n

-- What a single hit gives.
single_hit : List FireflyAsset → Option FireflyAsset
single_hit (a ∷ []) = some a
single_hit other = none

-- The state of the loop over the assets: the best score so far, its asset, and whether it is tied.
pub record Best : Type 0 where
  pub score : ℕ
  pub asset : Option FireflyAsset
  pub tie : Bool

unfoldable pub consider : ℕ → FireflyAsset → Best → Best
consider score a b =
    if ltb b.score score
    then record { score = score; asset = some a; tie = false }
    else if score == b.score && ltb 0 score
    then record b { tie = true }
    else b

module _ (cut_mask : Str → Str) where
  -- normalizeAccountName.
  unfoldable pub normalize_account_name : Str → Str
  unfolding blank_other
  normalize_account_name s = join (fields (map blank_other (cut_mask (to_lower s))))

  unfoldable pub token_set : Str → List Str
  unfolding normalize_account_name distinct is_distinctive keep_if
  token_set s = distinct (keep_if is_distinctive (fields (normalize_account_name s)))

  by_last_four : FoldAccountRef → List FireflyAsset → Option FireflyAsset
  unfolding digits_only has_suffix keep_if single_hit
  by_last_four fold assets =
      let four = digits_only fold.last_four in
      if leb 4 (length four)
      then single_hit (keep_if (λ a. has_suffix (digits_only a.account_number) four) assets)
      else none

  by_account_name : FoldAccountRef → List FireflyAsset → Option FireflyAsset
  unfolding normalize_account_name keep_if is_in single_hit
  by_account_name fold assets =
      let keys =
        keep_if (λ k. not (is_empty k))
          (normalize_account_name fold.name ∷ normalize_account_name fold.provider ∷ []) in
      single_hit (keep_if (λ a. is_in (normalize_account_name a.name) keys) assets)

  unfoldable pub best_overlap : List Str → List FireflyAsset → Best → Best
  unfolding consider overlap_count token_set
  best_overlap tokens [] b = b
  best_overlap tokens (a ∷ assets) b =
      best_overlap tokens assets (consider (overlap_count tokens (token_set a.name)) a b)

  unfoldable pub by_tokens : List Str → List FireflyAsset → Option FireflyAsset
  unfolding best_overlap
  by_tokens tokens assets =
      let b = best_overlap tokens assets (record { score = 0; asset = none; tie = false }) in
      if leb 1 b.score && not b.tie && ltb (length tokens) (b.score * 2) then b.asset else none

  -- matchFoldCardToFireflyAsset.
  unfoldable pub match_fold_card : FoldAccountRef → List FireflyAsset → Option FireflyAsset
  unfolding by_last_four by_account_name by_tokens token_set
  match_fold_card fold assets = elim (by_last_four fold assets) [
    | some a ↦ some a
    | none ↦ elim (by_account_name fold assets) [
      | some a ↦ some a
      | none ↦ by_tokens (token_set (fold.name ++ str " " ++ fold.provider)) assets
    ]
  ]
