-- ===== src/RefundRef.antt =====
-- internal/integration/refundref/refundref.go: the stored form of which purchase a refund is for.
pub mod RoundTrip
use texas_fold_em.Common.{
  ℕ, ◌^◌, ◌≡◌, refl, Bool, true, false, ◌&&◌, ◌||◌, not, Option, none, some, List, [], ◌∷◌, ◌++◌,
  if◌then◌else◌, ltb, ◌==◌,
}
use texas_fold_em.Common.Text.{Str, str, str_eq, is_empty, trim_space, has_prefix, strip_prefix}
use texas_fold_em.Common.Decimal.{print_nat, parse_nat}

-- What Parse finds; `unrecognised` is its empty kind.
pub data Reference : Type 0 where
  fold : Str → Reference
  journal : ℕ → Reference
  no_purchase : Reference
  unrecognised : Reference

-- The prefixes, and the value for "no purchase to link".
abbrev pub none_text : Str
none_text = str "none"

abbrev pub fold_prefix : Str
fold_prefix = str "fold:"

abbrev pub journal_prefix : Str
journal_prefix = str "journal:"

-- Fold.
unfoldable pub fold_ref : Str → Str
fold_ref uuid = fold_prefix ++ uuid

-- Journal, of an id that is at least 0.
unfoldable pub journal_ref : ℕ → Str
journal_ref id = journal_prefix ++ print_nat id

abbrev in_range : Option ℕ → Option ℕ
in_range none = none
in_range (some n) = if ltb 0 n && ltb n (2 ^ 63) then some n else none

-- strconv.ParseInt(s, 10, 64) where the result is above 0; a minus sign leaves none.
unfoldable pub parse_positive : Str → Option ℕ
parse_positive [] = none
parse_positive (c ∷ s) = if c == b'+' then in_range (parse_nat s) else in_range (parse_nat (c ∷ s))

journal_of : Option ℕ → Reference
journal_of none = unrecognised
journal_of (some id) = journal id

-- Parse, of text with the space around it taken off.
parse_trimmed : Str → Reference
unfolding journal_of
parse_trimmed s =
    if str_eq s none_text
    then no_purchase
    else if has_prefix s fold_prefix && not (is_empty (strip_prefix s fold_prefix))
    then fold (strip_prefix s fold_prefix)
    else if has_prefix s journal_prefix
    then journal_of (parse_positive (strip_prefix s journal_prefix))
    else unrecognised

unfoldable pub parse : Str → Reference
unfolding parse_trimmed
parse s = parse_trimmed (trim_space s)

-- Valid.
unfoldable pub is_valid : Str → Bool
is_valid s = elim (parse s) [ unrecognised ↦ false | _ ↦ true ]
