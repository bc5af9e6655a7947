-- ===== src/Classifier/Query.antt =====
-- internal/integration/classifier/classifier.go: the full-text query for a merchant.
pub mod Phrases
use texas_fold_em.Common.{
  ℕ, ◌≡◌, refl, Bool, true, false, Option, none, some, List, [], ◌∷◌, ◌++◌, map, ◌==◌,
  if◌then◌else◌, arith,
}
use texas_fold_em.Common.Text.{Str, str}
use texas_fold_em.FoldSync.Merchant.{fields}

-- strings.ReplaceAll of a quote by two.
unfoldable pub double_quotes : Str → Str
double_quotes [] = []
double_quotes (c ∷ s) =
    let rest = double_quotes s in if c == b'"' then b'"' ∷ b'"' ∷ rest else c ∷ rest

unfoldable pub quote_token : Str → Str
unfolding double_quotes
quote_token t = b'"' ∷ double_quotes t ++ b'"' ∷ []

pub or_text : Str
or_text = str " OR "

-- strings.Join with " OR ".
unfoldable pub join_or : List Str → Str
join_or [] = []
join_or (s ∷ []) = s
join_or (s ∷ t ∷ l) = s ++ (or_text ++ join_or (t ∷ l))

-- buildFTSQuery.
unfoldable pub build_fts_query : Str → Str
unfolding quote_token join_or
build_fts_query merchant = join_or (map quote_token (fields merchant))
