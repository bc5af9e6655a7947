-- ===== src/Review/Memo.antt =====
-- internal/integration/ui/sureness.go: `sureMemo`, the ranks that are kept between two pages. Times are
-- numbers; the map is a list with one entry for a row.
pub mod Laws
use texas_fold_em.Common.{
  ℕ, ◌-◌, Bool, true, false, not, ◌||◌, Option, none, some, List, [], ◌∷◌, ltb, ◌==◌, if◌then◌else◌,
}
use texas_fold_em.Common.Text.{Str, str_eq}

pub record KeptRank : Type 0 where
  pub uuid : Str
  pub fp : ℕ
  pub rank : ℕ
  pub at : ℕ

pub record SureMemo : Type 0 where
  pub mirror : Str
  pub ranks : List KeptRank

unfoldable pub kept_rank : Str → List KeptRank → Option KeptRank
kept_rank u [] = none
kept_rank u (k ∷ l) = let rest = kept_rank u l in if str_eq k.uuid u then some k else rest

remove : Str → List KeptRank → List KeptRank
remove u [] = []
remove u (k ∷ l) = let rest = remove u l in if str_eq k.uuid u then rest else k ∷ rest

-- `ttl` is sureMemoTTL, an hour.
unfoldable pub rank : ℕ → SureMemo → Str → ℕ → Str → ℕ → Option ℕ
unfolding kept_rank
rank ttl m u fp mirror now = elim (kept_rank u m.ranks) [
  | none ↦ none
  | some k ↦
      if not (str_eq m.mirror mirror) || not (k.fp == fp) || ltb ttl (now - k.at)
      then none
      else some k.rank
]

unfoldable pub keep : SureMemo → Str → ℕ → Str → ℕ → ℕ → SureMemo
unfolding remove
keep m u fp mirror r now = record {
  mirror = mirror;
  ranks =
      record { uuid = u; fp = fp; rank = r; at = now }
      ∷ (if str_eq m.mirror mirror then remove u m.ranks else []);
}

young : ℕ → ℕ → List KeptRank → List KeptRank
young ttl now [] = []
young ttl now (k ∷ l) =
    let rest = young ttl now l in if ltb ttl (now - k.at) then rest else k ∷ rest

unfoldable pub prune : ℕ → SureMemo → ℕ → SureMemo
unfolding young
prune ttl m now = record m { ranks = young ttl now m.ranks }
