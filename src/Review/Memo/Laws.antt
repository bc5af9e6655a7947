-- ===== src/Review/Memo/Laws.antt =====
-- internal/integration/ui/sureness.go: what the memo answers was kept for the same row.
use texas_fold_em.Common.{
  ℕ, ◌-◌, ◌≤◌, ◌≡◌, refl, sym, some, List, [], ◌∷◌, ltb, arith, Bool-cases, ◌⊎◌, inl, inr, All,
  Option-cases, subst, ap, ◌∙◌,
}
use texas_fold_em.Common.Text.{Str, str_eq, str_eq_sound}
use texas_fold_em.Review.Memo.{KeptRank, SureMemo, kept_rank, remove, rank, keep, young, prune}

-- What the pages do with the memo.
pub data Call : Type 0 where
  keeps : Str → ℕ → Str → ℕ → ℕ → Call
  prunes : ℕ → Call

abbrev pub no_memo : SureMemo
no_memo = record { mirror = []; ranks = [] }

-- The calls, the latest first.
unfoldable pub run : ℕ → List Call → SureMemo
unfolding keep prune
run ttl [] = no_memo
run ttl (keeps u fp mirror r now ∷ calls) = keep (run ttl calls) u fp mirror r now
run ttl (prunes now ∷ calls) = prune ttl (run ttl calls) now

-- One of the calls kept the rank.
abbrev pub WasKept : Str → ℕ → Str → ℕ → ℕ → List Call → Type 0
WasKept u fp mirror r at [] = ⊥
WasKept u fp mirror r at (c ∷ calls) = (c ≡ keeps u fp mirror r at) ⊎ WasKept u fp mirror r at calls

abbrev IsSourced : Str → List Call → KeptRank → Type 0
IsSourced mirror calls k = WasKept k.uuid k.fp mirror k.rank k.at calls

All-later :
    (mirror : Str) (c : Call) (calls : List Call) (l : List KeptRank)
    → All (IsSourced mirror calls) l
    → All (IsSourced mirror (c ∷ calls)) l
All-later mirror c calls [] h = tt
All-later mirror c calls (k ∷ l) h = (inr h.0, All-later mirror c calls l h.1)

All-remove : (P : KeptRank → Type 0) (u : Str) (l : List KeptRank) → All P l → All P (remove u l)
unfolding remove
All-remove P u [] h = tt
All-remove P u (k ∷ l) h = elim (Bool-cases (str_eq k.uuid u)) [
  | inl e ↦ rw e (All-remove P u l h.1)
  | inr e ↦ rw e (h.0, All-remove P u l h.1)
]

All-young :
    (P : KeptRank → Type 0) (ttl now : ℕ) (l : List KeptRank) → All P l → All P (young ttl now l)
unfolding young
All-young P ttl now [] h = tt
All-young P ttl now (k ∷ l) h = elim (Bool-cases (ltb ttl (now - k.at))) [
  | inl e ↦ rw e (All-young P ttl now l h.1)
  | inr e ↦ rw e (h.0, All-young P ttl now l h.1)
]

sourced :
    (ttl : ℕ) (calls : List Call)
    → All (IsSourced (run ttl calls).mirror calls) (run ttl calls).ranks
unfolding run keep prune
sourced ttl [] = tt
sourced ttl (keeps u fp mirror r now ∷ calls) = (
  inl refl,
  elim (Bool-cases (str_eq (run ttl calls).mirror mirror)) [
    | inl e ↦
        let same = str_eq_sound (run ttl calls).mirror mirror e in
        rw e (
          All-later mirror _ calls _ (
            All-remove (IsSourced mirror calls) u (run ttl calls).ranks
              (rw (← same) (sourced ttl calls))))
    | inr e ↦ rw e tt
  ],
)
sourced ttl (prunes now ∷ calls) =
    All-young _ ttl now (run ttl calls).ranks
      (All-later (run ttl calls).mirror (prunes now) calls _ (sourced ttl calls))

found_in :
    (P : KeptRank → Type 0) (u : Str) (k : KeptRank) (l : List KeptRank)
    → All P l
    → kept_rank u l ≡ some k
    → P k × (k.uuid ≡ u)
unfolding kept_rank
found_in P u k [] h e = cc e
found_in P u k (q ∷ l) h e = elim (Bool-cases (str_eq q.uuid u)) [
  | inl same ↦
      let equal : q ≡ k = ground (arith, same, e) in
      (subst P equal h.0, ap (λ (x : KeptRank). x.uuid) (sym equal) ∙ str_eq_sound q.uuid u same)
  | inr other ↦ found_in P u k l h.1 (ground (arith, other, e))
]

-- A rank that the memo answers, after any calls of keep and prune, was kept by one of them for that
-- row with the same print of its columns and the same print of the accounts, and is no older than the
-- time that a rank lives.
pub rank-WasKept :
    (ttl : ℕ) (calls : List Call) (u : Str) (fp : ℕ) (mirror : Str) (now r : ℕ)
    → rank ttl (run ttl calls) u fp mirror now ≡ some r
    → (at : ℕ) × WasKept u fp mirror r at calls × (now - at ≤ ttl)
unfolding rank
rank-WasKept ttl calls u fp mirror now r h =
    elim (Option-cases (kept_rank u (run ttl calls).ranks)) [
      | inl e ↦ absurd (ground (arith, e, h))
      | inr (k, e) ↦
          let m = (run ttl calls).mirror in
          let (source, same_row) =
            found_in (IsSourced m calls) u k (run ttl calls).ranks (sourced ttl calls) e in
          let same_mirror : m ≡ mirror = ground (arith, e, h, str_eq_sound m mirror) in
          let same_print : k.fp ≡ fp = ground (arith, e, h) in
          let fresh : now - k.at ≤ ttl = ground (arith, e, h) in
          let same_rank : k.rank ≡ r = ground (arith, e, h) in
          (k.at, rw (← same_row, ← same_mirror, ← same_print, ← same_rank) source, fresh)
    ]
