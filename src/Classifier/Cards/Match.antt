-- ===== src/Classifier/Cards/Match.antt =====
-- internal/integration/classifier/source.go: the account that a card matches by the words of its name.
use texas_fold_em.Common.{
  ℕ, suc, ◌+◌, ◌*◌, ◌≤◌, ◌<◌, ◌≡◌, refl, true, false, ◌&&◌, none, some, List, [], ◌∷◌, ltb, ◌==◌,
  arith, if◌then◌else◌, length, All, Bool-cases, inl, inr, ◌⊎◌, subst, sym, ap, ◌∙◌,
}
use texas_fold_em.Common.Text.{Str}
use texas_fold_em.Classifier.Cards.{
  FireflyAsset, Best, consider, overlap_count, token_set, best_overlap, by_tokens,
}

lower : (n m : ℕ) → ltb m n ≡ false → (n == m && ltb 0 n) ≡ false → (n < m) ⊎ (n ≡ 0)
lower n m h k = elim (Bool-cases (n == 0)) [
  | inl e ↦ inr (ground (arith, e))
  | inr e ↦ inl (ground (arith, e, h, k))
]

module _ (cut_mask : Str → Str) (tokens : List Str) where
  -- How many of the card's words the account's name shares.
  abbrev pub score_of : FireflyAsset → ℕ
  score_of a = overlap_count tokens (token_set cut_mask a.name)

  -- How many accounts have the score.
  pub scoring : ℕ → List FireflyAsset → ℕ
  scoring n [] = 0
  scoring n (a ∷ assets) = let m = scoring n assets in if score_of a == n then suc m else m

  consider_grows : (n : ℕ) (a : FireflyAsset) (b : Best) → b.score ≤ (consider n a b).score
  unfolding consider
  consider_grows n a b = ground arith

  consider_covers : (n : ℕ) (a : FireflyAsset) (b : Best) → n ≤ (consider n a b).score
  unfolding consider
  consider_covers n a b = ground arith

  -- A higher score replaces, an equal one ties, a lower one or none changes nothing.
  consider_cases :
      (n : ℕ) (a : FireflyAsset) (b : Best)
      → ((b.score < n)
          × ((consider n a b).score ≡ n)
          × ((consider n a b).tie ≡ false)
          × ((consider n a b).asset ≡ some a))
        ⊎ ((n ≡ b.score)
            × (0 < n)
            × ((consider n a b).score ≡ n)
            × ((consider n a b).tie ≡ true)
            × ((consider n a b).asset ≡ b.asset))
        ⊎ (((n < b.score) ⊎ (n ≡ 0)) × (consider n a b ≡ b))
  unfolding consider
  consider_cases n a b = elim (Bool-cases (ltb b.score n)) [
    | inl more ↦ rw more (inl (ground (arith, more), refl, refl, refl))
    | inr other ↦ rw other (elim (Bool-cases (n == b.score && ltb 0 n)) [
      | inl tied ↦
          rw tied (
            inr
              (inl (ground (arith, tied), ground (arith, tied), ground (arith, tied), refl, refl)))
      | inr less ↦ rw less (inr (inr (lower n b.score other less, refl)))
    ])
  ]

  best_grows :
      (assets : List FireflyAsset) (b : Best)
      → b.score ≤ (best_overlap cut_mask tokens assets b).score
  unfolding best_overlap
  best_grows [] b = omega arith
  best_grows (a ∷ assets) b =
      omega (arith, consider_grows (score_of a) a b, best_grows assets (consider (score_of a) a b))

  best_covers :
      (assets : List FireflyAsset) (b : Best)
      → All (λ a. score_of a ≤ (best_overlap cut_mask tokens assets b).score) assets
  unfolding best_overlap
  best_covers [] b = tt
  best_covers (a ∷ assets) b = (
    omega (arith, consider_covers (score_of a) a b, best_grows assets (consider (score_of a) a b)),
    best_covers assets (consider (score_of a) a b),
  )

  -- A tie stays unless a higher score comes.
  tie_stays :
      (assets : List FireflyAsset) (b : Best)
      → b.tie ≡ true
      → (best_overlap cut_mask tokens assets b).tie ≡ false
      → b.score < (best_overlap cut_mask tokens assets b).score
  unfolding best_overlap consider
  tie_stays [] b h k = cc (h, k)
  tie_stays (a ∷ assets) b h k = ground (
    arith,
    best_grows assets (consider (score_of a) a b),
    tie_stays assets (consider (score_of a) a b),
  )

  -- Without a tie, one account has the best score: one of the list, or the one before it.
  untied_is_single :
      (assets : List FireflyAsset) (b : Best)
      → (best_overlap cut_mask tokens assets b).tie ≡ false
      → 0 < (best_overlap cut_mask tokens assets b).score
      → scoring (best_overlap cut_mask tokens assets b).score assets
          + (if b.score == (best_overlap cut_mask tokens assets b).score then 1 else 0)
        ≡ 1
  unfolding best_overlap scoring
  untied_is_single [] b h k = ground arith
  untied_is_single (a ∷ assets) b h k =
      let c = consider (score_of a) a b in
      ground (
        arith,
        consider_cases (score_of a) a b,
        best_grows assets c,
        tie_stays assets c,
        untied_is_single assets c h k,
      )

  asset_kept :
      (q : FireflyAsset) (b : Best) (P : FireflyAsset → Type 0)
      → P q
      → ((a : FireflyAsset) → b.asset ≡ some a → P a × (score_of a ≡ b.score))
      → (a : FireflyAsset) → (consider (score_of q) q b).asset ≡ some a
      → P a × (score_of a ≡ (consider (score_of q) q b).score)
  asset_kept q b P p k a e = elim (consider_cases (score_of q) q b) [
    | inl (more, score, untied, asset) ↦
        let same : q ≡ a = cc (asset, e) in (subst P same p, cc (same, score))
    | inr (inl (equal, positive, score, tied, asset)) ↦
        let old = k a (sym asset ∙ e) in (old.0, cc (old.1, equal, score))
    | inr (inr (low, same)) ↦ rw same (k a (ap (λ (c : Best). c.asset) (sym same) ∙ e))
  ]

  -- The asset kept is one of the list that has the best score.
  best_asset :
      (assets : List FireflyAsset) (b : Best)
      → (P : FireflyAsset → Type 0) → All P assets
      → ((a : FireflyAsset) → b.asset ≡ some a → P a × (score_of a ≡ b.score))
      → (a : FireflyAsset) → (best_overlap cut_mask tokens assets b).asset ≡ some a
      → P a × (score_of a ≡ (best_overlap cut_mask tokens assets b).score)
  unfolding best_overlap
  best_asset [] b P h k a e = k a e
  best_asset (q ∷ assets) b P h k a e =
      best_asset assets (consider (score_of q) q b) P h.1 (asset_kept q b P h.0 k) a e

  -- A match by words is one of the user's accounts; it shares more than half of the card's words, no
  -- account shares more, and none of the others as many.
  pub by_tokens-IsUnique :
      (P : FireflyAsset → Type 0) (assets : List FireflyAsset) (a : FireflyAsset)
      → All P assets
      → by_tokens cut_mask tokens assets ≡ some a
      → P a
        × (length tokens < score_of a * 2)
        × All (λ q. score_of q ≤ score_of a) assets
        × (scoring (score_of a) assets ≡ 1)
  unfolding by_tokens
  by_tokens-IsUnique P assets a h e =
      let start : Best = record { score = 0; asset = none; tie = false } in
      let b = best_overlap cut_mask tokens assets start in
      let positive : 0 < b.score = ground (arith, e) in
      let untied : b.tie ≡ false = ground (arith, e) in
      let most : length tokens < b.score * 2 = ground (arith, e) in
      let asset : b.asset ≡ some a = ground (arith, e) in
      let best = best_asset assets start P h (λ q z. cc z) a asset in
      rw best.1 (
        best.0,
        most,
        best_covers assets start,
        ground (arith, untied_is_single assets start untied positive),
      )
