-- ===== src/Classifier/Cards/Only.antt =====
-- internal/integration/classifier/source.go: the one account that goes by a card.
use texas_fold_em.Common.{
  ◌*◌, ◌≤◌, ◌<◌, ◌≡◌, refl, some, List, [], ◌∷◌, arith, length, All, Bool-cases, inl, inr, ◌⊎◌,
  ◌++◌, not, leb, Option-cases, Bool,
}
use texas_fold_em.Common.Text.{Str, str, is_empty}
use texas_fold_em.Classifier.Cards.{
  FireflyAsset, FoldAccountRef, token_set, by_tokens, keep_if, digits_only, has_suffix, is_in,
  single_hit, normalize_account_name, by_last_four, by_account_name, match_fold_card,
}
use texas_fold_em.Classifier.Cards.Match.{score_of, scoring, by_tokens-IsUnique}

-- The asset is in the list.
abbrev pub Among : List FireflyAsset → FireflyAsset → Type 0
Among [] a = ⊥
Among (q ∷ l) a = (a ≡ q) ⊎ Among l a

weaken_list : (b : FireflyAsset) (k l : List FireflyAsset) → All (Among l) k → All (Among (b ∷ l)) k
weaken_list b [] l h = tt
weaken_list b (q ∷ k) l h = (inr h.0, weaken_list b k l h.1)

each-Among : (l : List FireflyAsset) → All (Among l) l
each-Among [] = tt
each-Among (q ∷ l) = (inl refl, weaken_list q l l (each-Among l))

-- The only asset of the list with a property.
abbrev pub IsOnly : (FireflyAsset → Bool) → List FireflyAsset → FireflyAsset → Type 0
IsOnly p assets a = keep_if p assets ≡ a ∷ []

single_hit-IsOnly : (l : List FireflyAsset) (a : FireflyAsset) → single_hit l ≡ some a → l ≡ a ∷ []
unfolding single_hit
single_hit-IsOnly [] a h = cc h
single_hit-IsOnly (q ∷ []) a h = ground (arith, h)
single_hit-IsOnly (q ∷ r ∷ l) a h = cc h

module _ (cut_mask : Str → Str) (fold : FoldAccountRef) (assets : List FireflyAsset) where
  -- The asset's number ends in the card's last four digits.
  abbrev pub has_digits : FireflyAsset → Bool
  has_digits q = has_suffix (digits_only q.account_number) (digits_only fold.last_four)

  -- The asset has the name of Fold's account or of its provider.
  abbrev pub has_name : FireflyAsset → Bool
  has_name q = is_in (normalize_account_name cut_mask q.name) (
      keep_if (λ k. not (is_empty k))
        (normalize_account_name cut_mask fold.name
          ∷ normalize_account_name cut_mask fold.provider
          ∷ []))

  -- The words of the card.
  abbrev pub words : List Str
  words = token_set cut_mask (fold.name ++ str " " ++ fold.provider)

  -- The one asset with the card's last digits; or the one with its name; or the one that shares the
  -- most of its words, and more than half of them.
  abbrev pub IsCard : FireflyAsset → Type 0
  IsCard a =
      ((4 ≤ length (digits_only fold.last_four)) × IsOnly has_digits assets a)
      ⊎ IsOnly has_name assets a
      ⊎ (Among assets a
          × (length words < score_of cut_mask words a * 2)
          × All (λ q. score_of cut_mask words q ≤ score_of cut_mask words a) assets
          × (scoring cut_mask words (score_of cut_mask words a) assets ≡ 1))

  by_last_four-IsOnly :
      (a : FireflyAsset)
      → by_last_four cut_mask fold assets ≡ some a
      → (4 ≤ length (digits_only fold.last_four)) × IsOnly has_digits assets a
  unfolding by_last_four
  by_last_four-IsOnly a h = elim (Bool-cases (leb 4 (length (digits_only fold.last_four)))) [
    | inl e ↦ (ground (arith, e), single_hit-IsOnly _ a (ground (arith, e, h)))
    | inr e ↦ cc (e, h)
  ]

  by_account_name-IsOnly :
      (a : FireflyAsset) → by_account_name cut_mask fold assets ≡ some a → IsOnly has_name assets a
  unfolding by_account_name
  by_account_name-IsOnly a h = single_hit-IsOnly _ a h

  by_words-IsCard : (a : FireflyAsset) → by_tokens cut_mask words assets ≡ some a → IsCard a
  by_words-IsCard a h =
      let found = by_tokens-IsUnique cut_mask words (Among assets) assets a (each-Among assets) h in
      inr (inr found)

  -- What matchFoldCardToFireflyAsset gives is the one account of the user that goes by the card.
  pub match_fold_card-IsCard :
      (a : FireflyAsset) → match_fold_card cut_mask fold assets ≡ some a → IsCard a
  unfolding match_fold_card
  match_fold_card-IsCard a h = elim (Option-cases (by_last_four cut_mask fold assets)) [
    | inr (b, e) ↦ inl (by_last_four-IsOnly a (ground (arith, e, h)))
    | inl e ↦ elim (Option-cases (by_account_name cut_mask fold assets)) [
      | inr (b, g) ↦ inr (inl (by_account_name-IsOnly a (ground (arith, e, g, h))))
      | inl g ↦ by_words-IsCard a (ground (arith, e, g, h))
    ]
  ]
