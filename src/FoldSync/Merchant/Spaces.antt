-- ===== src/FoldSync/Merchant/Spaces.antt =====
-- NormalizeMerchant of internal/integration/sync.go: how the words of a merchant stand.
use texas_fold_em.Common.{
  ℕ, ◌≡◌, refl, ap, false, List, [], ◌∷◌, ◌++◌, All, arith, Bool-cases, inl, inr,
}
use texas_fold_em.Common.Text.{Str, str, is_empty, is_space, trim_space}
use texas_fold_em.Common.Trim.{IsSpaceless}
use texas_fold_em.Fold.{extend_first}
use texas_fold_em.FoldSync.Merchant.{
  split_spaces, drop_empty, fields, join, without, normalize_merchant,
}

-- A word has a character, and no space among its characters.
abbrev pub IsWord : Str → Type 0
IsWord s = (is_empty s ≡ false) × IsSpaceless s

abbrev AllSpaceless : List Str → Type 0
AllSpaceless = All IsSpaceless

extend_first-AllSpaceless :
    (c : ℕ) (l : List Str) → is_space c ≡ false → AllSpaceless l → AllSpaceless (extend_first c l)
unfolding extend_first
extend_first-AllSpaceless c [] e h = ((e, tt), tt)
extend_first-AllSpaceless c (s ∷ l) e h = ((e, h.0), h.1)

split_spaces-AllSpaceless : (s : Str) → AllSpaceless (split_spaces s)
unfolding split_spaces
split_spaces-AllSpaceless [] = (tt, tt)
split_spaces-AllSpaceless (c ∷ s) =
    let ih = split_spaces-AllSpaceless s in
    elim (Bool-cases (is_space c)) [
      | inl e ↦ ground (arith, e, ih)
      | inr e ↦
          let more = extend_first-AllSpaceless c (split_spaces s) e ih in ground (arith, e, more)
    ]

drop_empty-words : (l : List Str) → AllSpaceless l → All IsWord (drop_empty l)
unfolding drop_empty
drop_empty-words [] h = tt
drop_empty-words (s ∷ l) h =
    let ih = drop_empty-words l h.1 in
    let spaceless = h.0 in
    elim (Bool-cases (is_empty s)) [
      | inl e ↦ ground (arith, e, ih)
      | inr e ↦ ground (arith, e, ih, spaceless)
    ]

split_spaces-word :
    (s : Str) → IsSpaceless s → (t : Str) → split_spaces (s ++ (32 ∷ t)) ≡ s ∷ split_spaces t
unfolding split_spaces extend_first is_space
split_spaces-word [] h t = refl
split_spaces-word (c ∷ s) h t = rw (h.0, split_spaces-word s h.1 t) refl

split_spaces-last : (s : Str) → IsSpaceless s → split_spaces s ≡ s ∷ []
unfolding split_spaces extend_first
split_spaces-last [] h = refl
split_spaces-last (c ∷ s) h = rw (h.0, split_spaces-last s h.1) refl

fields-join : (l : List Str) → All IsWord l → fields (join l) ≡ l
unfolding fields join drop_empty split_spaces
fields-join [] h = refl
fields-join (s ∷ []) h = rw (split_spaces-last s h.0.1, h.0.0) refl
fields-join (s ∷ t ∷ l) h =
    rw (split_spaces-word s h.0.1 (join (t ∷ l)), h.0.0) (ap (λ x. s ∷ x) (fields-join (t ∷ l) h.1))

pub fields-words : (s : Str) → All IsWord (fields s)
unfolding fields
fields-words s = drop_empty-words (split_spaces s) (split_spaces-AllSpaceless s)

join-fields-join : (s : Str) → join (fields (join (fields s))) ≡ join (fields s)
join-fields-join s = ap join (fields-join (fields s) (fields-words s))

-- A normalized merchant is its words with one space between each two of them, and no space before
-- the first word or after the last, whatever strings.ToLower does.
join-fields-normalize_merchant :
    (to_lower : Str → Str) (s : Str)
    → join (fields (normalize_merchant to_lower s)) ≡ normalize_merchant to_lower s
unfolding normalize_merchant fields join
join-fields-normalize_merchant to_lower s = elim (Bool-cases (is_empty (trim_space (to_lower s)))) [
  | inl e ↦ ground (arith, e)
  | inr e ↦
      let collapsed = join-fields-join (
        without (str "upi-")
          (without (str "razorpay*") (without (str "raz*") (trim_space (to_lower s))))) in
      ground (arith, e, collapsed)
]
