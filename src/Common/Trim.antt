-- ===== src/Common/Trim.antt =====
-- Text without space in it is its own trimming.
use texas_fold_em.Common.{◌≡◌, refl, sym, subst, false, [], ◌∷◌, All, All-append, arith}
use texas_fold_em.Common.Text.{Str, is_space, trim_left, trim_space}
use mathlib.Core.List.{reverse, reverse-cons, reverse-reverse}

abbrev pub IsSpaceless : Str → Type 0
IsSpaceless = All (λ c. is_space c ≡ false)

trim_left-IsSpaceless : (s : Str) → IsSpaceless s → trim_left s ≡ s
unfolding trim_left
trim_left-IsSpaceless [] h = refl
trim_left-IsSpaceless (c ∷ s) h = ground arith

pub reverse-IsSpaceless : (s : Str) → IsSpaceless s → IsSpaceless (reverse s)
reverse-IsSpaceless [] h = tt
reverse-IsSpaceless (c ∷ s) h = subst IsSpaceless (sym (reverse-cons c s)) (
    All-append (λ c. is_space c ≡ false) (reverse s) (c ∷ []) (reverse-IsSpaceless s h.1) (h.0, tt))

pub trim_space-IsSpaceless : (s : Str) → IsSpaceless s → trim_space s ≡ s
unfolding trim_space
trim_space-IsSpaceless s h =
    rw (trim_left-IsSpaceless s h, trim_left-IsSpaceless (reverse s) (reverse-IsSpaceless s h))
      (reverse-reverse s)
