-- ===== src/Common/Order.antt =====
-- Texts in the order of their characters, and lists in an order that a Boolean test gives.
use Prim.Native.Nat.{suc}
use mathlib.Core.Bool.{Bool, true, false, ◌&&◌, ◌||◌}
use mathlib.Core.Path.{◌≡◌, refl}
use mathlib.Core.Logic.{inl, inr}
use mathlib.Core.List.{List, [], ◌∷◌, Perm}
use mathlib.Core.List.Perm
use native.Mathlib.Omega.{arith}
use texas_fold_em.Common.Tests.{ltb, ◌==◌, if◌then◌else◌, Bool-cases}
use texas_fold_em.Common.Lists.{All, length}
use texas_fold_em.Common.Text.{Str}

-- `a < b`. UTF-8 keeps the order of the code points.
unfoldable pub str_lt : Str → Str → Bool
str_lt s [] = false
str_lt [] (d ∷ t) = true
str_lt (c ∷ s) (d ∷ t) = ltb c d || (c == d && str_lt s t)

module _ {ℓ} {A : Type ℓ} where
  -- `x` before the first element that comes after it.
  unfoldable pub insert_by : (A → A → Bool) → A → List A → List A
  insert_by before x [] = x ∷ []
  insert_by before x (y ∷ l) =
      let rest = insert_by before x l in if before y x then y ∷ rest else x ∷ y ∷ l

  -- A stable sort, where `before` is a strict order.
  unfoldable pub sort_by : (A → A → Bool) → List A → List A
  unfolding insert_by
  sort_by before [] = []
  sort_by before (x ∷ l) = insert_by before x (sort_by before l)

  if-All {κ} :
      (P : A → Type κ) (l m : List A) (b : Bool) → All P l → All P m → All P (if b then l else m)
  if-All P l m true h k = h
  if-All P l m false h k = k

  insert_by-All {κ} :
      (P : A → Type κ) (before : A → A → Bool) (x : A) (l : List A)
      → P x
      → All P l
      → All P (insert_by before x l)
  unfolding insert_by
  insert_by-All P before x [] p h = (p, tt)
  insert_by-All P before x (y ∷ l) p h =
      if-All P _ _ (before y x) (h.0, insert_by-All P before x l p h.1) (p, h)

  pub sort_by-All {κ} :
      (P : A → Type κ) (before : A → A → Bool) (l : List A) → All P l → All P (sort_by before l)
  unfolding sort_by
  sort_by-All P before [] h = h
  sort_by-All P before (x ∷ l) h =
      insert_by-All P before x (sort_by before l) h.0 (sort_by-All P before l h.1)

  insert_by-perm :
      (before : A → A → Bool) (x : A) (l : List A) → Perm (insert_by before x l) (x ∷ l)
  unfolding insert_by
  insert_by-perm before x [] = Perm.rfl
  insert_by-perm before x (y ∷ l) = elim (Bool-cases (before y x)) [
    | inl e ↦ rw e (Perm.trans (Perm.cons y (insert_by-perm before x l)) (Perm.swap x y l))
    | inr e ↦ rw e Perm.rfl
  ]

  pub sort_by-perm : (before : A → A → Bool) (l : List A) → Perm (sort_by before l) l
  unfolding sort_by
  sort_by-perm before [] = Perm.rfl
  sort_by-perm before (x ∷ l) =
      Perm.trans (insert_by-perm before x (sort_by before l)) (Perm.cons x (sort_by-perm before l))

  length-insert_by :
      (before : A → A → Bool) (x : A) (l : List A) → length (insert_by before x l) ≡ suc (length l)
  unfolding insert_by
  length-insert_by before x [] = refl
  length-insert_by before x (y ∷ l) = elim (Bool-cases (before y x)) [
    | inl e ↦ rw e (omega (arith, length-insert_by before x l))
    | inr e ↦ rw e refl
  ]

  pub length-sort_by : (before : A → A → Bool) (l : List A) → length (sort_by before l) ≡ length l
  unfolding sort_by
  length-sort_by before [] = refl
  length-sort_by before (x ∷ l) =
      omega (arith, length-insert_by before x (sort_by before l), length-sort_by before l)
