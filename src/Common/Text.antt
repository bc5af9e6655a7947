-- ===== src/Common/Text.antt =====
-- Go strings, as lists of code points, and the functions of package strings that the program uses.
use Prim.Native.Nat.{ℕ, ◌+◌, ◌-◌}
use Prim.Native.Char.{code}
use Prim.Native.String.{String}
use mathlib.Core.Path.{◌≡◌, refl, subst}
use mathlib.Core.Logic.{◌↔◌}
use mathlib.Core.Bool.{Bool, true, false, ◌&&◌, ◌||◌}
use mathlib.Core.List.{List, [], ◌∷◌, ◌++◌, map, reverse}
use native.Mathlib.Omega.{arith}
use texas_fold_em.Common.Tests.{leb, ◌==◌, if◌then◌else◌}

abbrev pub Str : Type 0
Str = List ℕ

-- A literal of the source.
abbrev pub str : String → Str
str String.[] = []
str (String.◌∷◌ c s) = code c ∷ str s

-- `a == b`.
unfoldable pub str_eq : Str → Str → Bool
str_eq [] [] = true
str_eq [] (d ∷ t) = false
str_eq (c ∷ s) [] = false
str_eq (c ∷ s) (d ∷ t) = c == d && str_eq s t

-- `s == ""`.
abbrev pub is_empty : Str → Bool
is_empty [] = true
is_empty (c ∷ s) = false

-- unicode.IsSpace.
unfoldable pub is_space : ℕ → Bool
is_space c =
    (leb 9 c && leb c 13)
    || c == 32
    || c == 0x85
    || c == 0xa0
    || c == 0x1680
    || (leb 0x2000 c && leb c 0x200a)
    || c == 0x2028
    || c == 0x2029
    || c == 0x202f
    || c == 0x205f
    || c == 0x3000

unfoldable pub trim_left : Str → Str
unfolding is_space
trim_left [] = []
trim_left (c ∷ s) = if is_space c then trim_left s else c ∷ s

-- strings.TrimSpace.
unfoldable pub trim_space : Str → Str
unfolding trim_left
trim_space s = reverse (trim_left (reverse (trim_left s)))

-- unicode.ToLower at the characters whose lower case is an ASCII letter; elsewhere no ASCII
-- character comes out, and the program compares the result with ASCII constants only.
unfoldable pub lower : ℕ → ℕ
lower c =
    if leb 65 c && leb c 90
    then c + 32
    else if c == 0x130
    then 105
    else if c == 0x212a
    then 107
    else c

-- strings.ToLower.
unfoldable pub to_lower : Str → Str
unfolding lower
to_lower = map lower

-- strings.ToUpper at the ASCII letters, for codes of currencies.
unfoldable pub to_upper : Str → Str
to_upper = map (λ c. if leb 97 c && leb c 122 then c - 32 else c)

-- LOWER of SQLite, and the folding of strings.EqualFold where one side is an ASCII constant without
-- k and s (only those two letters have a fold outside ASCII).
unfoldable pub lower_ascii : Str → Str
lower_ascii = map (λ c. if leb 65 c && leb c 90 then c + 32 else c)

-- strings.HasPrefix.
unfoldable pub has_prefix : Str → Str → Bool
has_prefix s [] = true
has_prefix [] (d ∷ t) = false
has_prefix (c ∷ s) (d ∷ t) = c == d && has_prefix s t

-- strings.TrimPrefix, where the prefix is there.
unfoldable pub strip_prefix : Str → Str → Str
strip_prefix s [] = s
strip_prefix [] (d ∷ t) = []
strip_prefix (c ∷ s) (d ∷ t) = strip_prefix s t

pub append-strip_prefix : (s t : Str) → has_prefix s t ≡ true → s ≡ t ++ strip_prefix s t
unfolding has_prefix strip_prefix
append-strip_prefix [] [] h = refl
append-strip_prefix (c ∷ s) [] h = refl
append-strip_prefix [] (d ∷ t) h = cc
append-strip_prefix (c ∷ s) (d ∷ t) h = ground (arith, append-strip_prefix s t)

pub has_prefix-append : (s t : Str) → has_prefix (t ++ s) t ≡ true
unfolding has_prefix
has_prefix-append [] [] = refl
has_prefix-append (c ∷ s) [] = refl
has_prefix-append s (d ∷ t) = ground (arith, has_prefix-append s t)

pub strip_prefix-append : (s t : Str) → strip_prefix (t ++ s) t ≡ s
unfolding strip_prefix
strip_prefix-append [] [] = refl
strip_prefix-append (c ∷ s) [] = refl
strip_prefix-append s (d ∷ t) = strip_prefix-append s t

pub str_eq_refl : (s : Str) → str_eq s s ≡ true
unfolding str_eq
str_eq_refl [] = refl
str_eq_refl (c ∷ s) = ground (arith, str_eq_refl s)

pub str_eq_sound : (s t : Str) → str_eq s t ≡ true → s ≡ t
unfolding str_eq
str_eq_sound [] [] h = refl
str_eq_sound [] (d ∷ t) h = cc
str_eq_sound (c ∷ s) [] h = cc
str_eq_sound (c ∷ s) (d ∷ t) h = ground (arith, str_eq_sound s t)

pub str_eq_iff : (s t : Str) → (str_eq s t ≡ true) ↔ (s ≡ t)
str_eq_iff s t = (str_eq_sound s t, λ e. subst (λ x. str_eq s x ≡ true) e (str_eq_refl s))

pub empty_is_nil : (s : Str) → is_empty s ≡ true → s ≡ []
empty_is_nil [] h = refl
empty_is_nil (c ∷ s) h = cc h
