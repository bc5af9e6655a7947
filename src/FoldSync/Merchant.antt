-- ===== src/FoldSync/Merchant.antt =====
-- internal/integration/fold/extract.go and NormalizeMerchant of internal/integration/sync.go: the
-- merchant that is read off a narration, and the form in which merchants are compared.
pub mod Spaces
use texas_fold_em.Common.{
  ℕ, ◌-◌, ◌≡◌, refl, Bool, true, false, ◌&&◌, ◌||◌, not, List, [], ◌∷◌, ◌++◌, if◌then◌else◌, leb,
  ◌==◌, map,
}
use texas_fold_em.Common.Text.{
  Str, str, str_eq, is_empty, is_space, trim_space, has_prefix, strip_prefix,
}
use texas_fold_em.Fold.{extend_first, split_on}

-- strings.ToUpper at the characters whose upper case is an ASCII letter.
upper : ℕ → ℕ
upper c =
    if leb 97 c && leb c 122
    then c - 32
    else if c == 0x131
    then 73
    else if c == 0x17f
    then 83
    else c

third : List Str → Str
third (a ∷ b ∷ m ∷ rest) = trim_space m
third _ = []

first : List Str → Str
first [] = []
first (m ∷ rest) = trim_space m

-- ExtractMerchant.
unfoldable pub extract_merchant : Str → Str → Str
unfolding upper third first
extract_merchant narration mode =
    let n = trim_space narration in
    let m = map upper (trim_space mode) in
    if is_empty n
    then []
    else if str_eq m (str "CARD")
    then third (split_on b'/' n)
    else if (str_eq m (str "UPI") || str_eq m (str "OTHERS"))
        && (has_prefix n (str "UPI-") || has_prefix n (str "upi-"))
    then first (split_on b'-' (strip_prefix n (str "UPI-")))
    else []

-- strings.Fields: the parts between spaces that are not empty.
split_spaces : Str → List Str
unfolding extend_first
split_spaces [] = [] ∷ []
split_spaces (c ∷ s) =
    let rest = split_spaces s in if is_space c then [] ∷ rest else extend_first c rest

drop_empty : List Str → List Str
drop_empty [] = []
drop_empty (s ∷ l) = let rest = drop_empty l in if is_empty s then rest else s ∷ rest

unfoldable pub fields : Str → List Str
unfolding split_spaces drop_empty
fields s = drop_empty (split_spaces s)

-- strings.Join at a space.
unfoldable pub join : List Str → Str
join [] = []
join (s ∷ []) = s
join (s ∷ t ∷ l) = s ++ (32 ∷ join (t ∷ l))

abbrev without : Str → Str → Str
without prefix s = if has_prefix s prefix then strip_prefix s prefix else s

-- NormalizeMerchant, with strings.ToLower.
unfoldable pub normalize_merchant : (Str → Str) → Str → Str
unfolding fields join
normalize_merchant to_lower s =
    let lowered = trim_space (to_lower s) in
    if is_empty lowered
    then []
    else join
        (fields (without (str "upi-") (without (str "razorpay*") (without (str "raz*") lowered))))
