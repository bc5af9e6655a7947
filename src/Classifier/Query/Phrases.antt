-- ===== src/Classifier/Query/Phrases.antt =====
-- internal/integration/classifier/classifier.go: how the full-text index reads a merchant's query.
use texas_fold_em.Common.{
  ℕ, zero, suc, ◌≡◌, ◌≢◌, refl, false, Option, none, some, List, [], ◌∷◌, ◌++◌, map, ◌==◌,
  if◌then◌else◌, arith, length, Bool-cases, inl, inr, ◌∙◌, ap, sym,
}
use texas_fold_em.Common.Text.{
  Str, is_empty, has_prefix, strip_prefix, has_prefix-append, strip_prefix-append,
}
use texas_fold_em.FoldSync.Merchant.{fields}
use texas_fold_em.Classifier.Query.{build_fts_query, quote_token, double_quotes, join_or, or_text}
use mathlib.Core.List.{append_assoc, append-nil}

-- The query language: a phrase stands between quotes, where a doubled quote means one. `inside` reads
-- on within a phrase, and gives what follows it.
inside : Str → Option (Str × Str)
inside [] = none
inside (c ∷ []) = if c == b'"' then some ([], []) else none
inside (c ∷ d ∷ s) =
    let doubled = inside s in
    let plain = inside (d ∷ s) in
    if c == b'"'
    then (if d == b'"'
        then elim doubled [ none ↦ none | some (t, rest) ↦ some (b'"' ∷ t, rest) ]
        else some ([], d ∷ s))
    else elim plain [ none ↦ none | some (t, rest) ↦ some (c ∷ t, rest) ]

phrase : Str → Option (Str × Str)
unfolding inside
phrase [] = none
phrase (c ∷ s) = if c == b'"' then inside s else none

-- Phrases joined by OR, as many as the number says at most.
pub phrases : ℕ → Str → Option (List Str)
unfolding phrase
phrases zero s = none
phrases (suc n) s = elim (phrase s) [
  | none ↦ none
  | some (t, rest) ↦
      if is_empty rest
      then some (t ∷ [])
      else if has_prefix rest (or_text)
      then elim (phrases n (strip_prefix rest (or_text))) [ none ↦ none | some l ↦ some (t ∷ l) ]
      else none
]

-- The text does not go on with a quote.
abbrev Ends : Str → Type 0
Ends [] = Unit
Ends (c ∷ s) = c ≢ b'"'

inside-plain :
    (c : ℕ) (l t rest : Str)
    → c ≢ b'"'
    → inside l ≡ some (t, rest)
    → inside (c ∷ l) ≡ some (c ∷ t, rest)
unfolding inside
inside-plain c [] t rest n h = cc h
inside-plain c (d ∷ s) t rest n h = ground (arith, h)

inside-double :
    (l t rest : Str) → inside l ≡ some (t, rest) → inside (b'"' ∷ b'"' ∷ l) ≡ some (b'"' ∷ t, rest)
unfolding inside
inside-double l t rest h = rw h refl

inside-end : (rest : Str) → Ends rest → inside (b'"' ∷ rest) ≡ some ([], rest)
unfolding inside
inside-end [] h = refl
inside-end (c ∷ s) h = ground arith

inside-double_quotes :
    (t rest : Str) → Ends rest → inside (double_quotes t ++ b'"' ∷ rest) ≡ some (t, rest)
unfolding double_quotes
inside-double_quotes [] rest h = inside-end rest h
inside-double_quotes (c ∷ t) rest h = elim (Bool-cases (c == b'"')) [
  | inl e ↦
      let same : c ≡ b'"' = ground (arith, e) in
      rw same (inside-double _ t rest (inside-double_quotes t rest h))
  | inr e ↦ rw e (inside-plain c _ t rest (ground (arith, e)) (inside-double_quotes t rest h))
]

phrase-quote_token : (t rest : Str) → Ends rest → phrase (quote_token t ++ rest) ≡ some (t, rest)
unfolding phrase quote_token
phrase-quote_token t rest h =
    ap inside (append_assoc (double_quotes t) (b'"' ∷ []) rest) ∙ inside-double_quotes t rest h

phrases-last : (n : ℕ) (s t : Str) → phrase s ≡ some (t, []) → phrases (suc n) s ≡ some (t ∷ [])
unfolding phrases
phrases-last n s t h = ground (arith, h)

or-Ends : (r : Str) → Ends (or_text ++ r)
unfolding or_text
or-Ends r e = omega arith

or_is_nonempty : (r : Str) → is_empty (or_text ++ r) ≡ false
unfolding or_text
or_is_nonempty r = refl

phrases-next :
    (n : ℕ) (s t r : Str) (l : List Str)
    → phrase s ≡ some (t, or_text ++ r)
    → phrases n r ≡ some l
    → phrases (suc n) s ≡ some (t ∷ l)
unfolding phrases
phrases-next n s t r l h k =
    ground
      (arith, h, k, or_is_nonempty r, has_prefix-append r or_text, strip_prefix-append r or_text)

phrases-join_or :
    (t : Str) (l : List Str)
    → phrases (length (t ∷ l)) (join_or (map quote_token (t ∷ l))) ≡ some (t ∷ l)
unfolding join_or
phrases-join_or t [] =
    phrases-last 0 (quote_token t) t
      (ap phrase (sym (append-nil (quote_token t))) ∙ phrase-quote_token t [] tt)
phrases-join_or t (u ∷ l) =
    phrases-next (length (u ∷ l)) _ t (join_or (map quote_token (u ∷ l))) (u ∷ l)
      (phrase-quote_token t (or_text ++ join_or (map quote_token (u ∷ l))) (or-Ends _))
      (phrases-join_or u l)

-- The query for a merchant reads as its words, one phrase each, whatever characters they hold: none
-- acts as an operator of the query language.
phrases-build_fts_query :
    (merchant t : Str) (l : List Str)
    → fields merchant ≡ t ∷ l
    → phrases (length (fields merchant)) (build_fts_query merchant) ≡ some (fields merchant)
unfolding build_fts_query
phrases-build_fts_query merchant t l e = rw e (phrases-join_or t l)
