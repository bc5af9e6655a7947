-- ===== src/Fold/Errors.antt =====
-- fold.go: which errors the client and the JWT's reader can end in.
use texas_fold_em.Common.{◌≡◌, subst, List, [], ◌∷◌, arith, none, some}
use texas_fold_em.Common.Text.{Str}
use texas_fold_em.Fold.{
  Err, plain, refresh_rejected, deadline_exceeded, canceled, Result, ok, err, root, Decoders,
  subject_of_parts, subject_of_jwt, split_on, Reply, unbuilt, unanswered, unread, answered,
  refresh_tokens,
}

-- An error that no caller asks about.
abbrev pub IsPlain : Err → Type 0
IsPlain (plain t) = Unit
IsPlain _ = ⊥

abbrev PlainOrOk {ℓ} : {A : Type ℓ} → Result A → Type 0
PlainOrOk (ok a) = Unit
PlainOrOk (err e) = IsPlain (root e)

subject_of_parts-PlainOrOk : (d : Decoders) (xs : List Str) → PlainOrOk (subject_of_parts d xs)
unfolding subject_of_parts root
subject_of_parts-PlainOrOk d [] = tt
subject_of_parts-PlainOrOk d (a ∷ []) = tt
subject_of_parts-PlainOrOk d (a ∷ b ∷ []) = tt
subject_of_parts-PlainOrOk d (a ∷ b ∷ c ∷ []) = ground arith
subject_of_parts-PlainOrOk d (a ∷ b ∷ c ∷ x ∷ xs) = tt

pub subject-IsPlain :
    (d : Decoders) (t : Str) (e : Err) → subject_of_jwt d t ≡ err e → IsPlain (root e)
unfolding subject_of_jwt
subject-IsPlain d t e h = subst PlainOrOk h (subject_of_parts-PlainOrOk d (split_on b'.' t))

-- What a failed exchange can be at its root.
abbrev pub IsExchangeError : Err → Type 0
IsExchangeError (plain t) = Unit
IsExchangeError (refresh_rejected c m) = Unit
IsExchangeError deadline_exceeded = Unit
IsExchangeError canceled = Unit
IsExchangeError _ = ⊥

-- An exchange with Fold that fails does so with a rejection, by the end of its context, or with an
-- error that no caller asks about.
pub refresh_tokens-IsExchangeError :
    (r : Reply) (e : Err) → refresh_tokens r ≡ err e → IsExchangeError (root e)
unfolding refresh_tokens root
refresh_tokens-IsExchangeError (unbuilt x) e h = ground arith
refresh_tokens-IsExchangeError (unanswered x) e h = ground arith
refresh_tokens-IsExchangeError (unread x) e h = ground arith
refresh_tokens-IsExchangeError (answered s none) e h = ground arith
refresh_tokens-IsExchangeError (answered s (some v)) e h = ground arith
