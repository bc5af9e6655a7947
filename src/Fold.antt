-- ===== src/Fold.antt =====
-- fold.go: the errors of the token broker, the JWT's subject, and the client of Fold's
-- /v1/auth/tokens/refresh. What Fold, the network and the JSON and base64 decoders of Go answer
-- comes in as a value: `Reply` and `Decoders`.
pub mod Errors
use texas_fold_em.Common.{
  ℕ, ◌+◌, ◌/◌, ◌≡◌, refl, Bool, true, false, ◌&&◌, ◌||◌, not, Option, none, some, List, [], ◌∷◌,
  ◌++◌, if◌then◌else◌, ◌==◌, ◌⊎◌, inl, inr,
}
use texas_fold_em.Common.Text.{Str, str, is_empty}
use texas_fold_em.Common.Decimal.{print_nat}

-- An error with what it wraps (`fmt.Errorf("…: %w", err)`); `plain` wraps nothing.
pub data Err : Type 0 where
  not_seeded : Err
  bad_input : Err
  refresh_rejected : ℕ → Str → Err
  deadline_exceeded : Err
  canceled : Err
  plain : Str → Err
  wrapped : Str → Err → Err

pub data Result {ℓ} (A : Type ℓ) : Type ℓ where
  ok : A → Result A
  err : Err → Result A

infixl 5 ◌>>=◌
abbrev pub ◌>>=◌ {ℓ κ} : {A : Type ℓ} {B : Type κ} → Result A → (A → Result B) → Result B
ok a >>= f = f a
err e >>= f = err e

pub Result-cases {ℓ} :
    {A : Type ℓ} (r : Result A) → ((a : A) × (r ≡ ok a)) ⊎ ((e : Err) × (r ≡ err e))
Result-cases (ok a) = inl (a, refl)
Result-cases (err e) = inr (e, refl)

-- The error that a chain of wrappers ends in, which errors.Is and errors.As find: only the last
-- error of a chain has an identity that the program asks for.
unfoldable pub root : Err → Err
root (wrapped t e) = root e
root not_seeded = not_seeded
root bad_input = bad_input
root (refresh_rejected c m) = refresh_rejected c m
root deadline_exceeded = deadline_exceeded
root canceled = canceled
root (plain t) = plain t

-- (*ErrRefreshRejected).Error.
unfoldable pub rejection_text : ℕ → Str → Str
rejection_text c m = str "fold rejected refresh token (code=" ++ (print_nat c ++ (str "): " ++ m))

pub record TokenBundle : Type 0 where
  pub access_token : Str
  pub refresh_token : Str
  pub expires_at : ℕ

pub record ApiError : Type 0 where
  pub code : ℕ
  pub message : Str
  pub how_to_fix : Str

-- apiEnvelope; `bundle` is what decoding its `data` as a TokenBundle gives.
pub record ApiEnvelope : Type 0 where
  pub error : Option ApiError
  pub bundle : Option TokenBundle

-- What the network and the context of a request can end it with.
pub data NetError : Type 0 where
  timed_out cut_off : NetError
  broken : Str → NetError

abbrev net_error : NetError → Err
net_error timed_out = deadline_exceeded
net_error cut_off = canceled
net_error (broken t) = plain t

-- What one call of Fold can meet: a request that is not built or not answered, a body that is
-- not read, or an answer with its status and its decoded envelope.
pub data Reply : Type 0 where
  unbuilt : Str → Reply
  unanswered : NetError → Reply
  unread : NetError → Reply
  answered : ℕ → Option ApiEnvelope → Reply

checked_bundle : Option TokenBundle → Result TokenBundle
checked_bundle none = err (plain (str "decode refresh data"))
checked_bundle (some b) =
    if is_empty b.access_token || is_empty b.refresh_token
    then err (plain (str "fold refresh response missing tokens"))
    else ok b

envelope_result : ℕ → Option ApiError → Option TokenBundle → Result TokenBundle
unfolding checked_bundle
envelope_result status (some e) bundle =
    if status == 401
    then err (refresh_rejected e.code e.message)
    else err (plain (str "fold refresh error"))
envelope_result status none bundle =
    if not (status / 100 == 2)
    then err (plain (str "fold refresh non-2xx"))
    else checked_bundle bundle

-- RefreshTokens, from what the call met.
unfoldable pub refresh_tokens : Reply → Result TokenBundle
unfolding envelope_result
refresh_tokens (unbuilt e) = err (wrapped (str "build refresh request") (plain e))
refresh_tokens (unanswered e) = err (wrapped (str "refresh request") (net_error e))
refresh_tokens (unread e) = err (wrapped (str "read refresh response") (net_error e))
refresh_tokens (answered status none) = err (plain (str "decode refresh envelope"))
refresh_tokens (answered status (some env)) = envelope_result status env.error env.bundle

unfoldable pub extend_first : ℕ → List Str → List Str
extend_first c [] = (c ∷ []) ∷ []
extend_first c (x ∷ xs) = (c ∷ x) ∷ xs

-- strings.Split at a separator of one character.
unfoldable pub split_on : ℕ → Str → List Str
unfolding extend_first
split_on d [] = [] ∷ []
split_on d (c ∷ s) = let rest = split_on d s in if c == d then [] ∷ rest else extend_first c rest

-- base64.RawURLEncoding, base64.StdEncoding, and the `sub` of a JSON object (`""` if it has none).
pub record Decoders : Type 0 where
  pub raw_url : Str → Option Str
  pub std : Str → Option Str
  pub sub_claim : Str → Option Str

checked_sub : Option Str → Result Str
checked_sub none = err (plain (str "decode JWT claims"))
checked_sub (some sub) = if is_empty sub then err (plain (str "JWT has no sub claim")) else ok sub

either_payload : Option Str → Option Str → Result Str
either_payload (some p) _ = ok p
either_payload none (some p) = ok p
either_payload none none = err (plain (str "decode JWT payload"))

subject_of_parts : Decoders → List Str → Result Str
unfolding either_payload checked_sub
subject_of_parts d (header ∷ body ∷ signature ∷ []) =
    either_payload (d.raw_url body) (d.std body) >>= λ p. checked_sub (d.sub_claim p)
subject_of_parts d _ = err (plain (str "not a JWT"))

unfoldable pub subject_of_jwt : Decoders → Str → Result Str
unfolding split_on subject_of_parts
subject_of_jwt d token = subject_of_parts d (split_on b'.' token)
