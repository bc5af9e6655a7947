-- ===== src/Llm/Request.antt =====
-- internal/integration/llm/client.go: one request to the language model, what comes back, and the
-- errors that the retries tell apart. Durations are in nanoseconds, as those of Go.
use texas_fold_em.Common.{
  ℕ, ◌+◌, ◌-◌, ◌*◌, ◌/◌, ◌%◌, ◌^◌, Bool, true, false, ◌&&◌, ◌||◌, Option, none, some, List, [], ◌∷◌,
  if◌then◌else◌, ltb, leb, ◌==◌, zero, suc, ◌⊎◌, inl, inr,
}
use texas_fold_em.Common.Text.{Str, str, str_eq, is_empty, to_lower, trim_space}
use texas_fold_em.Common.Decimal.{parse_nat}
use texas_fold_em.Review.Card.{contains}

abbrev pub second : ℕ
second = 10 ^ 9

-- Error.
pub record LlmError : Type 0 where
  pub status : ℕ
  pub body : Str
  pub retry_after : ℕ

-- The errors of a call: the gateway's, one of the transport and whether a cancelled context caused
-- it, a reply that is of no use, a context that ended while the call waited (cancelled or not), and
-- what is refused with no request.
pub data CallError : Type 0 where
  api : LlmError → CallError
  transport : Bool → CallError
  bad_reply : CallError
  interrupted : Bool → CallError
  no_key : CallError
  no_prompt : CallError
  unavailable : CallError

pub record Choice : Type 0 where
  pub content : Str
  pub finish_reason : Str

-- chatCompletionResponse.
pub record Completion : Type 0 where
  pub choices : List Choice
  pub prompt_tokens : ℕ
  pub completion_tokens : ℕ

-- What the HTTP client gives: no answer, a body that breaks off, or an answer with its status, its
-- body and its header Retry-After.
pub data Reply : Type 0 where
  no_answer : Bool → Reply
  broken_off : ℕ → Bool → Reply
  answer : ℕ → Str → Str → Reply

-- json.Unmarshal of a completion; and the time until the date that http.ParseTime reads, or 0.
pub record Readers : Type 0 where
  pub completion : Str → Option Completion
  pub until : Str → ℕ

-- chatCompletionRequest, without what is the same in every request.
pub record Body : Type 0 where
  pub temperature : Bool
  pub effort : Str
  pub max_tokens : ℕ
  pub system : Str
  pub prompt : Str

-- CallStat, without its times and its text.
pub record CallStat : Type 0 where
  pub is_ok : Bool
  pub status : ℕ
  pub prompt_tokens : ℕ
  pub completion_tokens : ℕ

-- time.Duration(secs) * time.Second as an int64; the callers treat a product below 0 like 0.
seconds : ℕ → ℕ
seconds n = let d = n * second % 2 ^ 64 in if ltb d (2 ^ 63) then d else 0

without_plus : Str → Str
without_plus [] = []
without_plus (c ∷ s) = if c == b'+' then s else c ∷ s

-- parseRetryAfter; a number of seconds below 0 is no date either.
parse_retry_after : Readers → Str → ℕ
unfolding seconds without_plus
parse_retry_after d header =
    let v = trim_space header in
    if is_empty v then 0 else elim (parse_nat (without_plus v)) [
      | none ↦ d.until v
      | some n ↦ if ltb n (2 ^ 63) then seconds n else d.until v
    ]

abbrev pub Answer : Type 0
Answer = CallStat × (Str ⊎ CallError)

abbrev failed_stat : ℕ → CallStat
failed_stat n = record { is_ok = false; status = n; prompt_tokens = 0; completion_tokens = 0 }

used_stat : ℕ → Completion → Bool → CallStat
used_stat n c b = record {
  is_ok = b;
  status = n;
  prompt_tokens = c.prompt_tokens;
  completion_tokens = c.completion_tokens;
}

choose : ℕ → Completion → Answer
unfolding used_stat
choose n c = elim c.choices [
  | [] ↦ (used_stat n c false, inr bad_reply)
  | x ∷ _ ↦
      if is_empty x.content
      then (used_stat n c false, inr bad_reply)
      else if str_eq x.finish_reason (str "length")
      then (used_stat n c false, inr bad_reply)
      else (used_stat n c true, inl x.content)
]

-- doOnce: what is noted of a request, and its outcome.
unfoldable pub do_once : Readers → Reply → Answer
unfolding choose parse_retry_after
do_once d (no_answer canceled) = (failed_stat 0, inr (transport canceled))
do_once d (broken_off n canceled) = (failed_stat n, inr (transport canceled))
do_once d (answer n body header) =
    if ltb n 200 || leb 300 n
    then (
      failed_stat n,
      inr (api (record { status = n; body = body; retry_after = parse_retry_after d header })),
    )
    else elim (d.completion body) [ none ↦ (failed_stat n, inr bad_reply) | some c ↦ choose n c ]

-- refusesNoThinking.
unfoldable pub refuses_no_thinking : CallError → Bool
refuses_no_thinking (api e) =
    e.status == 400
    && contains (to_lower e.body) (str "thinking")
    && contains (to_lower e.body) (str "disabled")
refuses_no_thinking _ = false

-- refusesTemperature.
unfoldable pub refuses_temperature : CallError → Bool
refuses_temperature (api e) = e.status == 400 && contains (to_lower e.body) (str "temperature")
refuses_temperature _ = false

-- isRetryable.
unfoldable pub is_retryable : CallError → Bool
is_retryable (api e) =
    e.status == 429
    || e.status == 500
    || e.status == 502
    || e.status == 503
    || e.status == 504
    || e.status == 529
is_retryable (transport canceled) = true
is_retryable _ = false

unfoldable pub retry_after_of : CallError → ℕ
retry_after_of (api e) = e.retry_after
retry_after_of _ = 0

-- The factor 3 for each attempt after the first.
unfoldable pub growth : ℕ → ℕ
growth zero = 1
growth (suc n) = 3 * growth n

-- backoffDuration; `jitter` is the random number, taken below half the duration.
unfoldable pub backoff_duration : ℕ → CallError → ℕ → ℕ
unfolding growth retry_after_of
backoff_duration attempt last jitter =
    let d = second * growth (attempt - 1) in
    let capped = if ltb (30 * second) d then 30 * second else d in
    if ltb 0 (retry_after_of last)
    then retry_after_of last
    else capped + jitter % (capped / 2) - capped / 4
