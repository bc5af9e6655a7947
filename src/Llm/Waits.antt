-- ===== src/Llm/Waits.antt =====
-- internal/integration/llm/client.go: how long a call waits between its requests.
use texas_fold_em.Common.{
  ℕ, zero, suc, ◌+◌, ◌-◌, ◌*◌, ◌/◌, ◌%◌, ◌≤◌, ◌≡◌, refl, Bool, true, not, ◌&&◌, Option, none, some,
  inl, inr, ◌⊎◌, arith, ltb, ◌==◌, All, if_elim,
}
use native.Mathlib.Nat.{mod-lt}
use texas_fold_em.Common.Text.{Str, is_empty}
use texas_fold_em.Llm.Request.{
  Body, LlmError, CallError, api, transport, bad_reply, interrupted, no_key, no_prompt, unavailable,
  Readers, do_once, refuses_no_thinking, refuses_temperature, is_retryable, retry_after_of,
  backoff_duration, growth, second,
}
use texas_fold_em.Llm.Breaker.{max_inline_wait, available}
use texas_fold_em.Llm.{
  Config, Round, Moment, Session, Outcome, failed, Next, stop, again, first_body, wants_no_thinking,
  after_error, after_reply, after_wait, step, retry, max_retries, max_requests, with_settle,
  generate_json, cut_off, sent_once, waited,
}
use texas_fold_em.Llm.Bounds.{follow_elim}

abbrev pub IsShort : ℕ → Type 0
IsShort n = n ≤ max_inline_wait

growth-le : (attempt : ℕ) → attempt ≤ max_retries → growth (attempt - 1) ≤ 9
unfolding growth
growth-le zero h = omega arith
growth-le (suc zero) h = omega arith
growth-le (suc (suc zero)) h = omega arith
growth-le (suc (suc (suc zero))) h = omega arith
growth-le (suc (suc (suc (suc n)))) h = absurd (omega arith)

growth-pos : (n : ℕ) → 1 ≤ growth n
unfolding growth
growth-pos zero = omega arith
growth-pos (suc n) = omega (arith, growth-pos n)

jittered : ℕ → ℕ → ℕ
jittered d jitter = d + jitter % (d / 2) - d / 4

-- With the random part a wait is at most five quarters of its duration.
jittered-le : (d jitter : ℕ) → 4 ≤ d → d ≤ 9 * second → jittered d jitter ≤ 12 * second
unfolding jittered
jittered-le d jitter h k = omega (arith, mod-lt jitter {m = d / 2} (omega arith))

backoff-IsShort :
    (attempt : ℕ) (e : CallError) (jitter : ℕ)
    → attempt ≤ max_retries
    → IsShort (retry_after_of e)
    → IsShort (backoff_duration attempt e jitter)
unfolding backoff_duration jittered
backoff-IsShort attempt e jitter h k =
    let g = growth (attempt - 1) in
    ground (arith, growth-le attempt h, growth-pos (attempt - 1), jittered-le (second * g) jitter)

-- The refusals of a parameter ask for no long pause.
abbrev pub IsPrompt : Readers → Round → Type 0
IsPrompt d r =
    (e : LlmError) → (do_once d r.reply).1 ≡ inr (api e) → e.status ≡ 400 → IsShort e.retry_after

-- A 400 with a short pause, or another error.
abbrev IsMild : CallError → Type 0
IsMild (api x) = x.status ≡ 400 → IsShort x.retry_after
IsMild _ = Unit

refusal-IsShort :
    (b : Body) (e : CallError)
    → IsMild e
    → wants_no_thinking b e ≡ true
    → IsShort (retry_after_of e)
unfolding wants_no_thinking refuses_no_thinking retry_after_of
refusal-IsShort b (api x) k h = k (ground arith)
refusal-IsShort b _ k h = omega arith

temperature-IsShort :
    (b : Body) (e : CallError)
    → IsMild e
    → (b.temperature && refuses_temperature e) ≡ true
    → IsShort (retry_after_of e)
unfolding refuses_temperature retry_after_of
temperature-IsShort b (api x) k h = k (ground arith)
temperature-IsShort b _ k h = omega arith

abbrev IsShortAfter : Option CallError → Type 0
IsShortAfter none = Unit
IsShortAfter (some e) = IsShort (retry_after_of e)

waited-IsShort :
    (attempt : ℕ) (last : Option CallError) (r : Round) (w : Session)
    → attempt ≤ max_retries
    → IsShortAfter last
    → All IsShort w.waits
    → All IsShort (waited attempt last r w).waits
unfolding waited
waited-IsShort zero last r w h short a = a
waited-IsShort (suc n) none r w h short a = a
waited-IsShort (suc n) (some e) r w h short a = (backoff-IsShort (suc n) e r.jitter h short, a)

IsPrompt-IsMild :
    (d : Readers) (r : Round)
    → IsPrompt d r
    → (e : CallError) → (do_once d r.reply).1 ≡ inr e
    → IsMild e
IsPrompt-IsMild d r h (api x) q = h x q
IsPrompt-IsMild d r h (transport b) q = tt
IsPrompt-IsMild d r h bad_reply q = tt
IsPrompt-IsMild d r h (interrupted b) q = tt
IsPrompt-IsMild d r h no_key q = tt
IsPrompt-IsMild d r h no_prompt q = tt
IsPrompt-IsMild d r h unavailable q = tt

with_settle-IsShort :
    (now : ℕ) (r : Session × Outcome)
    → All IsShort r.0.waits
    → All IsShort (with_settle now r).0.waits
unfolding with_settle
with_settle-IsShort now (w, o) a = a

-- The next round waits no longer.
abbrev GoesOn : Next → Type 0
GoesOn (stop o) = Unit
GoesOn (again next e b) = (next ≤ max_retries) × IsShort (retry_after_of e)

-- The waits so far are short, and so is the next.
abbrev IsCalm : Session × Next → Type 0
IsCalm s = All IsShort s.0.waits × GoesOn s.1

module _ (c : Config) (d : Readers) where
  after_error-IsCalm :
      (attempt : ℕ) (e : CallError) (b : Body) (now : ℕ) (w : Session)
      → attempt ≤ max_retries
      → IsMild e
      → All IsShort w.waits
      → IsCalm (after_error c attempt e b now w)
  unfolding after_error
  after_error-IsCalm attempt e b now w h mild a =
      if_elim IsCalm (wants_no_thinking b e) (λ q. (a, (h, refusal-IsShort b e mild q)))
        (λ _.
          if_elim IsCalm (b.temperature && refuses_temperature e)
            (λ q. (a, (h, temperature-IsShort b e mild q)))
            (λ _.
              if_elim IsCalm (not (is_retryable e)) (λ _. (a, tt))
                (λ _.
                  if_elim IsCalm (ltb max_inline_wait (retry_after_of e)) (λ _. (a, tt))
                    (λ q.
                      if_elim IsCalm (attempt == max_retries) (λ _. (a, tt))
                        (λ p. (a, (ground arith, ground arith)))))))

  after_reply-IsCalm :
      (attempt : ℕ) (b : Body) (now : ℕ) (w : Session) (o : Str ⊎ CallError)
      → attempt ≤ max_retries
      → ((e : CallError) → o ≡ inr e → IsMild e)
      → All IsShort w.waits
      → IsCalm (after_reply c attempt b now w o)
  unfolding after_reply
  after_reply-IsCalm attempt b now w (inl text) h mild a = (a, tt)
  after_reply-IsCalm attempt b now w (inr e) h mild a =
      after_error-IsCalm attempt e b now w h (mild e refl) a

  after_wait-IsCalm :
      (attempt : ℕ) (b : Body) (r : Round) (w : Session) (cut : Option Bool)
      → attempt ≤ max_retries
      → IsPrompt d r
      → All IsShort w.waits
      → IsCalm (after_wait c d attempt b r w cut)
  unfolding after_wait sent_once
  after_wait-IsCalm attempt b r w (some canceled) h prompt a = (a, tt)
  after_wait-IsCalm attempt b r w none h prompt a =
      after_reply-IsCalm attempt b r.answered_at _ (do_once d r.reply).1 h
        (IsPrompt-IsMild d r prompt) a

  step-IsCalm :
      (attempt : ℕ) (last : Option CallError) (b : Body) (r : Round) (w : Session)
      → attempt ≤ max_retries
      → IsPrompt d r
      → IsShortAfter last
      → All IsShort w.waits
      → IsCalm (step c d attempt last b r w)
  unfolding step
  step-IsCalm attempt last b r w h prompt short a =
      after_wait-IsCalm attempt b r _ (cut_off attempt r) h prompt
        (waited-IsShort attempt last r w h short a)

  retry-IsShort :
      (rounds : ℕ → Round) (f i attempt : ℕ) (last : Option CallError) (b : Body) (w : Session)
      → attempt ≤ max_retries
      → ((n : ℕ) → IsPrompt d (rounds n))
      → IsShortAfter last
      → All IsShort w.waits
      → All IsShort (retry c d rounds f i attempt last b w).0.waits
  unfolding retry
  retry-IsShort rounds zero i attempt last b w h prompt short a = a
  retry-IsShort rounds (suc f) i attempt last b w h prompt short a =
      follow_elim (λ r. All IsShort r.0.waits) IsCalm
        (λ next e b' w'. retry c d rounds f (i + 1) next (some e) b' w')
        (step c d attempt last b (rounds i) w)
        (step-IsCalm attempt last b (rounds i) w h (prompt i) short a) (λ w' o q. q.0)
        (λ next e b' w' q.
          retry-IsShort rounds f (i + 1) next (some e) b' w' q.1.0 prompt q.1.1 q.0)

  -- Where no refusal of a parameter (a 400) asks for a pause of more than half a minute, no call
  -- waits for more than half a minute between two requests, whatever other errors ask for.
  pub generate_json-IsShort :
      (m : Moment) (system prompt : Str) (w : Session)
      → ((n : ℕ) → IsPrompt d (m.round n))
      → All IsShort w.waits
      → All IsShort (generate_json c d m system prompt w).0.waits
  unfolding generate_json
  generate_json-IsShort m system prompt w mild a =
      let P = λ (r : Session × Outcome). All IsShort r.0.waits in
      let body = first_body c w.client.no_temperature w.client.thinking_required system prompt in
      if_elim P (not (available m.looked_at w.client)) (λ _. a)
        (λ _.
          if_elim P (is_empty c.api_key)
            (λ _. with_settle-IsShort m.settled_at (w, failed no_key) a)
            (λ _.
              if_elim P (is_empty prompt)
                (λ _. with_settle-IsShort m.settled_at (w, failed no_prompt) a)
                (λ _.
                  with_settle-IsShort m.settled_at (retry c d m.round max_requests 0 0 none body w)
                    (retry-IsShort m.round max_requests 0 0 none body w (omega arith) mild tt a))))
