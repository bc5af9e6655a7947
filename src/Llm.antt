-- ===== src/Llm.antt =====
-- internal/integration/llm/client.go: the client of the language model. A call sends a request, and
-- sends it again where the failure is transient or where the model refuses a parameter of it.
pub mod Request
pub mod Breaker
pub mod Bounds
pub mod Effects
pub mod Resting
pub mod Kept
pub mod Waits
use texas_fold_em.Common.{
  ℕ, zero, suc, ◌+◌, Bool, true, false, not, ◌&&◌, ◌||◌, Option, none, some, List, [], ◌∷◌, ◌⊎◌,
  inl, inr, if◌then◌else◌, ltb, ◌==◌,
}
use texas_fold_em.Common.Text.{Str, str, str_eq, is_empty}
use texas_fold_em.Llm.Request.{
  Body, CallError, no_key, no_prompt, unavailable, interrupted, Reply, Readers, do_once,
  refuses_no_thinking, refuses_temperature, is_retryable, retry_after_of, backoff_duration,
}
use texas_fold_em.Llm.Breaker.{Client, available, rest, record_call, settle, max_inline_wait}

abbrev pub max_retries : ℕ
max_retries = 3

-- The fields of Client that calls do not change.
pub record Config : Type 0 where
  pub api_key : Str
  pub max_tokens : ℕ
  pub reasoning_effort : Str
  pub thinking_fallback : Str

-- What one round of a call meets: the random part of its wait, whether the context ends in the wait
-- (and is cancelled), the reply, and the clock when it is there.
pub record Round : Type 0 where
  pub jitter : ℕ
  pub cut : Option Bool
  pub reply : Reply
  pub answered_at : ℕ

-- What a call meets.
pub record Moment : Type 0 where
  pub looked_at : ℕ
  pub round : ℕ → Round
  pub settled_at : ℕ

-- The client, and what its calls did, latest first: the requests and the waits.
pub record Session : Type 0 where
  pub client : Client
  pub sent : List Body
  pub waits : List ℕ

pub data Outcome : Type 0 where
  done : Str → Outcome
  failed : CallError → Outcome
  exhausted : CallError → Outcome
  unfinished : Outcome

-- The parameters of the request, by the configured effort and what the model refused before.
unfoldable pub first_body : Config → Bool → Bool → Str → Str → Body
first_body c no_temperature must_think system prompt =
    let e = c.reasoning_effort in
    let asks_none = str_eq e (str "none") in
    let falls_back = asks_none && must_think && not (is_empty c.thinking_fallback) in
    record {
      temperature = not falls_back && (is_empty e || asks_none) && not no_temperature;
      effort =
          if falls_back then c.thinking_fallback else if asks_none && must_think then [] else e;
      max_tokens = if ltb 0 c.max_tokens then c.max_tokens else 4096;
      system = system;
      prompt = prompt;
    }

wants_no_thinking : Body → CallError → Bool
wants_no_thinking b e = str_eq b.effort (str "none") && refuses_no_thinking e

-- The request after the model refused to have its thinking turned off.
let_think : Config → Body → Body
let_think c b = record b {
  effort = c.thinking_fallback;
  temperature = if is_empty c.thinking_fallback then b.temperature else false;
}

-- The effects of one request.
pub sent_once : Readers → Body → Round → Session → Session
sent_once d body r w = record w {
  client = record_call (do_once d r.reply).0 w.client;
  sent = body ∷ w.sent;
}

pub note_thinking : Session → Session
note_thinking w = record w { client = record w.client { thinking_required = true } }

pub note_temperature : Session → Session
note_temperature w = record w { client = record w.client { no_temperature = true } }

pub rest_session : ℕ → ℕ → Session → Session
rest_session now d w = record w { client = rest now d w.client }

-- The wait before an attempt, none before the first.
pub waited : ℕ → Option CallError → Round → Session → Session
waited zero last r w = w
waited (suc n) none r w = w
waited (suc n) (some e) r w = record w { waits = backoff_duration (suc n) e r.jitter ∷ w.waits }

-- The context ends in a wait.
cut_off : ℕ → Round → Option Bool
cut_off zero r = none
cut_off (suc n) r = r.cut

pub data Next : Type 0 where
  stop : Outcome → Next
  again : ℕ → CallError → Body → Next

-- What follows a failed request.
after_error : Config → ℕ → CallError → Body → ℕ → Session → Session × Next
unfolding wants_no_thinking let_think note_thinking note_temperature rest_session
after_error c attempt e body now w =
    if wants_no_thinking body e
    then (note_thinking w, again attempt e (let_think c body))
    else if body.temperature && refuses_temperature e
    then (note_temperature w, again attempt e (record body { temperature = false }))
    else if not (is_retryable e)
    then (w, stop (failed e))
    else if ltb max_inline_wait (retry_after_of e)
    then (rest_session now (retry_after_of e) w, stop (failed e))
    else if attempt == max_retries
    then (w, stop (exhausted e))
    else (w, again (attempt + 1) e body)

after_reply : Config → ℕ → Body → ℕ → Session → Str ⊎ CallError → Session × Next
unfolding after_error
after_reply c attempt body now w (inl text) = (w, stop (done text))
after_reply c attempt body now w (inr e) = after_error c attempt e body now w

after_wait : Config → Readers → ℕ → Body → Round → Session → Option Bool → Session × Next
unfolding sent_once after_reply
after_wait c d attempt body r w (some canceled) = (w, stop (failed (interrupted canceled)))
after_wait c d attempt body r w none =
    after_reply c attempt body r.answered_at (sent_once d body r w) (do_once d r.reply).1

-- One round of the loop.
step : Config → Readers → ℕ → Option CallError → Body → Round → Session → Session × Next
unfolding after_wait waited cut_off
step c d attempt last body r w =
    after_wait c d attempt body r (waited attempt last r w) (cut_off attempt r)

-- Where the loop goes on.
pub follow :
    (ℕ → CallError → Body → Session → Session × Outcome) → Session × Next → Session × Outcome
follow k (w, stop o) = (w, o)
follow k (w, again next e body) = k next e body w

-- The loop, on fuel: the rounds still allowed.
pub retry :
    Config
    → Readers
    → (ℕ → Round)
    → ℕ
    → ℕ
    → ℕ
    → Option CallError
    → Body
    → Session
    → Session × Outcome
unfolding follow step
retry c d rounds zero i attempt last body w = (w, unfinished)
retry c d rounds (suc f) i attempt last body w =
    follow (λ next e body' w'. retry c d rounds f (i + 1) next (some e) body' w')
      (step c d attempt last body (rounds i) w)

-- Four attempts, and one more request for each parameter that the model can refuse.
abbrev pub max_requests : ℕ
max_requests = 6

pub error_of : Outcome → Option CallError
error_of (done text) = none
error_of (failed e) = some e
error_of (exhausted e) = some e
error_of unfinished = none

with_settle : ℕ → Session × Outcome → Session × Outcome
unfolding error_of
with_settle now (w, o) = (record w { client = settle now (error_of o) w.client }, o)

-- GenerateJSON.
unfoldable pub generate_json : Config → Readers → Moment → Str → Str → Session → Session × Outcome
unfolding retry with_settle first_body
generate_json c d m system prompt w =
    if not (available m.looked_at w.client)
    then (w, failed unavailable)
    else if is_empty c.api_key
    then with_settle m.settled_at (w, failed no_key)
    else if is_empty prompt
    then with_settle m.settled_at (w, failed no_prompt)
    else with_settle m.settled_at (
        retry c d m.round max_requests 0 0 none
          (first_body c w.client.no_temperature w.client.thinking_required system prompt) w)
