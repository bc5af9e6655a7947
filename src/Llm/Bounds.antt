-- ===== src/Llm/Bounds.antt =====
-- internal/integration/llm/client.go: how many requests a call makes, and how long it waits.
use texas_fold_em.Common.{
  ℕ, zero, suc, ◌+◌, ◌-◌, ◌≤◌, ◌<◌, ◌≡◌, ◌≢◌, refl, sym, ap, Bool, true, false, not, ◌&&◌, Option,
  none, some, inl, inr, ◌⊎◌, arith, ltb, ◌==◌, length, Bool-cases, if_elim,
}
use texas_fold_em.Common.Text.{Str, str, str_eq, str_eq_sound, is_empty}
use texas_fold_em.Llm.Request.{
  Body, CallError, interrupted, no_key, no_prompt, unavailable, Readers, do_once,
  refuses_temperature, is_retryable, retry_after_of,
}
use texas_fold_em.Llm.Breaker.{max_inline_wait, available}
use texas_fold_em.Llm.{
  Config, Round, Moment, Session, Outcome, done, failed, exhausted, unfinished, first_body,
  wants_no_thinking, let_think, after_error, after_reply, after_wait, step, follow, retry,
  max_retries, max_requests, with_settle, generate_json, Next, stop, again, cut_off, sent_once,
  waited,
}

one_if : Bool → ℕ
one_if true = 1
one_if false = 0

-- The requests that may still follow one at this attempt.
budget : ℕ → Body → ℕ
unfolding one_if
budget attempt b =
    max_retries - attempt + one_if b.temperature + one_if (str_eq b.effort (str "none"))

abbrev Follows : ℕ → Body → Next → Type 0
Follows attempt b (stop o) = o ≢ unfinished
Follows attempt b (again next e b') = (next ≤ max_retries) × (budget next b' < budget attempt b)

failed-ne-unfinished : (e : CallError) → failed e ≢ unfinished
failed-ne-unfinished e h = cc

done-ne-unfinished : (text : Str) → done text ≢ unfinished
done-ne-unfinished text h = cc

exhausted-ne-unfinished : (e : CallError) → exhausted e ≢ unfinished
exhausted-ne-unfinished e h = cc

not_none : (s : Str) → s ≢ str "none" → str_eq s (str "none") ≡ false
not_none s h = elim (Bool-cases (str_eq s (str "none"))) [
  | inl e ↦ absurd (h (str_eq_sound s _ e))
  | inr e ↦ e
]

next_less :
    (attempt : ℕ) (b : Body)
    → attempt ≤ max_retries
    → (attempt == max_retries) ≡ false
    → (attempt + 1 ≤ max_retries) × (budget (attempt + 1) b < budget attempt b)
unfolding budget
next_less attempt b h q = ground arith

-- The call ended, with so many requests more at most.
abbrev pub IsBounded : ℕ → Session → Session × Outcome → Type 0
IsBounded n w r = (r.1 ≢ unfinished) × (length r.0.sent ≤ length w.sent + n)

refused-IsBounded : (w : Session) (e : CallError) → IsBounded max_requests w (w, failed e)
refused-IsBounded w e = (failed-ne-unfinished e, omega arith)

with_settle-IsBounded :
    (now n : ℕ) (w : Session) (r : Session × Outcome)
    → IsBounded n w r
    → IsBounded n w (with_settle now r)
unfolding with_settle
with_settle-IsBounded now n w (w', o) h = h

-- What holds of a loop that goes on where it is told to.
pub follow_elim :
    (P : Session × Outcome → Type 0) (Q : Session × Next → Type 0)
    (k : ℕ → CallError → Body → Session → Session × Outcome) (s : Session × Next)
    → Q s
    → ((w : Session) (o : Outcome) → Q (w, stop o) → P (w, o))
    → ((next : ℕ) (e : CallError) (b : Body) (w : Session)
        → Q (w, again next e b)
        → P (k next e b w))
    → P (follow k s)
unfolding follow
follow_elim P Q k (w, stop o) h g l = g w o h
follow_elim P Q k (w, again next e b) h g l = l next e b w h

after_error-sent :
    (c : Config) (attempt : ℕ) (e : CallError) (b : Body) (now : ℕ) (w : Session)
    → (after_error c attempt e b now w).0.sent ≡ w.sent
unfolding after_error
after_error-sent c attempt e b now w = ground arith

after_reply-sent :
    (c : Config) (attempt : ℕ) (b : Body) (now : ℕ) (w : Session) (o : Str ⊎ CallError)
    → (after_reply c attempt b now w o).0.sent ≡ w.sent
unfolding after_reply
after_reply-sent c attempt b now w (inl text) = refl
after_reply-sent c attempt b now w (inr e) = after_error-sent c attempt e b now w

waited-sent :
    (attempt : ℕ) (last : Option CallError) (r : Round) (w : Session)
    → (waited attempt last r w).sent ≡ w.sent
unfolding waited
waited-sent zero last r w = refl
waited-sent (suc n) none r w = refl
waited-sent (suc n) (some e) r w = refl

after_wait-sent :
    (c : Config) (d : Readers) (attempt : ℕ) (b : Body) (r : Round) (w : Session)
    (cut : Option Bool)
    → length (after_wait c d attempt b r w cut).0.sent ≤ suc (length w.sent)
unfolding after_wait
after_wait-sent c d attempt b r w (some canceled) = omega arith
after_wait-sent c d attempt b r w none =
    rw (after_reply-sent c attempt b r.answered_at (sent_once d b r w) (do_once d r.reply).1)
      (unfold sent_once in omega arith)

module _ (c : Config) (d : Readers) (fallback : c.thinking_fallback ≢ str "none") where
  thinking_less :
      (attempt : ℕ) (b : Body) (e : CallError)
      → wants_no_thinking b e ≡ true
      → budget attempt (let_think c b) < budget attempt b
  unfolding budget wants_no_thinking let_think
  thinking_less attempt b e h = ground (arith, not_none c.thinking_fallback fallback)

  temperature_less :
      (attempt : ℕ) (b : Body)
      → b.temperature ≡ true
      → budget attempt (record b { temperature = false }) < budget attempt b
  unfolding budget
  temperature_less attempt b h = ground arith

  after_error-Follows :
      (attempt : ℕ) (e : CallError) (b : Body) (now : ℕ) (w : Session)
      → attempt ≤ max_retries
      → Follows attempt b (after_error c attempt e b now w).1
  unfolding after_error
  after_error-Follows attempt e b now w h =
      let P = λ (r : Session × Next). Follows attempt b r.1 in
      if_elim P (wants_no_thinking b e) (λ q. (h, thinking_less attempt b e q))
        (λ _.
          if_elim P (b.temperature && refuses_temperature e)
            (λ q. (h, temperature_less attempt b (ground arith)))
            (λ _.
              if_elim P (not (is_retryable e)) (λ _. failed-ne-unfinished e)
                (λ _.
                  if_elim P (ltb max_inline_wait (retry_after_of e)) (λ _. failed-ne-unfinished e)
                    (λ _.
                      if_elim P (attempt == max_retries) (λ _. exhausted-ne-unfinished e)
                        (λ q. next_less attempt b h q)))))

  after_reply-Follows :
      (attempt : ℕ) (b : Body) (now : ℕ) (w : Session) (o : Str ⊎ CallError)
      → attempt ≤ max_retries
      → Follows attempt b (after_reply c attempt b now w o).1
  unfolding after_reply
  after_reply-Follows attempt b now w (inl text) h = done-ne-unfinished text
  after_reply-Follows attempt b now w (inr e) h = after_error-Follows attempt e b now w h

  after_wait-Follows :
      (attempt : ℕ) (b : Body) (r : Round) (w : Session) (cut : Option Bool)
      → attempt ≤ max_retries
      → Follows attempt b (after_wait c d attempt b r w cut).1
  unfolding after_wait
  after_wait-Follows attempt b r w (some canceled) h = failed-ne-unfinished (interrupted canceled)
  after_wait-Follows attempt b r w none h =
      after_reply-Follows attempt b r.answered_at _ (do_once d r.reply).1 h

  step-Follows :
      (attempt : ℕ) (last : Option CallError) (b : Body) (r : Round) (w : Session)
      → attempt ≤ max_retries
      → Follows attempt b (step c d attempt last b r w).1
  unfolding step
  step-Follows attempt last b r w h =
      after_wait-Follows attempt b r (waited attempt last r w) (cut_off attempt r) h

  -- One request more at most, and what may follow it.
  abbrev Proceeds : ℕ → Body → Session → Session × Next → Type 0
  Proceeds attempt b w s = Follows attempt b s.1 × (length s.0.sent ≤ suc (length w.sent))

  step-Proceeds :
      (attempt : ℕ) (last : Option CallError) (b : Body) (r : Round) (w : Session)
      → attempt ≤ max_retries
      → Proceeds attempt b w (step c d attempt last b r w)
  unfolding step
  step-Proceeds attempt last b r w h =
      let w' = waited attempt last r w in
      (
        after_wait-Follows attempt b r w' (cut_off attempt r) h,
        rw (ap length (sym (waited-sent attempt last r w)))
            (after_wait-sent c d attempt b r w' (cut_off attempt r)),
      )

  -- The fuel is enough, and so is the budget of requests.
  retry-IsBounded :
      (rounds : ℕ → Round) (f i attempt : ℕ) (last : Option CallError) (b : Body) (w : Session)
      → attempt ≤ max_retries
      → budget attempt b < f
      → IsBounded f w (retry c d rounds f i attempt last b w)
  unfolding retry
  retry-IsBounded rounds zero i attempt last b w h k = elim k [ ]
  retry-IsBounded rounds (suc f) i attempt last b w h k =
      follow_elim (IsBounded (suc f) w) (Proceeds attempt b w)
        (λ next e b' w'. retry c d rounds f (i + 1) next (some e) b' w')
        (step c d attempt last b (rounds i) w) (step-Proceeds attempt last b (rounds i) w h)
        (λ w' o q. (q.0, omega (arith, q.1)))
        (λ next e b' w' q.
          let ih =
            retry-IsBounded rounds f (i + 1) next (some e) b' w' q.0.0 (omega (arith, q.0.1, k)) in
          (ih.0, omega (arith, ih.1, q.1)))

  first-budget :
      (no_temperature must_think : Bool) (system prompt : Str)
      → budget 0 (first_body c no_temperature must_think system prompt) < max_requests
  unfolding budget
  first-budget no_temperature must_think system prompt = ground arith

  -- Where the effort to fall back on is not `none`, a call ends, whatever is answered and whenever
  -- the context ends, and it sends six requests at most.
  pub generate_json-IsBounded :
      (m : Moment) (system prompt : Str) (w : Session)
      → IsBounded max_requests w (generate_json c d m system prompt w)
  unfolding generate_json
  generate_json-IsBounded m system prompt w =
      let P = IsBounded max_requests w in
      let t = m.settled_at in
      if_elim P (not (available m.looked_at w.client)) (λ _. refused-IsBounded w unavailable)
        (λ _.
          if_elim P (is_empty c.api_key)
            (λ _. with_settle-IsBounded t _ w (w, failed no_key) (refused-IsBounded w no_key))
            (λ _.
              if_elim P (is_empty prompt)
                (λ _.
                  with_settle-IsBounded t _ w (w, failed no_prompt) (refused-IsBounded w no_prompt))
                (λ _.
                  with_settle-IsBounded t _ w
                    (retry c d m.round max_requests 0 0 none
                      (first_body c w.client.no_temperature w.client.thinking_required system
                        prompt)
                      w)
                    (retry-IsBounded m.round max_requests 0 0 none _ w (omega arith) (
                      first-budget w.client.no_temperature w.client.thinking_required system
                        prompt)))))
