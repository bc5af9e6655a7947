-- ===== src/Llm/Kept.antt =====
-- internal/integration/llm/client.go: what holds of a client after any calls.
use texas_fold_em.Common.{
  ℕ, zero, suc, ◌+◌, ◌≤◌, ◌≡◌, not, Option, none, some, List, [], ◌∷◌, ◌++◌, arith, length, All,
  if_elim,
}
use texas_fold_em.Common.Text.{Str, is_empty}
use texas_fold_em.Llm.Request.{Body, CallStat, CallError, no_key, no_prompt, Readers, do_once}
use texas_fold_em.Llm.Breaker.{
  available, rest, record_call, keep_last, settle, max_rest, kept_calls,
}
use texas_fold_em.Llm.{
  Config, Round, Moment, Session, Outcome, failed, first_body, max_requests, error_of, with_settle,
  generate_json, note_thinking, note_temperature, rest_session, sent_once, waited,
}
use texas_fold_em.Llm.Effects.{Keeps, retry_keeps}
use texas_fold_em.Llm.Resting.{run}

-- A rest ends at most six hours after the latest look at the clock, `t`; at most fifty requests are
-- remembered; and every request is counted, as one that went well or as one that failed.
pub record IsKept (t : ℕ) (w : Session) : Type 0 where
  pub until : w.client.open_until ≤ t + max_rest
  pub recent : length w.client.calls ≤ kept_calls
  pub counted : w.client.ok_count + w.client.fail_count ≡ length w.sent

-- No look at the clock in the call is later than `t`.
abbrev pub IsBy : ℕ → Moment → Type 0
IsBy t m = (m.settled_at ≤ t) × ((i : ℕ) → (m.round i).answered_at ≤ t)

length-keep_last-le : (n : ℕ) (l : List CallStat) → length (keep_last n l) ≤ n
unfolding keep_last
length-keep_last-le n [] = omega arith
length-keep_last-le n (c ∷ l) = ground (arith, length-keep_last-le n l)

rest-IsKept : (t now d : ℕ) (w : Session) → now ≤ t → IsKept t w → IsKept t (rest_session now d w)
unfolding rest_session rest
rest-IsKept t now d w h k = ground arith

sent-IsKept :
    (t : ℕ) (d : Readers) (b : Body) (r : Round) (w : Session)
    → IsKept t w
    → IsKept t (sent_once d b r w)
unfolding sent_once record_call
sent-IsKept t d b r w k =
    ground (arith, length-keep_last-le kept_calls (w.client.calls ++ (do_once d r.reply).0 ∷ []))

waited-IsKept :
    (t attempt : ℕ) (last : Option CallError) (r : Round) (w : Session)
    → IsKept t w
    → IsKept t (waited attempt last r w)
unfolding waited
waited-IsKept t zero last r w k = k
waited-IsKept t (suc n) none r w k = k
waited-IsKept t (suc n) (some e) r w k = ground arith

settle-IsKept :
    (t now : ℕ) (e : Option CallError) (w : Session)
    → now ≤ t
    → IsKept t w
    → IsKept t (record w { client = settle now e w.client })
unfolding settle rest
settle-IsKept t now none w h k = ground arith
settle-IsKept t now (some e) w h k = ground arith

with_settle-IsKept :
    (t now : ℕ) (r : Session × Outcome) → now ≤ t → IsKept t r.0 → IsKept t (with_settle now r).0
unfolding with_settle
with_settle-IsKept t now (w, o) h k = settle-IsKept t now (error_of o) w h k

keeps : (t : ℕ) (d : Readers) (m : Moment) → IsBy t m → Keeps d m.round (IsKept t)
unfolding note_thinking note_temperature
keeps t d m h = record {
  thinks = λ w k. record { until = k.until; recent = k.recent; counted = k.counted };
  temperature = λ w k. record { until = k.until; recent = k.recent; counted = k.counted };
  rests = λ i duration w k. rest-IsKept t (m.round i).answered_at duration w (h.1 i) k;
  sends = λ b i w k. sent-IsKept t d b (m.round i) w k;
  waits = λ attempt last i w k. waited-IsKept t attempt last (m.round i) w k;
}

generate_json-IsKept :
    (c : Config) (d : Readers) (t : ℕ) (m : Moment) (system prompt : Str) (w : Session)
    → IsBy t m
    → IsKept t w
    → IsKept t (generate_json c d m system prompt w).0
unfolding generate_json
generate_json-IsKept c d t m system prompt w h k =
    let P = λ (r : Session × Outcome). IsKept t r.0 in
    let body = first_body c w.client.no_temperature w.client.thinking_required system prompt in
    if_elim P (not (available m.looked_at w.client)) (λ _. k)
      (λ _.
        if_elim P (is_empty c.api_key)
          (λ _. with_settle-IsKept t m.settled_at (w, failed no_key) h.0 k)
          (λ _.
            if_elim P (is_empty prompt)
              (λ _. with_settle-IsKept t m.settled_at (w, failed no_prompt) h.0 k)
              (λ _.
                with_settle-IsKept t m.settled_at _ h.0
                  (retry_keeps c d m.round (keeps t d m h) max_requests 0 0 none body w k))))

-- After any calls none of which looks at the clock later than an instant, no rest lasts for more than
-- six hours from that instant, at most fifty requests are remembered, and every request is counted,
-- if that held before.
pub run-IsKept :
    (c : Config) (d : Readers) (t : ℕ) (calls : List (Moment × Str × Str)) (w : Session)
    → All (λ (k : Moment × Str × Str). IsBy t k.0) calls
    → IsKept t w
    → IsKept t (run c d calls w)
unfolding run
run-IsKept c d t [] w h k = k
run-IsKept c d t ((m, system, prompt) ∷ calls) w h k =
    run-IsKept c d t calls (generate_json c d m system prompt w).0 h.1
      (generate_json-IsKept c d t m system prompt w h.0 k)
