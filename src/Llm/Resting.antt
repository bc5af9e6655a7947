-- ===== src/Llm/Resting.antt =====
-- internal/integration/llm/client.go: the client rests after failures.
use texas_fold_em.Common.{
  ℕ, zero, suc, ◌+◌, ◌*◌, ◌≤◌, ◌<◌, ◌≡◌, ◌⊎◌, refl, sym, ap, ◌∙◌, subst, true, false, not, Option,
  none, some, List, [], ◌∷◌, inl, inr, arith, if◌then◌else◌, All, if_elim, ◌-◌, ltb,
}
use texas_fold_em.Common.Text.{Str, is_empty}
use texas_fold_em.Llm.Request.{
  Body, CallStat, CallError, no_key, no_prompt, unavailable, Readers, do_once,
}
use texas_fold_em.Llm.Breaker.{
  Client, available, rest, record_call, settle, refuses_key, is_no_failure, streak_rest, minute,
  hour, max_rest,
}
use texas_fold_em.Llm.{
  Config, Round, Moment, Session, Outcome, failed, first_body, retry, max_requests, error_of,
  with_settle, generate_json, note_thinking, note_temperature, rest_session, sent_once, waited,
}
use texas_fold_em.Llm.Effects.{Keeps, retry_keeps}

-- Calls, one after another.
unfoldable pub run : Config → Readers → List (Moment × Str × Str) → Session → Session
run c d [] w = w
run c d ((m, system, prompt) ∷ calls) w = run c d calls (generate_json c d m system prompt w).0

-- Two minutes, and twice as long each time, up to an hour.
unfoldable pub lengthening : ℕ → ℕ
lengthening zero = 2 * minute
lengthening (suc n) =
    let shorter = lengthening n in if ltb hour (2 * shorter) then hour else 2 * shorter

-- How long the client rests for an error, after so many failures in a row before it, which are at
-- least two where the key is not refused.
abbrev pub pause : ℕ → CallError → ℕ
pause streak e = if refuses_key e then 15 * minute else lengthening (streak - 2)

-- While the client rests, no call does anything.
quiet :
    (c : Config) (d : Readers) (calls : List (Moment × Str × Str)) (w : Session)
    → All (λ (k : Moment × Str × Str). k.0.looked_at < w.client.open_until) calls
    → run c d calls w ≡ w
unfolding run generate_json
quiet c d [] w h = refl
quiet c d ((m, system, prompt) ∷ calls) w h =
    let resting : not (available m.looked_at w.client) ≡ true = ground (arith, h.0) in
    rw (resting, quiet c d calls w h.1) refl

streak_rest-le : (n : ℕ) → streak_rest n ≤ hour
unfolding streak_rest
streak_rest-le n = ground arith

-- The sixth of them is the longest.
lengthening-hour : (n : ℕ) → lengthening (suc (suc (suc (suc (suc n))))) ≡ hour
unfolding lengthening
lengthening-hour zero = refl
lengthening-hour (suc n) = ground (arith, lengthening-hour n)

capped : (n : ℕ) → 5 ≤ n → streak_rest (n + 3) ≡ hour
unfolding streak_rest
capped n h =
    let k : (if ltb 6 (n + 3 - 2) then 6 else n + 3 - 2) ≡ 6 = ground (arith, h) in rw k refl

-- The rests of the code are those.
streak_rest-lengthening : (n : ℕ) → streak_rest (n + 3) ≡ lengthening n
unfolding streak_rest lengthening
streak_rest-lengthening zero = refl
streak_rest-lengthening (suc zero) = refl
streak_rest-lengthening (suc (suc zero)) = refl
streak_rest-lengthening (suc (suc (suc zero))) = refl
streak_rest-lengthening (suc (suc (suc (suc zero)))) = refl
streak_rest-lengthening (suc (suc (suc (suc (suc n))))) =
    capped (suc (suc (suc (suc (suc n))))) (omega arith) ∙ sym (lengthening-hour n)

streak_rest-third : (streak : ℕ) → 2 ≤ streak → streak_rest (streak + 1) ≡ lengthening (streak - 2)
streak_rest-third streak h =
    let same : streak + 1 ≡ streak - 2 + 3 = omega (arith, h) in
    rw same (streak_rest-lengthening (streak - 2))

rest-le : (now d : ℕ) (b : Client) → d ≤ max_rest → now + d ≤ (rest now d b).open_until
unfolding rest
rest-le now d b h = ground arith

settle-Rests :
    (now : ℕ) (e : CallError) (b : Client)
    → is_no_failure e ≡ false
    → (refuses_key e ≡ true) ⊎ (2 ≤ b.fail_streak)
    → now + pause b.fail_streak e ≤ (settle now (some e) b).open_until
unfolding settle
settle-Rests now e b h (inl key) =
    rw (h, key)
      (rest-le now (15 * minute) (record b { fail_streak = b.fail_streak + 1 }) (omega arith))
settle-Rests now e b h (inr third) =
    let failed_once = record b { fail_streak = b.fail_streak + 1 } in
    let long = rest-le now (streak_rest (b.fail_streak + 1)) failed_once in
    ground (
      arith,
      h,
      third,
      streak_rest-third b.fail_streak third,
      long,
      streak_rest-le (b.fail_streak + 1),
      rest-le now (15 * minute) failed_once,
    )

-- The requests of a call leave the count of failed calls alone.
rest-streak : (now d : ℕ) (b : Client) → (rest now d b).fail_streak ≡ b.fail_streak
unfolding rest
rest-streak now d b = ground arith

record_call-streak : (s : CallStat) (b : Client) → (record_call s b).fail_streak ≡ b.fail_streak
unfolding record_call
record_call-streak s b = refl

waited-client :
    (attempt : ℕ) (last : Option CallError) (r : Round) (w : Session)
    → (waited attempt last r w).client ≡ w.client
unfolding waited
waited-client zero last r w = refl
waited-client (suc n) none r w = refl
waited-client (suc n) (some e) r w = refl

retry-streak :
    (c : Config) (d : Readers) (rounds : ℕ → Round) (b : Body) (w : Session)
    → (retry c d rounds max_requests 0 0 none b w).0.client.fail_streak ≡ w.client.fail_streak
unfolding note_thinking note_temperature rest_session sent_once
retry-streak c d rounds b w =
    let keeps : Keeps d rounds (λ v. v.client.fail_streak ≡ w.client.fail_streak) = record {
      thinks = λ v h. h;
      temperature = λ v h. h;
      rests = λ i duration v h. rest-streak (rounds i).answered_at duration v.client ∙ h;
      sends = λ b' i v h. record_call-streak (do_once d (rounds i).reply).0 v.client ∙ h;
      waits = λ attempt last i v h.
          ap (λ (x : Client). x.fail_streak) (waited-client attempt last (rounds i) v) ∙ h;
    } in
    retry_keeps c d rounds keeps max_requests 0 0 none b w refl

-- The pause that follows a call.
Paused : ℕ → ℕ → CallError → Session → Type 0
Paused now streak e w = now + pause streak e ≤ w.client.open_until

with_settle-Paused :
    (now streak : ℕ) (e : CallError) (r : Session × Outcome)
    → r.0.client.fail_streak ≡ streak
    → error_of r.1 ≡ some e
    → is_no_failure e ≡ false
    → (refuses_key e ≡ true) ⊎ (2 ≤ streak)
    → Paused now streak e (with_settle now r).0
unfolding with_settle Paused
with_settle-Paused now streak e (w, o) s f h k =
    rw (f, ← s)
      (settle-Rests now e w.client h (subst (λ n. (refuses_key e ≡ true) ⊎ (2 ≤ n)) (sym s) k))

All-weaken :
    (calls : List (Moment × Str × Str)) {n k : ℕ}
    → n ≤ k
    → All (λ (x : Moment × Str × Str). x.0.looked_at < n) calls
    → All (λ (x : Moment × Str × Str). x.0.looked_at < k) calls
All-weaken [] h a = tt
All-weaken (x ∷ calls) h a = (omega (arith, a.0), All-weaken calls h a.1)

-- What holds of every result but that of a client that rests.
unavailable_fails : (e : CallError) → some unavailable ≡ some e → is_no_failure e ≡ false → ⊥
unfolding is_no_failure
unavailable_fails e f h = ground arith

error_of-with_settle :
    (now : ℕ) (r : Session × Outcome) → error_of (with_settle now r).1 ≡ error_of r.1
unfolding with_settle
error_of-with_settle now (w, o) = refl

generate-Paused :
    (c : Config) (d : Readers) (m : Moment) (system prompt : Str) (w : Session) (e : CallError)
    → error_of (generate_json c d m system prompt w).1 ≡ some e
    → is_no_failure e ≡ false
    → (refuses_key e ≡ true) ⊎ (2 ≤ w.client.fail_streak)
    → Paused m.settled_at w.client.fail_streak e (generate_json c d m system prompt w).0
unfolding generate_json
generate-Paused c d m system prompt w e f h k =
    let t = m.settled_at in
    let P =
      λ (r : Session × Outcome). error_of r.1 ≡ some e → Paused t w.client.fail_streak e r.0 in
    let body = first_body c w.client.no_temperature w.client.thinking_required system prompt in
    let r = retry c d m.round max_requests 0 0 none body w in
    if_elim P (not (available m.looked_at w.client)) (λ _ q. absurd (unavailable_fails e q h))
      (λ _.
        if_elim P (is_empty c.api_key)
          (λ _ q. with_settle-Paused t _ e (w, failed no_key) refl q h k)
          (λ _.
            if_elim P (is_empty prompt)
              (λ _ q. with_settle-Paused t _ e (w, failed no_prompt) refl q h k)
              (λ _ q.
                with_settle-Paused t w.client.fail_streak e r (retry-streak c d m.round body w)
                  (sym (error_of-with_settle t r) ∙ q) h k)))
      f

-- After a call that failed, for a refused key or as the third in a row, though not by cancellation,
-- the client rests: for a quarter of an hour after a refused key, else for two minutes after the
-- third failure and twice as long after each further one, up to an hour. While it does, no call sends
-- a request or changes anything.
pub failed_call_rests :
    (c : Config) (d : Readers) (m : Moment) (system prompt : Str) (w : Session) (e : CallError)
    (calls : List (Moment × Str × Str))
    → error_of (generate_json c d m system prompt w).1 ≡ some e
    → is_no_failure e ≡ false
    → (refuses_key e ≡ true) ⊎ (2 ≤ w.client.fail_streak)
    → All
        (λ (k : Moment × Str × Str). k.0.looked_at < m.settled_at + pause w.client.fail_streak e)
        calls
    → run c d calls (generate_json c d m system prompt w).0
      ≡ (generate_json c d m system prompt w).0
unfolding Paused
failed_call_rests c d m system prompt w e calls f h k soon =
    quiet c d calls _ (All-weaken calls (generate-Paused c d m system prompt w e f h k) soon)
