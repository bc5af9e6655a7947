-- ===== src/Llm/Breaker.antt =====
-- internal/integration/llm/client.go: what a client remembers between calls, and its breaker, which
-- lets the client rest after failures. The texts kept for the status page are left out.
use texas_fold_em.Common.{
  ℕ, ◌+◌, ◌-◌, ◌*◌, ◌^◌, Bool, true, false, not, ◌||◌, Option, none, some, List, [], ◌∷◌, ◌++◌,
  if◌then◌else◌, ltb, leb, ◌==◌, length,
}
use texas_fold_em.Llm.Request.{
  CallError, api, transport, interrupted, unavailable, CallStat, second,
}

abbrev pub minute : ℕ
minute = 60 * second

abbrev pub hour : ℕ
hour = 60 * minute

-- maxInlineWait and maxRest.
abbrev pub max_inline_wait : ℕ
max_inline_wait = 30 * second

abbrev pub max_rest : ℕ
max_rest = 6 * hour

abbrev pub kept_calls : ℕ
kept_calls = 50

-- The part of Client that calls change; the requests are oldest first.
pub record Client : Type 0 where
  pub calls : List CallStat
  pub ok_count : ℕ
  pub fail_count : ℕ
  pub open_until : ℕ
  pub fail_streak : ℕ
  pub last_ok : ℕ
  pub no_temperature : Bool
  pub thinking_required : Bool

-- Health, as far as whether the client calls.
abbrev pub available : ℕ → Client → Bool
available now b = not (ltb now b.open_until)

-- rest.
unfoldable pub rest : ℕ → ℕ → Client → Client
rest now d b =
    let until = now + (if ltb max_rest d then max_rest else d) in
    if ltb b.open_until until then record b { open_until = until } else b

-- The last `n` elements.
unfoldable pub keep_last : ℕ → List CallStat → List CallStat
keep_last n [] = []
keep_last n (c ∷ l) =
    let shorter = keep_last n l in if ltb n (length (c ∷ l)) then shorter else c ∷ l

-- record.
unfoldable pub record_call : CallStat → Client → Client
unfolding keep_last
record_call s b = record b {
  calls = keep_last kept_calls (b.calls ++ s ∷ []);
  ok_count = if s.is_ok then b.ok_count + 1 else b.ok_count;
  fail_count = if s.is_ok then b.fail_count else b.fail_count + 1;
}

-- A refused key.
unfoldable pub refuses_key : CallError → Bool
refuses_key (api e) = e.status == 401 || e.status == 403
refuses_key _ = false

-- errors.Is of ErrUnavailable or of context.Canceled.
unfoldable pub is_no_failure : CallError → Bool
is_no_failure unavailable = true
is_no_failure (transport canceled) = canceled
is_no_failure (interrupted canceled) = canceled
is_no_failure _ = false

-- 2, 4, 8 … minutes, up to an hour.
unfoldable pub streak_rest : ℕ → ℕ
streak_rest streak =
    let k = if ltb 6 (streak - 2) then 6 else streak - 2 in
    if ltb hour (2 ^ k * minute) then hour else 2 ^ k * minute

-- settle, after a call that failed or did not.
unfoldable pub settle : ℕ → Option CallError → Client → Client
unfolding rest refuses_key is_no_failure streak_rest
settle now none b = record b { fail_streak = 0; last_ok = now }
settle now (some e) b =
    let failed = record b { fail_streak = b.fail_streak + 1 } in
    if is_no_failure e
    then b
    else if refuses_key e
    then rest now (15 * minute) failed
    else if leb 3 (b.fail_streak + 1)
    then rest now (streak_rest (b.fail_streak + 1)) failed
    else failed
