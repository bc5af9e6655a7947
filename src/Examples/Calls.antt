-- ===== src/Examples/Calls.antt =====
-- internal/integration/llm/client.go: the theorems on calls of the model at concrete calls.
use texas_fold_em.Common.{
  ℕ, zero, suc, ◌≡◌, refl, false, none, some, [], ◌∷◌, inl, arith, if◌then◌else◌, ltb, All,
}
use texas_fold_em.Common.Text.{str, str_eq, trim_space}
use texas_fold_em.Llm.Request.{
  Readers, Reply, answer, api, CallError, do_once, refuses_no_thinking, refuses_temperature,
  is_retryable,
}
use texas_fold_em.Llm.Breaker.{refuses_key, is_no_failure}
use texas_fold_em.Llm.{Config, Round, Moment, Session, generate_json, max_requests}
use texas_fold_em.Llm.Bounds.{IsBounded, generate_json-IsBounded}
use texas_fold_em.Llm.Resting.{run, failed_call_rests}
use texas_fold_em.Llm.Kept.{IsKept, run-IsKept}
use texas_fold_em.Llm.Waits.{IsShort, IsPrompt, generate_json-IsShort}

abbrev new_session : Session
new_session = record {
  client = record {
    calls = [];
    ok_count = 0;
    fail_count = 0;
    open_until = 0;
    fail_streak = 0;
    last_ok = 0;
    no_temperature = false;
    thinking_required = false;
  };
  sent = [];
  waits = [];
}

abbrev config : Config
config = record {
  api_key = str "key";
  max_tokens = 0;
  reasoning_effort = str "none";
  thinking_fallback = str "low";
}

-- A body is the content of its one choice, and no header holds a date.
abbrev readers : Readers
readers = record {
  completion = λ s. some (record {
    choices = record { content = s; finish_reason = str "stop" } ∷ [];
    prompt_tokens = 1;
    completion_tokens = 1;
  });
  until = λ s. 0;
}

abbrev round_of : Reply → Round
round_of r = record { jitter = 0; cut = none; reply = r; answered_at = 100 }

-- The gateway is out of order for one request, and then answers.
abbrev late : Moment
late = record {
  looked_at = 100;
  round = λ n. round_of (if ltb n 1 then answer 503 (str "busy") [] else answer 200 (str "{}") []);
  settled_at = 100;
}

-- The gateway refuses the key.
abbrev refused : Moment
refused = record {
  looked_at = 100;
  round = λ n. round_of (answer 401 (str "no") []);
  settled_at = 100;
}

refused_error : CallError
refused_error = api (record { status = 401; body = str "no"; retry_after = 0 })

generate_json-IsBounded_example :
    IsBounded max_requests new_session
      (generate_json config readers late (str "system") (str "prompt") new_session)
generate_json-IsBounded_example =
    generate_json-IsBounded config readers (λ e. cc e) late (str "system") (str "prompt")
      new_session

late-IsPrompt : (n : ℕ) → IsPrompt readers (late.round n)
unfolding do_once
late-IsPrompt zero e q h = ground arith
late-IsPrompt (suc zero) e q h = ground arith
late-IsPrompt (suc (suc n)) e q h = ground arith

generate_json-IsShort_example :
    All IsShort
      (generate_json config readers late (str "system") (str "prompt") new_session).0.waits
generate_json-IsShort_example =
    generate_json-IsShort config readers late (str "system") (str "prompt") new_session
      late-IsPrompt tt

run-IsKept_example :
    IsKept 100 (run config readers ((late, str "system", str "prompt") ∷ []) new_session)
run-IsKept_example =
    run-IsKept config readers 100 ((late, str "system", str "prompt") ∷ []) new_session
      ((omega arith, λ i. omega arith), tt)
      (record { until = omega arith; recent = omega arith; counted = refl })

failed_call_rests_example :
    run config readers
      ((late, str "system", str "prompt") ∷ [])
      (generate_json config readers refused (str "system") (str "prompt") new_session).0
    ≡ (generate_json config readers refused (str "system") (str "prompt") new_session).0
unfolding generate_json refused_error refuses_key is_no_failure do_once str_eq refuses_no_thinking
    refuses_temperature is_retryable trim_space
failed_call_rests_example =
    failed_call_rests config readers refused (str "system") (str "prompt") new_session refused_error
      ((late, str "system", str "prompt") ∷ []) refl refl (inl refl) (omega arith, tt)
