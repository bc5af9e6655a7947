-- ===== src/Llm/Effects.antt =====
-- internal/integration/llm/client.go: what each effect of a request keeps, the loop of requests keeps.
use texas_fold_em.Common.{
  ℕ, zero, suc, ◌+◌, Bool, not, ◌&&◌, Option, none, some, inl, inr, ◌⊎◌, ltb, ◌==◌, if_elim,
}
use texas_fold_em.Common.Text.{Str}
use texas_fold_em.Llm.Request.{
  Body, CallError, Readers, do_once, refuses_temperature, is_retryable, retry_after_of,
}
use texas_fold_em.Llm.Breaker.{max_inline_wait}
use texas_fold_em.Llm.{
  Config, Round, Session, Next, after_error, after_reply, after_wait, step, retry, max_retries,
  wants_no_thinking, note_thinking, note_temperature, rest_session, sent_once, waited, cut_off,
}
use texas_fold_em.Llm.Bounds.{follow_elim}

-- A predicate that each effect of a call keeps.
pub record Keeps (d : Readers) (rounds : ℕ → Round) (P : Session → Type 0) : Type 0 where
  pub thinks : (w : Session) → P w → P (note_thinking w)
  pub temperature : (w : Session) → P w → P (note_temperature w)
  pub rests :
      (i duration : ℕ) (w : Session) → P w → P (rest_session (rounds i).answered_at duration w)
  pub sends : (b : Body) (i : ℕ) (w : Session) → P w → P (sent_once d b (rounds i) w)
  pub waits :
      (attempt : ℕ) (last : Option CallError) (i : ℕ) (w : Session)
      → P w
      → P (waited attempt last (rounds i) w)

module _ (c : Config) (d : Readers) (rounds : ℕ → Round) {P : Session → Type 0}
    (k : Keeps d rounds P) where
  after_error_keeps :
      (i attempt : ℕ) (e : CallError) (b : Body) (w : Session)
      → P w
      → P (after_error c attempt e b (rounds i).answered_at w).0
  unfolding after_error
  after_error_keeps i attempt e b w h =
      let Q = λ (r : Session × Next). P r.0 in
      if_elim Q (wants_no_thinking b e) (λ _. k.thinks w h)
        (λ _.
          if_elim Q (b.temperature && refuses_temperature e) (λ _. k.temperature w h)
            (λ _.
              if_elim Q (not (is_retryable e)) (λ _. h)
                (λ _.
                  if_elim Q (ltb max_inline_wait (retry_after_of e))
                    (λ _. k.rests i (retry_after_of e) w h)
                    (λ _. if_elim Q (attempt == max_retries) (λ _. h) (λ _. h)))))

  after_reply_keeps :
      (i attempt : ℕ) (b : Body) (w : Session) (o : Str ⊎ CallError)
      → P w
      → P (after_reply c attempt b (rounds i).answered_at w o).0
  unfolding after_reply
  after_reply_keeps i attempt b w (inl text) h = h
  after_reply_keeps i attempt b w (inr e) h = after_error_keeps i attempt e b w h

  after_wait_keeps :
      (i attempt : ℕ) (b : Body) (w : Session) (cut : Option Bool)
      → P w
      → P (after_wait c d attempt b (rounds i) w cut).0
  unfolding after_wait
  after_wait_keeps i attempt b w (some canceled) h = h
  after_wait_keeps i attempt b w none h =
      after_reply_keeps i attempt b _ (do_once d (rounds i).reply).1 (k.sends b i w h)

  step_keeps :
      (i attempt : ℕ) (last : Option CallError) (b : Body) (w : Session)
      → P w
      → P (step c d attempt last b (rounds i) w).0
  unfolding step
  step_keeps i attempt last b w h =
      after_wait_keeps i attempt b _ (cut_off attempt (rounds i)) (k.waits attempt last i w h)

  pub retry_keeps :
      (f i attempt : ℕ) (last : Option CallError) (b : Body) (w : Session)
      → P w
      → P (retry c d rounds f i attempt last b w).0
  unfolding retry
  retry_keeps zero i attempt last b w h = h
  retry_keeps (suc f) i attempt last b w h =
      follow_elim (λ r. P r.0) (λ s. P s.0)
        (λ next e b' w'. retry c d rounds f (i + 1) next (some e) b' w')
        (step c d attempt last b (rounds i) w) (step_keeps i attempt last b w h) (λ w' o q. q)
        (λ next e b' w' q. retry_keeps f (i + 1) next (some e) b' w' q)
