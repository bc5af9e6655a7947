-- ===== src/Server/Statuses.antt =====
-- server.go: what the statuses of GET /token and GET /health say.
use texas_fold_em.Common.{ℕ, ◌≡◌, ◌↔◌, ◌⊎◌, refl, true, arith, inl, inr}
use texas_fold_em.Common.Text.{Str}
use texas_fold_em.Fold.{
  Decoders, Err, not_seeded, bad_input, plain, wrapped, deadline_exceeded, canceled,
  refresh_rejected, Result, Result-cases, root, refresh_tokens, subject_of_jwt,
}
use texas_fold_em.Store.{State, seeded, rejected}
use texas_fold_em.Fold.Errors.{
  IsPlain, subject-IsPlain, IsExchangeError, refresh_tokens-IsExchangeError,
}
use texas_fold_em.Broker.{
  Moment, World, memory, token, to_access_token, refresh_locked, after_failure, AccessToken,
  renewed, ask,
}
use texas_fold_em.Broker.Validity.{refresh_tokens_complete}
use texas_fold_em.Server.{
  Server, handle_token, handle_health, answer_status, map_broker_error, status_of_root,
}

status_of-IsPlain : (e : Err) → IsPlain (root e) → map_broker_error e ≡ 502
unfolding map_broker_error
status_of-IsPlain e h = go (root e) h
  where
    go : (x : Err) → IsPlain x → status_of_root x ≡ 502
    go (plain t) h = refl
    go not_seeded h = absurd h
    go bad_input h = absurd h
    go (refresh_rejected c m) h = absurd h
    go deadline_exceeded h = absurd h
    go canceled h = absurd h
    go (wrapped t x) h = absurd h

subject-502 :
    (d : Decoders) (s : State)
    → (answer_status (to_access_token d s) ≡ 200) ⊎ (answer_status (to_access_token d s) ≡ 502)
unfolding to_access_token answer_status
subject-502 d s = elim (Result-cases (subject_of_jwt d s.refresh_token)) [
  | inl (sub, e) ↦ rw (e, to_access_token) (inl refl)
  | inr (x, e) ↦
      rw (e, to_access_token)
        (inr (unfold root in status_of-IsPlain x (subject-IsPlain d s.refresh_token x e)))
]

-- A failed exchange is a rejection, or its status is 502 or 504 and it marks nothing.
exchange_error_cases :
    (e : Err)
    → IsExchangeError e
    → ((c : ℕ) × (t : Str) × (e ≡ refresh_rejected c t))
      ⊎ (((status_of_root e ≡ 502) ⊎ (status_of_root e ≡ 504))
          × ((m : Moment) (s : State) (w : World) → after_failure m s e w ≡ w))
unfolding status_of_root after_failure
exchange_error_cases (plain t) h = inr (inl refl, λ m s w. refl)
exchange_error_cases not_seeded h = absurd h
exchange_error_cases bad_input h = absurd h
exchange_error_cases (refresh_rejected c m) h = inl (c, m, refl)
exchange_error_cases deadline_exceeded h = inr (inr refl, λ m s w. refl)
exchange_error_cases canceled h = inr (inr refl, λ m s w. refl)
exchange_error_cases (wrapped t x) h = absurd h

-- The broker cannot serve, and the caller is told to seed it, or neither.
abbrev Agrees : World × Result AccessToken → Type 0
Agrees (w, a) = ((handle_health w).1 ≡ 503) ↔ ((answer_status a ≡ 409) ⊎ (answer_status a ≡ 410))

refresh_locked-Agrees :
    (d : Decoders) (lead : ℕ) (m : Moment) (w : World)
    → m.writable ≡ true
    → Agrees (refresh_locked d lead m w)
unfolding refresh_locked handle_health seeded rejected answer_status root status_of_root
refresh_locked-Agrees d lead m w a = elim (Result-cases (refresh_tokens m.reply)) [
  | inl (b, e) ↦ ground (
    arith,
    e,
    refresh_tokens_complete m.reply b e,
    subject-502 d (memory w),
    subject-502 d (renewed b (memory w).device_hash m.written_at),
  )
  | inr (x, e) ↦ elim (exchange_error_cases (root x) (refresh_tokens-IsExchangeError m.reply x e)) [
    | inl (c, t, f) ↦ ground (arith, e, f, subject-502 d (memory w))
    | inr (f, g) ↦ ground (arith, e, f, g m (memory w) (ask (memory w) w), subject-502 d (memory w))
  ]
]

token-Agrees :
    (d : Decoders) (lead : ℕ) (m : Moment) (w : World)
    → m.writable ≡ true
    → Agrees (token d lead m w)
unfolding token handle_health seeded rejected answer_status root status_of_root
token-Agrees d lead m w a =
    ground (arith, refresh_locked-Agrees d lead m w a, subject-502 d (memory w))

-- With a disk that takes writes, GET /token answers 409 or 410 exactly when GET /health would
-- answer 503 right afterwards.
pub handle_token-handle_health :
    (d : Decoders) (s : Server) (m : Moment) (w : World)
    → m.writable ≡ true
    → let (w', status) = handle_token d s m w in
      ((handle_health w').1 ≡ 503) ↔ ((status ≡ 409) ⊎ (status ≡ 410))
unfolding handle_token
handle_token-handle_health d s m w a = token-Agrees d s.refresh_lead m w a
