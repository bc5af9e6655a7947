-- ===== src/Broker/Validity.antt =====
-- broker.go: what holds of the broker's state after any history of calls, ticks and restarts.
use texas_fold_em.Common.{ℕ, ◌≡◌, refl, true, false, List, [], ◌∷◌, arith, Bool-cases, inl, inr}
use texas_fold_em.Common.Text.{Str, str, is_empty}
use texas_fold_em.Fold.{
  ok, Result-cases, TokenBundle, Reply, unbuilt, refresh_tokens, Decoders, subject_of_jwt, Err,
  root, refresh_rejected,
}
use texas_fold_em.Store.{State, zero_state, seeded, rejected, reopen}
use texas_fold_em.Broker.{
  Moment, World, memory, Operation, takes_token, inits, ticks, restarts, renewed, tombstone, ask,
  keep, after_failure, refresh_locked, token, init, tick, step, run, first_start,
}

-- A seeded state has an access token, and only a seeded one is ever rejected.
pub record StateIsValid (s : State) : Type 0 where
  pub complete : seeded s ≡ true → is_empty s.access_token ≡ false
  pub blamed : rejected s ≡ true → seeded s ≡ true

-- The memory is valid and is what the disk holds.
pub record IsValid (w : World) : Type 0 where
  pub state : StateIsValid (memory w)
  pub saved : w.store.disk ≡ memory w

-- An exchange that succeeds yields both tokens.
pub refresh_tokens_complete :
    (r : Reply) (b : TokenBundle)
    → refresh_tokens r ≡ ok b
    → (is_empty b.access_token ≡ false) × (is_empty b.refresh_token ≡ false)
unfolding refresh_tokens
refresh_tokens_complete (unbuilt e) b h = cc
refresh_tokens_complete r b h = ground arith

zero_state-StateIsValid : StateIsValid zero_state
unfolding seeded rejected
zero_state-StateIsValid = ground arith

renewed-StateIsValid :
    (b : TokenBundle) (device : Str) (now : ℕ)
    → is_empty b.access_token ≡ false
    → StateIsValid (renewed b device now)
unfolding seeded rejected
renewed-StateIsValid b device now h = ground arith

tombstone-StateIsValid :
    (s : State) (code : ℕ) (message : Str) (now : ℕ)
    → seeded s ≡ true
    → StateIsValid s
    → StateIsValid (tombstone s code message now)
unfolding seeded rejected
tombstone-StateIsValid s code message now h v = ground arith

keep-IsValid :
    (d : Decoders) (context : Str) (m : Moment) (next : State) (w : World)
    → StateIsValid next
    → IsValid w
    → IsValid (keep d context m next w).0
unfolding keep
keep-IsValid d context m next w n v = elim (Bool-cases m.writable) [
  | inl e ↦ rw (e, keep) (record { state = n; saved = refl })
  | inr e ↦ rw (e, keep) v
]

-- What a refresh can do to the world: leave it, keep what Fold gave, or note that Fold refused.
pub refresh_locked_cases {ℓ} :
    (P : World → Type ℓ) (d : Decoders) (lead : ℕ) (m : Moment) (w : World)
    → P w
    → ((b : TokenBundle)
        → refresh_tokens m.reply ≡ ok b
        → P
            (keep d
              (str "persist rotated state")
              m
              (renewed b (memory w).device_hash m.written_at)
              (ask (memory w) w)).0)
    → ((e : Err)
        → seeded (memory w) ≡ true
        → P (after_failure m (memory w) (root e) (ask (memory w) w)))
    → P (refresh_locked d lead m w).0
unfolding refresh_locked
refresh_locked_cases P d lead m w stay won lost = elim (Bool-cases (seeded (memory w))) [
  | inl ready ↦ elim (Result-cases (refresh_tokens m.reply)) [
    | inl (b, e) ↦ ground (arith, won b e)
    | inr (x, e) ↦ ground (arith, lost x ready)
  ]
  | inr bare ↦ ground arith
]

after_failure-IsValid :
    (m : Moment) (s : State) (e : Err) (w : World)
    → seeded s ≡ true
    → StateIsValid s
    → IsValid w
    → IsValid (after_failure m s e w)
unfolding after_failure
after_failure-IsValid m s (refresh_rejected code message) w h sv v = elim (Bool-cases m.writable) [
  | inl e ↦
      rw (e, after_failure)
        (record { state = tombstone-StateIsValid s code message m.written_at h sv; saved = refl })
  | inr e ↦ rw (e, after_failure) v
]
after_failure-IsValid m s e w h sv v = v

refresh_locked-IsValid :
    (d : Decoders) (lead : ℕ) (m : Moment) (w : World)
    → IsValid w
    → IsValid (refresh_locked d lead m w).0
refresh_locked-IsValid d lead m w v =
    refresh_locked_cases IsValid d lead m w v
      (λ b e.
        keep-IsValid d _ m _ _
          (renewed-StateIsValid b (memory w).device_hash m.written_at
            (refresh_tokens_complete m.reply b e).0)
          (asked v))
      (λ e ready. after_failure-IsValid m (memory w) (root e) _ ready v.state (asked v))
  where
    asked : IsValid w → IsValid (ask (memory w) w)
    asked v = record { state = v.state; saved = v.saved }

-- What a seed can do to the world: leave it, be asked about, or take over the store.
pub init_cases {ℓ} :
    (P : World → Type ℓ) (d : Decoders) (m : Moment) (refresh device : Str) (w : World)
    → P w
    → P (record w { requests = (refresh, device) ∷ w.requests })
    → ((b : TokenBundle)
        → refresh_tokens m.reply ≡ ok b
        → P
            (keep d
              (str "persist seed")
              m
              (renewed b device m.written_at)
              (record w { requests = (refresh, device) ∷ w.requests })).0)
    → P (init d m refresh device w).0
unfolding init
init_cases P d m refresh device w stay refused won =
    elim (Result-cases (subject_of_jwt d refresh)) [
      | inl (sub, j) ↦ elim (Result-cases (refresh_tokens m.reply)) [
        | inl (b, e) ↦ ground (arith, won b e)
        | inr (x, e) ↦ ground arith
      ]
      | inr (x, j) ↦ ground arith
    ]

init-IsValid :
    (d : Decoders) (m : Moment) (refresh device : Str) (w : World)
    → IsValid w
    → IsValid (init d m refresh device w).0
init-IsValid d m refresh device w v = init_cases IsValid d m refresh device w v asked λ b e.
    keep-IsValid d _ m _ _
      (renewed-StateIsValid b device m.written_at (refresh_tokens_complete m.reply b e).0) asked
  where
    asked : IsValid (record w { requests = (refresh, device) ∷ w.requests })
    asked = record { state = v.state; saved = v.saved }

step-IsValid :
    (d : Decoders) (lead : ℕ) (o : Operation) (w : World) → IsValid w → IsValid (step d lead o w)
unfolding step token tick reopen
step-IsValid d lead (takes_token m) w v = ground (arith, refresh_locked-IsValid d lead m w v)
step-IsValid d lead (inits m refresh device) w v = init-IsValid d m refresh device w v
step-IsValid d lead (ticks m) w v = ground (arith, refresh_locked-IsValid d lead m w v)
step-IsValid d lead restarts w v = ground arith

run-IsValid :
    (d : Decoders) (lead : ℕ) (os : List Operation) (w : World)
    → IsValid w
    → IsValid (run d lead os w)
unfolding run
run-IsValid d lead [] w v = v
run-IsValid d lead (o ∷ os) w v =
    run-IsValid d lead os (step d lead o w) (step-IsValid d lead o w v)

-- After any history of requests for a token, seeds, ticks and restarts, with any answers of Fold
-- and any failures of the disk: what is in memory is what is on disk, a seeded state has an access
-- token, and only a seeded state is ever marked rejected.
pub run-first_start-IsValid :
    (d : Decoders) (lead : ℕ) (os : List Operation) → IsValid (run d lead os first_start)
run-first_start-IsValid d lead os =
    run-IsValid d lead os first_start (record { state = zero_state-StateIsValid; saved = refl })
