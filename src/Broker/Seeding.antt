-- ===== src/Broker/Seeding.antt =====
-- broker.go: what a seed by Init leaves.
use texas_fold_em.Common.{◌≡◌, ◌∷◌, arith, ◌⊎◌, inl, inr, not, ◌&&◌, Bool-cases}
use texas_fold_em.Common.Text.{Str, is_empty}
use texas_fold_em.Fold.{
  ok, err, Result-cases, TokenBundle, refresh_tokens, Decoders, Err, subject_of_jwt,
}
use texas_fold_em.Store.{rejected}
use texas_fold_em.Broker.{Moment, World, AccessToken, memory, renewed, init}
use texas_fold_em.Broker.Answers.{IsTokenOf, to_access_token-IsTokenOf}

-- A seed that is accepted leaves the broker with the state that Fold's answer makes, in memory and
-- on disk, no longer marked rejected, whatever it was before; the answer is its token.
init_accepts :
    (d : Decoders) (m : Moment) (refresh device : Str) (w : World) (t : AccessToken)
    → (init d m refresh device w).1 ≡ ok t
    → let w' = (init d m refresh device w).0 in
      (b : TokenBundle) × (refresh_tokens m.reply ≡ ok b)
      × (memory w' ≡ renewed b device m.written_at)
      × (w'.store.disk ≡ memory w')
      × (w'.requests ≡ (refresh, device) ∷ w.requests)
      × IsTokenOf d (memory w') t
unfolding init rejected
init_accepts d m refresh device w t h = elim (Result-cases (subject_of_jwt d refresh)) [
  | inl (sub, j) ↦ elim (Result-cases (refresh_tokens m.reply)) [
    | inl (b, e) ↦ (
      b,
      e,
      ground arith,
      ground arith,
      ground arith,
      ground (arith, to_access_token-IsTokenOf d (renewed b device m.written_at) t),
    )
    | inr (x, e) ↦ absurd (ground arith)
  ]
  | inr (x, j) ↦ absurd (ground arith)
]

-- A seed that is refused leaves the store as it was, in memory and on disk, with one exception:
-- Fold accepted the seed, and the new refresh token that it gave is no JWT.
pub init_refuses :
    (d : Decoders) (m : Moment) (refresh device : Str) (w : World) (e : Err)
    → (init d m refresh device w).1 ≡ err e
    → ((init d m refresh device w).0.store ≡ w.store)
      ⊎ ((b : TokenBundle) × (x : Err) × (refresh_tokens m.reply ≡ ok b)
          × (subject_of_jwt d b.refresh_token ≡ err x)
          × (memory (init d m refresh device w).0 ≡ renewed b device m.written_at))
unfolding init
init_refuses d m refresh device w e h = elim (Result-cases (subject_of_jwt d refresh)) [
  | inl (sub, j) ↦ elim (Result-cases (refresh_tokens m.reply)) [
    | inl (b, k) ↦ elim (Result-cases (subject_of_jwt d b.refresh_token)) [
      | inl (s, l) ↦ inl (ground arith)
      | inr (x, l) ↦
          elim (Bool-cases (m.writable && (not (is_empty refresh) && not (is_empty device)))) [
            | inl y ↦ inr (b, x, k, l, ground arith)
            | inr n ↦ inl (ground arith)
          ]
    ]
    | inr (x, k) ↦ inl (ground arith)
  ]
  | inr (x, j) ↦ inl (ground arith)
]
