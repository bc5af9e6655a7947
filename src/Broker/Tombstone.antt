-- ===== src/Broker/Tombstone.antt =====
-- broker.go: what happens once Fold has rejected the refresh token.
use texas_fold_em.Common.{ℕ, ◌+◌, ◌≡◌, ◌<◌, refl, true, false, List, [], ◌∷◌, arith, All, length}
use texas_fold_em.Common.Text.{Str}
use texas_fold_em.Fold.{err, refresh_tokens, Decoders, Err, root, refresh_rejected}
use texas_fold_em.Store.{State, seeded, rejected, reopen}
use texas_fold_em.Broker.{
  Moment, World, memory, fresh, Operation, takes_token, inits, ticks, restarts, tombstone,
  saved_after_request, ask, refresh_locked, token, tick, keep_warm, step, run,
}

-- The operations that are no seed.
abbrev pub IsNoSeed : Operation → Type 0
IsNoSeed (inits m refresh device) = ⊥
IsNoSeed _ = Unit

rejected-step :
    (d : Decoders) (lead : ℕ) (o : Operation) (w : World)
    → IsNoSeed o
    → w.store.disk ≡ memory w
    → rejected (memory w) ≡ true
    → step d lead o w ≡ w
unfolding step token tick reopen
rejected-step d lead (takes_token m) w n s r = ground arith
rejected-step d lead (inits m refresh device) w n s r = absurd n
rejected-step d lead (ticks m) w n s r = ground arith
rejected-step d lead restarts w n s r = ground arith

-- Once the chain is marked rejected, in memory and on disk, requests for a token, ticks of the keep-warm loop and restarts
-- change nothing and send nothing to Fold, whatever the clock says, until there is a seed.
run-rejected :
    (d : Decoders) (lead : ℕ) (os : List Operation) (w : World)
    → All IsNoSeed os
    → w.store.disk ≡ memory w
    → rejected (memory w) ≡ true
    → run d lead os w ≡ w
unfolding run
run-rejected d lead [] w n s r = refl
run-rejected d lead (o ∷ os) w n s r =
    rw (rejected-step d lead o w n.0 s r) (run-rejected d lead os w n.1 s r)

-- A refresh that Fold rejects: the state it saw, and the rejection, which is not saved.
pub record IsRefused (lead : ℕ) (s : State) (m : Moment) : Type 0 where
  pub error : Err
  pub code : ℕ
  pub message : Str
  pub stale : fresh lead m.looked_at s ≡ false
  pub still_stale : fresh lead m.locked_at s ≡ false
  pub answer : refresh_tokens m.reply ≡ err error
  pub is_rejection : root error ≡ refresh_rejected code message

refresh_locked_tombstones :
    (d : Decoders) (lead : ℕ) (m : Moment) (w : World) (i : IsRefused lead (memory w) m)
    → seeded (memory w) ≡ true
    → rejected (memory w) ≡ false
    → m.writable ≡ true
    → refresh_locked d lead m w
      ≡ (saved_after_request (tombstone (memory w) i.code i.message m.written_at) w, err i.error)
unfolding refresh_locked
refresh_locked_tombstones d lead m w i a b f =
    ground (arith, i.stale, i.still_stale, i.answer, i.is_rejection)

-- When Fold rejects the token of a seeded chain and the disk takes the write, the caller gets the
-- rejection, and however many requests for a token, ticks and restarts follow, that was the last
-- request to Fold and the chain stays marked with the reason, until there is a seed.
pub rejection_is_final :
    (d : Decoders) (lead : ℕ) (m : Moment) (w : World) (os : List Operation)
    (i : IsRefused lead (memory w) m)
    → seeded (memory w) ≡ true
    → rejected (memory w) ≡ false
    → m.writable ≡ true
    → All IsNoSeed os
    → let (w', answer) = refresh_locked d lead m w in
      let later = run d lead os w' in
      (answer ≡ err i.error)
      × (later.requests ≡ ((memory w).refresh_token, (memory w).device_hash) ∷ w.requests)
      × (memory later ≡ tombstone (memory w) i.code i.message m.written_at)
unfolding rejected
rejection_is_final d lead m w os i a b f n =
    let marked = saved_after_request (tombstone (memory w) i.code i.message m.written_at) w in
    rw (refresh_locked_tombstones d lead m w i a b f, run-rejected d lead os marked n refl refl)
      (refl, refl, refl)

refused_tick :
    (d : Decoders) (lead : ℕ) (m : Moment) (w : World)
    → IsRefused lead (memory w) m
    → seeded (memory w) ≡ true
    → rejected (memory w) ≡ false
    → m.writable ≡ false
    → tick d lead m w ≡ ask (memory w) w
unfolding tick
refused_tick d lead m w i a b f = ground (arith, i.stale, i.still_stale, i.answer, i.is_rejection)

abbrev pub IsUnsaved : Moment → Type 0
IsUnsaved m = m.writable ≡ false

-- When the disk does not take the mark, the chain stays unmarked in memory too: every tick of the
-- keep-warm loop that Fold rejects sends one more request with the same dead token.
pub unsaved_rejection_repeats :
    (d : Decoders) (lead every : ℕ) (ms : List Moment) (w : World)
    → 0 < every
    → All (IsRefused lead (memory w)) ms
    → All IsUnsaved ms
    → seeded (memory w) ≡ true
    → rejected (memory w) ≡ false
    → let later = keep_warm d lead every ms w in
      (later.store ≡ w.store) × (length later.requests ≡ length ms + length w.requests)
unfolding keep_warm
unsaved_rejection_repeats d lead every [] w p i u a b = (refl, omega arith)
unsaved_rejection_repeats d lead every (m ∷ ms) w p i u a b =
    let next = unsaved_rejection_repeats d lead every ms (ask (memory w) w) p i.1 u.1 a b in
    rw (refused_tick d lead m w i.0 a b u.0) (ground (arith, next))
