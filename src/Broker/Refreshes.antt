-- ===== src/Broker/Refreshes.antt =====
-- broker.go: callers that queue up for the refresh lock.
use texas_fold_em.Common.{ℕ, ◌+◌, ◌<◌, ◌≡◌, refl, true, false, List, [], ◌∷◌, arith, All, map}
use texas_fold_em.Common.Text.{is_empty}
use texas_fold_em.Fold.{Result, ok, TokenBundle, refresh_tokens, Decoders}
use texas_fold_em.Store.{State, seeded, rejected}
use texas_fold_em.Broker.{
  Moment, World, AccessToken, memory, usable, renewed, saved_after_request, to_access_token,
  refresh_locked,
}
use texas_fold_em.Broker.Validity.{refresh_tokens_complete}

-- The callers waiting for the lock, one after the other, with their answers.
unfoldable pub queue : Decoders → ℕ → List Moment → World → World × List (Result AccessToken)
queue d lead [] w = (w, [])
queue d lead (m ∷ ms) w =
    let (w', answer) = refresh_locked d lead m w in
    let (w'', answers) = queue d lead ms w' in (w'', answer ∷ answers)

-- The token still has more than the lead to live.
abbrev pub IsBefore : ℕ → ℕ → Moment → Type 0
IsBefore lead expiry m = m.locked_at + lead < expiry

renewed-seeded :
    (b : TokenBundle) (s : State) (now : ℕ)
    → seeded s ≡ true
    → is_empty b.refresh_token ≡ false
    → seeded (renewed b s.device_hash now) ≡ true
unfolding seeded
renewed-seeded b s now h k = ground arith

refresh_locked_won :
    (d : Decoders) (lead : ℕ) (m : Moment) (w : World) (b : TokenBundle)
    → seeded (memory w) ≡ true
    → rejected (memory w) ≡ false
    → usable lead m.locked_at (memory w) ≡ false
    → m.writable ≡ true
    → refresh_tokens m.reply ≡ ok b
    → let next = renewed b (memory w).device_hash m.written_at in
      refresh_locked d lead m w ≡ (saved_after_request next w, to_access_token d next)
unfolding refresh_locked
refresh_locked_won d lead m w b s r u a e = ground arith

refresh_locked_fresh :
    (d : Decoders) (lead : ℕ) (m : Moment) (w : World)
    → seeded (memory w) ≡ true
    → rejected (memory w) ≡ false
    → is_empty (memory w).access_token ≡ false
    → m.locked_at + lead < (memory w).expires_at
    → refresh_locked d lead m w ≡ (w, to_access_token d (memory w))
unfolding refresh_locked
refresh_locked_fresh d lead m w s r a u = ground arith

queue_fresh :
    (d : Decoders) (lead : ℕ) (ms : List Moment) (w : World)
    → seeded (memory w) ≡ true
    → rejected (memory w) ≡ false
    → is_empty (memory w).access_token ≡ false
    → All (IsBefore lead (memory w).expires_at) ms
    → queue d lead ms w ≡ (w, map (λ _. to_access_token d (memory w)) ms)
unfolding queue
queue_fresh d lead [] w s r a u = refl
queue_fresh d lead (m ∷ ms) w s r a u =
    rw (refresh_locked_fresh d lead m w s r a u.0) (rw (queue_fresh d lead ms w s r a u.1))

-- When many callers find the token stale at once, on a seeded chain that is not marked rejected, and
-- the first of them succeeds, since Fold gives a token and the disk takes it, that refresh serves them
-- all: one request reaches Fold, and, where each later one gets the lock while the new token has more
-- than the lead to live, every caller has the same answer, made from the new state.
pub queue_coalesces :
    (d : Decoders) (lead : ℕ) (m : Moment) (ms : List Moment) (w : World) (b : TokenBundle)
    → seeded (memory w) ≡ true
    → rejected (memory w) ≡ false
    → usable lead m.locked_at (memory w) ≡ false
    → m.writable ≡ true
    → refresh_tokens m.reply ≡ ok b
    → All (IsBefore lead b.expires_at) ms
    → let next = renewed b (memory w).device_hash m.written_at in
      queue d lead (m ∷ ms) w
      ≡ (saved_after_request next w, map (λ _. to_access_token d next) (m ∷ ms))
unfolding queue rejected
queue_coalesces d lead m ms w b s r u a e f =
    let next = renewed b (memory w).device_hash m.written_at in
    rw (refresh_locked_won d lead m w b s r u a e) (
      rw (
        queue_fresh d lead ms (saved_after_request next w)
          (renewed-seeded b (memory w) m.written_at s (refresh_tokens_complete m.reply b e).1) refl
          (refresh_tokens_complete m.reply b e).0 f))
