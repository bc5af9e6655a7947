-- ===== src/Broker.antt =====
-- broker.go: the broker that hands out access tokens and refreshes them. The mutex makes each
-- refresh one step; the clock, Fold's answers and the disk come in as a `Moment`.
pub mod Validity
pub mod Tombstone
pub mod Refreshes
pub mod Answers
pub mod Seeding
use texas_fold_em.Common.{
  ℕ, ◌+◌, ◌-◌, ◌/◌, ◌≡◌, refl, Bool, true, false, ◌&&◌, ◌||◌, not, Option, none, some, List, [],
  ◌∷◌, ◌++◌, if◌then◌else◌, ltb, leb, ◌==◌,
}
use texas_fold_em.Common.Text.{Str, str, is_empty}
use texas_fold_em.Fold.{
  Err, not_seeded, bad_input, refresh_rejected, deadline_exceeded, canceled, plain, wrapped, Result,
  ok, err, ◌>>=◌, root, rejection_text, TokenBundle, Reply, refresh_tokens, Decoders,
  subject_of_jwt,
}
use texas_fold_em.Store.{State, zero_state, seeded, rejected, Store, set, reopen}

pub record AccessToken : Type 0 where
  pub access_token : Str
  pub device_hash : Str
  pub user_uuid : Str
  pub expires_at : ℕ

-- What a call meets: the clock when it looks at the store, when it looks again under the lock,
-- and when it writes; Fold's answer, if it asks; and whether the disk takes a write.
pub record Moment : Type 0 where
  pub looked_at : ℕ
  pub locked_at : ℕ
  pub written_at : ℕ
  pub reply : Reply
  pub writable : Bool

-- The store, and every request made to Fold with its refresh token and device hash, latest first.
pub record World : Type 0 where
  pub store : Store
  pub requests : List (Str × Str)

abbrev pub memory : World → State
memory w = w.store.memory

-- `time.Until(s.ExpiresAt) > b.refreshLead`, with the lead at least 0.
abbrev pub fresh : ℕ → ℕ → State → Bool
fresh lead now s = ltb (now + lead) s.expires_at

abbrev pub usable : ℕ → ℕ → State → Bool
usable lead now s = fresh lead now s && not (is_empty s.access_token)

-- toAccessToken.
unfoldable pub to_access_token : Decoders → State → Result AccessToken
to_access_token d s = elim (subject_of_jwt d s.refresh_token) [
  | err e ↦ err (wrapped (str "derive user_uuid") e)
  | ok sub ↦ ok (record {
    access_token = s.access_token;
    device_hash = s.device_hash;
    user_uuid = sub;
    expires_at = s.expires_at;
  })
]

-- RefreshTokens, with the request noted.
abbrev pub ask : State → World → World
ask s w = record w { requests = (s.refresh_token, s.device_hash) ∷ w.requests }

abbrev pub persist : Bool → State → World → World
persist writable next w = record w { store = (set writable next w.store).0 }

-- The state after an exchange.
abbrev pub renewed : TokenBundle → Str → ℕ → State
renewed b device now = record {
  refresh_token = b.refresh_token;
  access_token = b.access_token;
  expires_at = b.expires_at;
  device_hash = device;
  updated_at = now;
  rejected_at = none;
  rejected_reason = [];
}

-- tombstoneLocked.
abbrev pub tombstone : State → ℕ → Str → ℕ → State
tombstone s code message now = record s {
  rejected_at = some now;
  rejected_reason = rejection_text code message;
  updated_at = now;
}

-- The world after one request to Fold whose outcome, the new state, is saved.
abbrev pub saved_after_request : State → World → World
saved_after_request next w = record {
  store = record { memory = next; disk = next };
  requests = ((memory w).refresh_token, (memory w).device_hash) ∷ w.requests;
}

-- The state that a failed exchange leaves: errors.As picks out a rejection.
unfoldable pub after_failure : Moment → State → Err → World → World
unfolding set
after_failure m s (refresh_rejected code message) w =
    persist m.writable (tombstone s code message m.written_at) w
after_failure m s _ w = w

-- Keeping a renewed state: the caller has the token only if it is on disk.
unfoldable pub keep : Decoders → Str → Moment → State → World → World × Result AccessToken
unfolding set to_access_token
keep d context m next w =
    if m.writable
    then (persist true next w, to_access_token d next)
    else (persist false next w, err (wrapped context (plain (str "write state"))))

exchange : Decoders → Moment → State → World → Result TokenBundle → World × Result AccessToken
unfolding after_failure keep
exchange d m s w (ok b) =
    keep d (str "persist rotated state") m (renewed b s.device_hash m.written_at) w
exchange d m s w (err e) = (after_failure m s (root e) w, err e)

-- refreshLocked.
unfoldable pub refresh_locked : Decoders → ℕ → Moment → World → World × Result AccessToken
unfolding exchange seeded rejected
refresh_locked d lead m w =
    let s = memory w in
    let asked = exchange d m s (ask s w) (refresh_tokens m.reply) in
    if not (seeded s)
    then (w, err not_seeded)
    else if rejected s
    then (w, err (refresh_rejected 0 s.rejected_reason))
    else if usable lead m.locked_at s
    then (w, to_access_token d s)
    else asked

-- Token.
unfoldable pub token : Decoders → ℕ → Moment → World → World × Result AccessToken
unfolding refresh_locked
token d lead m w =
    let s = memory w in
    if not (seeded s)
    then (w, err not_seeded)
    else if rejected s
    then (w, err (refresh_rejected 0 s.rejected_reason))
    else if usable lead m.looked_at s
    then (w, to_access_token d s)
    else refresh_locked d lead m w

seed : Decoders → Moment → Str → World → Result TokenBundle → World × Result AccessToken
unfolding keep
seed d m device w (ok b) = keep d (str "persist seed") m (renewed b device m.written_at) w
seed d m device w (err e) = (w, err (wrapped (str "validate seed") e))

-- Init.
unfoldable pub init : Decoders → Moment → Str → Str → World → World × Result AccessToken
unfolding seed
init d m refresh device w =
    let asked = record w { requests = (refresh, device) ∷ w.requests } in
    if is_empty refresh || is_empty device
    then (w, err (wrapped (str "refresh_token and device_hash are both required") bad_input))
    else elim (subject_of_jwt d refresh) [
      | err e ↦ (w, err (wrapped (str "refresh_token is not a valid JWT") bad_input))
      | ok sub ↦ seed d m device asked (refresh_tokens m.reply)
    ]

-- One tick of KeepWarm. Unlike Token it does not ask whether the access token is there.
unfoldable pub tick : Decoders → ℕ → Moment → World → World
unfolding refresh_locked
tick d lead m w =
    let s = memory w in
    if not (seeded s)
    then w
    else if rejected s
    then w
    else if fresh lead m.looked_at s
    then w
    else (refresh_locked d lead m w).0

-- KeepWarm up to the end of its context: its ticks, none if the interval is 0.
unfoldable pub keep_warm : Decoders → ℕ → ℕ → List Moment → World → World
unfolding tick
keep_warm d lead every [] w = w
keep_warm d lead every (m ∷ ms) w =
    let rest = keep_warm d lead every ms (tick d lead m w) in if leb every 0 then w else rest

-- What can happen to the broker from outside, a restart of the process included.
pub data Operation : Type 0 where
  takes_token : Moment → Operation
  inits : Moment → Str → Str → Operation
  ticks : Moment → Operation
  restarts : Operation

unfoldable pub step : Decoders → ℕ → Operation → World → World
step d lead (takes_token m) w = (token d lead m w).0
step d lead (inits m refresh device) w = (init d m refresh device w).0
step d lead (ticks m) w = tick d lead m w
step d lead restarts w = record w { store = reopen w.store }

unfoldable pub run : Decoders → ℕ → List Operation → World → World
run d lead [] w = w
run d lead (o ∷ os) w = run d lead os (step d lead o w)

-- A first start, with no state file.
abbrev pub first_start : World
first_start = record { store = record { memory = zero_state; disk = zero_state }; requests = [] }
