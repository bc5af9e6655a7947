-- ===== src/Examples/Brokers.antt =====
-- broker.go and store.go: the theorems on the broker and on the state file at concrete inputs.
use texas_fold_em.Common.{
  ℕ, ◌≡◌, refl, Bool, true, false, Option, none, some, List, [], ◌∷◌, arith, All, length, map, ◌⊎◌,
  ◌<◌, ◌+◌,
}
use texas_fold_em.Common.Text.{str}
use texas_fold_em.Fold.{
  Err, refresh_rejected, wrapped, ok, err, TokenBundle, Reply, answered, refresh_tokens, Decoders,
  subject_of_jwt, root,
}
use texas_fold_em.Store.{State, seeded, rejected}
use texas_fold_em.Store.File.{
  File, create_temp, chmod, write, sync, close, rename, remove, Faults, start, write_file_atomic,
  outcome_run,
}
use texas_fold_em.Store.File.Durability.{OldOrNew, new_file, write_file_atomic-OldOrNew}
use texas_fold_em.Broker.{
  Moment, World, AccessToken, memory, renewed, tombstone, saved_after_request, to_access_token,
  refresh_locked, token, init, keep_warm, Operation, takes_token, inits, ticks, restarts, run,
  first_start,
}
use texas_fold_em.Broker.Validity.{IsValid, run-first_start-IsValid}
use texas_fold_em.Broker.Tombstone.{IsRefused, rejection_is_final, unsaved_rejection_repeats}
use texas_fold_em.Broker.Refreshes.{queue, queue_coalesces}
use texas_fold_em.Broker.Answers.{IsTokenOf, IsGiven, token-IsTokenOf}
use texas_fold_em.Broker.Seeding.{init_refuses}

-- Decoders that find the subject in the payload as it is.
abbrev pub plain_decoders : Decoders
plain_decoders = record { raw_url = λ s. some s; std = λ s. none; sub_claim = λ s. some s }

abbrev pub new_bundle : TokenBundle
new_bundle = record { access_token = str "new"; refresh_token = str "h.u.s"; expires_at = 500 }

abbrev pub yes_reply : Reply
yes_reply = answered 200 (some (record { error = none; bundle = some new_bundle }))

abbrev pub no_reply : Reply
no_reply = answered 401 (
    some (record {
      error = some (record { code = 7; message = str "spent"; how_to_fix = [] });
      bundle = none;
    }))

abbrev pub moment_of : ℕ → Reply → Bool → Moment
moment_of now reply writable = record {
  looked_at = now;
  locked_at = now;
  written_at = now;
  reply = reply;
  writable = writable;
}

abbrev pub old_state : State
old_state = record {
  refresh_token = str "h.u.r";
  access_token = str "old";
  expires_at = 100;
  device_hash = str "dev";
  updated_at = 1;
  rejected_at = none;
  rejected_reason = [];
}

abbrev pub world_of : State → World
world_of s = record { store = record { memory = s; disk = s }; requests = [] }

abbrev pub old_world : World
old_world = world_of old_state

-- A moment at which the token is stale and Fold refuses the exchange.
abbrev refusal_at : Bool → Moment
refusal_at writable = moment_of 95 no_reply writable

refused_at : (writable : Bool) → IsRefused 10 old_state (refusal_at writable)
unfolding refresh_tokens root
refused_at writable = record {
  error = refresh_rejected 7 (str "spent");
  code = 7;
  message = str "spent";
  stale = refl;
  still_stale = refl;
  answer = refl;
  is_rejection = refl;
}

abbrev quiet : List Operation
quiet =
    takes_token (moment_of 300 yes_reply true)
    ∷ ticks (moment_of 301 yes_reply true)
    ∷ restarts
    ∷ []

run-first_start-IsValid_example : IsValid (
    run plain_decoders 10
      (inits (moment_of 5 yes_reply true) (str "h.u.r") (str "dev") ∷ quiet)
      first_start)
run-first_start-IsValid_example =
    run-first_start-IsValid plain_decoders 10
      (inits (moment_of 5 yes_reply true) (str "h.u.r") (str "dev") ∷ quiet)

rejection_is_final_example :
    let (w', answer) = refresh_locked plain_decoders 10 (refusal_at true) old_world in
    let later = run plain_decoders 10 quiet w' in
    (answer ≡ err (refresh_rejected 7 (str "spent")))
    × (later.requests ≡ (str "h.u.r", str "dev") ∷ [])
    × (memory later ≡ tombstone old_state 7 (str "spent") 95)
unfolding seeded rejected refused_at
rejection_is_final_example =
    rejection_is_final plain_decoders 10 (refusal_at true) old_world quiet (refused_at true) refl
      refl refl (tt, (tt, (tt, tt)))

abbrev pub dead_world : World
dead_world = world_of (tombstone old_state 7 (str "spent") 95)

unsaved_rejection_repeats_example :
    let later =
      keep_warm plain_decoders 10 60 (refusal_at false ∷ refusal_at false ∷ []) old_world in
    (later.store ≡ old_world.store) × (length later.requests ≡ 2)
unfolding seeded rejected
unsaved_rejection_repeats_example =
    unsaved_rejection_repeats plain_decoders 10 60 (refusal_at false ∷ refusal_at false ∷ [])
      old_world (omega arith) (refused_at false, (refused_at false, tt)) (refl, (refl, tt)) refl
      refl

abbrev pub renewing : Moment
renewing = moment_of 95 yes_reply true

queue_coalesces_example :
    let next = renewed new_bundle (str "dev") 95 in
    queue plain_decoders 10 (renewing ∷ moment_of 96 no_reply false ∷ []) old_world ≡ (
      saved_after_request next old_world,
      map (λ _. to_access_token plain_decoders next) (renewing ∷ moment_of 96 no_reply false ∷ []),
    )
unfolding seeded rejected refresh_tokens
queue_coalesces_example =
    queue_coalesces plain_decoders 10 renewing (moment_of 96 no_reply false ∷ []) old_world
      new_bundle refl refl refl refl refl (omega arith, tt)

abbrev new_token : AccessToken
new_token = record {
  access_token = str "new";
  device_hash = str "dev";
  user_uuid = str "u";
  expires_at = 500;
}

token-IsTokenOf_example :
    let w' = (token plain_decoders 10 renewing old_world).0 in
    IsTokenOf plain_decoders (memory w') new_token
    × (((w' ≡ old_world) × ((95 + 10 < 500) ⊎ (95 + 10 < 500)))
        ⊎ ((b : TokenBundle) × (refresh_tokens yes_reply ≡ ok b) × IsGiven b old_world w'))
unfolding token refresh_tokens subject_of_jwt
token-IsTokenOf_example = token-IsTokenOf plain_decoders 10 renewing old_world new_token refl

abbrev spent : Err
spent = wrapped (str "validate seed") (refresh_rejected 7 (str "spent"))

init_refuses_example :
    let w' = (init plain_decoders (refusal_at true) (str "h.u.r") (str "dev") dead_world).0 in
    (w'.store ≡ dead_world.store)
    ⊎ ((b : TokenBundle) × (x : Err) × (refresh_tokens no_reply ≡ ok b)
        × (subject_of_jwt plain_decoders b.refresh_token ≡ err x)
        × (memory w' ≡ renewed b (str "dev") 95))
unfolding init subject_of_jwt refresh_tokens
init_refuses_example =
    init_refuses plain_decoders (refusal_at true) (str "h.u.r") (str "dev") dead_world spent refl

-- A system whose rename fails.
abbrev no_rename : Faults
no_rename = record {
  fails = λ c. elim c [
    | create_temp ↦ false
    | chmod ↦ false
    | write ↦ false
    | sync ↦ false
    | close ↦ false
    | rename ↦ true
    | remove ↦ false
  ];
  partial = str "{";
}

abbrev kept_file : Option File
kept_file = some (record { bytes = str "{}"; mode = 384; synced = true })

write_file_atomic-OldOrNew_example :
    All
      (OldOrNew kept_file (new_file (str "{1}") 384))
      (outcome_run (
        write_file_atomic no_rename
          (str "{1}")
          384
          (start (record { target = kept_file; temp = none })))).seen
write_file_atomic-OldOrNew_example =
    write_file_atomic-OldOrNew no_rename (str "{1}") 384
      (record { target = kept_file; temp = none })
