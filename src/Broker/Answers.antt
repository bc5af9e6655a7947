-- ===== src/Broker/Answers.antt =====
-- broker.go: what a caller of Token is given.
use texas_fold_em.Common.{ℕ, ◌+◌, ◌<◌, ◌≡◌, false, ◌∷◌, arith, ◌⊎◌, inl, inr}
use texas_fold_em.Fold.{TokenBundle, ok, Result-cases, refresh_tokens, Decoders, subject_of_jwt}
use texas_fold_em.Store.{State, rejected}
use texas_fold_em.Broker.{Moment, World, AccessToken, memory, renewed, to_access_token, token}

-- The token in the state, for the user that the refresh token names.
pub record IsTokenOf (d : Decoders) (s : State) (t : AccessToken) : Type 0 where
  pub access_token : t.access_token ≡ s.access_token
  pub device_hash : t.device_hash ≡ s.device_hash
  pub expires_at : t.expires_at ≡ s.expires_at
  pub user_uuid : subject_of_jwt d s.refresh_token ≡ ok t.user_uuid
  pub is_live : rejected s ≡ false

pub to_access_token-IsTokenOf :
    (d : Decoders) (s : State) (t : AccessToken)
    → rejected s ≡ false
    → to_access_token d s ≡ ok t
    → IsTokenOf d s t
unfolding to_access_token
to_access_token-IsTokenOf d s t r h = ground arith

-- What Fold gave is in memory and on disk, for the same device, after one request with the old token.
pub record IsGiven (b : TokenBundle) (w w' : World) : Type 0 where
  pub access_token : (memory w').access_token ≡ b.access_token
  pub refresh_token : (memory w').refresh_token ≡ b.refresh_token
  pub expires_at : (memory w').expires_at ≡ b.expires_at
  pub device_hash : (memory w').device_hash ≡ (memory w).device_hash
  pub disk : w'.store.disk ≡ memory w'
  pub requests : w'.requests ≡ ((memory w).refresh_token, (memory w).device_hash) ∷ w.requests

-- A token that is handed out is the one that the broker keeps afterwards, on a chain that is not
-- marked rejected; and either nothing changed and it had more than the lead to live when the broker
-- looked, or it is what Fold gave just now for one request: its access token, refresh token and
-- expiry are those of Fold's answer, in memory and on disk.
pub token-IsTokenOf :
    (d : Decoders) (lead : ℕ) (m : Moment) (w : World) (t : AccessToken)
    → (token d lead m w).1 ≡ ok t
    → let w' = (token d lead m w).0 in
      IsTokenOf d (memory w') t
      × (((w' ≡ w) × ((m.looked_at + lead < t.expires_at) ⊎ (m.locked_at + lead < t.expires_at)))
          ⊎ ((b : TokenBundle) × (refresh_tokens m.reply ≡ ok b) × IsGiven b w w'))
unfolding token rejected
token-IsTokenOf d lead m w t h = elim (Result-cases (refresh_tokens m.reply)) [
  | inl (b, e) ↦ ground (
    arith,
    to_access_token-IsTokenOf d (memory w) t,
    to_access_token-IsTokenOf d (renewed b (memory w).device_hash m.written_at) t,
  )
  | inr (x, e) ↦ ground (arith, to_access_token-IsTokenOf d (memory w) t)
]
