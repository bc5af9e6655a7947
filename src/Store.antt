-- ===== src/Store.antt =====
-- store.go: the broker's state, and the store that keeps it in memory and on disk. Here the disk is
-- what OpenStore would read back, and a write either succeeds or leaves it; Store/File.antt has the
-- file itself.
pub mod File
use texas_fold_em.Common.{
  ℕ, ◌≡◌, refl, Bool, true, false, ◌&&◌, not, Option, none, some, List, [], ◌∷◌, if◌then◌else◌,
  is_some,
}
use texas_fold_em.Common.Text.{Str, str, is_empty}
use texas_fold_em.Fold.{Err, plain, Result, ok, err}

-- Instants are nanoseconds; the zero time of Go is 0.
pub record State : Type 0 where
  pub refresh_token : Str
  pub access_token : Str
  pub expires_at : ℕ
  pub device_hash : Str
  pub updated_at : ℕ
  pub rejected_at : Option ℕ
  pub rejected_reason : Str

-- `State{}`.
abbrev pub zero_state : State
zero_state = record {
  refresh_token = [];
  access_token = [];
  expires_at = 0;
  device_hash = [];
  updated_at = 0;
  rejected_at = none;
  rejected_reason = [];
}

unfoldable pub seeded : State → Bool
seeded s = not (is_empty s.refresh_token) && not (is_empty s.device_hash)

unfoldable pub rejected : State → Bool
rejected s = is_some s.rejected_at

pub record Store : Type 0 where
  pub memory : State
  pub disk : State

-- Set, where `writable` says whether the write to disk succeeds.
unfoldable pub set : Bool → State → Store → Store × Result (Unit {0})
set writable next s =
    if writable
    then (record { memory = next; disk = next }, ok tt)
    else (s, err (plain (str "write state")))

-- OpenStore, on the file that an earlier process left.
unfoldable pub reopen : Store → Store
reopen s = record { memory = s.disk; disk = s.disk }
