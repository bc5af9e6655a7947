-- ===== src/Store/File/Durability.antt =====
-- store.go: what writeFileAtomic leaves behind, whichever calls fail and wherever power is lost.
use texas_fold_em.Common.{ℕ, ◌≡◌, true, Option, some, All, ◌⊎◌, arith}
use texas_fold_em.Common.Text.{Str}
use texas_fold_em.Store.File.{
  File, Directory, Faults, Outcome, done, failed, write_file_atomic, outcome_run, start,
}

abbrev pub new_file : Str → ℕ → File
new_file text mode = record { bytes = text; mode = mode; synced = true }

-- The state file is the old one, or the new one whole and synced.
abbrev pub OldOrNew : Option File → File → Directory → Type 0
OldOrNew old new d = (d.target ≡ old) ⊎ (d.target ≡ some new)

-- At every moment of the call, whichever of its system calls fail and whatever a failing write has
-- written, the state file is the one before the call or the complete new one, already synced.
pub write_file_atomic-OldOrNew :
    (o : Faults) (text : Str) (mode : ℕ) (d : Directory)
    → All
        (OldOrNew d.target (new_file text mode))
        (outcome_run (write_file_atomic o text mode (start d))).seen
unfolding write_file_atomic
write_file_atomic-OldOrNew o text mode d = ground arith

abbrev pub Reported : Option File → File → Outcome → Type 0
Reported old new (done r) = r.now.target ≡ some new
Reported old new (failed c r) = r.now.target ≡ old

-- The call reports success exactly when the new file is in place: after a failure the state file
-- is the one before the call.
write_file_atomic-Reported :
    (o : Faults) (text : Str) (mode : ℕ) (d : Directory)
    → Reported d.target (new_file text mode) (write_file_atomic o text mode (start d))
unfolding write_file_atomic
write_file_atomic-Reported o text mode d = ground arith
