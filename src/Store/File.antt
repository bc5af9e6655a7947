-- ===== src/Store/File.antt =====
-- store.go: writeFileAtomic and its system calls, on a directory with the state file and one
-- temporary file. A file remembers whether its bytes were synced: after a loss of power an
-- unsynced file may hold anything.
pub mod Durability
use texas_fold_em.Common.{
  ℕ, ◌≡◌, refl, Bool, true, false, ◌&&◌, not, Option, none, some, List, [], ◌∷◌, if◌then◌else◌,
}
use texas_fold_em.Common.Text.{Str}

pub record File : Type 0 where
  pub bytes : Str
  pub mode : ℕ
  pub synced : Bool

pub record Directory : Type 0 where
  pub target : Option File
  pub temp : Option File

-- The calls that can fail.
pub data Syscall : Type 0 where
  create_temp chmod write sync close rename remove : Syscall

-- What the operating system does: which calls fail, and what a failing write has written.
pub record Faults : Type 0 where
  pub fails : Syscall → Bool
  pub partial : Str

-- The directory now, and every directory there has been since the call began, latest first.
pub record Run : Type 0 where
  pub now : Directory
  pub seen : List Directory

pub data Outcome : Type 0 where
  done : Run → Outcome
  failed : Syscall → Run → Outcome

infixl 5 ◌>>=◌
abbrev ◌>>=◌ : Outcome → (Run → Outcome) → Outcome
done r >>= f = f r
failed c r >>= f = failed c r

abbrev visit : Directory → Run → Run
visit d r = record { now = d; seen = d ∷ r.seen }

abbrev change : (File → File) → Option File → Option File
change f none = none
change f (some x) = some (f x)

-- One call: its effect if it succeeds, and if it fails.
abbrev call : Faults → Syscall → (Directory → Directory) → (Directory → Directory) → Run → Outcome
call o c works breaks r =
    if o.fails c then failed c (visit (breaks r.now) r) else done (visit (works r.now) r)

abbrev same : Directory → Directory
same d = d

-- os.CreateTemp makes an empty file of mode 0600.
abbrev creating : Directory → Directory
creating d = record d { temp = some (record { bytes = []; mode = 384; synced = false }) }

abbrev chmodding : ℕ → Directory → Directory
chmodding m d = record d { temp = change (λ f. record f { mode = m }) d.temp }

abbrev writing : Str → Directory → Directory
writing s d = record d { temp = change (λ f. record f { bytes = s; synced = false }) d.temp }

abbrev syncing : Directory → Directory
syncing d = record d { temp = change (λ f. record f { synced = true }) d.temp }

-- A rename replaces the target in one step.
abbrev renaming : Directory → Directory
renaming d = record { target = d.temp; temp = none }

abbrev removing : Directory → Directory
removing d = record d { temp = none }

-- The deferred os.Remove, whose error is ignored.
abbrev clean_up : Faults → Outcome → Outcome
clean_up o (done r) = done (if o.fails remove then r else visit (removing r.now) r)
clean_up o (failed c r) = failed c (if o.fails remove then r else visit (removing r.now) r)

-- The calls between creating the temporary file and the return. A rename that fails leaves both
-- files. The final sync of the directory, whose errors are ignored, changes no file.
write_temp : Faults → Str → ℕ → Run → Outcome
write_temp o text mode r = do
  r ← call o chmod (chmodding mode) same r
  r ← call o write (writing text) (writing o.partial) r
  r ← call o sync syncing same r
  r ← call o close same same r
  call o rename renaming same r

unfoldable pub write_file_atomic : Faults → Str → ℕ → Run → Outcome
unfolding write_temp
write_file_atomic o text mode r =
    call o create_temp creating same r >>= λ r. clean_up o (write_temp o text mode r)

abbrev pub outcome_run : Outcome → Run
outcome_run (done r) = r
outcome_run (failed c r) = r

abbrev pub start : Directory → Run
start d = record { now = d; seen = [] }
