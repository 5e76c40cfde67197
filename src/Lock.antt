-- ===== src/Lock.antt =====
-- src/aiops_k8s_agents/operation_lock.py: `TargetOperationLock`, as the steps of processes that share
-- the lock file of one target. A step is a call on the file; `read_text` and the `stat` that follows
-- it are one. The token of a process is its number, since tokens are unique.
pub mod Exclusion
pub mod Takeover
use aiops_research.Base.{
  ℕ, zero, suc, Bool, true, false, not, ◌&&◌, ◌||◌, ◌==◌, Option, none, some, List, [], ◌∷◌,
  if◌then◌else◌,
}

-- The lock file: created by a process that has yet to write to it, or with its owner written.
pub data Content : Type 0 where
  blank written : ℕ → Content

-- Where a process stands: about to open the file in its first or its second attempt, in
-- `_clear_stale_lock` before its first read, before its second one with the token of the first, and
-- before its `unlink`, in `__enter__` before its write, inside the `with`, and in `__exit__` before
-- its `unlink`.
pub data Phase : Type 0 where
  trying : Bool → Phase
  examining : Phase
  rechecking : Option ℕ → Phase
  clearing opened held leaving released refused : Phase

-- What a process finds out about the owner in the file when it examines it.
pub record Facts : Type 0 where
  pub same_host : Bool
  pub is_running : Bool
  pub is_expired : Bool

pub record LockEvent : Type 0 where
  pub process : ℕ
  pub facts : Facts

pub record System : Type 0 where
  pub file : Option Content
  pub phases : ℕ → Phase

-- `dead_local_process or expired_unknown_owner`; a file that cannot be parsed names no host.
abbrev pub is_stale : Facts → Content → Bool
is_stale f (blank i) = f.is_expired
is_stale f (written i) = (f.same_host && not f.is_running) || (not f.same_host && f.is_expired)

abbrev pub token_of : Option Content → Option ℕ
token_of none = none
token_of (some (blank i)) = none
token_of (some (written i)) = some i

abbrev pub same_token : Option ℕ → Option ℕ → Bool
same_token none none = true
same_token none (some j) = false
same_token (some i) none = false
same_token (some i) (some j) = i == j

abbrev pub is_written_by : ℕ → Option Content → Bool
is_written_by i f = same_token (token_of f) (some i)

abbrev pub is_blank_of : ℕ → Option Content → Bool
is_blank_of i none = false
is_blank_of i (some (blank j)) = j == i
is_blank_of i (some (written j)) = false

-- One step of process `i`, which stands at a phase: the file and the phase after it. The write goes
-- to the file that the process created, also if another one has taken its place.
unfoldable pub act : ℕ → Facts → Phase → Option Content → Option Content × Phase
act i f (trying again) none = (some (blank i), opened)
act i f (trying false) (some c) = (some c, examining)
act i f (trying true) (some c) = (some c, refused)
act i f examining none = (none, refused)
act i f examining (some c) =
    (some c, if is_stale f c then rechecking (token_of (some c)) else refused)
act i f (rechecking t) file = (file, if same_token (token_of file) t then clearing else refused)
act i f clearing file = (none, trying true)
act i f opened file = (if is_blank_of i file then some (written i) else file, held)
act i f held file = (file, if is_written_by i file then leaving else released)
act i f leaving file = (none, released)
act i f released file = (file, released)
act i f refused file = (file, refused)

abbrev pub put : ℕ → Phase → (ℕ → Phase) → ℕ → Phase
put i p phases j = if j == i then p else phases j

unfoldable pub step : LockEvent → System → System
unfolding act
step e s =
    let (file, p) = act e.process e.facts (s.phases e.process) s.file in
    record { file = file; phases = put e.process p s.phases }

unfoldable pub run : List LockEvent → System → System
unfolding step
run [] s = s
run (e ∷ es) s = run es (step e s)

-- Every process is about to enter.
abbrev pub start : Option Content → System
start file = record { file = file; phases = λ i. trying false }
