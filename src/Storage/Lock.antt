-- ===== src/Storage/Lock.antt =====
-- src/storage/lock.ts: the lock file of a room and the processes that take it. A writer is one call of
-- `withWriterLock`. Between two calls of the file system any other writer may run, so that a step is one
-- such call with what is decided on it. What `isProcessAlive` finds is that the process has not died.
pub mod Takeover
use telegent.Base.{
  Text, codes, text_eq, text_eq→eq, text_eq_refl, text_eq_iff, text_eq_ne, ltb, leb, ◌==◌,
  if◌then◌else◌, ==_iff, Bool-cases, Option-cases, is_some, or_else, Result, ok, err, ◌>>=◌, ◌>>◌,
  guard, occurs, occurs-append, length, length-append, filter, find, any, all, All, All-append,
  All-map, All-filter, includes, ℕ, zero, suc, ◌+◌, ◌-◌, ◌*◌, ◌/◌, ◌%◌, ◌^◌, ◌≤◌, ◌<◌, max, min,
  ◌≡◌, refl, sym, ap, subst, ◌∙◌, ◌≢◌, ◌↔◌, ◌⊎◌, inl, inr, Bool, true, false, not, ◌&&◌, ◌||◌,
  Option, none, some, List, [], ◌∷◌, ◌++◌, map, arith,
}

pub record Writer : Type 0 where
  pub name : ℕ
  pub pid : ℕ
  pub started_at : ℕ

-- The file at the path: the writer that has created it, whether it has written its record, and `mtimeMs`.
pub record LockFile : Type 0 where
  pub owner : Writer
  pub written : Bool
  pub modified_at : ℕ

-- `judged` are the writers that have found the lock stale and are about to remove it.
pub record LockState : Type 0 where
  pub file : Option LockFile
  pub holders : List Writer
  pub judged : List Writer
  pub dead : List ℕ
  pub now : ℕ

pub record LockOptions : Type 0 where
  pub timeout_ms : ℕ
  pub stale_after_ms : ℕ

abbrev pub default_options : LockOptions
default_options = record { timeout_ms = 5000; stale_after_ms = 30000 }

abbrev pub is_process_alive : ℕ → LockState → Bool
is_process_alive pid s = not (any (λ d. d == pid) s.dead)

-- The decision of `removeStaleLock`: a record that is not there yet makes the lock malformed, which is
-- removed once it is old.
unfoldable pub is_stale : LockOptions → LockFile → LockState → Bool
is_stale o f s =
    if f.written
    then not (is_process_alive f.owner.pid s)
    else not (ltb s.now (f.modified_at + o.stale_after_ms))

abbrev pub timed_out : LockOptions → Writer → LockState → Bool
timed_out o w s = ltb (w.started_at + o.timeout_ms) s.now

abbrev pub drop_writer : Writer → List Writer → List Writer
drop_writer w ws = filter (λ v. not (v.name == w.name)) ws

abbrev pub is_in : Writer → List Writer → Bool
is_in w ws = any (λ v. v.name == w.name) ws

-- `open(lockPath, "wx")`
unfoldable pub opened : Writer → LockState → LockState
opened w s = record s {
  file = some (record { owner = w; written = false; modified_at = s.now });
  holders = w ∷ s.holders;
}

-- `handle.writeFile(…)`
unfoldable pub record_written : LockFile → LockState → LockState
record_written f s = record s { file = some (record f { written = true; modified_at = s.now }) }

-- `rm(lockPath)` of a stale lock, after which the writer tries again.
unfoldable pub stale_removed : Writer → LockState → LockState
stale_removed w s = record s { file = none; judged = drop_writer w s.judged }

-- The release, which removes whatever file stands at the path.
unfoldable pub released : Writer → LockState → LockState
released w s = record s { file = none; holders = drop_writer w s.holders }

abbrev pub survivors : ℕ → List Writer → List Writer
survivors pid ws = filter (λ v. not (v.pid == pid)) ws

-- A process that dies runs none of its writers any more; its lock file stays.
unfoldable pub died : ℕ → LockState → LockState
died pid s = record s {
  holders = survivors pid s.holders;
  judged = survivors pid s.judged;
  dead = pid ∷ s.dead;
}

-- The steps of the source.
pub data Step (o : LockOptions) : LockState → LockState → Type 0 where
  opens :
      (w : Writer) (s : LockState)
      → s.file ≡ none
      → is_process_alive w.pid s ≡ true
      → Step o s (opened w s)
  writes : (f : LockFile) (s : LockState) → s.file ≡ some f → Step o s (record_written f s)
  judges :
      (w : Writer) (f : LockFile) (s : LockState)
      → s.file ≡ some f
      → timed_out o w s ≡ false
      → is_stale o f s ≡ true
      → Step o s (record s { judged = w ∷ s.judged })
  removes : (w : Writer) (s : LockState) → is_in w s.judged ≡ true → Step o s (stale_removed w s)
  releases : (w : Writer) (s : LockState) → is_in w s.holders ≡ true → Step o s (released w s)
  dies : (pid : ℕ) (s : LockState) → Step o s (died pid s)
  passes : (ms : ℕ) (s : LockState) → Step o s (record s { now = s.now + ms })

pub data Reach (o : LockOptions) (s : LockState) : LockState → Type 0 where
  here : Reach o s s
  next : {t u : LockState} → Reach o s t → Step o t u → Reach o s u
