-- ===== src/Storage/Lock/Takeover.antt =====
-- The takeover of a stale lock: who holds the lock when two writers find it stale.
use telegent.Base.{
  ◌==◌, ==_iff, Bool-cases, length, ℕ, ◌+◌, ◌≤◌, ◌<◌, ◌≡◌, refl, sym, ap, ◌∙◌, ◌⊎◌, inl, inr, true,
  false, none, some, [], ◌∷◌, arith,
}
use telegent.Storage.Lock.{
  Writer, LockFile, LockState, LockOptions, Step, Reach, opens, writes, judges, removes, releases,
  dies, passes, here, next, is_process_alive, is_stale, timed_out, drop_writer, is_in, opened,
  record_written, stale_removed, released, died, survivors,
}

-- A living writer writes its record before the file that it has created is old.
abbrev pub InTime : LockOptions → LockState → Type 0
InTime o s =
    (f : LockFile)
    → s.file ≡ some f
    → f.written ≡ false
    → is_process_alive f.owner.pid s ≡ true
    → s.now < f.modified_at + o.stale_after_ms

-- While a writer has found the lock stale, no step but the removal comes.
abbrev pub Uninterrupted : {o : LockOptions} {s t : LockState} → Step o s t → Type 0
Uninterrupted (opens w s free alive) = s.judged ≡ []
Uninterrupted (writes f s there) = s.judged ≡ []
Uninterrupted (judges w f s there waiting stale) = s.judged ≡ []
Uninterrupted (removes w s judged) = Unit
Uninterrupted (releases w s holds) = s.judged ≡ []
Uninterrupted (dies pid s) = s.judged ≡ []
Uninterrupted (passes ms s) = s.judged ≡ []

-- The runs of the source's steps that keep to both.
pub data ReachAtOnce (o : LockOptions) (s : LockState) : LockState → Type 0 where
  start : ReachAtOnce o s s
  after :
      {t u : LockState}
      → ReachAtOnce o s t
      → InTime o t
      → (step : Step o t u) → Uninterrupted step
      → ReachAtOnce o s u

-- No writer holds the lock, or the living one that has created the file does.
abbrev Held : LockState → Type 0
Held s =
    (s.holders ≡ [])
    ⊎ ((f : LockFile) × (s.file ≡ some f)
        × (s.holders ≡ f.owner ∷ [])
        × (is_process_alive f.owner.pid s ≡ true))

-- Who holds the lock, and that nobody does while a writer has found it stale.
abbrev Guarded : LockState → Type 0
Guarded s = Held s × ((s.judged ≡ []) ⊎ (s.holders ≡ []))

-- A stale lock is held by nobody.
stale-nobody :
    (o : LockOptions) (f : LockFile) (s : LockState)
    → s.file ≡ some f
    → InTime o s
    → is_stale o f s ≡ true
    → Held s
    → s.holders ≡ []
unfolding is_stale
stale-nobody o f s there in_time stale (inl nobody) = nobody
stale-nobody o g s there in_time stale (inr (f, there', one, lives)) =
    let same : g ≡ f = let e : _ = sym there ∙ there' in cc in
    let alive : is_process_alive g.owner.pid s ≡ true =
      ap (λ (k : LockFile). is_process_alive k.owner.pid s) same ∙ lives in
    elim (Bool-cases g.written) [
      | inl written ↦ absurd (ground (arith, stale, written, alive))
      | inr unwritten ↦ absurd (ground (arith, stale, unwritten, in_time g there unwritten alive))
    ]

opened-Held :
    (w : Writer) (s : LockState)
    → s.file ≡ none
    → is_process_alive w.pid s ≡ true
    → Held s
    → Held (opened w s)
unfolding opened
opened-Held w s free alive (inl nobody) = inr (
  record { owner = w; written = false; modified_at = s.now },
  refl,
  ap (λ ws. w ∷ ws) nobody,
  alive,
)
opened-Held w s free alive (inr (f, there, one, lives)) = cc

record_written-Held :
    (g : LockFile) (s : LockState) → s.file ≡ some g → Held s → Held (record_written g s)
unfolding record_written
record_written-Held g s there (inl nobody) = inl nobody
record_written-Held g s there (inr (f, there', one, lives)) =
    let same : g ≡ f = let e : _ = sym there ∙ there' in cc in
    inr (
      record g { written = true; modified_at = s.now },
      refl,
      one ∙ ap (λ (k : LockFile). k.owner ∷ []) (sym same),
      ap (λ (k : LockFile). is_process_alive k.owner.pid s) same ∙ lives,
    )

released-Held :
    (w : Writer) (s : LockState) → is_in w s.holders ≡ true → Held s → Held (released w s)
unfolding released
released-Held w s holds (inl nobody) = inl (ap (drop_writer w) nobody)
released-Held w s holds (inr (f, there, one, lives)) = elim (Bool-cases (f.owner.name == w.name)) [
  | inl same ↦ inl (ap (drop_writer w) one ∙ rw same refl)
  | inr other ↦ let absent : _ = rw other at (ap (is_in w) (sym one) ∙ holds) in cc
]

died-Held : (pid : ℕ) (s : LockState) → Held s → Held (died pid s)
unfolding died
died-Held pid s (inl nobody) = inl (ap (survivors pid) nobody)
died-Held pid s (inr (f, there, one, lives)) = elim (Bool-cases (f.owner.pid == pid)) [
  | inl same ↦ inl (ap (survivors pid) one ∙ rw same refl)
  | inr other ↦ inr (
    f,
    there,
    ap (survivors pid) one ∙ rw other refl,
    ground (arith, ==_iff f.owner.pid pid, ==_iff pid f.owner.pid, lives),
  )
]

judged-nobody :
    (w : Writer) (s : LockState)
    → is_in w s.judged ≡ true
    → (s.judged ≡ []) ⊎ (s.holders ≡ [])
    → s.holders ≡ []
judged-nobody w s judged (inl none_judged) =
    let no : _ = ap (is_in w) (sym none_judged) ∙ judged in cc
judged-nobody w s judged (inr nobody) = nobody

Step-Guarded :
    {o : LockOptions} {s t : LockState} (step : Step o s t)
    → InTime o s
    → Uninterrupted step
    → Guarded s
    → Guarded t
Step-Guarded (opens w s free alive) in_time calm (held, _) =
    (opened-Held w s free alive held, unfold opened in inl calm)
Step-Guarded (writes f s there) in_time calm (held, _) =
    (record_written-Held f s there held, unfold record_written in inl calm)
Step-Guarded {o} (judges w f s there waiting stale) in_time calm (held, _) =
    let nobody = stale-nobody o f s there in_time stale held in (inl nobody, inr nobody)
Step-Guarded (removes w s judged) in_time calm (held, guarded) =
    let nobody = judged-nobody w s judged guarded in
    unfold stale_removed in (inl nobody, inr nobody)
Step-Guarded (releases w s holds) in_time calm (held, _) =
    (released-Held w s holds held, unfold released in inl calm)
Step-Guarded (dies pid s) in_time calm (held, _) =
    (died-Held pid s held, unfold died in inl (ap (survivors pid) calm))
Step-Guarded (passes ms s) in_time calm (held, _) = (held, inl calm)

ReachAtOnce-Guarded :
    {o : LockOptions} {s t : LockState} → ReachAtOnce o s t → Guarded s → Guarded t
ReachAtOnce-Guarded start h = h
ReachAtOnce-Guarded (after r in_time step calm) h =
    Step-Guarded step in_time calm (ReachAtOnce-Guarded r h)

ReachAtOnce-Reach : {o : LockOptions} {s t : LockState} → ReachAtOnce o s t → Reach o s t
ReachAtOnce-Reach start = here
ReachAtOnce-Reach (after r in_time step calm) = next (ReachAtOnce-Reach r) step

one_holder : (t : LockState) → Held t → length t.holders ≤ 1
one_holder t (inl empty) = rw empty (omega arith)
one_holder t (inr (f, there, one, lives)) = rw one (omega arith)

-- In every run of the source's steps that starts with nobody holding the lock, and in which no step comes
-- between the reading of a stale lock and its removal, and no living writer leaves its file unwritten
-- until it is old, no two writers ever hold the lock, whatever processes die and in whatever order the
-- writers run.
pub takeover_at_once-exclusive :
    (o : LockOptions) (s t : LockState)
    → s.holders ≡ []
    → ReachAtOnce o s t
    → (length t.holders ≤ 1) × Reach o s t
takeover_at_once-exclusive o s t nobody r =
    (one_holder t (ReachAtOnce-Guarded r (inl nobody, inr nobody)).0, ReachAtOnce-Reach r)

-- Of two living writers that wait for a stale lock, both may come to hold it: the second to remove the
-- file removes the one that the first has created since.
pub takeover-shared :
    (o : LockOptions) (v w : Writer) (f : LockFile) (s : LockState)
    → s.file ≡ some f
    → is_stale o f s ≡ true
    → (timed_out o v s ≡ false) × (timed_out o w s ≡ false)
    → (is_process_alive v.pid s ≡ true) × (is_process_alive w.pid s ≡ true)
    → (v.name == w.name) ≡ false
    → (t : LockState) × Reach o s t × (t.holders ≡ v ∷ w ∷ s.holders) × (t.dead ≡ s.dead)
unfolding is_stale opened stale_removed
takeover-shared o v w f s there stale waiting alive other =
    let this_v : (v.name == v.name) ≡ true = ground (arith, ==_iff v.name v.name) in
    let this_w : (w.name == w.name) ≡ true = ground (arith, ==_iff w.name w.name) in
    let both : LockState = record s { judged = v ∷ w ∷ s.judged } in
    let mine : LockState = opened w (stale_removed w both) in
    (
      opened v (stale_removed v mine),
      next
          (next
            (next
              (next
                (next (next here (judges w f s there waiting.1 stale))
                  (judges v f (record s { judged = w ∷ s.judged }) there waiting.0 stale))
                (removes w both (rw other (rw this_w refl))))
              (opens w (stale_removed w both) refl alive.1))
            (removes v mine (rw other (rw this_v refl))))
          (opens v (stale_removed v mine) refl alive.0),
      refl,
      refl,
    )
