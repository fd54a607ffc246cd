-- ===== src/Updates/Page.antt =====
-- openhost_system_agent/src/openhost_system_agent/updater/progress.py: what the page of the update sees.
use aerosol.Prelude.{
  nat_eq, list_eq, eq_iff, ◌≡◌, ◌≢◌, refl, ◌⊎◌, inl, inr, Bool, true, false, ◌||◌, Option, none,
  some, List, [], ◌∷◌, ◌++◌, arith, Text, Bool-cases, if_elim, is_empty,
}
use aerosol.Updates.Progress.{
  Line, blank, broken, other_json, object, ProgressEntry, read_entries, last_phase, has_phase,
  is_terminal, is_restarting, record_entry, mark_boot_complete, done_phase, failed_phase,
  restarting_phase,
}

-- The phase of the entry that the page sees last.
abbrev pub shown_phase : List Line → Option Text
shown_phase log = last_phase (read_entries log)

read_entries-append :
    (log : List Line) (entry : ProgressEntry)
    → read_entries (log ++ object entry ∷ []) ≡ read_entries log ++ entry ∷ []
unfolding read_entries
read_entries-append [] entry = refl
read_entries-append (blank ∷ log) entry = read_entries-append log entry
read_entries-append (broken ∷ log) entry = read_entries-append log entry
read_entries-append (other_json ∷ log) entry = read_entries-append log entry
read_entries-append (object first ∷ log) entry = ground (arith, read_entries-append log entry)

last_phase-append :
    (entries : List ProgressEntry) (entry : ProgressEntry)
    → last_phase (entries ++ entry ∷ []) ≡ entry.phase
unfolding last_phase
last_phase-append [] entry = refl
last_phase-append (first ∷ []) entry = refl
last_phase-append (first ∷ next ∷ entries) entry = last_phase-append (next ∷ entries) entry

pub shown_phase-append :
    (log : List Line) (entry : ProgressEntry) → shown_phase (log ++ object entry ∷ []) ≡ entry.phase
shown_phase-append log entry =
    rw (read_entries-append log entry) (last_phase-append (read_entries log) entry)

-- The page stops polling: the last entry says that the update is done, or that it failed.
abbrev pub IsFinal : List Line → Type 0
IsFinal log = (shown_phase log ≡ some done_phase) ⊎ (shown_phase log ≡ some failed_phase)

-- The log has entries, and the page is still polling.
abbrev pub IsOpen : List Line → Type 0
IsOpen log = (read_entries log ≢ []) × (¬ IsFinal log)

-- The log with an entry of the phase behind it.
abbrev pub ended_by : Text → List Line → List Line
ended_by phase log = log ++ object (record { phase = some phase; ref = none }) ∷ []

-- What becomes of the log when openhost has started.
pub data BootLog (apply_is_running writable : Bool) (log : List Line)
    : List Line × Bool → Type 0 where
  never_used : read_entries log ≡ [] → BootLog apply_is_running writable log (log, true)
  final_already : IsFinal log → BootLog apply_is_running writable log (log, true)
  now_done :
      writable ≡ true
      → shown_phase log ≡ some restarting_phase
      → shown_phase (ended_by done_phase log) ≡ some done_phase
      → BootLog apply_is_running writable log (ended_by done_phase log, true)
  left_to_the_walk :
      IsOpen log
      → shown_phase log ≢ some restarting_phase
      → apply_is_running ≡ true
      → BootLog apply_is_running writable log (log, true)
  now_failed :
      writable ≡ true
      → IsOpen log
      → shown_phase log ≢ some restarting_phase
      → apply_is_running ≡ false
      → shown_phase (ended_by failed_phase log) ≡ some failed_phase
      → BootLog apply_is_running writable log (ended_by failed_phase log, true)
  not_written :
      writable ≡ false
      → IsOpen log
      → (shown_phase log ≡ some restarting_phase) ⊎ (apply_is_running ≡ false)
      → BootLog apply_is_running writable log (log, false)

is_empty_sound : (entries : List ProgressEntry) → is_empty entries ≡ true → entries ≡ []
is_empty_sound [] h = refl
is_empty_sound (entry ∷ entries) h = cc

has_phase_sound : (phase : Text) (o : Option Text) → has_phase phase o ≡ true → o ≡ some phase
has_phase_sound phase none h = cc
has_phase_sound phase (some other) h = ground (arith, eq_iff other phase)

is_terminal_sound :
    (entries : List ProgressEntry)
    → is_terminal entries ≡ true
    → (last_phase entries ≡ some done_phase) ⊎ (last_phase entries ≡ some failed_phase)
unfolding is_terminal
is_terminal_sound entries h = elim (Bool-cases (has_phase done_phase (last_phase entries))) [
  | inl finished ↦ inl (has_phase_sound done_phase (last_phase entries) finished)
  | inr other ↦ inr (has_phase_sound failed_phase (last_phase entries) (ground arith))
]

has_phase_complete : (phase : Text) (o : Option Text) → o ≡ some phase → has_phase phase o ≡ true
has_phase_complete phase none h = cc
has_phase_complete phase (some other) h = ground (arith, eq_iff other phase)

IsOpen-log :
    (log : List Line)
    → (is_empty (read_entries log) || is_terminal (read_entries log)) ≡ false
    → IsOpen log
unfolding is_terminal
IsOpen-log log h =
    let done_shown = has_phase_complete done_phase (shown_phase log) in
    let failed_shown = has_phase_complete failed_phase (shown_phase log) in
    (
      (λ e. let k : is_empty (read_entries log) ≡ true = rw e refl in ground arith),
      (λ final. elim final [
        | inl e ↦ let k = done_shown e in ground arith
        | inr e ↦ let k = failed_shown e in ground arith
      ]),
    )

module _ (apply_is_running writable : Bool) (log : List Line) where
  finish_with :
      (phase : Text)
      → IsOpen log
      → (shown_phase log ≡ some restarting_phase) ⊎ (apply_is_running ≡ false)
      → (writable ≡ true
          → shown_phase (ended_by phase log) ≡ some phase
          → BootLog apply_is_running writable log (ended_by phase log, true))
      → (w : Bool) → writable ≡ w
      → BootLog apply_is_running writable log (record_entry w phase none log)
  unfolding record_entry
  finish_with phase opened why finished true e =
      finished e (shown_phase-append log (record { phase = some phase; ref = none }))
  finish_with phase opened why finished false e = not_written e opened why

  -- When openhost has started, a log whose last entry says "restarting" gets "done" behind it, and nothing else does.
  -- Any other log that holds entries and no end yet gets "failed" behind it, unless the walk is still running, which
  -- leaves it as it is. A log without entries or with an end stays. Where the file takes no append, the log stays and
  -- the answer is False.
  pub mark_boot_complete-BootLog :
      BootLog apply_is_running writable log (mark_boot_complete writable apply_is_running log)
  unfolding mark_boot_complete is_terminal is_restarting
  mark_boot_complete-BootLog =
      let entries = read_entries log in
      if_elim (BootLog apply_is_running writable log) (is_empty entries || is_terminal entries)
        (λ ended. elim (Bool-cases (is_empty entries)) [
          | inl empty ↦ never_used (is_empty_sound entries empty)
          | inr other ↦ final_already (is_terminal_sound entries (ground arith))
        ])
        (λ open_ended.
          let opened = IsOpen-log log open_ended in
          if_elim (BootLog apply_is_running writable log) (is_restarting entries)
            (λ restarting.
              let shown = has_phase_sound restarting_phase (last_phase entries) restarting in
              finish_with done_phase opened (inl shown) (λ takes last. now_done takes shown last)
                writable refl)
            (λ midway.
              let other : shown_phase log ≢ some restarting_phase =
                λ e. let k = has_phase_complete restarting_phase (last_phase entries) e in cc in
              if_elim (BootLog apply_is_running writable log) apply_is_running
                (λ running. left_to_the_walk opened other running)
                (λ gone.
                  finish_with failed_phase opened (inr gone)
                    (λ takes last. now_failed takes opened other gone last) writable refl)))
