-- ===== src/HostMigrations/Runs.antt =====
-- openhost_system_agent/src/openhost_system_agent/migrations/runner.py: what a run leaves in the log.
use mathlib.Core.List.{append-nil, append_assoc}
use aerosol.Prelude.{
  ℕ, zero, suc, ◌+◌, ◌≤◌, ◌<◌, nat_eq, list_eq, ◌==◌, ltb, leb, eq_iff, if_elim, ◌≡◌, ◌≢◌, refl, ap,
  ◌∙◌, sym, inl, inr, true, not, Option, none, some, List, [], ◌∷◌, ◌++◌, arith, Elem, length, Text,
  Bool-cases,
}
use aerosol.Migrations.{versions_from}
use aerosol.HostMigrations.{
  MigrationLogEntry, JsonCodec, SystemMigration, System, Failure, migration_failed, Result,
  applied_all, err, entry_for, versions, is_valid_registry, last_version, latest_registry_version,
  onto_applied, read_log, current_host_version, logged, apply_pending, apply_system_migrations,
}
use aerosol.HostMigrations.Log.{IsOneLine, read_log-append_entry, current_host_version-append}

-- The versions count up by one.
abbrev pub CountsUp : ℕ → List ℕ → Type 0
CountsUp first [] = Unit
CountsUp first (v ∷ vs) = (v ≡ first) × CountsUp (suc first) vs

versions_from-CountsUp :
    (first n : ℕ) (vs : List ℕ) → vs ≡ versions_from first n → CountsUp first vs
unfolding versions_from
versions_from-CountsUp first n [] e = tt
versions_from-CountsUp first zero (v ∷ vs) e = cc
versions_from-CountsUp first (suc n) (v ∷ vs) e = (cc, versions_from-CountsUp (suc first) n vs (cc))

-- The entries of migrations that have succeeded.
abbrev pub successes : (ℕ → Text) → List ℕ → List MigrationLogEntry
successes now [] = []
successes now (v ∷ vs) = entry_for now v none ∷ successes now vs

pub current-successes :
    (now : ℕ → Text) (vs : List ℕ) (entries : List MigrationLogEntry) (current : ℕ)
    → current_host_version entries ≡ current
    → CountsUp (suc current) vs
    → current_host_version (entries ++ successes now vs) ≡ current + length vs
current-successes now [] entries current e c = rw (append-nil entries) (omega (arith, e))
current-successes now (v ∷ vs) entries current e (same, c) =
    let entry = entry_for now v none in
    let now_at : current_host_version (entries ++ entry ∷ []) ≡ suc current =
      current_host_version-append entries entry ∙ same in
    let rest = current-successes now vs (entries ++ entry ∷ []) (suc current) now_at c in
    rw (← append_assoc entries (entry ∷ []) (successes now vs)) (omega (arith, rest))

module _ {H : Type 0} (json : JsonCodec) (now : ℕ → Text) where
  -- The migrations take the host from the one state to the other, one after the other and without an error.
  abbrev pub Reaches : List (SystemMigration H) → H → H → Type 0
  Reaches [] before after = before ≡ after
  Reaches (m ∷ ms) before after = ((m.up before).1 ≡ none) × Reaches ms (m.up before).0 after

  abbrev pub Within : List (SystemMigration H) → List (SystemMigration H) → Type 0
  Within ms registry = (m : SystemMigration H) → Elem m ms → Elem m registry

  -- What a run comes to, from a host at `current` and up to a registry's last version.
  pub data Ran (registry : List (SystemMigration H)) (current highest : ℕ) (system : System H)
      : System H × Result → Type 0 where
    complete :
        (last : System H) (ms : List (SystemMigration H))
        → CountsUp (suc current) (versions ms)
        → Within ms registry
        → Reaches ms system.host last.host
        → current + length (versions ms) ≡ highest
        → read_log json last.log ≡ read_log json system.log ++ successes now (versions ms)
        → Ran registry current highest system (last, applied_all (versions ms))
    stopped :
        (last : System H) (before : H) (ms : List (SystemMigration H)) (m : SystemMigration H)
        (error : Text)
        → CountsUp (suc current) (versions ms)
        → Within ms registry
        → Reaches ms system.host before
        → Elem m registry
        → m.version ≡ suc (current + length (versions ms))
        → m.version ≤ highest
        → m.up before ≡ (last.host, some error)
        → read_log json last.log
          ≡ read_log json system.log
            ++ (successes now (versions ms) ++ entry_for now m.version (some error) ∷ [])
        → Ran registry current highest system (last, err (migration_failed m.version error))

  -- The entries that a registry's migrations make are one line each.
  abbrev pub WritesLines : List (SystemMigration H) → Type 0
  WritesLines registry =
      (m : SystemMigration H)
      → Elem m registry
      → (host : H) → IsOneLine json (entry_for now m.version (m.up host).1)

  read_logged :
      (m : SystemMigration H) (system : System H)
      → IsOneLine json (entry_for now m.version (m.up system.host).1)
      → read_log json (logged json now m system).log
        ≡ read_log json system.log ++ entry_for now m.version (m.up system.host).1 ∷ []
  unfolding logged
  read_logged m system one_line =
      let e = entry_for now m.version (m.up system.host).1 in
      read_log-append_entry json e system.log one_line

  up_logged :
      (m : SystemMigration H) (system : System H) (error : Text)
      → (m.up system.host).1 ≡ some error
      → m.up system.host ≡ ((logged json now m system).host, some error)
  unfolding logged
  up_logged m system error e = ap (λ (o : Option Text). ((m.up system.host).0, o)) e

  Ran-skip :
      {registry : List (SystemMigration H)} {current highest : ℕ} {system : System H}
      {end : System H × Result} (m : SystemMigration H)
      → Ran registry current highest system end
      → Ran (m ∷ registry) current highest system end
  Ran-skip m (complete last ms c within up e r) =
      complete last ms c (λ n l. inr (within n l)) up e r
  Ran-skip m (stopped last before ms n error c within up listed v top u r) =
      stopped last before ms n error c (λ k l. inr (within k l)) up (inr listed) v top u r

  with_first :
      (m : SystemMigration H) (ms registry : List (SystemMigration H))
      → Within ms registry
      → Within (m ∷ ms) (m ∷ registry)
  with_first m ms registry within n (inl e) = inl e
  with_first m ms registry within n (inr l) = inr (within n l)

  Ran-step :
      {registry : List (SystemMigration H)} {current highest : ℕ} {system mid : System H}
      {end : System H × Result} (m : SystemMigration H)
      → m.version ≡ suc current
      → (m.up system.host).1 ≡ none
      → mid.host ≡ (m.up system.host).0
      → read_log json mid.log ≡ read_log json system.log ++ entry_for now m.version none ∷ []
      → Ran registry m.version highest mid end
      → Ran (m ∷ registry) current highest system (onto_applied m.version end)
  Ran-step m next fine moved read (complete last ms c within up e r) =
      complete last (m ∷ ms) (next, rw (← next) c) (with_first m ms _ within)
        (fine, rw (← moved) up) (omega arith)
        (r
          ∙ ap (λ (l : List MigrationLogEntry). l ++ successes now (versions ms)) read
          ∙ append_assoc _ (entry_for now m.version none ∷ []) (successes now (versions ms)))
  Ran-step m next fine moved read (stopped last before ms n error c within up listed v top u r) =
      stopped last before (m ∷ ms) n error (next, rw (← next) c) (with_first m ms _ within)
        (fine, rw (← moved) up) (inr listed) (omega arith) top u
        (r
          ∙ ap
              (λ (l : List MigrationLogEntry).
                l ++ (successes now (versions ms) ++ entry_for now n.version (some error) ∷ []))
              read
          ∙ append_assoc _ (entry_for now m.version none ∷ [])
              (successes now (versions ms) ++ entry_for now n.version (some error) ∷ []))

  logged_host :
      (m : SystemMigration H) (system : System H)
      → (logged json now m system).host ≡ (m.up system.host).0
  unfolding logged
  logged_host m system = refl

  apply_pending-Ran :
      (registry : List (SystemMigration H)) (first current highest : ℕ) (system : System H)
      → WritesLines registry
      → CountsUp first (versions registry)
      → first ≤ suc current
      → suc current ≤ first + length registry
      → suc highest ≡ first + length registry
      → Ran registry current highest system (apply_pending json now registry current system)
  unfolding apply_pending
  apply_pending-Ran [] first current highest system one_line c low high end =
      complete system [] tt (λ m l. l) refl (omega arith)
        (sym (append-nil (read_log json system.log)))
  apply_pending-Ran (m ∷ registry) first current highest system one_line (v, c) low high end =
      elim (Bool-cases (leb m.version current)) [
        | inl old ↦ rw old (
            Ran-skip m (
              apply_pending-Ran registry (suc first) current highest system
                (λ n l. one_line n (inr l)) c (ground arith) (ground arith) (omega arith)))
        | inr due ↦ rw due (
            by_error (ground arith) (m.up system.host).1 refl (
              apply_pending-Ran registry (suc first) m.version highest (logged json now m system)
                (λ n l. one_line n (inr l)) c (omega arith) (omega arith) (omega arith)))
      ]
    where
      by_error :
          m.version ≡ suc current
          → (o : Option Text) → (m.up system.host).1 ≡ o
          → Ran registry m.version highest
              (logged json now m system)
              (apply_pending json now registry m.version (logged json now m system))
          → Ran (m ∷ registry) current highest system (elim o as (λ _. System H × Result) [
            | none ↦
                onto_applied m.version
                  (apply_pending json now registry m.version (logged json now m system))
            | some error ↦ (logged json now m system, err (migration_failed m.version error))
          ])
      by_error next none e later =
          Ran-step m next e (logged_host m system)
            (read_logged m system (one_line m (inl refl) system.host) ∙ rw e refl) later
      by_error next (some error) e later =
          stopped (logged json now m system) system.host [] m error tt (λ n l. absurd l) refl
            (inl refl) (omega arith) (omega arith) (up_logged m system error e)
            (read_logged m system (one_line m (inl refl) system.host) ∙ rw e refl)

  last_version-CountsUp :
      (first version : ℕ) (registry : List (SystemMigration H))
      → CountsUp first (versions registry)
      → suc version ≡ first
      → suc (last_version version registry) ≡ first + length registry
  unfolding last_version
  last_version-CountsUp first version [] c e = omega arith
  last_version-CountsUp first version (m ∷ registry) (v, c) e =
      ground (arith, last_version-CountsUp (suc first) m.version registry c (ap suc v))

  valid-CountsUp :
      (registry : List (SystemMigration H))
      → is_valid_registry registry ≡ true
      → CountsUp 2 (versions registry)
  unfolding is_valid_registry
  valid-CountsUp [] e = tt
  valid-CountsUp (m ∷ registry) e =
      versions_from-CountsUp 2 (length (m ∷ registry)) (versions (m ∷ registry))
        ((eq_iff (versions (m ∷ registry)) (versions_from 2 (length (m ∷ registry)))).0 e)

  -- A run of a registry that is in order, as root, on a host with a history that the code knows.
  pub record IsReady (registry : List (SystemMigration H)) (euid : ℕ) (system : System H)
      : Type 0 where
    pub valid : is_valid_registry registry ≡ true
    pub root : euid ≡ 0
    pub begun : current_host_version (read_log json system.log) ≢ 0
    pub known : current_host_version (read_log json system.log) ≤ latest_registry_version registry

  -- What a call comes to.
  pub data Called (registry : List (SystemMigration H)) (euid : ℕ) (system : System H)
      : System H × Result → Type 0 where
    refused :
        (failure : Failure)
        → ((version : ℕ) (error : Text) → failure ≢ migration_failed version error)
        → ¬ IsReady registry euid system
        → Called registry euid system (system, err failure)
    ran :
        {end : System H × Result}
        → IsReady registry euid system
        → Ran registry
            (current_host_version (read_log json system.log))
            (latest_registry_version registry)
            system
            end
        → Called registry euid system end

  -- The call either refuses, with nothing changed, for want of root, of a history, or of a registry that is in order and
  -- reaches up to the host's version; or it runs the migrations after the host's version,
  -- one by one without a gap: the host is then the one that they make in this order, each from the state that the one
  -- before it has left, and the log read afterwards is the old one with an entry for each. If one raises
  -- an error, the host is as that one leaves it, its entry with the error is the last, and no later migration is run.
  -- The entries take one line each.
  pub apply_system_migrations-Called :
      (registry : List (SystemMigration H)) (euid : ℕ) (system : System H)
      → WritesLines registry
      → Called registry euid system (apply_system_migrations json now registry euid system)
  unfolding apply_system_migrations latest_registry_version
  apply_system_migrations-Called registry euid system one_line =
      let current = current_host_version (read_log json system.log) in
      if_elim (Called registry euid system) (not (is_valid_registry registry))
        (λ bad. refused _ (λ v e h. cc) (λ r. let k = r.valid in ground arith))
        (λ fine.
          if_elim (Called registry euid system) (not (euid == 0))
            (λ user. refused _ (λ v e h. cc) (λ r. let k = r.root in ground (arith, eq_iff euid 0)))
            (λ root.
              if_elim (Called registry euid system) (current == 0)
                (λ fresh. refused _ (λ v e h. cc) (λ r. r.begun ((eq_iff current 0).0 fresh)))
                (λ begun.
                  if_elim (Called registry euid system)
                    (ltb (latest_registry_version registry) current)
                    (λ newer. refused _ (λ v e h. cc) (λ r. let k = r.known in ground arith))
                    (λ known.
                      let valid : is_valid_registry registry ≡ true = ground arith in
                      let counts = valid-CountsUp registry valid in
                      let top = last_version-CountsUp 2 1 registry counts refl in
                      let below : current ≤ latest_registry_version registry = ground arith in
                      ran
                        (record {
                          valid = valid;
                          root = ground (arith, eq_iff euid 0);
                          begun = ground (arith, eq_iff current 0);
                          known = below;
                        })
                        (apply_pending-Ran registry 2 current (latest_registry_version registry)
                          system one_line counts
                          (let positive : 0 < current = ground arith in omega arith)
                          (omega (arith, below, top)) (top))))))
