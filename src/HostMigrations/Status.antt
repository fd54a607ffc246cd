-- ===== src/HostMigrations/Status.antt =====
-- openhost_system_agent/src/openhost_system_agent/status.py: what the dashboard is told after a run.
use mathlib.Core.List.{append_assoc}
use aerosol.Prelude.{
  ℕ, suc, ◌+◌, ◌<◌, nat_eq, eq_iff, ◌≡◌, ◌≢◌, refl, ap, ◌∙◌, sym, Option, some, List, [], ◌∷◌, ◌++◌,
  arith, length, Text,
}
use aerosol.HostMigrations.{
  versions, MigrationLogEntry, JsonCodec, SystemMigration, System, migration_failed, Result,
  applied_all, err, entry_for, latest_registry_version, read_log, current_host_version,
  apply_system_migrations, behind, up_to_date, get_migration_status,
}
use aerosol.HostMigrations.Log.{current_host_version-append}
use aerosol.HostMigrations.Runs.{
  successes, current-successes, Ran, complete, stopped, Called, refused, ran, WritesLines,
  apply_system_migrations-Called, CountsUp,
}

current_of_stopped :
    (now : ℕ → Text) (vs : List ℕ) (entries : List MigrationLogEntry) (current version : ℕ)
    (error : Text)
    → current_host_version entries ≡ current
    → CountsUp (suc current) vs
    → current_host_version
        (entries ++ (successes now vs ++ entry_for now version (some error) ∷ []))
      ≡ current + length vs
current_of_stopped now vs entries current version error e c =
    rw (← append_assoc entries (successes now vs) (entry_for now version (some error) ∷ [])) (
      current_host_version-append (entries ++ successes now vs) (entry_for now version (some error))
      ∙ current-successes now vs entries current e c)

module _ {H : Type 0} (json : JsonCodec) (now : ℕ → Text)
    (registry : List (SystemMigration H)) where
  -- What the status says for each result of a run.
  abbrev pub Reports : System H × Result → Type 0
  Reports end =
      let status = get_migration_status json registry end.0.log in
      elim end.1 [
        | applied_all vs ↦
            (status.reason ≡ up_to_date) × (status.host_version ≡ latest_registry_version registry)
        | err failure ↦
            (version : ℕ) (error : Text)
            → failure ≡ migration_failed version error
            → (status.reason ≡ behind) × (suc status.host_version ≡ version)
      ]

  status_at :
      (log : Option Text) (current : ℕ)
      → current_host_version (read_log json log) ≡ current
      → current ≢ 0
      → ((current ≡ latest_registry_version registry)
          → (get_migration_status json registry log).reason ≡ up_to_date)
        × (current < latest_registry_version registry
            → (get_migration_status json registry log).reason ≡ behind)
        × ((get_migration_status json registry log).host_version ≡ current)
  unfolding get_migration_status
  status_at log current e begun = (
    λ same. ground (arith, eq_iff current 0),
    λ less. ground (arith, eq_iff current 0),
    ground (arith, eq_iff current 0),
  )

  Ran-Reports :
      {system : System H} {end : System H × Result}
      → current_host_version (read_log json system.log) ≢ 0
      → Ran json now registry
          (current_host_version (read_log json system.log))
          (latest_registry_version registry)
          system
          end
      → Reports end
  Ran-Reports {system} begun (complete last ms c within up top r) =
      let entries = read_log json system.log in
      let at =
        ap current_host_version r
        ∙ current-successes now (versions ms) entries (current_host_version entries) refl c in
      let (even, less, shown) = status_at last.log _ at (omega arith) in (even top, shown ∙ top)
  Ran-Reports {system} begun (stopped last before ms m failed_with c within up listed v top u r) =
      let entries = read_log json system.log in
      let at =
        ap current_host_version r
        ∙ current_of_stopped now (versions ms) entries (current_host_version entries) m.version
            failed_with refl c in
      let (even, less, shown) = status_at last.log _ at (omega arith) in
      λ version error same.
        let equal : m.version ≡ version = ground arith in
        (less (omega arith), ap suc shown ∙ sym v ∙ equal)

  -- After a run that has come to its end the status is "up to date" at the version that the code expects,
  -- and after one that a migration has broken off it is "behind", at the version right before that migration.
  pub get_migration_status-Reports :
      (euid : ℕ) (system : System H)
      → WritesLines json now registry
      → Reports (apply_system_migrations json now registry euid system)
  get_migration_status-Reports euid system one_line =
      go (apply_system_migrations-Called json now registry euid system one_line)
    where
      go : {end : System H × Result} → Called json now registry euid system end → Reports end
      go (refused failure other unready) = λ version error same. absurd (other version error same)
      go (ran ready run) = Ran-Reports ready.begun run
