-- ===== src/Migrations/Again.antt =====
-- A second run of the migrations, and a run in two releases.
use aerosol.Prelude.{
  ℕ, suc, nat_eq, list_eq, leb, ◌+◌, ◌≤◌, ◌≡◌, refl, ap, sym, ◌∙◌, ◌≢◌, ◌⊎◌, inl, inr, true, false,
  Option, none, List, [], ◌∷◌, ◌++◌, length, length-append, arith, Bool-cases, Option-cases,
}
use aerosol.Migrations.{
  Migration, Database, Result, done, validate_registry, highest_registered_version, read_version,
  apply, init_fresh, apply_pending, initialized, apply_under_lock, apply_migrations,
}
use aerosol.Migrations.Runner.{
  Contiguous, validate_registry-Contiguous, highest-Contiguous, IsVersioned, Upgrades, here, next,
  Outcome, complete, stopped, apply_pending-Runs, apply_under_lock-pending, apply_under_lock-fresh,
}

module _ {S : Type 0} where
  -- The database has tables, and the version that the code has last.
  pub record IsCurrent (registry : List (Migration S)) (db : Database S) : Type 0 where
    pub version : read_version db ≡ highest_registered_version registry
    pub tables : db.has_any_tables ≡ true

  Upgrades-tables :
      (registry : List (Migration S)) (db last : Database S)
      → Upgrades registry db last
      → db.has_any_tables ≡ true
      → last.has_any_tables ≡ true
  Upgrades-tables registry db last (here d) h = h
  Upgrades-tables registry db last (next d mid l step rest) h =
      Upgrades-tables registry mid last rest step.has_tables

  Outcome-done :
      (registry : List (Migration S)) (last : Database S) (result : Result)
      → Outcome registry last result
      → result ≡ done
      → read_version last ≡ highest_registered_version registry
  Outcome-done registry last result (complete e) h = e
  Outcome-done registry last result (stopped m l f u) h = cc

  init_fresh-done :
      (schema_sql : S → Option S) (highest : ℕ) (db : Database S)
      → (initialized (init_fresh schema_sql highest db)).1 ≡ done
      → (read_version (initialized (init_fresh schema_sql highest db)).0 ≡ highest)
        × ((initialized (init_fresh schema_sql highest db)).0.has_any_tables ≡ true)
  unfolding init_fresh read_version
  init_fresh-done schema_sql highest db e = elim (Option-cases (schema_sql db.tables)) [
    | inl raised ↦ cc
    | inr (tables, performed) ↦ rw (performed, init_fresh) (refl, refl)
  ]

  apply_under_lock-refused :
      (schema_sql : S → Option S) (registry : List (Migration S)) (highest : ℕ) (db : Database S)
      → (apply_under_lock schema_sql registry highest db).1 ≡ done
      → (read_version db ≤ highest) × ((db.has_any_tables ≡ false) ⊎ (read_version db ≢ 0))
  unfolding apply_under_lock
  apply_under_lock-refused schema_sql registry highest db e = ground arith

  apply_under_lock-done :
      (schema_sql : S → Option S) (registry : List (Migration S)) (db : Database S)
      → Contiguous 2 registry
      → (apply_under_lock schema_sql registry (highest_registered_version registry) db).1 ≡ done
      → IsCurrent registry
          (apply_under_lock schema_sql registry (highest_registered_version registry) db).0
  apply_under_lock-done schema_sql registry db c e =
      let highest = highest_registered_version registry in
      let (known, versioned) = apply_under_lock-refused schema_sql registry highest db e in
      elim (Bool-cases db.has_any_tables) [
        | inr fresh ↦
            let same = apply_under_lock-fresh schema_sql registry highest db known fresh in
            let (version, tables) = init_fresh-done schema_sql highest db (rw same at e) in
            rw same (record { version = version; tables = tables })
        | inl tables ↦
            let at_least : read_version db ≢ 0 = ground arith in
            let same =
              apply_under_lock-pending schema_sql registry highest db known tables at_least in
            let (upgrades, outcome) =
              apply_pending-Runs registry registry 2 (read_version db) db c (λ m x. x)
                (highest-Contiguous registry c) refl (omega arith) known in
            rw same (record {
              version = Outcome-done registry _ _ outcome (rw same at e);
              tables = Upgrades-tables registry db _ upgrades tables;
            })
      ]

  -- A run that succeeds leaves the database at the highest version, be it new or old.
  pub apply_migrations-IsCurrent :
      (schema_sql : S → Option S) (registry : List (Migration S)) (db : Database S)
      → (apply_migrations schema_sql registry db).1 ≡ done
      → IsCurrent registry (apply_migrations schema_sql registry db).0
  unfolding apply_migrations
  apply_migrations-IsCurrent schema_sql registry db e =
      elim (Option-cases (validate_registry registry)) [
        | inl valid ↦
            rw (valid, apply_migrations)
              (apply_under_lock-done schema_sql registry db
                (validate_registry-Contiguous registry valid) (rw (valid, apply_migrations) at e))
        | inr (f, bad) ↦ cc
      ]

  -- Migrations up to the version that the database has are passed over.
  apply_pending-nothing :
      (registry : List (Migration S)) (first current : ℕ) (db : Database S)
      → Contiguous first registry
      → first + length registry ≤ suc current
      → apply_pending registry current db ≡ (db, done)
  unfolding apply_pending
  apply_pending-nothing [] first current db c top = refl
  apply_pending-nothing (m ∷ registry) first current db (c, cs) top =
      let rest = apply_pending-nothing registry (suc first) current db cs (omega arith) in
      ground (arith, rest)

  apply_migrations-valid :
      (schema_sql : S → Option S) (registry : List (Migration S)) (db : Database S)
      → validate_registry registry ≡ none
      → apply_migrations schema_sql registry db
        ≡ apply_under_lock schema_sql registry (highest_registered_version registry) db
  unfolding apply_migrations
  apply_migrations-valid schema_sql registry db valid = rw (valid, apply_migrations) refl

  valid_of_done :
      (schema_sql : S → Option S) (registry : List (Migration S)) (db : Database S)
      → (apply_migrations schema_sql registry db).1 ≡ done
      → validate_registry registry ≡ none
  unfolding apply_migrations
  valid_of_done schema_sql registry db e = elim (Option-cases (validate_registry registry)) [
    | inl valid ↦ valid
    | inr (f, bad) ↦ cc
  ]

  -- After a run that succeeds another one changes nothing, and succeeds. So processes that start
  -- together, which the lock puts in some order, leave what the first one does.
  pub apply_migrations_idempotent :
      (schema_sql : S → Option S) (registry : List (Migration S)) (db after : Database S)
      → apply_migrations schema_sql registry db ≡ (after, done)
      → apply_migrations schema_sql registry after ≡ (after, done)
  apply_migrations_idempotent schema_sql registry db after e =
      let current : IsCurrent registry after =
        rw e at (apply_migrations-IsCurrent schema_sql registry db (ap (λ r. r.1) e)) in
      let valid = valid_of_done schema_sql registry db (ap (λ r. r.1) e) in
      let c = validate_registry-Contiguous registry valid in
      let top = highest-Contiguous registry c in
      apply_migrations-valid schema_sql registry after valid
      ∙ apply_under_lock-pending schema_sql registry (highest_registered_version registry) after
          (omega (arith, current.version)) current.tables (omega (arith, current.version))
      ∙ apply_pending-nothing registry 2 (read_version after) after c
          (omega (arith, current.version))

  apply-stamped :
      (m : Migration S) (db : Database S)
      → (apply m db).1 ≡ true
      → read_version (apply m db).0 ≡ m.version
  unfolding apply read_version
  apply-stamped m db applied = elim (Option-cases (m.up db.tables)) [
    | inl raised ↦ cc
    | inr (tables, performed) ↦ rw (performed, apply) refl
  ]

  -- A loop over two lists is one loop after the other.
  apply_pending-append :
      (old new : List (Migration S)) (current : ℕ) (db mid : Database S)
      → read_version db ≡ current
      → apply_pending old current db ≡ (mid, done)
      → apply_pending (old ++ new) current db ≡ apply_pending new (read_version mid) mid
  unfolding apply_pending
  apply_pending-append [] new current db mid at e =
      let same : db ≡ mid = ground arith in rw (← same) (rw at refl)
  apply_pending-append (m ∷ old) new current db mid at e =
      elim (Bool-cases (leb m.version current)) [
        | inl skip ↦ rw skip (apply_pending-append old new current db mid at (rw skip at e))
        | inr due ↦ elim (Bool-cases (apply m db).1) [
          | inl applied ↦ rw due (
              rw applied (
                apply_pending-append old new m.version (apply m db).0 mid
                  (apply-stamped m db applied) (rw due at (rw applied at e))))
          | inr raised ↦ ground arith
        ]
      ]

  -- A release that brings further migrations, on a database that had tables and a version before the earlier release
  -- ran: where that one succeeded, the new release ends with the same database and the same result behind it as it
  -- would without it. A database that the earlier release has set up is not meant. The longer registry is valid.
  pub apply_migrations_in_two :
      (schema_sql : S → Option S) (old new : List (Migration S)) (db mid : Database S)
      → IsVersioned db
      → validate_registry (old ++ new) ≡ none
      → apply_migrations schema_sql old db ≡ (mid, done)
      → apply_migrations schema_sql (old ++ new) mid ≡ apply_migrations schema_sql (old ++ new) db
  apply_migrations_in_two schema_sql old new db mid versioned valid e =
      let valid_old = valid_of_done schema_sql old db (ap (λ r. r.1) e) in
      let c = validate_registry-Contiguous old valid_old in
      let top_old = highest-Contiguous old c in
      let top = highest-Contiguous (old ++ new) (validate_registry-Contiguous (old ++ new) valid) in
      let grown : length (old ++ new) ≡ length old + length new = length-append old new in
      let current : IsCurrent old mid =
        rw e at (apply_migrations-IsCurrent schema_sql old db (ap (λ r. r.1) e)) in
      let under : apply_under_lock schema_sql old (highest_registered_version old) db
          ≡ (mid, done) =
        sym (apply_migrations-valid schema_sql old db valid_old) ∙ e in
      let (known, _) =
        apply_under_lock-refused schema_sql old (highest_registered_version old) db
          (ap (λ r. r.1) under) in
      let first_run =
        sym (
          apply_under_lock-pending schema_sql old (highest_registered_version old) db known
            versioned.tables versioned.version)
        ∙ under in
      let highest = highest_registered_version (old ++ new) in
      apply_migrations-valid schema_sql (old ++ new) mid valid
      ∙ apply_under_lock-pending schema_sql (old ++ new) highest mid
          (omega (arith, current.version)) current.tables (omega (arith, current.version))
      ∙ apply_pending-append old new (read_version mid) mid mid refl
          (apply_pending-nothing old 2 (read_version mid) mid c (omega (arith, current.version)))
      ∙ sym (apply_pending-append old new (read_version db) db mid refl first_run)
      ∙ sym (
          apply_under_lock-pending schema_sql (old ++ new) highest db (omega arith) versioned.tables
            versioned.version)
      ∙ sym (apply_migrations-valid schema_sql (old ++ new) db valid)
