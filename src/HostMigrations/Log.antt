-- ===== src/HostMigrations/Log.antt =====
-- openhost_system_agent/src/openhost_system_agent/migrations/migration_log.py: what is appended to the
-- log is read from it.
use mathlib.Core.Path.{subst}
use mathlib.Core.List.{reverse-append, append_assoc}
use aerosol.Prelude.{
  ℕ, nat_eq, list_eq, ◌==◌, eq_iff, if◌then◌else◌, ◌≡◌, ◌≢◌, ◌⊎◌, refl, ap, ◌∙◌, sym, inl, inr,
  Bool, true, false, not, ◌&&◌, Option, none, some, List, [], ◌∷◌, ◌++◌, arith, Text, strip,
  ends_with, ends_with_sound, onto_first, is_empty, all, Bool-cases,
}
use aerosol.HostMigrations.{
  MigrationLogEntry, entry, JsonCodec, is_break, lines_from, splitlines, entries_of, read_log,
  append_entry, current_host_version,
}

-- json.dumps escapes all control signs and what is not ASCII, so its text is one line with no blank
-- at its ends, and json.loads reads the entry from it again.
pub record IsOneLine (json : JsonCodec) (e : MigrationLogEntry) : Type 0 where
  pub unbroken : all (λ c. not (is_break c)) (json.dumps e) ≡ true
  pub trimmed : strip (json.dumps e) ≡ json.dumps e
  pub written : is_empty (json.dumps e) ≡ false
  pub loaded : json.loads (json.dumps e) ≡ entry e

lines_from-unbroken :
    (c : ℕ) (t : Text)
    → all (λ c. not (is_break c)) (c ∷ t) ≡ true
    → (cr : Bool) → lines_from cr ((c ∷ t) ++ 10 ∷ []) ≡ (c ∷ t) ∷ []
unfolding lines_from all
lines_from-unbroken c [] h cr = ground arith
lines_from-unbroken c (d ∷ t) h cr =
    ground (arith, lines_from-unbroken d t (ground arith) (c == 13))

onto_first-append :
    (c : ℕ) (xs ys : List Text) → xs ≢ [] → onto_first c (xs ++ ys) ≡ onto_first c xs ++ ys
onto_first-append c [] ys h = absurd (h refl)
onto_first-append c (x ∷ xs) ys h = refl

onto_first-ne-nil : (c : ℕ) (xs : List Text) → onto_first c xs ≢ []
onto_first-ne-nil c [] h = cc
onto_first-ne-nil c (x ∷ xs) h = cc

lines_from-ne-nil : (c : ℕ) (s : Text) → lines_from false (c ∷ s) ≢ []
unfolding lines_from
lines_from-ne-nil c s h = ground (arith, onto_first-ne-nil c (lines_from (c == 13) s))

lines_from_ne : (s t : Text) → lines_from false (s ++ 10 ∷ t) ≢ []
lines_from_ne [] t = lines_from-ne-nil 10 t
lines_from_ne (c ∷ s) t = lines_from-ne-nil c (s ++ 10 ∷ t)

not_cr : (c : ℕ) → is_break c ≡ false → (c == 13) ≡ false
unfolding is_break
not_cr c h = ground arith

-- A text that ends in a line feed is cut there.
lines_from-append :
    (cr : Bool) (s t : Text)
    → lines_from cr (s ++ 10 ∷ t) ≡ lines_from cr (s ++ 10 ∷ []) ++ lines_from false t
unfolding lines_from
lines_from-append true [] t = refl
lines_from-append false [] t = refl
lines_from-append cr (c ∷ s) t = elim (Bool-cases (cr && c == 10)) [
  | inl pair ↦ rw pair (lines_from-append (c == 13) s t)
  | inr single ↦ rw single (elim (Bool-cases (is_break c)) [
    | inl broken ↦ rw broken (ap (λ (l : List Text). [] ∷ l) (lines_from-append (c == 13) s t))
    | inr inner ↦
        rw (inner, not_cr c inner)
          (ap (onto_first c) (lines_from-append false s t)
            ∙ onto_first-append c (lines_from false (s ++ 10 ∷ [])) (lines_from false t)
                (lines_from_ne s []))
  ])
]

-- Behind any other text a line feed ends the last line, or adds an empty one.
lines_from-append_line :
    (cr : Bool) (c : ℕ) (s t : Text)
    → ends_with (c ∷ s) (10 ∷ []) ≡ false
    → (lines_from cr ((c ∷ s) ++ 10 ∷ t) ≡ lines_from cr (c ∷ s) ++ lines_from false t)
      ⊎ (lines_from cr ((c ∷ s) ++ 10 ∷ t) ≡ lines_from cr (c ∷ s) ++ [] ∷ lines_from false t)
unfolding lines_from ends_with
lines_from-append_line cr c [] t h =
    let apart : (c == 10) ≡ false = ground (arith, eq_iff (c ∷ []) (10 ∷ [])) in
    elim (Bool-cases (is_break c)) [
      | inl broken ↦ elim (Bool-cases (c == 13)) [
        | inl return ↦ inl (rw (broken, apart) (ground arith))
        | inr other ↦ inr (rw (broken, apart) (ground arith))
      ]
      | inr inner ↦ inl (rw (inner, apart) (ground (arith, not_cr c inner)))
    ]
lines_from-append_line cr c (d ∷ s) t h =
    let later : ends_with (d ∷ s) (10 ∷ []) ≡ false = ground arith in
    elim (Bool-cases (cr && c == 10)) [
      | inl pair ↦ rw pair (lines_from-append_line (c == 13) d s t later)
      | inr single ↦ rw single (elim (Bool-cases (is_break c)) [
        | inl broken ↦ rw broken (elim (lines_from-append_line (c == 13) d s t later) [
          | inl same ↦ inl (ap (λ (l : List Text). [] ∷ l) same)
          | inr more ↦ inr (ap (λ (l : List Text). [] ∷ l) more)
        ])
        | inr inner ↦
            let full = lines_from-ne-nil d s in
            rw (inner, not_cr c inner)
              (elim (lines_from-append_line false d s t later) [
                | inl same ↦ inl (
                    ap (onto_first c) same
                    ∙ onto_first-append c (lines_from false (d ∷ s)) (lines_from false t) full)
                | inr more ↦ inr (
                    ap (onto_first c) more
                    ∙ onto_first-append c (lines_from false (d ∷ s)) ([] ∷ lines_from false t) full)
              ])
      ])
    ]

module _ (json : JsonCodec) where
  entries_of-append :
      (xs ys : List Text) → entries_of json (xs ++ ys) ≡ entries_of json xs ++ entries_of json ys
  unfolding entries_of
  entries_of-append [] ys = refl
  entries_of-append (x ∷ xs) ys = ground (arith, entries_of-append xs ys)

  entries_of-entry :
      (e : MigrationLogEntry) → IsOneLine json e → entries_of json (json.dumps e ∷ []) ≡ e ∷ []
  unfolding entries_of
  entries_of-entry e one = rw (one.trimmed, one.written, one.loaded) refl

  lines-dumps :
      (e : MigrationLogEntry)
      → IsOneLine json e
      → lines_from false (json.dumps e ++ 10 ∷ []) ≡ json.dumps e ∷ []
  lines-dumps e one = go (json.dumps e) one.written one.unbroken
    where
      go :
          (d : Text)
          → is_empty d ≡ false
          → all (λ c. not (is_break c)) d ≡ true
          → lines_from false (d ++ 10 ∷ []) ≡ d ∷ []
      go [] full h = cc
      go (c ∷ t) full h = lines_from-unbroken c t h false

  -- The lines of the old text, perhaps an empty one, and the new line give the old entries and the new.
  read_behind :
      (e : MigrationLogEntry) (old pad : List Text)
      → IsOneLine json e
      → entries_of json pad ≡ []
      → entries_of json (old ++ (pad ++ json.dumps e ∷ [])) ≡ entries_of json old ++ e ∷ []
  read_behind e old pad one blank =
      entries_of-append old (pad ++ json.dumps e ∷ [])
      ∙ ap (λ (l : List MigrationLogEntry). entries_of json old ++ l)
          (entries_of-append pad (json.dumps e ∷ []) ∙ rw (blank, entries_of-entry e one) refl)

  no_lines : entries_of json [] ≡ []
  unfolding entries_of
  no_lines = refl

  read_behind_break :
      (e : MigrationLogEntry) (u : Text)
      → IsOneLine json e
      → entries_of json (lines_from false ((u ++ 10 ∷ []) ++ (json.dumps e ++ 10 ∷ [])))
        ≡ entries_of json (lines_from false (u ++ 10 ∷ [])) ++ e ∷ []
  read_behind_break e u one =
      let line = json.dumps e ++ 10 ∷ [] in
      rw (append_assoc u (10 ∷ []) line, lines_from-append false u line, lines-dumps e one)
        (read_behind e (lines_from false (u ++ 10 ∷ [])) [] one no_lines)

  blank_line : entries_of json ([] ∷ []) ≡ []
  unfolding entries_of strip
  blank_line = refl

  -- An entry that is appended to the log is read as its last, and the entries before it as they were, whether or
  -- not the file is there and ends in a line feed.
  pub read_log-append_entry :
      (e : MigrationLogEntry) (log : Option Text)
      → IsOneLine json e
      → read_log json (some (append_entry json e log)) ≡ read_log json log ++ e ∷ []
  unfolding read_log append_entry splitlines
  read_log-append_entry e none one =
      ap (entries_of json) (lines-dumps e one) ∙ entries_of-entry e one
  read_log-append_entry e (some []) one =
      ap (entries_of json) (lines-dumps e one) ∙ entries_of-entry e one
  read_log-append_entry e (some (c ∷ s)) one = elim (Bool-cases (ends_with (c ∷ s) (10 ∷ []))) [
    | inl ends ↦ rw ends (
        let (u, cut) = ends_with_sound (c ∷ s) (10 ∷ []) ends in
        subst
          (λ (l : Text).
            entries_of json (lines_from false (l ++ (json.dumps e ++ 10 ∷ [])))
            ≡ entries_of json (lines_from false l) ++ e ∷ [])
          (sym cut) (read_behind_break e u one))
    | inr open_line ↦
        rw open_line (elim (lines_from-append_line false c s (json.dumps e ++ 10 ∷ []) open_line) [
          | inl same ↦
              ap (entries_of json) same
              ∙ rw (lines-dumps e one) (read_behind e (lines_from false (c ∷ s)) [] one no_lines)
          | inr more ↦
              ap (entries_of json) more
              ∙ rw (lines-dumps e one)
                  (read_behind e (lines_from false (c ∷ s)) ([] ∷ []) one blank_line)
        ])
  ]

pub current_host_version-append :
    (entries : List MigrationLogEntry) (e : MigrationLogEntry)
    → current_host_version (entries ++ e ∷ [])
      ≡ (if e.success then e.version else current_host_version entries)
unfolding current_host_version
current_host_version-append entries e = rw (reverse-append entries (e ∷ [])) refl
