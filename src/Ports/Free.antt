-- ===== src/Ports/Free.antt =====
-- When a port is free, and what the two searches for one find.
use aerosol.Prelude.{
  ℕ, nat_eq, list_eq, ◌==◌, eq_iff, ◌≡◌, ap, sym, ◌∙◌, ◌≢◌, ◌↔◌, ◌⊎◌, inl, inr, Bool, true, false,
  not, ◌&&◌, Option, none, some, List, [], ◌∷◌, map, arith, Elem, Distinct, Text, any_complete,
  find?, find?_sound, find?-eq-none_iff, elem-filter, elem-map, All-elem, if◌then◌else◌, Bool-cases,
  Option-cases,
}
use aerosol.Db.{App, PortRow, Db}
use aerosol.Ports.{
  Host, main_port, port_is_bindable, main_ports, is_excluded, is_other, other_mappings, has_app,
  check_mappings, check_port_available,
}

-- No app but the excluded one has the port, neither as its own nor for a mapping, and the host can
-- bind it.
pub record IsFree (h : Host) (db : Db) (exclude : Option Text) (port : ℕ) : Type 0 where
  pub no_main : (a : App) → Elem a db.apps → a.local_port ≡ port → exclude ≡ some a.app_id
  pub no_mapping :
      (m : PortRow) → Elem m db.app_port_mappings → m.host_port ≡ port → exclude ≡ some m.app_id
  pub bindable : port_is_bindable h port ≡ true

-- What the schema keeps: ports of apps are distinct, and a mapping belongs to an app.
pub record IsConsistent (db : Db) : Type 0 where
  pub distinct : Distinct (main_ports db)
  pub linked :
      (m : PortRow)
      → Elem m db.app_port_mappings
      → (a : App) × Elem a db.apps × (a.app_id ≡ m.app_id)

is_excluded_sound :
    (exclude : Option Text) (app_id : Text)
    → is_excluded exclude app_id ≡ true
    → exclude ≡ some app_id
unfolding is_excluded
is_excluded_sound none app_id h = cc
is_excluded_sound (some e) app_id h = ground (arith, eq_iff e app_id)

is_excluded_complete :
    (exclude : Option Text) (app_id : Text)
    → exclude ≢ some []
    → exclude ≡ some app_id
    → is_excluded exclude app_id ≡ true
unfolding is_excluded
is_excluded_complete none app_id named e = cc
is_excluded_complete (some x) app_id named e = ground (arith, eq_iff x app_id, eq_iff x [], named)

is_other_complete :
    (exclude : Option Text) (app_id : Text)
    → exclude ≡ some app_id
    → is_other exclude app_id ≡ false
unfolding is_other
is_other_complete none app_id e = cc
is_other_complete (some x) app_id e = ground (arith, eq_iff app_id x)

is_other_sound :
    (exclude : Option Text) (app_id : Text)
    → is_other exclude app_id ≡ false
    → exclude ≡ some app_id
unfolding is_other
is_other_sound none app_id h = cc
is_other_sound (some e) app_id h = ground (arith, eq_iff app_id e)

-- A mapping stands among those of other apps, or its app is the excluded one.
pub other_or_excluded :
    (exclude : Option Text) (db : Db) (m : PortRow)
    → Elem m db.app_port_mappings
    → Elem m (other_mappings exclude db) ⊎ (exclude ≡ some m.app_id)
unfolding other_mappings
other_or_excluded exclude db m listed = elim (Bool-cases (is_excluded exclude m.app_id)) [
  | inl e ↦ inr (is_excluded_sound exclude m.app_id e)
  | inr e ↦ inl (
      (elem-filter (λ (q : PortRow). not (is_excluded exclude q.app_id)) m db.app_port_mappings).1
        (listed, ground arith))
]

-- Two apps with one port are the same app.
same_app :
    (apps : List App)
    → Distinct (map (λ (a : App). a.local_port) apps)
    → (a b : App) → Elem a apps
    → Elem b apps
    → a.local_port ≡ b.local_port
    → a ≡ b
same_app [] d a b m n e = elim m [ ]
same_app (c ∷ apps) d a b (inl p) (inl q) e = sym p ∙ q
same_app (c ∷ apps) d a b (inl p) (inr n) e = absurd (
    d.0 (rw (ap (λ (x : App). x.local_port) p ∙ e) (elem-map (λ (x : App). x.local_port) b apps n)))
same_app (c ∷ apps) d a b (inr m) (inl q) e = absurd (
    d.0 (
      rw (ap (λ (x : App). x.local_port) q ∙ sym e)
        (elem-map (λ (x : App). x.local_port) a apps m)))
same_app (c ∷ apps) d a b (inr m) (inr n) e = same_app apps d.1 a b m n e

has_app_of_linked :
    (db : Db) (m : PortRow) → IsConsistent db → Elem m db.app_port_mappings → has_app db m ≡ true
unfolding has_app
has_app_of_linked db m c listed =
    let (a, installed, same) = c.linked m listed in
    any_complete (λ (b : App). b.app_id == m.app_id) a db.apps installed
      ((eq_iff a.app_id m.app_id).1 same)

abbrev holds_port : Db → ℕ → PortRow → Bool
holds_port db port m = m.host_port == port && has_app db m

check_mappings_sound :
    (h : Host) (db : Db) (port : ℕ) (exclude : Option Text)
    → IsConsistent db
    → check_mappings h db port exclude ≡ none
    → ((m : PortRow) → Elem m db.app_port_mappings → m.host_port ≡ port → exclude ≡ some m.app_id)
      × (port_is_bindable h port ≡ true)
unfolding check_mappings
check_mappings_sound h db port exclude c e =
    let found : find? (holds_port db port) (other_mappings exclude db) ≡ none = ground arith in
    (
      λ m listed same. elim (other_or_excluded exclude db m listed) [
        | inl other ↦ cc (
          All-elem (λ q. holds_port db port q ≡ false) m (other_mappings exclude db)
              ((find?-eq-none_iff (holds_port db port) (other_mappings exclude db)).0 found) other,
          holds m listed same,
        )
        | inr own ↦ own
      ],
      ground arith,
    )
  where
    holds :
        (m : PortRow)
        → Elem m db.app_port_mappings
        → m.host_port ≡ port
        → holds_port db port m ≡ true
    holds m listed same = ground (arith, has_app_of_linked db m c listed)

check_mappings_complete :
    (h : Host) (db : Db) (port : ℕ) (exclude : Option Text)
    → exclude ≢ some []
    → IsFree h db exclude port
    → check_mappings h db port exclude ≡ none
unfolding check_mappings
check_mappings_complete h db port exclude named f =
    elim (Option-cases (find? (holds_port db port) (other_mappings exclude db))) [
      | inl missed ↦ ground (arith, f.bindable)
      | inr (m, found) ↦
          let (listed, holds) =
            find?_sound (holds_port db port) m (other_mappings exclude db) found in
          absurd (not_other m listed (ground arith))
    ]
  where
    not_other : (m : PortRow) → Elem m (other_mappings exclude db) → m.host_port ≡ port → ⊥
    not_other m listed same =
        let (there, other) =
          (elem-filter (λ (q : PortRow). not (is_excluded exclude q.app_id)) m
              db.app_port_mappings).0
            (unfold other_mappings in listed) in
        let own = is_excluded_complete exclude m.app_id named (f.no_mapping m there same) in
        cc (other, own)

abbrev at_port : ℕ → App → Bool
at_port port a = a.local_port == port

available_sound :
    (h : Host) (db : Db) (port : ℕ) (exclude : Option Text)
    → IsConsistent db
    → check_port_available h db port exclude ≡ none
    → IsFree h db exclude port
unfolding check_port_available
available_sound h db port exclude c e = elim (Option-cases (find? (at_port port) db.apps)) [
  | inl missed ↦
      let (no_mapping, bindable) =
        check_mappings_sound h db port exclude c (rw (missed, check_port_available) at e) in
      record {
        no_main = λ a m same. cc (
          All-elem (λ b. at_port port b ≡ false) a db.apps
              ((find?-eq-none_iff (at_port port) db.apps).0 missed) m,
          (eq_iff a.local_port port).1 same,
        );
        no_mapping = no_mapping;
        bindable = bindable;
      }
  | inr (a, found) ↦
      let (installed, same_port) = find?_sound (at_port port) a db.apps found in
      let (own, free) : (is_other exclude a.app_id ≡ false)
          × (check_mappings h db port exclude ≡ none) =
        own_port a (rw (found, check_port_available) at e) in
      let (no_mapping, bindable) = check_mappings_sound h db port exclude c free in
      record {
        no_main = λ b m same.
            let one : a ≡ b =
              same_app db.apps c.distinct a b installed m
                ((eq_iff a.local_port port).0 same_port ∙ sym same) in
            rw (← one) (is_other_sound exclude a.app_id own);
        no_mapping = no_mapping;
        bindable = bindable;
      }
]
  where
    own_port :
        (a : App)
        → (if is_other exclude a.app_id
            then some (main_port a.name)
            else check_mappings h db port exclude)
          ≡ none
        → (is_other exclude a.app_id ≡ false) × (check_mappings h db port exclude ≡ none)
    own_port a e = ground arith

available_complete :
    (h : Host) (db : Db) (port : ℕ) (exclude : Option Text)
    → exclude ≢ some []
    → IsFree h db exclude port
    → check_port_available h db port exclude ≡ none
unfolding check_port_available
available_complete h db port exclude named f =
    let mapped = check_mappings_complete h db port exclude named f in
    elim (Option-cases (find? (at_port port) db.apps)) [
      | inl missed ↦ rw (missed, check_port_available) mapped
      | inr (a, found) ↦
          let (installed, same) = find?_sound (at_port port) a db.apps found in
          let own =
            is_other_complete exclude a.app_id
              (f.no_main a installed ((eq_iff a.local_port port).0 same)) in
          rw (found, check_port_available) (rw own mapped)
    ]

-- `check_port_available` finds a port available exactly if it is free.
pub check_port_available_iff :
    (h : Host) (db : Db) (port : ℕ) (exclude : Option Text)
    → IsConsistent db
    → exclude ≢ some []
    → (check_port_available h db port exclude ≡ none) ↔ IsFree h db exclude port
check_port_available_iff h db port exclude c named =
    (available_sound h db port exclude c, available_complete h db port exclude named)
