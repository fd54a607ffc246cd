-- ===== src/Routing/Hosts.antt =====
-- The app that a hostname leads to.
use aerosol.Prelude.{
  nat_eq, list_eq, ◌==◌, eq_iff, ◌+◌, ◌-◌, ◌≤◌, ◌≡◌, ap, sym, ◌∙◌, ◌≢◌, inl, inr, true, false, some,
  List, [], ◌∷◌, ◌++◌, arith, length, length-append, take-append_length, Elem, contains,
  contains_iff, find?, find?_sound, Text, Option-cases, map, Distinct, All, All-elem, elem-map,
}
use aerosol.Db.{App, Db}
use aerosol.Domains.{Domain, name_no_port, host_no_port, owns, match, effective_domains}
use aerosol.Domains.Matching.{
  IsUnder, owns_sound, owns_complete, match_longest, match-eq-none_iff, same_name_of_length,
}
use aerosol.Routing.{find_app_by_name, app_label, get_app_on_domain, get_app_from_hostname}

-- Behind `label.zone` the slice leaves the label.
app_label-append : (label zone : Text) → app_label (label ++ b'.' ∷ zone) zone ≡ label
unfolding app_label
app_label-append label zone =
    let cut : length (label ++ b'.' ∷ zone) - (length zone + 1) ≡ length label =
      omega (arith, length-append label (b'.' ∷ zone)) in
    rw cut (take-append_length label (b'.' ∷ zone))

-- The host is the app's name, which has no dot, in front of the name of a configured domain.
pub record IsHostOf (db : Db) (host : Text) (a : App) : Type 0 where
  pub domain : Domain
  pub configured : Elem domain (effective_domains db)
  pub named : host_no_port host ≡ a.name ++ b'.' ∷ name_no_port domain
  pub no_dot : ¬ Elem b'.' a.name
  pub installed : Elem a db.apps

on_domain_sound :
    (db : Db) (host : Text) (d : Domain) (a : App)
    → IsUnder (name_no_port d) (host_no_port host)
    → Elem d (effective_domains db)
    → get_app_on_domain db host d ≡ some a
    → IsHostOf db host a
unfolding get_app_on_domain find_app_by_name
on_domain_sound db host d a (named, inl e) m h =
    cc (rw ((eq_iff (host_no_port host) (name_no_port d)).1 e) at h)
on_domain_sound db host d a (named, inr (t, e)) m h =
    let label = app_label (host_no_port host) (name_no_port d) in
    let cut : label ≡ t = rw e (app_label-append t (name_no_port d)) in
    let (dotless, hit) : (contains b'.' label ≡ false)
        × (find? (λ b. b.name == label) db.apps ≡ some a) =
      ground arith in
    let (installed, same) = find?_sound (λ b. b.name == label) a db.apps hit in
    let is_label : a.name ≡ label = (eq_iff a.name label).0 same in
    record {
      domain = d;
      configured = m;
      named = rw (is_label ∙ cut) e;
      no_dot = ground (arith, contains_iff b'.' label);
      installed = installed;
    }

-- A host that leads to an app is the app's name in front of a configured domain.
pub get_app_from_hostname_sound :
    (db : Db) (host : Text) (a : App) → get_app_from_hostname db host ≡ some a → IsHostOf db host a
unfolding get_app_from_hostname
get_app_from_hostname_sound db host a h = elim (Option-cases (match db host)) [
  | inl e ↦ cc (rw (e, get_app_from_hostname) at h)
  | inr (d, e) ↦
      let (listed, owner, _) = match_longest db host d e in
      on_domain_sound db host d a (owns_sound d host owner) listed
        (rw (e, get_app_from_hostname) at h)
]

find_app_by_name-eq-some :
    (a : App) (apps : List App)
    → Distinct (map (λ (b : App). b.name) apps)
    → Elem a apps
    → find? (λ b. b.name == a.name) apps ≡ some a
unfolding find?
find_app_by_name-eq-some a [] d m = elim m [ ]
find_app_by_name-eq-some a (b ∷ apps) d (inl e) = ground (arith, eq_iff b.name a.name)
find_app_by_name-eq-some a (b ∷ apps) d (inr m) =
    let other : b.name ≢ a.name = λ e. d.0 (rw e (elem-map (λ (c : App). c.name) a apps m)) in
    ground (arith, eq_iff b.name a.name, find_app_by_name-eq-some a apps d.1 m)

on_domain_complete :
    (db : Db) (host : Text) (d : Domain) (a : App)
    → Distinct (map (λ (b : App). b.name) db.apps)
    → Elem a db.apps
    → ¬ Elem b'.' a.name
    → host_no_port host ≡ a.name ++ b'.' ∷ name_no_port d
    → get_app_on_domain db host d ≡ some a
unfolding get_app_on_domain find_app_by_name
on_domain_complete db host d a distinct m no_dot e =
    let cut : app_label (host_no_port host) (name_no_port d) ≡ a.name =
      rw e (app_label-append a.name (name_no_port d)) in
    let longer : host_no_port host ≢ name_no_port d = λ q.
      absurd (omega (arith, ap length (sym e ∙ q), length-append a.name (b'.' ∷ name_no_port d))) in
    let found = find_app_by_name-eq-some a db.apps distinct m in
    rw cut
      (ground (arith, eq_iff (host_no_port host) (name_no_port d), contains_iff b'.' a.name, found))

-- The host that puts an app's dotless name in front of a configured domain leads to that app, if
-- app names are distinct and no configured domain that owns the host has a longer name.
pub get_app_from_hostname_complete :
    (db : Db) (host : Text) (d : Domain) (a : App)
    → Distinct (map (λ (b : App). b.name) db.apps)
    → Elem a db.apps
    → ¬ Elem b'.' a.name
    → Elem d (effective_domains db)
    → name_no_port d ≢ []
    → host_no_port host ≡ a.name ++ b'.' ∷ name_no_port d
    → All
        (λ c. owns c host ≡ true → length (name_no_port c) ≤ length (name_no_port d))
        (effective_domains db)
    → get_app_from_hostname db host ≡ some a
unfolding get_app_from_hostname
get_app_from_hostname_complete db host d a distinct m no_dot configured named e longest =
    elim (Option-cases (match db host)) [
      | inl none_owns ↦ cc (
        All-elem (λ c. owns c host ≡ false) d (effective_domains db)
            ((match-eq-none_iff db host).0 none_owns) configured,
        owner,
      )
      | inr (c, chosen) ↦
          let (listed, owned, longer) = match_longest db host c chosen in
          let same : name_no_port c ≡ name_no_port d =
            same_name_of_length (name_no_port c) (name_no_port d) (host_no_port host)
              (owns_sound c host owned) under
              (omega (
                arith,
                All-elem _ c (effective_domains db) longest listed owned,
                All-elem _ d (effective_domains db) longer configured owner,
              )) in
          rw (chosen, get_app_from_hostname)
            (on_domain_complete db host c a distinct m no_dot (rw same e))
    ]
  where
    under : IsUnder (name_no_port d) (host_no_port host)
    under = (named, inr (a.name, e))

    owner : owns d host ≡ true
    owner = owns_complete d host under
