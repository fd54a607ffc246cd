-- ===== src/Domains/Matching.antt =====
-- Which hosts a domain owns, and which domain `match` chooses.
use mathlib.Core.List.{append_assoc}
use aerosol.Prelude.{
  nat_eq, list_eq, ◌==◌, eq_iff, ◌≤◌, ◌≡◌, refl, ap, sym, ◌∙◌, ◌≢◌, ◌↔◌, ◌⊎◌, inl, inr, true, false,
  ◌&&◌, Option, none, some, List, [], ◌∷◌, ◌++◌, arith, length, length-append, Elem, All, Text,
  lower, before, ends_with, ends_with_sound, ends_with-append, before-lacks, before_of_lacks,
  lower_idem, Bool-cases, Option-cases, All-elem, if◌then◌else◌,
}
use aerosol.Db.{Db}
use aerosol.Domains.{
  Domain, name_no_port, host_no_port, owns, is_longer, match_loop, match, effective_domains,
}

-- The host `h` is the name `n`, or lies below it.
abbrev pub IsUnder : Text → Text → Type 0
IsUnder n h = (n ≢ []) × ((h ≡ n) ⊎ ((t : Text) × (h ≡ t ++ b'.' ∷ n)))

pub owns_sound :
    (d : Domain) (host : Text) → owns d host ≡ true → IsUnder (name_no_port d) (host_no_port host)
unfolding owns
owns_sound d host h =
    let named : name_no_port d ≢ [] = ground (arith, eq_iff (name_no_port d) []) in
    elim (Bool-cases (host_no_port host == name_no_port d)) [
      | inl same ↦ (named, inl ((eq_iff _ _).0 same))
      | inr other ↦ (
        named,
        inr (
            ends_with_sound (host_no_port host) (b'.' ∷ name_no_port d)
              (ground (arith, eq_iff (name_no_port d) []))),
      )
    ]

pub owns_complete :
    (d : Domain) (host : Text) → IsUnder (name_no_port d) (host_no_port host) → owns d host ≡ true
unfolding owns
owns_complete d host (named, inl e) =
    ground (arith, eq_iff (name_no_port d) [], eq_iff (host_no_port host) (name_no_port d))
owns_complete d host (named, inr (t, e)) =
    let below : ends_with (host_no_port host) (b'.' ∷ name_no_port d) ≡ true =
      rw e (ends_with-append t (b'.' ∷ name_no_port d)) in
    ground (arith, eq_iff (name_no_port d) [])

-- The answer of the loop that started with `best`.
record IsChosen (host : Text) (best : Option Domain) (domains : List Domain) (d : Domain)
    : Type 0 where
  listed : (best ≡ some d) ⊎ (Elem d domains × (owns d host ≡ true))
  longest :
      All (λ e. owns e host ≡ true → length (name_no_port e) ≤ length (name_no_port d)) domains
  over_best : (b : Domain) → best ≡ some b → length (name_no_port b) ≤ length (name_no_port d)

IsChosen-taken :
    (host : Text) (best : Option Domain) (e : Domain) (domains : List Domain) (d : Domain)
    → (owns e host && is_longer e best) ≡ true
    → IsChosen host (some e) domains d
    → IsChosen host best (e ∷ domains) d
unfolding is_longer
IsChosen-taken host best e domains d taken c = record {
  listed = ground (arith, c.listed);
  longest = (λ _. c.over_best e refl, c.longest);
  over_best = λ b eq. ground (arith, c.over_best e refl);
}

IsChosen-kept :
    (host : Text) (best : Option Domain) (e : Domain) (domains : List Domain) (d : Domain)
    → (owns e host && is_longer e best) ≡ false
    → IsChosen host best domains d
    → IsChosen host best (e ∷ domains) d
unfolding is_longer
IsChosen-kept host best e domains d kept c = record {
  listed = ground (arith, c.listed);
  longest = (kept_longest best c kept, c.longest);
  over_best = c.over_best;
}
  where
    kept_longest :
        (best : Option Domain)
        → IsChosen host best domains d
        → (owns e host && is_longer e best) ≡ false
        → owns e host ≡ true
        → length (name_no_port e) ≤ length (name_no_port d)
    kept_longest none c kept o = ground arith
    kept_longest (some b) c kept o = ground (arith, c.over_best b refl)

match_loop_sound :
    (host : Text) (best : Option Domain) (domains : List Domain) (d : Domain)
    → match_loop host best domains ≡ some d
    → IsChosen host best domains d
unfolding match_loop
match_loop_sound host best [] d h = record {
  listed = inl h;
  longest = tt;
  over_best = λ b e. ground arith;
}
match_loop_sound host best (e ∷ domains) d h = elim (Bool-cases (owns e host && is_longer e best)) [
  | inl taken ↦
      IsChosen-taken host best e domains d taken
        (match_loop_sound host (some e) domains d (rw taken at h))
  | inr kept ↦
      IsChosen-kept host best e domains d kept (match_loop_sound host best domains d (rw kept at h))
]

match_loop-eq-none :
    (host : Text) (best : Option Domain) (domains : List Domain)
    → match_loop host best domains ≡ none
    → (best ≡ none) × All (λ e. owns e host ≡ false) domains
unfolding match_loop
match_loop-eq-none host best [] h = (h, tt)
match_loop-eq-none host none (e ∷ domains) h = ground (
  arith,
  match_loop-eq-none host (if owns e host && is_longer e none then some e else none) domains,
)
match_loop-eq-none host (some b) (e ∷ domains) h = ground (
  arith,
  match_loop-eq-none host (if owns e host && is_longer e (some b) then some e else some b) domains,
)

-- `match` answers with a configured domain that owns the host, and no configured domain that owns
-- the host has a longer name.
pub match_longest :
    (db : Db) (host : Text) (d : Domain)
    → match db host ≡ some d
    → Elem d (effective_domains db)
      × (owns d host ≡ true)
      × All
          (λ e. owns e host ≡ true → length (name_no_port e) ≤ length (name_no_port d))
          (effective_domains db)
unfolding match
match_longest db host d h =
    let c = match_loop_sound host none (effective_domains db) d h in
    let (listed, owner) : Elem d (effective_domains db) × (owns d host ≡ true) =
      ground (arith, c.listed) in
    (listed, owner, c.longest)

-- `match` answers None exactly if no configured domain owns the host.
pub match-eq-none_iff :
    (db : Db) (host : Text)
    → (match db host ≡ none) ↔ All (λ d. owns d host ≡ false) (effective_domains db)
unfolding match
match-eq-none_iff db host = (
  λ h. (match_loop-eq-none host none (effective_domains db) h).1,
  λ h. no_owner h (Option-cases (match_loop host none (effective_domains db))),
)
  where
    no_owner :
        All (λ d. owns d host ≡ false) (effective_domains db)
        → (match_loop host none (effective_domains db) ≡ none)
          ⊎ ((d : Domain) × (match_loop host none (effective_domains db) ≡ some d))
        → match_loop host none (effective_domains db) ≡ none
    no_owner h (inl e) = e
    no_owner h (inr (d, e)) =
        let (listed, owner, _) = match_longest db host d e in
        cc (All-elem (λ d. owns d host ≡ false) d (effective_domains db) h listed)

-- Suffixes of equal length are equal.
append_cancel : (s t m n : Text) → s ++ m ≡ t ++ n → length m ≡ length n → m ≡ n
append_cancel [] [] m n e h = e
append_cancel (c ∷ s) (d ∷ t) m n e h = append_cancel s t m n (ground arith) h
append_cancel [] (d ∷ t) m n e h = absurd (omega (arith, ap length e, h, length-append t n))
append_cancel (c ∷ s) [] m n e h = absurd (omega (arith, ap length e, h, length-append s m))

under_suffix : (n h : Text) → IsUnder n h → (t : Text) × (h ≡ t ++ n)
under_suffix n h (named, inl e) = ([], e)
under_suffix n h (named, inr (t, e)) = (t ++ b'.' ∷ [], e ∙ sym (append_assoc t (b'.' ∷ []) n))

-- Two names of one length that own one host are the same.
pub same_name_of_length : (m n h : Text) → IsUnder m h → IsUnder n h → length m ≡ length n → m ≡ n
same_name_of_length m n h p q e =
    let (s, es) = under_suffix m h p in
    let (t, et) = under_suffix n h q in append_cancel s t m n (sym es ∙ et) e

lower-lacks_colon : (s : Text) → ¬ Elem b':' s → ¬ Elem b':' (lower s)
unfolding lower
lower-lacks_colon [] h = h
lower-lacks_colon (c ∷ s) h = ground (arith, lower-lacks_colon s)

pub host_no_port_idem : (host : Text) → host_no_port (host_no_port host) ≡ host_no_port host
unfolding host_no_port
host_no_port_idem host =
    let lacks : ¬ Elem b':' (lower (before b':' host)) =
      lower-lacks_colon (before b':' host) (before-lacks b':' host) in
    rw (before_of_lacks b':' (lower (before b':' host)) lacks) (lower_idem (before b':' host))
