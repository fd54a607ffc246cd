-- ===== src/Routing/Paths.antt =====
-- Which paths an app shows to everybody.
use aerosol.Prelude.{
  nat_eq, list_eq, ◌==◌, eq_iff, ◌≡◌, ◌↔◌, ◌⊎◌, inl, inr, Bool, true, ◌||◌, List, [], ◌∷◌, ◌++◌,
  arith, Elem, any, any_sound, any_complete, Text, rstrip, starts_with, starts_with_sound,
  starts_with-append, Bool-cases,
}
use aerosol.Db.{App}
use aerosol.Routing.{is_public_path}

-- The path is a declared public path, or lies below one that has lost its slashes at the end.
abbrev pub IsDeclared : List Text → Text → Type 0
IsDeclared public_paths path =
    (pp : Text) × Elem pp public_paths
    × ((path ≡ pp) ⊎ ((t : Text) × (path ≡ (rstrip b'/' pp ++ b'/' ∷ []) ++ t)))

-- `is_public_path` is true exactly for the declared public paths and what lies below them.
pub is_public_path_iff :
    (a : App) (path : Text) → (is_public_path a path ≡ true) ↔ IsDeclared a.public_paths path
unfolding is_public_path
is_public_path_iff a path = (to, from)
  where
    matches : Text → Bool
    matches pp = path == pp || starts_with path (rstrip b'/' pp ++ b'/' ∷ [])

    to : any matches a.public_paths ≡ true → IsDeclared a.public_paths path
    to h =
        let (pp, m, e) = any_sound matches a.public_paths h in
        elim (Bool-cases (path == pp)) [
          | inl same ↦ (pp, m, inl ((eq_iff path pp).0 same))
          | inr other ↦
              (pp, m, inr (starts_with_sound path (rstrip b'/' pp ++ b'/' ∷ []) (ground arith)))
        ]

    from : IsDeclared a.public_paths path → any matches a.public_paths ≡ true
    from (pp, m, inl e) = any_complete matches pp a.public_paths m (ground (arith, eq_iff path pp))
    from (pp, m, inr (t, e)) =
        let below : starts_with path (rstrip b'/' pp ++ b'/' ∷ []) ≡ true =
          rw e (starts_with-append (rstrip b'/' pp ++ b'/' ∷ []) t) in
        any_complete matches pp a.public_paths m (ground arith)
