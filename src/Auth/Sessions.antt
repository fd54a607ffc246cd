-- ===== src/Auth/Sessions.antt =====
-- The life of a session.
use aerosol.Prelude.{
  ℕ, list_eq, nat_eq, ◌==◌, eq_iff, eq_refl, leb, ◌+◌, ◌/◌, ◌≤◌, ◌<◌, if◌then◌else◌, ◌≡◌, refl, ap,
  ◌∙◌, ◌≢◌, Bool, true, false, none, some, List, [], ◌∷◌, ◌++◌, arith, any, Elem, Distinct, map,
  find?, inl, inr, Text, delete_where, Bool-cases,
}
use aerosol.Prelude.Outcome.{answer_same, no_answer}
use aerosol.Auth.{
  User, Session, Tokens, session_ttl, microseconds, is_swept, has_user, swept_sessions,
  create_session, revoke_session, as_user, session_user, validate_session_token, ok,
}

-- A row that is left is found as before.
find?-delete_where-apart :
    (p q : Session → Bool) (rows : List Session)
    → ((s : Session) → p s ≡ true → q s ≡ false)
    → find? p (delete_where q rows) ≡ find? p rows
unfolding find? delete_where
find?-delete_where-apart p q [] h = refl
find?-delete_where-apart p q (s ∷ rows) h = ground (arith, h s, find?-delete_where-apart p q rows h)

find?-delete_where-same :
    (p : Session → Bool) (rows : List Session) → find? p (delete_where p rows) ≡ none
unfolding find? delete_where
find?-delete_where-same p [] = refl
find?-delete_where-same p (s ∷ rows) = ground (arith, find?-delete_where-same p rows)

find?-append_one :
    (p : Session → Bool) (rows : List Session) (s : Session)
    → (p s ≡ false → find? p (rows ++ s ∷ []) ≡ find? p rows)
      × (any p rows ≡ false → p s ≡ true → find? p (rows ++ s ∷ []) ≡ some s)
unfolding find? any
find?-append_one p [] s = ground arith
find?-append_one p (r ∷ rows) s = ground (arith, find?-append_one p rows s)

abbrev pub hashes_of : List Session → List Text
hashes_of rows = map (λ (s : Session). s.token_hash) rows

abbrev has_hash : Text → Session → Bool
has_hash hash s = s.token_hash == hash

find?-absent :
    (hash : Text) (q : Session → Bool) (rows : List Session)
    → ¬ Elem hash (hashes_of rows)
    → find? (has_hash hash) (delete_where q rows) ≡ none
unfolding find? delete_where
find?-absent hash q [] fresh = refl
find?-absent hash q (s ∷ rows) fresh =
    ground (arith, find?-absent hash q rows (λ m. fresh (inr m)), eq_iff s.token_hash hash, fresh)

-- A swept session has ended.
swept_ended :
    (now t : ℕ) (s : Session) → now ≤ t → is_swept now s ≡ true → leb t s.expires_at ≡ false
swept_ended now t s later swept =
    let below : s.expires_at / microseconds < now / microseconds = ground arith in
    let ended : s.expires_at < t = omega arith in ground arith

-- So the sweep changes no answer.
session_user-swept :
    (now t : ℕ) (users : List User) (hash : Text) (rows : List Session)
    → now ≤ t
    → Distinct (hashes_of rows)
    → session_user t users (find? (has_hash hash) (delete_where (is_swept now) rows))
      ≡ session_user t users (find? (has_hash hash) rows)
unfolding find? delete_where
session_user-swept now t users hash [] later d = refl
session_user-swept now t users hash (s ∷ rows) later d = elim (Bool-cases (is_swept now s)) [
  | inr kept ↦ elim (Bool-cases (has_hash hash s)) [
    | inl own ↦ rw kept (rw own refl)
    | inr other ↦ rw kept (rw other (session_user-swept now t users hash rows later d.1))
  ]
  | inl swept ↦ elim (Bool-cases (has_hash hash s)) [
    | inr other ↦ rw swept (rw other (session_user-swept now t users hash rows later d.1))
    | inl own ↦
        let same : s.token_hash ≡ hash = (eq_iff s.token_hash hash).0 own in
        let gone : find? (has_hash hash) (delete_where (is_swept now) rows) ≡ none =
          find?-absent hash (is_swept now) rows (rw same at d.0) in
        rw swept (rw own (rw gone (rw (swept_ended now t s later swept) refl)))
  ]
]

-- What a session that is opened gives: its token stands for the user until the session ends, and every
-- other token stands for what it did.
pub record IsOpened (digest : Text → Text) (now : ℕ) (token : Text) (user_id : ℕ)
    (db after : Tokens) : Type 0 where
  pub own :
      (t : ℕ)
      → validate_session_token digest t token after ≡ (
          if leb t (now + session_ttl)
          then as_user (find? (λ (u : User). u.user_id == user_id) db.users)
          else none)
  pub others :
      (other : Text) (t : ℕ)
      → digest other ≢ digest token
      → now ≤ t
      → validate_session_token digest t other after ≡ validate_session_token digest t other db

abbrev opened : (Text → Text) → ℕ → Text → ℕ → Session
opened digest now token user_id = record {
  token_hash = digest token;
  user_id = user_id;
  expires_at = now + session_ttl;
}

abbrev with_session : Tokens → List Session → Tokens
with_session db rows = record db { sessions = rows }

with_session-IsOpened :
    (digest : Text → Text) (now : ℕ) (token : Text) (user_id : ℕ) (db : Tokens)
    → Distinct (hashes_of db.sessions)
    → any (has_hash (digest token)) (swept_sessions now db) ≡ false
    → IsOpened digest now token user_id db
        (with_session db (swept_sessions now db ++ opened digest now token user_id ∷ []))
unfolding validate_session_token
with_session-IsOpened digest now token user_id db d fresh =
    let row = opened digest now token user_id in
    record {
      own = λ t.
          rw
            ((find?-append_one (has_hash (digest token)) (swept_sessions now db) row).1 fresh
              (eq_refl (digest token)))
            refl;
      others = λ other t apart later.
          let differs : has_hash (digest other) row ≡ false =
            ground (arith, eq_iff (digest token) (digest other)) in
          ap (session_user t db.users)
            ((find?-append_one (has_hash (digest other)) (swept_sessions now db) row).0 differs)
          ∙ session_user-swept now t db.users (digest other) db.sessions later d;
    }

-- A session that is opened stands for its user until four weeks later, and opening it changes the answer
-- for no other token, though it sweeps the sessions that have ended. Hashes of sessions are distinct,
-- and the clock does not go back.
pub create_session-IsOpened :
    (digest : Text → Text) (now : ℕ) (token : Text) (user_id : ℕ) (db after : Tokens)
    → Distinct (hashes_of db.sessions)
    → create_session digest now token user_id db ≡ ok after
    → IsOpened digest now token user_id db after
unfolding create_session
create_session-IsOpened digest now token user_id db after d e =
    elim (Bool-cases (any (has_hash (digest token)) (swept_sessions now db))) [
      | inl there ↦ absurd (no_answer (rw there at e))
      | inr fresh ↦ elim (Bool-cases (has_user user_id db.users)) [
        | inr nobody ↦ absurd (no_answer (rw fresh at (rw nobody at e)))
        | inl known ↦
            rw (answer_same (rw fresh at (rw known at e)))
              (with_session-IsOpened digest now token user_id db d fresh)
      ]
    ]

-- A token that is revoked stands for nobody, and every other token stands for what it did.
pub revoke_session_lem :
    (digest : Text → Text) (token : Text) (db : Tokens) (t : ℕ)
    → (validate_session_token digest t token (revoke_session digest token db) ≡ none)
      × ((other : Text)
          → digest other ≢ digest token
          → validate_session_token digest t other (revoke_session digest token db)
            ≡ validate_session_token digest t other db)
unfolding validate_session_token revoke_session
revoke_session_lem digest token db t = (
  ap (session_user t db.users) (find?-delete_where-same (has_hash (digest token)) db.sessions),
  (λ other apart. ap (session_user t db.users) (
      find?-delete_where-apart (has_hash (digest other)) (has_hash (digest token)) db.sessions
        (λ s own.
          ground (arith, eq_iff s.token_hash (digest other), eq_iff s.token_hash (digest token))))),
)
