-- ===== src/Session/Expiry.antt =====
-- Which sessions `Get` and `Has` show, and what refreshing, closing and creating do.
use Prim.Native.String.{String}
use cryp.Prelude.{
  ℕ, ◌+◌, ◌≤◌, ◌<◌, ◌≡◌, ◌↔◌, true, false, Bool-cases, inl, inr, some, arith, ltb, if◌then◌else◌,
}
use cryp.GoMap.{str_eq, lookup, lookup-insert}
use cryp.Session.{Session, Store, session_expiry, clone_keys, expired, get, has, refresh}

module _ (s : Store) (now : ℕ) (id : String) where
  -- `Get` finds a session exactly until and including the instant of its expiry.
  pub get_iff :
      (session : Session)
      → lookup id s.sessions ≡ some session
      → ((copy : Session) × ((get s now id).1 ≡ some copy)) ↔ (now ≤ session.expires_at)
  unfolding get clone_keys expired
  get_iff session found = elim (Bool-cases (ltb session.expires_at now)) [
    | inl late ↦ (λ h. absurd (ground (arith, h.1)), λ h. absurd (ground arith))
    | inr early ↦ (λ h. ground arith, λ h. (record session { keys = s.next }, ground arith))
  ]

  -- `Has` finds a session exactly before the instant of its expiry.
  pub has_iff :
      (session : Session)
      → lookup id s.sessions ≡ some session
      → str_eq id "" ≡ false
      → (has s now id ≡ true) ↔ (now < session.expires_at)
  unfolding has
  has_iff session found named = ground arith

  -- At the exact instant of its expiry a session is found by Get and denied by Has.
  pub boundary :
      (session : Session)
      → lookup id s.sessions ≡ some session
      → now ≡ session.expires_at
      → (has s now id ≡ false) × ((copy : Session) × ((get s now id).1 ≡ some copy))
  unfolding has
  boundary session found edge = (ground arith, (get_iff session found).1 (omega arith))

  -- Refresh of a stored session sets its expiry to a full session length from now and leaves
  -- every other session as it was.
  pub refresh_lem :
      (j : String) (session : Session)
      → lookup id s.sessions ≡ some session
      → lookup j (refresh s now id).sessions ≡ (
          if str_eq id j
          then some (record session { expires_at = now + session_expiry })
          else lookup j s.sessions)
  unfolding refresh
  refresh_lem j session found = rw (found, refresh) (lookup-insert id j _ s.sessions)
