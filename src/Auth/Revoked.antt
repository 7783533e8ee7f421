-- ===== src/Auth/Revoked.antt =====
-- A revoked session stays out, backend/internal/auth/session.go and postgres.go.
use rock_paper_money.Application.{Time, Digest}
use rock_paper_money.Prelude.Dict.{is_some}
use rock_paper_money.Postgres.Sql.{row_where, exists_where, update_where, delete_where}
use rock_paper_money.Prelude.Int.{◌+ℤ◌, int_eq}
use rock_paper_money.Prelude.{
  if◌then◌else◌, Bool-cases, Option-cases, All, ◌==◌, ◌/=◌, nat_eq, bool_eq, string_eq, String, ◌≡◌,
  refl, subst, inl, inr, Bool, true, false, not, ◌&&◌, Option, none, some, List, [], ◌∷◌, ◌++◌,
  arith,
}
use rock_paper_money.Auth.Lifetime.{SessionCall, performed, run, creates, uses, revokes, cleans}
use rock_paper_money.Auth.{
  Checked, Session, session_idle_limit, Sessions, has_digest, create_session, is_usable, seen,
  use_session, revoked, revoke_session, is_expired, delete_expired_sessions, TokenLibrary,
  session_digest, new_session, created, create, authenticate, revoke, cleanup, invalid_session,
  failed, accepted, refused,
}

-- No session of a digest is left that has not been revoked.
abbrev pub is_open : Digest → Session → Bool
is_open digest s = s.digest == digest && not (is_some s.revoked_at)

abbrev pub IsOut : Digest → Sessions → Type 0
IsOut digest sessions = exists_where (is_open digest) sessions ≡ false

-- The call creates no session of the digest.
abbrev pub is_other_token : TokenLibrary → Digest → SessionCall → Bool
is_other_token go digest (creates (some token) csrf_token now account_id) =
    go.digest_token token /= digest
is_other_token go digest _ = true

module _ (digest : Digest) where
  update_where-IsOut :
      (test : Session → Bool) (f : Session → Session) (sessions : Sessions)
      → ((s : Session) → is_open digest (f s) ≡ true → is_open digest s ≡ true)
      → IsOut digest sessions
      → IsOut digest (update_where test f sessions)
  unfolding exists_where update_where
  update_where-IsOut test f [] k h = refl
  update_where-IsOut test f (s ∷ ss) k h = ground (arith, k s, update_where-IsOut test f ss k, h)

  delete_where-IsOut :
      (test : Session → Bool) (sessions : Sessions)
      → IsOut digest sessions
      → IsOut digest (delete_where test sessions)
  unfolding exists_where delete_where
  delete_where-IsOut test [] h = refl
  delete_where-IsOut test (s ∷ ss) h = ground (arith, delete_where-IsOut test ss, h)

  append-IsOut :
      (sessions : Sessions) (s : Session)
      → is_open digest s ≡ false
      → IsOut digest sessions
      → IsOut digest (sessions ++ s ∷ [])
  unfolding exists_where
  append-IsOut [] s p h = ground (arith, p)
  append-IsOut (t ∷ ts) s p h = ground (arith, append-IsOut ts s p, h)

  unusable :
      (now : Time) (sessions : Sessions)
      → IsOut digest sessions
      → row_where (is_usable digest now) sessions ≡ none
  unfolding exists_where row_where is_usable has_digest
  unusable now [] h = refl
  unusable now (s ∷ ss) h = ground (arith, unusable now ss, h)

  all_revoked :
      (at : Time) (sessions : Sessions)
      → IsOut digest (update_where (has_digest digest) (revoked at) sessions)
  unfolding exists_where update_where has_digest revoked
  all_revoked at [] = refl
  all_revoked at (s ∷ ss) = ground (arith, all_revoked at ss)

  none_there :
      (sessions : Sessions)
      → exists_where (has_digest digest) sessions ≡ false
      → IsOut digest sessions
  unfolding exists_where has_digest
  none_there [] h = refl
  none_there (s ∷ ss) h = ground (arith, none_there ss, h)

  revoke_session-IsOut :
      (at : Time) (sessions : Sessions) → IsOut digest (revoke_session digest at sessions).1
  unfolding revoke_session
  revoke_session-IsOut at sessions = revoked_rows (exists_where (has_digest digest) sessions) refl
    where
      revoked_rows :
          (b : Bool)
          → exists_where (has_digest digest) sessions ≡ b
          → IsOut digest
              (if◌then◌else◌ {A = Checked (Unit {0}) × Sessions} b
                (accepted tt, update_where (has_digest digest) (revoked at) sessions)
                (refused invalid_session, sessions)).1
      revoked_rows true p = all_revoked at sessions
      revoked_rows false p = none_there sessions p

  revoked-is_open :
      (at : Time) (s : Session) → is_open digest (revoked at s) ≡ true → is_open digest s ≡ true
  unfolding revoked
  revoked-is_open at s h = ground (arith, h)

  seen-is_open :
      (now idle : Time) (s : Session)
      → is_open digest (seen now idle s) ≡ true
      → is_open digest s ≡ true
  unfolding seen
  seen-is_open now idle s h = h

  module _ (go : TokenLibrary) where
    use_session-IsOut :
        (d : Digest) (now idle : Time) (sessions : Sessions)
        → IsOut digest sessions
        → IsOut digest (use_session d now idle sessions).1
    unfolding use_session
    use_session-IsOut d now idle sessions h = ground (
      arith,
      h,
      update_where-IsOut (is_usable d now) (seen now idle) sessions (seen-is_open now idle) h,
    )

    revoke_session_keeps :
        (d : Digest) (at : Time) (sessions : Sessions)
        → IsOut digest sessions
        → IsOut digest (revoke_session d at sessions).1
    unfolding revoke_session
    revoke_session_keeps d at sessions h =
        ground
          (arith, h, update_where-IsOut (has_digest d) (revoked at) sessions (revoked-is_open at) h)

    create-IsOut :
        (token csrf_token : Option String) (now : Time) (account_id : String) (sessions : Sessions)
        → is_other_token go digest (creates token csrf_token now account_id) ≡ true
        → IsOut digest sessions
        → IsOut digest (create go token csrf_token now account_id sessions).1
    unfolding create create_session
    create-IsOut none csrf_token now account_id sessions other h = h
    create-IsOut (some token) none now account_id sessions other h = h
    create-IsOut (some token) (some csrf_token) now account_id sessions other h =
        inserted (exists_where (has_digest (go.digest_token token)) sessions)
      where
        inserted :
            (b : Bool)
            → IsOut digest
                (created go token csrf_token now (
                  if b then (refused failed, sessions) else (
                    accepted tt,
                    sessions ++ new_session go token csrf_token account_id now ∷ [],
                  ))).1
        inserted true = h
        inserted false =
            append-IsOut sessions (new_session go token csrf_token account_id now)
              (ground (arith, other)) h

    performed-IsOut :
        (call : SessionCall) (sessions : Sessions)
        → is_other_token go digest call ≡ true
        → IsOut digest sessions
        → IsOut digest (performed go call sessions)
    unfolding performed authenticate revoke cleanup delete_expired_sessions
    performed-IsOut (creates token csrf_token now account_id) sessions other h =
        create-IsOut token csrf_token now account_id sessions other h
    performed-IsOut (uses token now) sessions other h =
        elim (Option-cases (session_digest go token)) [
          | inl missing ↦ ground (arith, missing, h)
          | inr (d, found) ↦
              ground (arith, found, use_session-IsOut d now (now +ℤ session_idle_limit) sessions h)
        ]
    performed-IsOut (revokes token now) sessions other h =
        elim (Option-cases (session_digest go token)) [
          | inl missing ↦ ground (arith, missing, h)
          | inr (d, found) ↦ ground (arith, found, revoke_session_keeps d now sessions h)
        ]
    performed-IsOut (cleans now) sessions other h = delete_where-IsOut (is_expired now) sessions h

    pub run-IsOut :
        (calls : List SessionCall) (sessions : Sessions)
        → All (λ call. is_other_token go digest call ≡ true) calls
        → IsOut digest sessions
        → IsOut digest (run go calls sessions)
    unfolding run
    run-IsOut [] sessions other h = h
    run-IsOut (call ∷ calls) sessions other h =
        run-IsOut calls (performed go call sessions) other.1
          (performed-IsOut call sessions other.0 h)

module _ (go : TokenLibrary) where
  pub revoke-IsOut :
      (token : String) (at : Time) (sessions sessions' : Sessions)
      → revoke go token at sessions ≡ (accepted tt, sessions')
      → IsOut (go.digest_token token) sessions'
  unfolding revoke session_digest
  revoke-IsOut token at sessions sessions' p = elim (Bool-cases (go.is_token token)) [
    | inl met ↦
        (let same : (revoke_session (go.digest_token token) at sessions).1 ≡ sessions' =
            ground (arith, p, met) in
          subst (IsOut (go.digest_token token)) same
            (revoke_session-IsOut (go.digest_token token) at sessions))
    | inr unmet ↦ absurd (ground (arith, p, unmet))
  ]

  pub authenticate_out :
      (token : String) (now : Time) (sessions : Sessions)
      → IsOut (go.digest_token token) sessions
      → authenticate go token now sessions ≡ (refused invalid_session, sessions)
  unfolding authenticate session_digest use_session
  authenticate_out token now sessions h =
      ground (arith, unusable (go.digest_token token) now sessions h)

  -- Once a token has been revoked it authenticates no more, at any time and after any further
  -- calls, unless one of them creates a session of the same digest.
  pub revoke-IsFinal :
      (token : String) (at now : Time) (sessions sessions' : Sessions) (calls : List SessionCall)
      → revoke go token at sessions ≡ (accepted tt, sessions')
      → All (λ call. is_other_token go (go.digest_token token) call ≡ true) calls
      → (authenticate go token now (run go calls sessions')).0 ≡ refused invalid_session
  revoke-IsFinal token at now sessions sessions' calls p other =
      let out =
        run-IsOut (go.digest_token token) go calls sessions' other
          (revoke-IsOut token at sessions sessions' p) in
      ground (arith, authenticate_out token now (run go calls sessions') out)
