-- ===== src/Auth/Lifetime.antt =====
-- How long a session lasts, backend/internal/auth/session.go and postgres.go, over any sequence of
-- calls of the service.
use rock_paper_money.Postgres.Sql.{row_where, exists_where, update_where, delete_where}
use rock_paper_money.Prelude.Int.{◌+ℤ◌, ◌≤ℤ◌, ltb_ℤ, +ℤ_parts, int_eq}
use rock_paper_money.Prelude.{
  if◌then◌else◌, Bool-cases, Option-cases, All, nat_eq, bool_eq, string_eq, String, ◌≡◌, refl,
  subst, inl, inr, Bool, true, false, Option, none, some, List, [], ◌∷◌, ◌++◌, arith,
}
use rock_paper_money.Auth.{
  Checked, Session, session_idle_limit, session_absolute_limit, Sessions, has_digest,
  create_session, is_usable, seen, use_session, revoked, revoke_session, is_expired,
  delete_expired_sessions, TokenLibrary, session_digest, new_session, created, create, authenticate,
  revoke, cleanup, invalid_session, failed, accepted, refused,
}
use rock_paper_money.Application.{Time, Digest}

pub data SessionCall : Type 0 where
  creates : Option String → Option String → Time → String → SessionCall
  uses : String → Time → SessionCall
  revokes : String → Time → SessionCall
  cleans : Time → SessionCall

module _ (go : TokenLibrary) where
  -- The table after a call, whatever it answers.
  unfoldable pub performed : SessionCall → Sessions → Sessions
  unfolding create authenticate revoke cleanup
  performed (creates token csrf_token now account_id) sessions =
      (create go token csrf_token now account_id sessions).1
  performed (uses token now) sessions = (authenticate go token now sessions).1
  performed (revokes token now) sessions = (revoke go token now sessions).1
  performed (cleans now) sessions = (cleanup go now sessions).1

  unfoldable pub run : List SessionCall → Sessions → Sessions
  unfolding performed
  run [] sessions = sessions
  run (call ∷ calls) sessions = run calls (performed call sessions)

-- The limits of a session.
pub record IsBounded (s : Session) : Type 0 where
  pub idle_within : s.idle_expires_at ≤ℤ s.absolute_expires_at
  pub idle_limit : s.idle_expires_at ≤ℤ s.last_seen_at +ℤ session_idle_limit
  pub absolute_limit : s.absolute_expires_at ≡ s.created_at +ℤ session_absolute_limit

module _ {ℓ} {A : Type ℓ} (Q : A → Type ℓ) where
  pub update_where-All :
      (test : A → Bool) (f : A → A) (xs : List A)
      → ((x : A) → Q x → Q (f x))
      → All Q xs
      → All Q (update_where test f xs)
  unfolding update_where
  update_where-All test f [] k h = tt
  update_where-All test f (x ∷ xs) k h = (changed (test x), update_where-All test f xs k h.1)
    where
      changed : (b : Bool) → Q (if b then f x else x)
      changed true = k x h.0
      changed false = h.0

  kept-All : (b : Bool) (x : A) (xs : List A) → Q x → All Q xs → All Q (if b then xs else x ∷ xs)
  kept-All true x xs q h = h
  kept-All false x xs q h = (q, h)

  pub delete_where-All : (test : A → Bool) (xs : List A) → All Q xs → All Q (delete_where test xs)
  unfolding delete_where
  delete_where-All test [] h = tt
  delete_where-All test (x ∷ xs) h =
      kept-All (test x) x (delete_where test xs) h.0 (delete_where-All test xs h.1)

  pub append-All : (xs : List A) (x : A) → All Q xs → Q x → All Q (xs ++ x ∷ [])
  append-All [] x h q = (q, tt)
  append-All (y ∷ ys) x h q = (h.0, append-All ys x h.1 q)

  pub row_where-All :
      (test : A → Bool) (xs : List A) (x : A) → row_where test xs ≡ some x → All Q xs → Q x
  unfolding row_where
  row_where-All test [] x p h = absurd (ground (arith, p))
  row_where-All test (y ∷ ys) x p h = elim (Bool-cases (test y)) [
    | inl met ↦ (let first : y ≡ x = ground (arith, p, met) in subst Q first h.0)
    | inr unmet ↦ row_where-All test ys x (ground (arith, p, unmet)) h.1
  ]

row_where-test :
    (test : Session → Bool) (xs : List Session) (x : Session)
    → row_where test xs ≡ some x
    → test x ≡ true
unfolding row_where
row_where-test test [] x p = absurd (ground (arith, p))
row_where-test test (y ∷ ys) x p = elim (Bool-cases (test y)) [
  | inl met ↦ (let first : y ≡ x = ground (arith, p, met) in subst (λ z. test z ≡ true) first met)
  | inr unmet ↦ row_where-test test ys x (ground (arith, p, unmet))
]

usable_early :
    (digest : Digest) (now : Time) (s : Session)
    → is_usable digest now s ≡ true
    → ltb_ℤ now (seen now (now +ℤ session_idle_limit) s).absolute_expires_at ≡ true
unfolding is_usable seen
usable_early digest now s h = ground (arith, h)

seen_at : (now idle : Time) (s : Session) → (seen now idle s).last_seen_at ≡ now
unfolding seen
seen_at now idle s = refl

seen-IsBounded :
    (now : Time) (s : Session) → IsBounded s → IsBounded (seen now (now +ℤ session_idle_limit) s)
unfolding seen
seen-IsBounded now s h = record {
  idle_within = ground arith;
  idle_limit = ground arith;
  absolute_limit = h.absolute_limit;
}

revoked-IsBounded : (at : Time) (s : Session) → IsBounded s → IsBounded (revoked at s)
unfolding revoked
revoked-IsBounded at s h = record {
  idle_within = h.idle_within;
  idle_limit = h.idle_limit;
  absolute_limit = h.absolute_limit;
}

module _ (go : TokenLibrary) where
  new_session-IsBounded :
      (token csrf_token account_id : String) (now : Time)
      → IsBounded (new_session go token csrf_token account_id now)
  new_session-IsBounded token csrf_token account_id now = record {
    idle_within =
        omega (arith, +ℤ_parts now session_idle_limit, +ℤ_parts now session_absolute_limit);
    idle_limit = omega arith;
    absolute_limit = refl;
  }

  create-IsBounded :
      (token csrf_token : Option String) (now : Time) (account_id : String) (sessions : Sessions)
      → All IsBounded sessions
      → All IsBounded (create go token csrf_token now account_id sessions).1
  unfolding create create_session
  create-IsBounded none csrf_token now account_id sessions h = h
  create-IsBounded (some token) none now account_id sessions h = h
  create-IsBounded (some token) (some csrf_token) now account_id sessions h =
      inserted (exists_where (has_digest (go.digest_token token)) sessions)
    where
      s : Session
      s = new_session go token csrf_token account_id now

      inserted :
          (b : Bool)
          → All IsBounded
              (created go token csrf_token now (
                if b then (refused failed, sessions) else (
                  accepted tt,
                  sessions ++ new_session go token csrf_token account_id now ∷ [],
                ))).1
      inserted true = h
      inserted false =
          append-All IsBounded sessions _ h (new_session-IsBounded token csrf_token account_id now)

  option-IsBounded :
      {R X : Type 0} (o : Option X) (r : R × Sessions) (f : X → R × Sessions)
      → All IsBounded r.1
      → ((x : X) → All IsBounded (f x).1)
      → All IsBounded (elim o as (λ _. R × Sessions) [ none ↦ r | some x ↦ f x ]).1
  option-IsBounded none r f h k = h
  option-IsBounded (some x) r f h k = k x

  if-IsBounded :
      {R : Type 0} (b : Bool) (r s : R × Sessions)
      → All IsBounded r.1
      → All IsBounded s.1
      → All IsBounded (if b then r else s).1
  if-IsBounded true r s h k = h
  if-IsBounded false r s h k = k

  use_session-IsBounded :
      (digest : Digest) (now : Time) (sessions : Sessions)
      → All IsBounded sessions
      → All IsBounded (use_session digest now (now +ℤ session_idle_limit) sessions).1
  unfolding use_session
  use_session-IsBounded digest now sessions h =
      let later = seen now (now +ℤ session_idle_limit) in
      let used = update_where (is_usable digest now) later sessions in
      option-IsBounded {R = Checked Session} (row_where (is_usable digest now) sessions)
        (refused invalid_session, sessions) (λ s. (accepted (later s), used)) h
        (λ s.
          update_where-All IsBounded (is_usable digest now) later sessions (seen-IsBounded now) h)

  authenticate-IsBounded :
      (token : String) (now : Time) (sessions : Sessions)
      → All IsBounded sessions
      → All IsBounded (authenticate go token now sessions).1
  unfolding authenticate
  authenticate-IsBounded token now sessions h =
      option-IsBounded {R = Checked Session} (session_digest go token)
        (refused invalid_session, sessions)
        (λ digest. use_session digest now (now +ℤ session_idle_limit) sessions) h
        (λ digest. use_session-IsBounded digest now sessions h)

  revoke_session-IsBounded :
      (digest : Digest) (now : Time) (sessions : Sessions)
      → All IsBounded sessions
      → All IsBounded (revoke_session digest now sessions).1
  unfolding revoke_session
  revoke_session-IsBounded digest now sessions h =
      if-IsBounded {R = Checked (Unit {0})} (exists_where (has_digest digest) sessions)
        (accepted tt, update_where (has_digest digest) (revoked now) sessions)
        (refused invalid_session, sessions)
        (update_where-All IsBounded (has_digest digest) (revoked now) sessions
          (revoked-IsBounded now) h)
        h

  revoke-IsBounded :
      (token : String) (now : Time) (sessions : Sessions)
      → All IsBounded sessions
      → All IsBounded (revoke go token now sessions).1
  unfolding revoke
  revoke-IsBounded token now sessions h =
      option-IsBounded {R = Checked (Unit {0})} (session_digest go token)
        (refused invalid_session, sessions) (λ digest. revoke_session digest now sessions) h
        (λ digest. revoke_session-IsBounded digest now sessions h)

  performed-IsBounded :
      (call : SessionCall) (sessions : Sessions)
      → All IsBounded sessions
      → All IsBounded (performed go call sessions)
  unfolding performed cleanup delete_expired_sessions
  performed-IsBounded (creates token csrf_token now account_id) sessions h =
      create-IsBounded token csrf_token now account_id sessions h
  performed-IsBounded (uses token now) sessions h = authenticate-IsBounded token now sessions h
  performed-IsBounded (revokes token now) sessions h = revoke-IsBounded token now sessions h
  performed-IsBounded (cleans now) sessions h =
      delete_where-All IsBounded (is_expired now) sessions h

  run-IsBounded :
      (calls : List SessionCall) (sessions : Sessions)
      → All IsBounded sessions
      → All IsBounded (run go calls sessions)
  unfolding run
  run-IsBounded [] sessions h = h
  run-IsBounded (call ∷ calls) sessions h =
      run-IsBounded calls (performed go call sessions) (performed-IsBounded call sessions h)

  use_session-accepted :
      (digest : Digest) (now : Time) (sessions sessions' : Sessions) (s : Session)
      → All IsBounded sessions
      → use_session digest now (now +ℤ session_idle_limit) sessions ≡ (accepted s, sessions')
      → IsBounded s × (ltb_ℤ now s.absolute_expires_at ≡ true) × (s.last_seen_at ≡ now)
  unfolding use_session
  use_session-accepted digest now sessions sessions' s h p =
      elim (Option-cases (row_where (is_usable digest now) sessions)) [
        | inl missing ↦ absurd (ground (arith, p, missing))
        | inr (found, q) ↦
            (let same : seen now (now +ℤ session_idle_limit) found ≡ s = ground (arith, p, q) in
              subst
                (λ (x : Session).
                  IsBounded x × (ltb_ℤ now x.absolute_expires_at ≡ true) × (x.last_seen_at ≡ now))
                same
                (found_bounded (found)
                  (row_where-All IsBounded (is_usable digest now) sessions found q h)
                  (row_where-test (is_usable digest now) sessions found q)))
      ]
    where
      found_bounded :
          (x : Session)
          → IsBounded x
          → is_usable digest now x ≡ true
          → IsBounded (seen now (now +ℤ session_idle_limit) x)
            × (ltb_ℤ now (seen now (now +ℤ session_idle_limit) x).absolute_expires_at ≡ true)
            × ((seen now (now +ℤ session_idle_limit) x).last_seen_at ≡ now)
      found_bounded x k u = (
        seen-IsBounded now x k,
        usable_early digest now x u,
        seen_at now (now +ℤ session_idle_limit) x,
      )

  -- After any sequence of calls on an empty table, a session that authenticates was created less
  -- than thirty days before; it then expires idle a day later at most, and never after the thirty
  -- days.
  pub authenticate-IsFresh :
      (calls : List SessionCall) (token : String) (now : Time) (s : Session) (sessions : Sessions)
      → authenticate go token now (run go calls []) ≡ (accepted s, sessions)
      → (ltb_ℤ now (s.created_at +ℤ session_absolute_limit) ≡ true)
        × (s.idle_expires_at ≤ℤ now +ℤ session_idle_limit)
        × (s.idle_expires_at ≤ℤ s.created_at +ℤ session_absolute_limit)
  unfolding authenticate
  authenticate-IsFresh calls token now s sessions p =
      elim (Option-cases (session_digest go token)) [
        | inl missing ↦ absurd (ground (arith, p, missing))
        | inr (digest, q) ↦
            (let (bounded, early, at) =
                use_session-accepted digest now (run go calls []) sessions s
                  (run-IsBounded calls [] tt) (ground (arith, p, q)) in
              (
                subst (λ t. ltb_ℤ now t ≡ true) bounded.absolute_limit early,
                subst (λ t. s.idle_expires_at ≤ℤ t +ℤ session_idle_limit) at bounded.idle_limit,
                subst (λ t. s.idle_expires_at ≤ℤ t) bounded.absolute_limit bounded.idle_within,
              ))
      ]
