-- ===== src/Service/Retry.antt =====
-- The loops of `Create` and `Join`, backend/internal/room/application/service.go: what a caller's
-- credentials stand for.
use rock_paper_money.Prelude.{
  nat_eq, string_eq, bool_eq, ℕ, zero, suc, String, ◌≡◌, refl, ◌⊎◌, inl, inr, Bool, Option, none,
  some, List, arith,
}
use rock_paper_money.Prelude.Int.{int_eq}
use rock_paper_money.Failure.{Error, Fallible, duplicate_player, duplicate_room, ok, err}
use rock_paper_money.Room.{Room, new}
use rock_paper_money.Action.{Action, pure, lift, >>=-ok_elim}
use rock_paper_money.Application.{Time, Snapshot, Credentials, PresenceLease}
use rock_paper_money.Service.{
  Service, attempts, retried, is_duplicate_room, is_duplicate_player, presence_window, try_create,
  create, try_join, join,
}

module _ {S A : Type 0} where
  -- The two ways to go on after an attempt.
  attempt-cases :
      (r : Fallible (Option A) × S)
      → ((s : S) × (r ≡ (ok none, s)))
        ⊎ ((a : A) × (s : S) × (r ≡ (ok (some a), s)))
        ⊎ ((e : Error) × (s : S) × (r ≡ (err e, s)))
  attempt-cases (ok none, s) = inl (s, refl)
  attempt-cases (ok (some a), s) = inr (inl (a, s, refl))
  attempt-cases (err e, s) = inr (inr (e, s, refl))

  -- A loop that gives a value ends with an attempt that gave it.
  attempts-found :
      (n : ℕ) (e : Error) (m : Action S (Option A)) (s : S) (a : A) (s' : S)
      → attempts n e m s ≡ (ok a, s')
      → (s0 : S) × (m s0 ≡ (ok (some a), s'))
  unfolding attempts
  attempts-found zero e m s a s' h = absurd (ground arith)
  attempts-found (suc n) e m s a s' h = elim (attempt-cases (m s)) [
    | inl (s1, q) ↦ attempts-found n e m s1 a s' (ground arith)
    | inr (inl (b, s1, q)) ↦ (s, ground arith)
    | inr (inr (x, s1, q)) ↦ absurd (ground arith)
  ]

  -- An attempt that needs no other: its action gave the value.
  retried-some :
      (again : Error → Bool) (r : Fallible A × S) (a : A) (s' : S)
      → retried again r ≡ (ok (some a), s')
      → r ≡ (ok a, s')
  retried-some again (ok b, s) a s' h = ground arith
  retried-some again (err e, s) a s' h = absurd (ground arith)

module _ {S : Type 0} (sv : Service S) where
  open sv use {repository, library}

  -- The room of these credentials is the one that the repository created for the account, with
  -- the digest of their token, by the call that left the world as it is.
  abbrev pub IsCreated : String → Credentials → S → Type 0
  IsCreated auth_user_id c s' =
      (r : Room) × (snap : Snapshot) × (s : S) × (r.code ≡ c.room_code)
      × (repository.create r (library.digest_token c.player_token) auth_user_id s ≡ (ok snap, s'))

  new-code :
      (code id : String) (s : S) (r : Room) (s' : S)
      → lift (new code id) s ≡ (ok r, s')
      → r.code ≡ code
  unfolding new
  new-code code id s r s' h = ground arith

  -- What the last steps of an attempt, on a room that the repository took, say of the credentials.
  made-IsCreated :
      (auth_user_id code token : String) (r : Room) (s : S) (o : Option Snapshot) (s1 : S)
      (c : Credentials) (s' : S)
      → r.code ≡ code
      → retried is_duplicate_room (repository.create r (library.digest_token token) auth_user_id s)
        ≡ (ok o, s1)
      → pure
          (elim o [
            | none ↦ none
            | some _ ↦ some (record { room_code = code; player_token = token })
          ])
          s1
        ≡ (ok (some c), s')
      → IsCreated auth_user_id c s'
  made-IsCreated auth_user_id code token r s none s1 c s' e q h = absurd (ground arith)
  made-IsCreated auth_user_id code token r s (some snap) s1 c s' e q h =
      let p =
        retried-some is_duplicate_room
          (repository.create r (library.digest_token token) auth_user_id s) snap s1 q in
      (r, snap, s, ground arith, ground arith)

  try_create-IsCreated :
      (auth_user_id : String) (s0 : S) (c : Credentials) (s' : S)
      → try_create sv auth_user_id s0 ≡ (ok (some c), s')
      → IsCreated auth_user_id c s'
  unfolding try_create
  try_create-IsCreated auth_user_id s0 c s' h0 = >>=-ok_elim _ _ s0 h0 (λ code s1 _ h1.
      >>=-ok_elim _ _ s1 h1 (λ x s2 _ h2. >>=-ok_elim _ _ s2 h2 (λ r s3 q h3.
        >>=-ok_elim _ _ s3 h3 (λ o s4 q' h4.
          made-IsCreated auth_user_id code x.0 r s3 o s4 c s' (new-code code x.1 s2 r s3 q) q'
            h4))))

  -- `Create` that hands out credentials: its last step was the repository's creation of the room
  -- with that code, for that account, under the digest of that token, and the world is as that
  -- creation left it.
  pub create-IsCreated :
      (auth_user_id : String) (s : S) (c : Credentials) (s' : S)
      → create sv auth_user_id s ≡ (ok c, s')
      → IsCreated auth_user_id c s'
  unfolding create
  create-IsCreated auth_user_id s c s' h = >>=-ok_elim _ _ s h (λ _ s1 _ h1.
      >>=-ok_elim _ _ s1 h1 (λ _ s2 _ h2. >>=-ok_elim _ _ s2 h2 (λ _ s3 _ h3.
        let (s4, q) = attempts-found 8 duplicate_room (try_create sv auth_user_id) s3 c s' h3 in
        try_create-IsCreated auth_user_id s4 c s' q)))

  -- The seat of these credentials is the one that the repository gave the account in the room
  -- with this code, under the digest of their token.
  abbrev pub IsJoined : String → String → Credentials → S → Type 0
  IsJoined code auth_user_id c s' =
      (id : String) × (t : Time) × (joined : Snapshot × List PresenceLease) × (s : S) × (c.room_code
        ≡ code)
      × (repository.join_funded code id (library.digest_token c.player_token) auth_user_id
            (presence_window sv t) s
          ≡ (ok joined, s'))

  -- What the last steps of an attempt say of the credentials.
  made-IsJoined :
      (code auth_user_id token id : String) (t : Time) (s : S)
      (o : Option (Snapshot × List PresenceLease)) (s1 : S) (c : Credentials) (s' : S)
      → retried is_duplicate_player (
          repository.join_funded code id
            (library.digest_token token)
            auth_user_id
            (presence_window sv t)
            s)
        ≡ (ok o, s1)
      → pure
          (elim o [
            | none ↦ none
            | some _ ↦ some (record { room_code = code; player_token = token })
          ])
          s1
        ≡ (ok (some c), s')
      → IsJoined code auth_user_id c s'
  made-IsJoined code auth_user_id token id t s none s1 c s' q h = absurd (ground arith)
  made-IsJoined code auth_user_id token id t s (some v) s1 c s' q h =
      let p =
        retried-some is_duplicate_player
          (repository.join_funded code id (library.digest_token token) auth_user_id
            (presence_window sv t) s)
          v s1 q in
      (id, t, v, s, ground arith, ground arith)

  try_join-IsJoined :
      (code auth_user_id : String) (s0 : S) (c : Credentials) (s' : S)
      → try_join sv code auth_user_id s0 ≡ (ok (some c), s')
      → IsJoined code auth_user_id c s'
  unfolding try_join
  try_join-IsJoined code auth_user_id s0 c s' h0 = >>=-ok_elim _ _ s0 h0 (λ x s1 _ h1.
      >>=-ok_elim _ _ s1 h1 (λ t s2 _ h2.
        >>=-ok_elim _ _ s2 h2
          (λ o s3 q h3. made-IsJoined code auth_user_id x.0 x.1 t s2 o s3 c s' q h3)))

  -- `Join` that hands out credentials: its last step was the repository's funded join of that
  -- room, for that account, under the digest of that token, with the service's window.
  pub join-IsJoined :
      (code auth_user_id : String) (s : S) (c : Credentials) (s' : S)
      → join sv code auth_user_id s ≡ (ok c, s')
      → IsJoined code auth_user_id c s'
  unfolding join
  join-IsJoined code auth_user_id s c s' h = >>=-ok_elim _ _ s h (λ _ s1 _ h1.
      let (s2, q) = attempts-found 8 duplicate_player (try_join sv code auth_user_id) s1 c s' h1 in
      try_join-IsJoined code auth_user_id s2 c s' q)
