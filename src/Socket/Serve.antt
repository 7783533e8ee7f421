-- ===== src/Socket/Serve.antt =====
-- `serveConnection` and `revalidate` of backend/internal/realtime/websocket.go, over the sessions
-- and the rooms' store, as one step for each event.
use rock_paper_money.Prelude.{
  if◌then◌else◌, All, ◌/=◌, nat_eq, bool_eq, string_eq, String, ◌≡◌, refl, subst, Bool, true, false,
  ◌||◌, Option, none, some, List, [], ◌∷◌, arith,
}
use rock_paper_money.Room.{PlayerMove}
use rock_paper_money.Game.{Result, move_eq, result_eq}
use rock_paper_money.Auth.Lifetime.{SessionCall, run}
use rock_paper_money.Auth.Guards.{logout-IsLoggedOut}
use rock_paper_money.Auth.Handlers.{Serving, Response, logout}
use rock_paper_money.Auth.Requests.{Request}
use rock_paper_money.Auth.Revoked.{IsOut, is_other_token, run-IsOut, authenticate_out}
use rock_paper_money.Prelude.Int.{ℤ, ◌+ℤ◌, int_eq}
use rock_paper_money.Prelude.Dict.{is_some}
use rock_paper_money.Failure.{Fallible, ok, err}
use rock_paper_money.Application.{Time, Snapshot}
use rock_paper_money.Auth.{
  TokenLibrary, Session, Sessions, Checked, authenticate, accepted, refused,
}
use rock_paper_money.Postgres.{Database, SessionRow}
use rock_paper_money.Postgres.Disconnects.{renew_connection}
use rock_paper_money.Socket.{SocketFrame, snapshot_frame}

-- What the rooms' statements read of the sessions.
unfoldable pub session_rows : Sessions → List SessionRow
session_rows [] = []
session_rows (s ∷ ss) =
    record {
      session_digest = s.digest;
      account_id = s.account_id;
      revoked = is_some s.revoked_at;
      idle_expires_at = s.idle_expires_at;
      absolute_expires_at = s.absolute_expires_at;
    }
    ∷ session_rows ss

-- The tables, of which the rooms' store sees the sessions.
pub record Tables : Type 0 where
  pub sessions : Sessions
  pub store : Database

-- The socket: who was admitted with which token, and under which connection.
pub record Socket : Type 0 where
  pub token : String
  pub admitted : Session
  pub role : String
  pub connection_id : String
  pub lease_duration : ℤ

abbrev pub is_renewed : Fallible (Unit {0}) → Bool
is_renewed (ok _) = true
is_renewed (err e) = false

module _ (go : TokenLibrary) (socket : Socket) where
  -- The renewal of the connection's lease.
  unfoldable pub renew_lease : Time → Sessions → Database → Bool × Tables
  unfolding renew_connection session_rows
  renew_lease now sessions store =
      let (r, store') =
        renew_connection socket.connection_id now (now +ℤ socket.lease_duration)
          (record store { sessions = session_rows sessions }) in
      (is_renewed r, record { sessions = sessions; store = store' })

  abbrev pub after_authenticate : Time → Database → Checked Session × Sessions → Bool × Tables
  after_authenticate now store (refused e, sessions) =
      (false, record { sessions = sessions; store = store })
  after_authenticate now store (accepted current, sessions) =
      if current.account_id /= socket.admitted.account_id
        || current.digest /= socket.admitted.digest
      then (false, record { sessions = sessions; store = store })
      else renew_lease now sessions store

  -- `revalidate`. The clock is read twice, for the session and for the lease.
  unfoldable pub revalidate : Time → Time → Tables → Bool × Tables
  unfolding authenticate renew_lease
  revalidate session_time lease_time tables =
      after_authenticate lease_time tables.store
        (authenticate go socket.token session_time tables.sessions)

  -- What the loop of `serveConnection` meets. A frame of the client, which is not allowed, the end of
  -- the connection, and a ping or a write that fails come from the connection.
  pub data SocketEvent : Type 0 where
    shut_down : SocketEvent
    client_frame : SocketEvent
    read_failed : SocketEvent
    snapshot_waits : Time → Time → Snapshot → Bool → SocketEvent
    revalidation_due : Time → Time → SocketEvent
    ping_due : Bool → SocketEvent

  -- The socket is served on, with the frame that was written, or it is closed.
  pub data SocketStep : Type 0 where
    served : Option SocketFrame → SocketStep
    closed_normally mutation_refused ended authorization_expired write_failed ping_failed :
        SocketStep

  abbrev pub deliver : Snapshot → Bool → Bool × Tables → SocketStep × Tables
  deliver snapshot is_written (false, tables) = (authorization_expired, tables)
  deliver snapshot is_written (true, tables) =
      if is_written
      then (served (some (snapshot_frame snapshot socket.admitted.account_id socket.role)), tables)
      else (write_failed, tables)

  abbrev pub go_on : Bool × Tables → SocketStep × Tables
  go_on (false, tables) = (authorization_expired, tables)
  go_on (true, tables) = (served none, tables)

  unfoldable pub serve_event : SocketEvent → Tables → SocketStep × Tables
  unfolding revalidate snapshot_frame
  serve_event shut_down tables = (closed_normally, tables)
  serve_event client_frame tables = (mutation_refused, tables)
  serve_event read_failed tables = (ended, tables)
  serve_event (snapshot_waits session_time lease_time snapshot is_written) tables =
      deliver snapshot is_written (revalidate session_time lease_time tables)
  serve_event (revalidation_due session_time lease_time) tables =
      go_on (revalidate session_time lease_time tables)
  serve_event (ping_due is_answered) tables =
      if is_answered then (served none, tables) else (ping_failed, tables)

  -- Nothing is sent over the socket.
  abbrev pub is_silent : SocketStep → Bool
  is_silent (served (some frame)) = false
  is_silent _ = true

  revalidate_out :
      (session_time lease_time : Time) (tables : Tables)
      → IsOut (go.digest_token socket.token) tables.sessions
      → (revalidate session_time lease_time tables).0 ≡ false
  unfolding revalidate
  revalidate_out session_time lease_time tables h =
      ground (arith, authenticate_out go socket.token session_time tables.sessions h)

  deliver_silent :
      (snapshot : Snapshot) (is_written : Bool) (r : Bool × Tables)
      → r.0 ≡ false
      → is_silent (deliver snapshot is_written r).0 ≡ true
  deliver_silent snapshot is_written (false, tables) h = refl
  deliver_silent snapshot is_written (true, tables) h = absurd (ground (arith, h))

  go_on_silent : (r : Bool × Tables) → is_silent (go_on r).0 ≡ true
  go_on_silent (false, tables) = refl
  go_on_silent (true, tables) = refl

  serve_event-silent :
      (event : SocketEvent) (tables : Tables)
      → IsOut (go.digest_token socket.token) tables.sessions
      → is_silent (serve_event event tables).0 ≡ true
  unfolding serve_event
  serve_event-silent shut_down tables h = refl
  serve_event-silent client_frame tables h = refl
  serve_event-silent read_failed tables h = refl
  serve_event-silent (snapshot_waits session_time lease_time snapshot is_written) tables h =
      deliver_silent snapshot is_written (revalidate session_time lease_time tables)
        (revalidate_out session_time lease_time tables h)
  serve_event-silent (revalidation_due session_time lease_time) tables h =
      go_on_silent (revalidate session_time lease_time tables)
  serve_event-silent (ping_due true) tables h = refl
  serve_event-silent (ping_due false) tables h = refl

-- After a logout that answers 204, no event sends a snapshot over a socket that was admitted with
-- the token of that logout's cookie, whatever calls on the sessions came in between, if none of them
-- creates a session of the same digest.
pub logout_silences :
    (h : Serving) (r : Request) (sessions sessions' : Sessions) (response : Response)
    (socket : Socket) (calls : List SessionCall) (event : SocketEvent h.tokens socket)
    (store : Database)
    → logout h r sessions ≡ (response, sessions')
    → response.status ≡ 204
    → r.session_cookie ≡ some socket.token
    → All (λ call. is_other_token h.tokens (h.tokens.digest_token socket.token) call ≡ true) calls
    → is_silent h.tokens socket
        (serve_event h.tokens socket event
          (record { sessions = run h.tokens calls sessions'; store = store })).0
      ≡ true
logout_silences h r sessions sessions' response socket calls event store p q cookie other =
    let (token, out) = logout-IsLoggedOut h r sessions sessions' response p q in
    let same : token ≡ socket.token = ground (arith, out.from_cookie, cookie) in
    serve_event-silent h.tokens socket event
      (record { sessions = run h.tokens calls sessions'; store = store })
      (run-IsOut (h.tokens.digest_token socket.token) h.tokens calls sessions' other
        (subst (λ t. IsOut (h.tokens.digest_token t) sessions') same out.is_out))

-- The frame of a room whose round is open shows neither the moves nor the result of its state.
pub snapshot_frame_hides :
    (snapshot : Snapshot) (moves : List PlayerMove) (result : Result) (account_id role : String)
    → snapshot.state.resolved ≡ false
    → snapshot_frame
        (record snapshot { state = record snapshot.state { moves = moves; result = result } })
        account_id
        role
      ≡ snapshot_frame snapshot account_id role
unfolding snapshot_frame
snapshot_frame_hides snapshot moves result account_id role h = rw h refl
