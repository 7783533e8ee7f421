-- ===== src/Memory/Presence.antt =====
-- `RefreshPresence` and `ForfeitExpired` of backend/internal/room/adapter/memory/repository.go.
use rock_paper_money.Prelude.{
  if◌then◌else◌, ◌==◌, nat_eq, string_eq, bool_eq, ℕ, ◌+◌, ◌%◌, ◌^◌, String, Bool, true, false, not,
  ◌&&◌, none, some, List, [], ◌∷◌,
}
use rock_paper_money.Prelude.Dict.{Dict, get_or, lookup, insert}
use rock_paper_money.Prelude.Int.{ℤ, ◌+ℤ◌, ◌-ℤ◌, ltb_ℤ, int_eq, pos}
use rock_paper_money.Failure.{Error, stale_round, round_resolved, room_closed, ok, err}
use rock_paper_money.Room.{Player, restore, persistence_state, state}
use rock_paper_money.Room.Deadlines.{forfeit}
use rock_paper_money.Action.{Action, pure, raise, lift, modify, ◌>>=◌, ◌>>◌}
use rock_paper_money.Application.{Time, Digest, Snapshot, PresenceLease, PresenceWindow}
use rock_paper_money.Memory.{
  MemoryPresence, StoredRoom, Repository, GoLibrary, is_funded, settle_round, room, changed,
}
use rock_paper_money.Memory.Handlers.{performed, snapshot_of, seat_or_raise, fund_if}

-- `stored.presence[id]` of a missing player: no generation and Go's zero time.
abbrev pub no_presence : MemoryPresence
no_presence = record { generation = 0; refreshed_at = pos 0; deadline = pos 0 }

-- The loop of `RefreshPresence` over the players who have a presence.
unfoldable pub renew_leases :
    String
    → ℕ
    → Bool
    → ℤ
    → List Player
    → Dict String MemoryPresence
    → List PresenceLease × Dict String MemoryPresence
renew_leases code round active delay [] presence = ([], presence)
renew_leases code round active delay (p ∷ ps) presence =
    let skipped = renew_leases code round active delay ps presence in
    elim (lookup p.id presence) [
      | none ↦ skipped
      | some participant ↦
          let generation = (participant.generation + 1) % 2 ^ 64 in
          let (leases, presence') =
            renew_leases code round active delay ps
              (insert p.id (record participant { generation = generation }) presence) in
          (
            record {
              room_code = code;
              player_id = p.id;
              round = round;
              generation = generation;
              deadline = participant.deadline;
              evaluate_at = participant.deadline +ℤ delay;
              proof_after = participant.deadline;
              active = active;
            }
                ∷ leases,
            presence',
          )
    ]

unfoldable pub refresh_presence :
    String → Digest → String → PresenceWindow → Action Repository (List PresenceLease)
refresh_presence code digest auth_user_id window = do
  stored ← room code
  player_id ← seat_or_raise stored digest auth_user_id
  let s = state stored.room
  let mine = get_or (lookup player_id stored.presence) no_presence
  let renewed =
      renew_leases code s.round (not s.closed && not s.resolved && s.ready)
        (window.evaluate_at -ℤ window.deadline) s.players
        (insert player_id
          (record mine { refreshed_at = window.observed_at; deadline = window.deadline })
          stored.presence)
  modify (λ r. record r { rooms = insert code (record stored { presence = renewed.1 }) r.rooms })
  pure renewed.0

-- The loop of `ForfeitExpired` over the players: the last of the others decides.
unfoldable pub remaining_connected :
    PresenceLease → Time → Dict String MemoryPresence → Bool → List Player → Bool
remaining_connected lease now presence connected [] = connected
remaining_connected lease now presence connected (p ∷ ps) =
    remaining_connected lease now presence
      (if p.id == lease.player_id then connected else elim (lookup p.id presence) [
        | none ↦ false
        | some remaining ↦
            ltb_ℤ now remaining.deadline && ltb_ℤ lease.proof_after remaining.refreshed_at
      ])
      ps

-- The lease is the last one of a player whose deadline has passed.
unfoldable pub is_expired : PresenceLease → Time → Dict String MemoryPresence → Bool
is_expired lease now presence = elim (lookup lease.player_id presence) [
  | none ↦ false
  | some p ↦ p.generation == lease.generation && not (ltb_ℤ now p.deadline)
]

-- The errors of `Forfeit` that `ForfeitExpired` takes for a late attempt.
abbrev pub is_late : Error → Bool
is_late stale_round = true
is_late round_resolved = true
is_late room_closed = true
is_late _ = false

-- The part of `ForfeitExpired` behind its tests: the snapshot, and whether it forfeited.
unfoldable pub forfeit_lease :
    GoLibrary → Time → StoredRoom → PresenceLease → Action Repository (Snapshot × Bool)
forfeit_lease go clock stored lease = do
  restored ← lift (restore (persistence_state stored.room))
  elim (performed (forfeit lease.player_id lease.round restored)) [
    | err e ↦ if is_late e then pure (snapshot_of stored, false) else raise e
    | ok working ↦ do
      funded ←
          fund_if (not (is_funded (state working).round stored)) go stored lease.room_code
            (state working).round
      modify (settle_round go funded lease.room_code (state working) clock)
      result ← changed lease.room_code (record funded { room = working })
      pure (result, true)
  ]

-- `clock` is the time that `settleRound` reads, `now` the argument.
unfoldable pub forfeit_expired :
    GoLibrary → Time → PresenceLease → Time → Action Repository (Snapshot × Bool)
unfolding is_expired remaining_connected forfeit_lease
forfeit_expired go clock lease now = do
  stored ← room lease.room_code
  if is_expired lease now stored.presence
        && remaining_connected lease now stored.presence false (state stored.room).players
      then forfeit_lease go clock stored lease
      else pure (snapshot_of stored, false)
