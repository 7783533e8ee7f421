-- ===== src/Hub.antt =====
-- The realtime hub, backend/internal/realtime/hub.go: the rooms of one server, the consumers of each
-- and the snapshots that they are given.
--
-- A consumer is its number, and the calls of consumers are kept in `delivered`, the last one first.
-- The answers of the subscriber and of the loader are arguments. Each function is one run without
-- another one in between, as the hub's two locks make a reconciliation of one room.
pub mod Order
mod Tests
use rock_paper_money.Prelude.{
  ltb, leb, nat_beq, if◌then◌else◌, nat_beq_iff, Bool-cases, Option-cases, length, length-append,
  All, Eq, ◌==◌, ◌/=◌, nat_eq, bool_beq, bool_beq_iff, bool_eq, string_eq, ==_refl, ==_of_eq,
  ==_of_ne, ==_sym, Eq-cases, ℕ, zero, suc, ◌+◌, ◌-◌, ◌*◌, ◌/◌, ◌%◌, ◌^◌, ◌≤◌, ◌<◌, String, concat,
  ◌≡◌, refl, sym, ap, subst, ◌∙◌, ◌≢◌, ◌↔◌, ◌⊎◌, inl, inr, Bool, true, false, not, ◌&&◌, ◌||◌,
  Option, none, some, List, [], ◌∷◌, ◌++◌, map, arith,
}
use rock_paper_money.Prelude.Dict.{
  Dict, is_some, get_or, lookup, insert, erase, contains, lookup-insert, lookup-insert_self,
  lookup-insert_ne, length-insert, IsMap, clone_into, clone, insert-IsMap, clone_lem, All-insert,
  All-mono,
}
use rock_paper_money.Failure.{Error, Fallible, ok, err}
use rock_paper_money.Application.{
  Time, Digest, round_stake, winner_payout, house_payout, Snapshot, PlayedRound, Analytics,
  Credentials, PresenceLease, PresenceWindow, Mutation, Command, CommandResult,
}

-- The subscription and its cancellation are the subscriber's.
pub record LocalRoom : Type 0 where
  pub consumers : Dict ℕ (Unit {0})
  pub revision : ℕ
  pub snapshot : Option Snapshot

pub record Hub : Type 0 where
  pub rooms : Dict String LocalRoom
  pub next_id : ℕ
  pub delivered : List (ℕ × Snapshot)

-- `NewHub`
unfoldable pub new_hub : Hub
new_hub = record { rooms = []; next_id = 0; delivered = [] }

-- The loop over the consumers.
unfoldable pub deliver_all :
    Dict ℕ (Unit {0}) → Snapshot → List (ℕ × Snapshot) → List (ℕ × Snapshot)
deliver_all [] s log = log
deliver_all ((id, _) ∷ consumers) s log = deliver_all consumers s ((id, s) ∷ log)

-- The part of `reconcile` behind the load: an older or equal snapshot is dropped.
unfoldable pub commit : String → Snapshot → Hub → Hub
unfolding deliver_all
commit room_id s hub = elim (lookup room_id hub.rooms) [
  | none ↦ hub
  | some room ↦ if leb s.revision room.revision then hub else record {
    rooms = insert room_id (record room { revision = s.revision; snapshot = some s }) hub.rooms;
    next_id = hub.next_id;
    delivered = deliver_all room.consumers s hub.delivered;
  }
]

-- `!force && minimum <= room.revision` sends a reconciliation away.
abbrev pub is_wanted : ℕ → Bool → LocalRoom → Bool
is_wanted minimum force room = force || not (leb minimum room.revision)

unfoldable pub reconcile : Fallible Snapshot → String → ℕ → Bool → Hub → Option Error × Hub
unfolding commit
reconcile loaded room_id minimum force hub = elim (lookup room_id hub.rooms) [
  | none ↦ (none, hub)
  | some room ↦
      if is_wanted minimum force room
      then elim loaded [ err e ↦ (some e, hub) | ok s ↦ (none, commit room_id s hub) ]
      else (none, hub)
]

-- `SubscriptionEvent`: the room and the revision of a hint, and whether the subscriber reconnected.
pub record SubscriptionEvent : Type 0 where
  pub hint : Option (String × ℕ)
  pub reconnected : Bool

unfoldable pub handle_event : Fallible Snapshot → String → SubscriptionEvent → Hub → Hub
handle_event loaded room_id event hub = elim event.hint [
  | none ↦ (reconcile loaded room_id 0 event.reconnected hub).1
  | some hint ↦
      if hint.0 /= room_id then hub else (reconcile loaded room_id hint.1 event.reconnected hub).1
]

-- `release`: the room goes with its last consumer.
unfoldable pub release : String → ℕ → Hub → Hub
release room_id consumer_id hub = elim (lookup room_id hub.rooms) [
  | none ↦ hub
  | some room ↦
      let left = erase consumer_id room.consumers in
      if ltb 0 (length left)
      then record hub { rooms = insert room_id (record room { consumers = left }) hub.rooms }
      else record hub { rooms = erase room_id hub.rooms }
]

-- `Acquire` of a room that is there: its snapshot, if it has one, goes to the new consumer.
unfoldable pub acquire_present : String → LocalRoom → Hub → Fallible ℕ × Hub
acquire_present room_id room hub =
    let id = suc hub.next_id in
    (
      ok id,
      record {
        rooms = insert room_id (record room { consumers = insert id tt room.consumers }) hub.rooms;
        next_id = id;
        delivered = elim room.snapshot [
          | none ↦ hub.delivered
          | some s ↦ if ltb 0 s.revision then (id, s) ∷ hub.delivered else hub.delivered
        ];
      },
    )

-- The end of `Acquire` of a new room, behind its first reconciliation.
unfoldable pub acquired : String → ℕ → Option Error × Hub → Fallible ℕ × Hub
unfolding release
acquired room_id id (some e, hub) = (err e, release room_id id hub)
acquired room_id id (none, hub) = (ok id, hub)

-- `Acquire`, with the subscriber's error and the loader's answer for a room that is not there.
unfoldable pub acquire : Option Error → Fallible Snapshot → String → Hub → Fallible ℕ × Hub
unfolding acquire_present acquired reconcile
acquire refused loaded room_id hub = elim (lookup room_id hub.rooms) [
  | some room ↦ acquire_present room_id room hub
  | none ↦ elim refused [
    | some e ↦ (err e, hub)
    | none ↦
        let id = suc hub.next_id in
        acquired room_id id (
          reconcile loaded room_id 0 true (record {
            rooms =
                insert room_id (record { consumers = (id, tt) ∷ []; revision = 0; snapshot = none })
                  hub.rooms;
            next_id = id;
            delivered = hub.delivered;
          }))
  ]
]
