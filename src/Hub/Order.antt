-- ===== src/Hub/Order.antt =====
-- The order in which a consumer gets the snapshots of its room, backend/internal/realtime/hub.go.
use rock_paper_money.Prelude.{
  if◌then◌else◌, nat_beq_iff, Bool-cases, Option-cases, All, ◌==◌, ◌/=◌, nat_eq, bool_eq, string_eq,
  Eq-cases, ℕ, suc, ◌≤◌, ◌<◌, String, ◌≡◌, refl, sym, subst, ◌∙◌, ◌⊎◌, inl, inr, Bool, true, false,
  Option, none, some, List, [], ◌∷◌, arith,
}
use rock_paper_money.Prelude.Dict.{Dict, lookup, insert, contains, lookup-insert_self, IsMap}
use rock_paper_money.Failure.{Error, Fallible, ok, err}
use rock_paper_money.Application.{Snapshot}
use rock_paper_money.Hub.{
  LocalRoom, Hub, deliver_all, commit, is_wanted, reconcile, SubscriptionEvent, handle_event,
  acquired, acquire,
}

-- The revisions that a consumer has been given, the last one first.
abbrev pub seen : ℕ → List (ℕ × Snapshot) → List ℕ
seen id [] = []
seen id ((j, s) ∷ log) = if j == id then s.revision ∷ seen id log else seen id log

-- Each one is newer than all before it.
abbrev pub IsRising : List ℕ → Type 0
IsRising [] = Unit
IsRising (n ∷ older) = All (λ m. m < n) older × IsRising older

deliver_all-seen :
    (id : ℕ) (consumers : Dict ℕ (Unit {0})) (s : Snapshot) (log : List (ℕ × Snapshot))
    → IsMap consumers
    → seen id (deliver_all consumers s log)
      ≡ (if contains id consumers then s.revision ∷ seen id log else seen id log)
unfolding deliver_all lookup
deliver_all-seen id [] s log m = refl
deliver_all-seen id ((j, u) ∷ consumers) s log (fresh, m) =
    let rest = deliver_all-seen id consumers s ((j, s) ∷ log) m in
    elim (Eq-cases j id) [
      | inl (same, e) ↦
          let absent : lookup id consumers ≡ none =
            subst (λ i. lookup i consumers ≡ none) e fresh in
          ground (arith, rest, same, absent)
      | inr (other, e) ↦ ground (arith, rest, other)
    ]

le_or_lt : (a b : ℕ) → (a ≤ b) ⊎ (b < a)
le_or_lt a b = ground arith

-- A room is there, with a consumer who has been given rising revisions, none above the room's.
abbrev pub IsInOrder : String → ℕ → Hub → Type 0
IsInOrder room_id id hub =
    (room : LocalRoom) × (lookup room_id hub.rooms ≡ some room)
    × IsMap room.consumers
    × All (λ n. n ≤ room.revision) (seen id hub.delivered)
    × IsRising (seen id hub.delivered)

below : (ns : List ℕ) (v w : ℕ) → v < w → All (λ n. n ≤ v) ns → All (λ n. n < w) ns
below [] v w l h = tt
below (n ∷ ns) v w l h = (omega (arith, l, h.0), below ns v w l h.1)

weaken : (ns : List ℕ) (v w : ℕ) → v ≤ w → All (λ n. n ≤ v) ns → All (λ n. n ≤ w) ns
weaken [] v w l h = tt
weaken (n ∷ ns) v w l h = (omega (arith, l, h.0), weaken ns v w l h.1)

-- One revision more, newer than the room's, or none.
given :
    (b : Bool) (ns : List ℕ) (v w : ℕ)
    → v < w
    → All (λ n. n ≤ v) ns
    → IsRising ns
    → All (λ n. n ≤ w) (if b then w ∷ ns else ns) × IsRising (if b then w ∷ ns else ns)
given true ns v w l h k = ((omega arith, weaken ns v w (omega (arith, l)) h), (below ns v w l h, k))
given false ns v w l h k = (weaken ns v w (omega (arith, l)) h, k)

commit-old :
    (room_id : String) (s : Snapshot) (hub : Hub) (room : LocalRoom)
    → lookup room_id hub.rooms ≡ some room
    → s.revision ≤ room.revision
    → commit room_id s hub ≡ hub
unfolding commit
commit-old room_id s hub room there old = ground (arith, there, old)

abbrev committed : String → Snapshot → Hub → LocalRoom → Hub
committed room_id s hub room = record {
  rooms = insert room_id (record room { revision = s.revision; snapshot = some s }) hub.rooms;
  next_id = hub.next_id;
  delivered = deliver_all room.consumers s hub.delivered;
}

commit-newer :
    (room_id : String) (s : Snapshot) (hub : Hub) (room : LocalRoom)
    → lookup room_id hub.rooms ≡ some room
    → room.revision < s.revision
    → commit room_id s hub ≡ committed room_id s hub room
unfolding commit
commit-newer room_id s hub room there newer = ground (arith, there, newer)

committed-IsInOrder :
    (room_id : String) (id : ℕ) (s : Snapshot) (hub : Hub) (room : LocalRoom)
    → IsMap room.consumers
    → All (λ n. n ≤ room.revision) (seen id hub.delivered)
    → IsRising (seen id hub.delivered)
    → room.revision < s.revision
    → IsInOrder room_id id (committed room_id s hub room)
committed-IsInOrder room_id id s hub room m low rising newer =
    let (low', rising') =
      given (contains id room.consumers) (seen id hub.delivered) room.revision s.revision newer low
        rising in
    (
      record room { revision = s.revision; snapshot = some s },
      lookup-insert_self room_id _ hub.rooms,
      m,
      rw (deliver_all-seen id room.consumers s hub.delivered m) low',
      rw (deliver_all-seen id room.consumers s hub.delivered m) rising',
    )

commit-IsInOrder :
    (room_id : String) (id : ℕ) (s : Snapshot) (hub : Hub)
    → IsInOrder room_id id hub
    → IsInOrder room_id id (commit room_id s hub)
commit-IsInOrder room_id id s hub (room, there, m, low, rising) =
    elim (le_or_lt s.revision room.revision) [
      | inl old ↦
          subst (IsInOrder room_id id) (sym (commit-old room_id s hub room there old))
            (room, there, m, low, rising)
      | inr newer ↦
          subst (IsInOrder room_id id) (sym (commit-newer room_id s hub room there newer))
            (committed-IsInOrder room_id id s hub room m low rising newer)
    ]

-- A reconciliation leaves the hub, or commits what the loader gave.
reconcile-cases :
    (loaded : Fallible Snapshot) (room_id : String) (minimum : ℕ) (force : Bool) (hub : Hub)
    → ((reconcile loaded room_id minimum force hub).1 ≡ hub)
      ⊎ ((s : Snapshot) × ((reconcile loaded room_id minimum force hub).1 ≡ commit room_id s hub))
unfolding reconcile
reconcile-cases loaded room_id minimum force hub = elim (Option-cases (lookup room_id hub.rooms)) [
  | inl absent ↦ inl (ground (arith, absent))
  | inr (room, there) ↦ loaded-cases loaded room there
]
  where
    loaded-cases :
        (loaded : Fallible Snapshot) (room : LocalRoom)
        → lookup room_id hub.rooms ≡ some room
        → ((reconcile loaded room_id minimum force hub).1 ≡ hub)
          ⊎ ((s : Snapshot) × ((reconcile loaded room_id minimum force hub).1
                ≡ commit room_id s hub))
    loaded-cases (err e) room there = inl (ground (arith, there))
    loaded-cases (ok s) room there = elim (Bool-cases (is_wanted minimum force room)) [
      | inl wanted ↦ inr (s, ground (arith, there, wanted))
      | inr unwanted ↦ inl (ground (arith, there, unwanted))
    ]

reconcile-IsInOrder :
    (loaded : Fallible Snapshot) (room_id : String) (minimum : ℕ) (force : Bool) (id : ℕ)
    (hub : Hub)
    → IsInOrder room_id id hub
    → IsInOrder room_id id (reconcile loaded room_id minimum force hub).1
reconcile-IsInOrder loaded room_id minimum force id hub h =
    elim (reconcile-cases loaded room_id minimum force hub) [
      | inl e ↦ subst (IsInOrder room_id id) (sym e) h
      | inr (s, e) ↦ subst (IsInOrder room_id id) (sym e) (commit-IsInOrder room_id id s hub h)
    ]

handle_event-IsInOrder :
    (loaded : Fallible Snapshot) (room_id : String) (event : SubscriptionEvent) (id : ℕ) (hub : Hub)
    → IsInOrder room_id id hub
    → IsInOrder room_id id (handle_event loaded room_id event hub)
unfolding handle_event
handle_event-IsInOrder loaded room_id event id hub h = elim (Option-cases event.hint) [
  | inl e ↦
      let p : handle_event loaded room_id event hub
          ≡ (reconcile loaded room_id 0 event.reconnected hub).1 =
        ground (arith, e) in
      subst (IsInOrder room_id id) (sym p)
        (reconcile-IsInOrder loaded room_id 0 event.reconnected id hub h)
  | inr (hint, e) ↦ elim (Bool-cases (hint.0 /= room_id)) [
    | inl elsewhere ↦
        let p : handle_event loaded room_id event hub ≡ hub = ground (arith, e, elsewhere) in
        subst (IsInOrder room_id id) (sym p) h
    | inr here ↦
        let p : handle_event loaded room_id event hub
            ≡ (reconcile loaded room_id hint.1 event.reconnected hub).1 =
          ground (arith, e, here) in
        subst (IsInOrder room_id id) (sym p)
          (reconcile-IsInOrder loaded room_id hint.1 event.reconnected id hub h)
  ]
]

-- A room's events, with what the loader answers to each.
abbrev pub handle_events : String → List (Fallible Snapshot × SubscriptionEvent) → Hub → Hub
handle_events room_id [] hub = hub
handle_events room_id ((loaded, event) ∷ events) hub =
    handle_events room_id events (handle_event loaded room_id event hub)

-- Whatever events reach a room, in whatever order, and whatever the loader answers to them: a
-- consumer whose revisions were rising and none above the room's is given only newer ones, each
-- newer than all before it, and none above the room's.
handle_events-IsInOrder :
    (room_id : String) (id : ℕ) (events : List (Fallible Snapshot × SubscriptionEvent)) (hub : Hub)
    → IsInOrder room_id id hub
    → IsInOrder room_id id (handle_events room_id events hub)
handle_events-IsInOrder room_id id [] hub h = h
handle_events-IsInOrder room_id id ((loaded, event) ∷ events) hub h =
    handle_events-IsInOrder room_id id events (handle_event loaded room_id event hub)
      (handle_event-IsInOrder loaded room_id event id hub h)

-- No consumer beyond the last number has been given anything.
abbrev pub IsNumbered : ℕ → List (ℕ × Snapshot) → Type 0
IsNumbered last log = All (λ (d : ℕ × Snapshot). d.0 ≤ last) log

seen_none : (last : ℕ) (log : List (ℕ × Snapshot)) → IsNumbered last log → seen (suc last) log ≡ []
seen_none last [] h = refl
seen_none last ((j, s) ∷ log) (low, h) =
    ground (arith, low, seen_none last log h, nat_beq_iff j (suc last))

-- The hub as `Acquire` of a new room leaves it before the first reconciliation.
abbrev opened : String → Hub → Hub
opened room_id hub = record {
  rooms =
      insert room_id
        (record { consumers = (suc hub.next_id, tt) ∷ []; revision = 0; snapshot = none })
        hub.rooms;
  next_id = suc hub.next_id;
  delivered = hub.delivered;
}

opened-IsInOrder :
    (room_id : String) (hub : Hub)
    → IsNumbered hub.next_id hub.delivered
    → IsInOrder room_id (suc hub.next_id) (opened room_id hub)
unfolding lookup
opened-IsInOrder room_id hub h = (
  record { consumers = (suc hub.next_id, tt) ∷ []; revision = 0; snapshot = none },
  lookup-insert_self room_id _ hub.rooms,
  (refl, tt),
  rw (seen_none hub.next_id hub.delivered h) tt,
  rw (seen_none hub.next_id hub.delivered h) tt,
)

acquired-ok :
    (room_id : String) (n id : ℕ) (r : Option Error × Hub) (hub : Hub)
    → acquired room_id n r ≡ (ok id, hub)
    → (id ≡ n) × (hub ≡ r.1)
unfolding acquired
acquired-ok room_id n id (some e, h) hub p = absurd (ground arith)
acquired-ok room_id n id (none, h) hub p = ground arith

acquire-opened :
    (loaded : Fallible Snapshot) (room_id : String) (hub : Hub)
    → lookup room_id hub.rooms ≡ none
    → acquire none loaded room_id hub
      ≡ acquired room_id (suc hub.next_id) (reconcile loaded room_id 0 true (opened room_id hub))
unfolding acquire
acquire-opened loaded room_id hub absent = ground (arith, absent)

-- A consumer that has acquired a new room of a hub with fresh numbers, and then any events of that
-- room, in any order and with any answers of the loader: the revisions that it has been given rise,
-- each newer than all before it, and none is above the room's.
pub acquire-IsInOrder :
    (loaded : Fallible Snapshot) (room_id : String) (hub hub' : Hub) (id : ℕ)
    (events : List (Fallible Snapshot × SubscriptionEvent))
    → IsNumbered hub.next_id hub.delivered
    → lookup room_id hub.rooms ≡ none
    → acquire none loaded room_id hub ≡ (ok id, hub')
    → IsInOrder room_id id (handle_events room_id events hub')
acquire-IsInOrder loaded room_id hub hub' id events numbered absent h =
    let (same, there) =
      acquired-ok room_id (suc hub.next_id) id
        (reconcile loaded room_id 0 true (opened room_id hub)) hub'
        (sym (acquire-opened loaded room_id hub absent) ∙ h) in
    let first =
      reconcile-IsInOrder loaded room_id 0 true (suc hub.next_id) (opened room_id hub)
        (opened-IsInOrder room_id hub numbered) in
    handle_events-IsInOrder room_id id events hub' (
      subst (λ n. IsInOrder room_id n hub') (sym same)
        (subst (IsInOrder room_id (suc hub.next_id)) (sym there) first))
