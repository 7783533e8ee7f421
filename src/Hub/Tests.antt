-- ===== src/Hub/Tests.antt =====
-- A room that is acquired, and three events: a hint, an old one, a reconnection.
use rock_paper_money.Prelude.{
  nat_eq, bool_eq, string_eq, ℕ, ◌≡◌, refl, true, false, none, some, List, [], ◌∷◌,
}
use rock_paper_money.Prelude.Dict.{lookup, insert}
use rock_paper_money.Failure.{Fallible, ok}
use rock_paper_money.Game.{unset}
use rock_paper_money.Application.{Snapshot}
use rock_paper_money.Hub.{
  Hub, new_hub, deliver_all, commit, reconcile, SubscriptionEvent, handle_event, acquired, acquire,
}
use rock_paper_money.Hub.Order.{seen, IsInOrder, handle_events, IsNumbered, acquire-IsInOrder}

abbrev view : ℕ → Snapshot
view n = record {
  state = record {
    code = "R";
    players = [];
    ready = false;
    resolved = false;
    round = 1;
    closed = false;
    moves = [];
    result = unset;
    forfeit = false;
  };
  revision = n;
  presence = [];
}

abbrev open_hub : Hub
open_hub = (acquire none (ok (view 1)) "R" new_hub).1

abbrev events : List (Fallible Snapshot × SubscriptionEvent)
events =
    (ok (view 3), record { hint = some ("R", 3); reconnected = false })
    ∷ (ok (view 3), record { hint = some ("R", 2); reconnected = false })
    ∷ (ok (view 5), record { hint = none; reconnected = true })
    ∷ []

three_given : seen 1 (handle_events "R" events open_hub).delivered ≡ 5 ∷ 3 ∷ 1 ∷ []
unfolding acquire handle_event reconcile commit deliver_all lookup insert new_hub
three_given = refl

new_hub-IsNumbered : IsNumbered new_hub.next_id new_hub.delivered
unfolding new_hub
new_hub-IsNumbered = tt

nothing_open : lookup "R" new_hub.rooms ≡ none
unfolding new_hub lookup
nothing_open = refl

opens : acquire none (ok (view 1)) "R" new_hub ≡ (ok 1, open_hub)
unfolding acquire acquired reconcile new_hub lookup insert
opens = refl

acquire-IsInOrder_example : IsInOrder "R" 1 (handle_events "R" events open_hub)
acquire-IsInOrder_example =
    acquire-IsInOrder (ok (view 1)) "R" new_hub open_hub 1 events new_hub-IsNumbered nothing_open
      opens
