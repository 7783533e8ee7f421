-- ===== src/Memory/Signals.antt =====
-- `Events` of backend/internal/room/adapter/memory/repository.go: channels of capacity one, by room.
-- A channel is a number; its flag says whether the signal in its buffer is still unread.
use rock_paper_money.Prelude.{
  nat_eq, string_eq, bool_eq, ℕ, ◌+◌, String, Bool, true, false, none, some, [], ◌∷◌,
}
use rock_paper_money.Prelude.Dict.{Dict, get_or, lookup, insert, erase}

pub record Events : Type 0 where
  pub rooms : Dict String (Dict ℕ Bool)
  pub next : ℕ

abbrev pub channels : String → Events → Dict ℕ Bool
channels code e = get_or (lookup code e.rooms) []

-- `Subscribe`: a new channel, empty.
unfoldable pub subscribe : String → Events → ℕ × Events
subscribe code e = (
  e.next,
  record { rooms = insert code (insert e.next false (channels code e)) e.rooms; next = e.next + 1 },
)

-- The function that `Subscribe` returns.
unfoldable pub unsubscribe : String → ℕ → Events → Events
unsubscribe code channel e = record e {
  rooms = insert code (erase channel (channels code e)) e.rooms;
}

-- A send that does not wait: a full buffer stays full.
unfoldable pub signal_all : Dict ℕ Bool → Dict ℕ Bool
signal_all [] = []
signal_all ((channel, _) ∷ cs) = (channel, true) ∷ signal_all cs

unfoldable pub publish : String → Events → Events
unfolding signal_all
publish code e = elim (lookup code e.rooms) [
  | none ↦ e
  | some cs ↦ record e { rooms = insert code (signal_all cs) e.rooms }
]
