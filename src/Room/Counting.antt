-- ===== src/Room/Counting.antt =====
-- How long a map over the players of a room is.
use rock_paper_money.Prelude.{
  length, All, nat_eq, string_eq, bool_eq, ℕ, ◌+◌, ◌≤◌, ◌<◌, String, ◌≡◌, refl, ◌≢◌, Bool, true,
  false, List, [], ◌∷◌, arith,
}
use rock_paper_money.Prelude.Dict.{Dict, lookup, contains, IsMap}
use rock_paper_money.Room.{PersistedPlayer}
use rock_paper_money.Room.Actions.{has_player}
use rock_paper_money.Room.Valid.{AreSeats, IsMoveOf, IsRequestOf}
use rock_paper_money.Game.{Move, move_eq, result_eq}

abbrev pub bit : Bool → ℕ
bit true = 1
bit false = 0

abbrev pub IsKeyOf {ℓ} : {V : Type ℓ} → List PersistedPlayer → String × V → Type 0
IsKeyOf players (id, _) = has_player id players ≡ true

pub keys_of_moves :
    (players : List PersistedPlayer) (moves : Dict String Move)
    → All (IsMoveOf players) moves
    → All (IsKeyOf players) moves
keys_of_moves players [] h = tt
keys_of_moves players (e ∷ moves) h = (h.0.0, keys_of_moves players moves h.1)

pub keys_of_requests :
    (players : List PersistedPlayer) (requests : Dict String Bool)
    → All (IsRequestOf players) requests
    → All (IsKeyOf players) requests
keys_of_requests players [] h = tt
keys_of_requests players (e ∷ requests) h = (h.0, keys_of_requests players requests h.1)

module _ {V : Type 0} where
  -- A map over two players is as long as the number of them that it holds.
  pub length_of_two :
      (host guest : PersistedPlayer) (m : Dict String V)
      → host.id ≢ guest.id
      → IsMap m
      → All (IsKeyOf (host ∷ guest ∷ [])) m
      → length m ≡ bit (contains host.id m) + bit (contains guest.id m)
  unfolding lookup has_player
  length_of_two host guest [] d i h = refl
  length_of_two host guest ((k, v) ∷ m) d i h = ground (
    arith,
    length_of_two host guest m d i.1 h.1,
    string_eq.beq_iff k host.id,
    string_eq.beq_iff k guest.id,
    string_eq.beq_iff host.id k,
    string_eq.beq_iff guest.id k,
  )

  pub length_of_one :
      (host : PersistedPlayer) (m : Dict String V)
      → IsMap m
      → All (IsKeyOf (host ∷ [])) m
      → length m ≡ bit (contains host.id m)
  unfolding lookup has_player
  length_of_one host [] i h = refl
  length_of_one host ((k, v) ∷ m) i h = ground (
    arith,
    length_of_one host m i.1 h.1,
    string_eq.beq_iff k host.id,
    string_eq.beq_iff host.id k,
  )

pub AreSeats-length : (ps : List PersistedPlayer) → AreSeats ps → (0 < length ps) × (length ps ≤ 2)
AreSeats-length [] h = absurd h
AreSeats-length (p ∷ []) h = omega arith
AreSeats-length (p ∷ q ∷ []) h = omega arith
AreSeats-length (p ∷ q ∷ x ∷ ps) h = absurd h
