-- ===== src/Failure.antt =====
-- The sentinel errors of backend/internal/room/domain/room.go and
-- backend/internal/room/application/service.go, and a computation that may end in one. An error
-- that `fmt.Errorf` wraps is its sentinel here, which is what `errors.Is` compares.
use rock_paper_money.Prelude.{
  nat_eq, string_eq, bool_eq, ℕ, ◌≡◌, refl, ◌⊎◌, inl, inr, Bool, true, false,
}

pub data Error : Type 0 where
  empty_code missing_player_id duplicate_player room_full unknown_player room_not_ready : Error
  duplicate_move invalid_move round_not_resolved next_round_requested stale_round : Error
  round_resolved game_unfinished room_closed invalid_state : Error
  duplicate_room room_not_found unauthorized account_seated insufficient_funds : Error
  invalid_coin_amount idempotency_required idempotency_conflict : Error
  unsupported_command_repository invalid_report : Error
  -- an error that a collaborator outside the code below returns
  external : ℕ → Error

pub data Fallible {ℓ} (A : Type ℓ) : Type ℓ where
  ok : A → Fallible A
  err : Error → Fallible A

infixl 5 ◌>>=◌ ◌>>◌
abbrev pub ◌>>=◌ {ℓ κ} : {A : Type ℓ} {B : Type κ} → Fallible A → (A → Fallible B) → Fallible B
ok a >>= f = f a
err e >>= f = err e

abbrev pub ◌>>◌ {ℓ} : {B : Type ℓ} → Fallible (Unit {0}) → Fallible B → Fallible B
m >> k = m >>= λ _. k

-- `if b { return err }`
abbrev pub fail_if : Bool → Error → Fallible (Unit {0})
fail_if true e = err e
fail_if false e = ok tt

pub Fallible-cases {ℓ} :
    {A : Type ℓ} (m : Fallible A) → ((a : A) × (m ≡ ok a)) ⊎ ((e : Error) × (m ≡ err e))
Fallible-cases (ok a) = inl (a, refl)
Fallible-cases (err e) = inr (e, refl)
