-- ===== src/Memory/Atomic.antt =====
-- A method that returns an error has changed nothing that can be read back.
use rock_paper_money.Prelude.{
  nat_eq, string_eq, bool_eq, ℕ, String, ◌≡◌, refl, ◌∙◌, Bool, true, false, Option, none, some,
  arith,
}
use rock_paper_money.Prelude.Dict.{lookup}
use rock_paper_money.Prelude.Int.{int_eq}
use rock_paper_money.Failure.{Error, Fallible, room_not_found, ok, err}
use rock_paper_money.Game.{Move, move_eq, result_eq}
use rock_paper_money.Action.{Action, lift, or_raise, modify, raise_if, continue, ◌>>=◌}
use rock_paper_money.Application.{Time, Digest}
use rock_paper_money.Memory.{
  StoredRoom, Repository, Wallets, balance_of, GoLibrary, funding_owners, charge_owners, fund_round,
  room, changed,
}
use rock_paper_money.Memory.Funding.{IsEven, IsEven-refl, check_stakes-IsEven}
use rock_paper_money.Memory.Handlers.{
  seat_or_raise, fund_if, submit_move_and_settle, request_next_round_and_fund,
}

-- Two stores that read the same: wallets may have been added, with nothing in them.
pub record IsUntouched (before after : Repository) : Type 0 where
  pub rooms : after.rooms ≡ before.rooms
  pub events : after.events ≡ before.events
  pub recharges : after.recharges ≡ before.recharges
  pub history : after.history ≡ before.history
  pub receipts : after.receipts ≡ before.receipts
  pub balances :
      (account : String) → balance_of account after.wallets ≡ balance_of account before.wallets

IsUntouched-refl : (r : Repository) → IsUntouched r r
IsUntouched-refl r = record {
  rooms = refl;
  events = refl;
  recharges = refl;
  history = refl;
  receipts = refl;
  balances = λ a. refl;
}

IsUntouched-trans : (a b c : Repository) → IsUntouched a b → IsUntouched b c → IsUntouched a c
IsUntouched-trans a b c h k = record {
  rooms = k.rooms ∙ h.rooms;
  events = k.events ∙ h.events;
  recharges = k.recharges ∙ h.recharges;
  history = k.history ∙ h.history;
  receipts = k.receipts ∙ h.receipts;
  balances = λ x. k.balances x ∙ h.balances x;
}

-- An action that fails leaves the store untouched.
pub record IsAtomic {A : Type 0} (m : Action Repository A) : Type 0 where
  pub untouched : (r : Repository) (e : Error) → (m r).0 ≡ err e → IsUntouched r (m r).1

-- An action that only reads.
pub record IsRead {A : Type 0} (m : Action Repository A) : Type 0 where
  pub same : (r : Repository) → (m r).1 ≡ r

-- An action that does not fail.
pub record IsTotal {A : Type 0} (m : Action Repository A) : Type 0 where
  pub value : (r : Repository) → (a : A) × ((m r).0 ≡ ok a)

module _ {A B : Type 0} where
  continue-IsUntouched :
      (x : Fallible A) (f : A → Action Repository B) (r s : Repository) (e : Error)
      → IsUntouched r s
      → ((a : A) → x ≡ ok a → IsAtomic (f a))
      → (continue x f s).0 ≡ err e
      → IsUntouched r (continue x f s).1
  continue-IsUntouched (ok a) f r s e u k h = IsUntouched-trans r s _ u ((k a refl).untouched s e h)
  continue-IsUntouched (err x) f r s e u k h = u

  -- A read, then a step that is atomic.
  pub IsAtomic-read :
      (m : Action Repository A) (f : A → Action Repository B)
      → IsRead m
      → ((a : A) → IsAtomic (f a))
      → IsAtomic (m >>= f)
  unfolding ◌>>=◌
  IsAtomic-read m f read k = record {
    untouched = λ r e h.
        continue-IsUntouched (m r).0 f r (m r).1 e (rw (read.same r) (IsUntouched-refl r))
          (λ a _. k a) h;
  }

  continue-total :
      (x : Fallible A) (f : A → Action Repository B) (r s : Repository) (e : Error)
      → ((e' : Error) → x ≡ err e' → IsUntouched r s)
      → ((a : A) → IsTotal (f a))
      → (continue x f s).0 ≡ err e
      → IsUntouched r (continue x f s).1
  continue-total (ok a) f r s e u k h = let (b, p) = (k a).value s in absurd (ground arith)
  continue-total (err x) f r s e u k h = u x refl

  -- A step that is atomic, then one that does not fail.
  pub IsAtomic-total :
      (m : Action Repository A) (f : A → Action Repository B)
      → IsAtomic m
      → ((a : A) → IsTotal (f a))
      → IsAtomic (m >>= f)
  unfolding ◌>>=◌
  IsAtomic-total m f atomic k = record {
    untouched = λ r e h. continue-total (m r).0 f r (m r).1 e (λ e' p. atomic.untouched r e' p) k h;
  }

IsRead-lift : {A : Type 0} (x : Fallible A) → IsRead (lift {S = Repository} x)
IsRead-lift x = record { same = λ r. refl }

IsRead-room : (code : String) → IsRead (room code)
unfolding room
IsRead-room code = record { same = λ r. or_raise-same (lookup code r.rooms) r }
  where
    or_raise-same : (o : Option StoredRoom) (r : Repository) → (or_raise o room_not_found r).1 ≡ r
    or_raise-same none r = refl
    or_raise-same (some x) r = refl

IsRead-seat :
    (stored : StoredRoom) (digest : Digest) (id : String) → IsRead (seat_or_raise stored digest id)
IsRead-seat stored digest id = record { same = λ r. ground arith }

IsRead-raise_if : (b : Bool) (e : Error) → IsRead (raise_if {S = Repository} b e)
IsRead-raise_if true e = record { same = λ r. refl }
IsRead-raise_if false e = record { same = λ r. refl }

IsTotal-changed : (code : String) (stored : StoredRoom) → IsTotal (changed code stored)
unfolding changed
IsTotal-changed code stored = record { value = λ r. (_, refl) }

IsTotal-after :
    {A : Type 0} (f : Repository → Repository) (k : Unit {0} → Action Repository A)
    → IsTotal (k tt)
    → IsTotal (modify f >>= k)
unfolding ◌>>=◌
IsTotal-after f k t = record { value = λ r. t.value (f r) }

-- A round that is not funded has taken nothing.
fund_round-IsEven :
    (go : GoLibrary) (stored : StoredRoom) (code : String) (round : ℕ) (joining : String)
    (w : Wallets) (e : Error)
    → (fund_round go stored code round joining w).0 ≡ err e
    → IsEven w (fund_round go stored code round joining w).1
unfolding fund_round charge_owners
fund_round-IsEven go stored code round joining w e h =
    ground (arith, check_stakes-IsEven (funding_owners stored joining) w, IsEven-refl w)

IsAtomic-fund_if :
    (due : Bool) (go : GoLibrary) (stored : StoredRoom) (code : String) (round : ℕ)
    → IsAtomic (fund_if due go stored code round)
IsAtomic-fund_if false go stored code round = record { untouched = λ r e h. IsUntouched-refl r }
IsAtomic-fund_if true go stored code round = record {
  untouched = λ r e h. record {
    rooms = refl;
    events = refl;
    recharges = refl;
    history = refl;
    receipts = refl;
    balances = (fund_round-IsEven go stored code round "" r.wallets e h).balances;
  };
}

submit_move_and_settle-IsAtomic :
    (go : GoLibrary) (now : Time) (code : String) (digest : Digest) (account : String) (move : Move)
    → IsAtomic (submit_move_and_settle go now code digest account move)
unfolding submit_move_and_settle
submit_move_and_settle-IsAtomic go now code digest account move =
    IsAtomic-read _ _ (IsRead-room code) λ stored.
      IsAtomic-read _ _ (IsRead-seat stored digest account) λ id.
        IsAtomic-read _ _ (IsRead-lift _) λ restored. IsAtomic-read _ _ (IsRead-lift _) λ working.
          IsAtomic-total _ _ (IsAtomic-fund_if _ go stored code _)
            λ funded. IsTotal-after _ _ (IsTotal-changed code _)

request_next_round_and_fund-IsAtomic :
    (go : GoLibrary) (code : String) (digest : Digest) (account : String) (round : ℕ)
    → IsAtomic (request_next_round_and_fund go code digest account round)
unfolding request_next_round_and_fund
request_next_round_and_fund-IsAtomic go code digest account round =
    IsAtomic-read _ _ (IsRead-room code) λ stored.
      IsAtomic-read _ _ (IsRead-seat stored digest account) λ id.
        IsAtomic-read _ _ (IsRead-lift _) λ restored. IsAtomic-read _ _ (IsRead-lift _) λ working.
          IsAtomic-total _ _ (IsAtomic-fund_if _ go stored code _) λ funded. IsTotal-changed code _

module _ (go : GoLibrary) (code : String) (digest : Digest) (account : String) (r : Repository)
    (e : Error) where
  -- A move that ends in an error, whichever it is, leaves rooms, events, recharges, history,
  -- receipts and every balance as they were.
  pub submit_move_and_settle-IsUntouched :
      (now : Time) (move : Move)
      → (submit_move_and_settle go now code digest account move r).0 ≡ err e
      → IsUntouched r (submit_move_and_settle go now code digest account move r).1
  submit_move_and_settle-IsUntouched now move =
      (submit_move_and_settle-IsAtomic go now code digest account move).untouched r e

  -- A request for the next round that ends in an error leaves rooms, events, recharges, history,
  -- receipts and every balance as they were.
  pub request_next_round_and_fund-IsUntouched :
      (round : ℕ)
      → (request_next_round_and_fund go code digest account round r).0 ≡ err e
      → IsUntouched r (request_next_round_and_fund go code digest account round r).1
  request_next_round_and_fund-IsUntouched round =
      (request_next_round_and_fund-IsAtomic go code digest account round).untouched r e
