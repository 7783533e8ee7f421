-- ===== src/Memory/Settling.antt =====
-- What `settleRound` of backend/internal/room/adapter/memory/repository.go does to the coins.
use rock_paper_money.Prelude.{
  if◌then◌else◌, ◌==◌, nat_eq, string_eq, bool_eq, ℕ, ◌+◌, ◌≤◌, String, ◌≡◌, refl, ap, ◌∙◌, ◌≢◌, [],
  ◌∷◌, arith,
}
use rock_paper_money.Prelude.Dict.{insert}
use rock_paper_money.Prelude.Int.{int_eq, pos}
use rock_paper_money.Game.{
  Result, move_eq, result_eq, unset, draw, player_one_wins, player_two_wins, other_result,
}
use rock_paper_money.Room.{State}
use rock_paper_money.Application.{Time}
use rock_paper_money.Memory.{
  StoredRoom, Repository, Wallets, credit, GoLibrary, escrow_key, owners_of, pay_out, played_round,
  settle_round,
}
use rock_paper_money.Memory.Coins.{
  supply, coins, IsSolvent, IsSound, supply-insert, insert-IsSolvent, coins-le_two, coins-insert,
  credit_lem,
}

-- The escrow is paid out to two accounts; every other account is as it was.
pub record IsPaidOut (x : String) (m : ℕ) (y : String) (n : ℕ) (escrow : String)
    (before after : Wallets) : Type 0 where
  pub first_gains : coins x after ≡ coins x before + m
  pub second_gains : coins y after ≡ coins y before + n
  pub escrow_empty : coins escrow after ≡ 0
  pub each_account :
      (o : String)
      → coins o after ≡ (
          if escrow == o
          then 0
          else if y == o
          then coins y before + n
          else if x == o
          then coins x before + m
          else coins o before)
  pub total : supply after ≡ supply before
  pub sound : IsSound after

module _ (x : String) (m : ℕ) (y : String) (n : ℕ) (escrow : String) (w : Wallets) (s : IsSound w)
    (x_y : x ≢ y) (x_escrow : x ≢ escrow) (y_escrow : y ≢ escrow) (full : coins escrow w ≡ 100)
    (whole : m + n ≡ 100) where
  gained_one : Wallets
  gained_one = insert x (pos (coins x w + m)) w

  gained_two : Wallets
  gained_two = insert y (pos (coins y w + n)) gained_one

  emptied : Wallets
  emptied = insert escrow (pos 0) gained_two

  -- The winner's coins and the escrow's are part of all coins, so nothing overflows.
  room_for_first : coins x w + m ≤ 9223372036854775807
  room_for_first = omega (arith, coins-le_two x escrow w x_escrow, s.bounded)

  room_for_second : coins y w + n ≤ 9223372036854775807
  room_for_second = omega (arith, coins-le_two y escrow w y_escrow, s.bounded)

  IsSolvent-one : IsSolvent gained_one
  unfolding gained_one
  IsSolvent-one = insert-IsSolvent x _ w s.solvent refl

  coins_one : (o : String) → coins o gained_one ≡ (if x == o then coins x w + m else coins o w)
  unfolding gained_one
  coins_one o = coins-insert x o (pos (coins x w + m)) w

  coins_y : coins y gained_one ≡ coins y w
  coins_y = ground (arith, coins_one y, string_eq.beq_iff x y)

  credit_two : credit y (pos n) (credit x (pos m) w) ≡ gained_two
  unfolding gained_one gained_two
  credit_two =
      ap (credit y (pos n)) (credit_lem x m w s.solvent room_for_first)
      ∙ credit_lem y n gained_one IsSolvent-one (omega (arith, coins_y, room_for_second))
      ∙ ap (λ (k : ℕ). insert y (pos (k + n)) gained_one) coins_y

  coins_two :
      (o : String)
      → coins o gained_two
        ≡ (if y == o then coins y w + n else if x == o then coins x w + m else coins o w)
  unfolding gained_two
  coins_two o = ground (arith, coins_one o, coins-insert y o (pos (coins y w + n)) gained_one)

  coins-emptied : (o : String) → coins o emptied ≡ (if escrow == o then 0 else coins o gained_two)
  unfolding emptied
  coins-emptied o = coins-insert escrow o (pos 0) gained_two

  coins_escrow : coins escrow gained_two ≡ 100
  coins_escrow =
      ground (arith, coins_two escrow, string_eq.beq_iff x escrow, string_eq.beq_iff y escrow)

  supply-emptied : supply emptied ≡ supply w
  unfolding emptied gained_two gained_one
  supply-emptied = omega (
    arith,
    whole,
    coins_y,
    coins_escrow,
    supply-insert x (pos (coins x w + m)) w,
    supply-insert y (pos (coins y w + n)) gained_one,
    supply-insert escrow (pos 0) gained_two,
  )

  emptied-IsSound : IsSound emptied
  unfolding emptied gained_two
  emptied-IsSound = record {
    solvent =
        insert-IsSolvent escrow (pos 0) gained_two
          (insert-IsSolvent y _ gained_one IsSolvent-one refl) refl;
    bounded = omega (arith, supply-emptied, s.bounded);
  }

  emptied-IsPaidOut : IsPaidOut x m y n escrow w emptied
  emptied-IsPaidOut = record {
    first_gains = ground (
      arith,
      coins-emptied x,
      coins_two x,
      string_eq.beq_iff escrow x,
      string_eq.beq_iff y x,
      string_eq.beq_iff x x,
    );
    second_gains =
        ground
          (arith, coins-emptied y, coins_two y, string_eq.beq_iff escrow y, string_eq.beq_iff y y);
    escrow_empty = ground (arith, coins-emptied escrow, string_eq.beq_iff escrow escrow);
    each_account = λ o. ground (arith, coins-emptied o, coins_two o);
    total = supply-emptied;
    sound = emptied-IsSound;
  }

  pub credit-IsPaidOut :
      IsPaidOut x m y n escrow w (insert escrow (pos 0) (credit y (pos n) (credit x (pos m) w)))
  unfolding emptied
  credit-IsPaidOut = rw credit_two emptied-IsPaidOut

-- Who is paid what, by the result: a draw returns both stakes, a win pays 75 coins to the winner
-- and 25 to the house.
abbrev pub Pays : Result → String → String → String → Wallets → Wallets → Type 0
Pays draw host guest escrow = IsPaidOut host 50 guest 50 escrow
Pays player_two_wins host guest escrow = IsPaidOut guest 75 "house" 25 escrow
Pays _ host guest escrow = IsPaidOut host 75 "house" 25 escrow

module _ (go : GoLibrary) (stored : StoredRoom) (code host guest : String) (st : State) (now : Time)
    (r : Repository) (s : IsSound r.wallets)
    (seats : owners_of stored.owners st.players ≡ host ∷ guest ∷ []) (host_guest : host ≢ guest)
    (host_house : host ≢ "house") (guest_house : guest ≢ "house")
    (host_escrow : host ≢ escrow_key go code st.round)
    (guest_escrow : guest ≢ escrow_key go code st.round)
    (house_escrow : "house" ≢ escrow_key go code st.round)
    (full : coins (escrow_key go code st.round) r.wallets ≡ 100) where
  abbrev paid_out : Wallets
  paid_out =
      insert (escrow_key go code st.round) (pos 0) (pay_out (host ∷ guest ∷ []) st.result r.wallets)

  pay_out-Pays :
      (result : Result)
      → Pays result host guest (escrow_key go code st.round) r.wallets (
          insert
            (escrow_key go code st.round)
            (pos 0)
            (pay_out (host ∷ guest ∷ []) result r.wallets))
  unfolding pay_out
  pay_out-Pays draw =
      credit-IsPaidOut host 50 guest 50 _ r.wallets s host_guest host_escrow guest_escrow full refl
  pay_out-Pays player_two_wins =
      credit-IsPaidOut guest 75 "house" 25 _ r.wallets s guest_house guest_escrow house_escrow full
        refl
  pay_out-Pays unset =
      credit-IsPaidOut host 75 "house" 25 _ r.wallets s host_house host_escrow house_escrow full
        refl
  pay_out-Pays player_one_wins =
      credit-IsPaidOut host 75 "house" 25 _ r.wallets s host_house host_escrow house_escrow full
        refl
  pay_out-Pays (other_result t) =
      credit-IsPaidOut host 75 "house" 25 _ r.wallets s host_house host_escrow house_escrow full
        refl

  settle_round_full :
      settle_round go stored code st now r
      ≡ record r { wallets = paid_out; history = played_round code st now ∷ r.history }
  unfolding settle_round
  settle_round_full = ground (arith, seats)

  -- Settling a round of two different owners whose escrow holds both stakes, over solvent wallets,
  -- empties the escrow to the accounts that the result names, leaves every other balance, adds one
  -- line to the history and leaves the rooms as they are.
  pub settle_round-Pays :
      Pays st.result host guest
        (escrow_key go code st.round)
        r.wallets
        (settle_round go stored code st now r).wallets
      × ((settle_round go stored code st now r).history ≡ played_round code st now ∷ r.history)
      × ((settle_round go stored code st now r).rooms ≡ r.rooms)
  settle_round-Pays = rw settle_round_full (pay_out-Pays st.result, refl, refl)
