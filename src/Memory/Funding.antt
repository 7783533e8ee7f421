-- ===== src/Memory/Funding.antt =====
-- What `fundRound` of backend/internal/room/adapter/memory/repository.go does to the coins.
use rock_paper_money.Prelude.{
  if◌then◌else◌, Bool-cases, All, ◌==◌, nat_eq, string_eq, bool_eq, ℕ, ◌+◌, ◌-◌, ◌≤◌, ◌<◌, String,
  ◌≡◌, refl, ap, ◌∙◌, ◌≢◌, ◌⊎◌, inl, inr, true, false, List, [], ◌∷◌, arith,
}
use rock_paper_money.Prelude.Dict.{insert}
use rock_paper_money.Prelude.Int.{ltb_ℤ, int_eq, pos}
use rock_paper_money.Failure.{Error, Fallible, Fallible-cases, insufficient_funds, ok, err}
use rock_paper_money.Application.{round_stake}
use rock_paper_money.Memory.{
  StoredRoom, Wallets, balance_of, ensure_wallet, debit, GoLibrary, escrow_key, is_funded,
  check_stakes, take_stakes, funding_owners, charge_owners, fund_round,
}
use rock_paper_money.Memory.Coins.{
  supply, coins, IsSolvent, IsSound, supply-insert, balance-solvent, insert-IsSolvent, coins-insert,
  debit_lem, balance-ensure_wallet, ensure_wallet-IsSolvent, supply-ensure_wallet,
  ensure_wallet-IsSound,
}

-- The wallets hold what they held.
pub record IsEven (before after : Wallets) : Type 0 where
  pub balances : (account : String) → balance_of account after ≡ balance_of account before
  pub total : supply after ≡ supply before
  pub sound : IsSound before → IsSound after

pub IsEven-refl : (w : Wallets) → IsEven w w
IsEven-refl w = record { balances = λ a. refl; total = refl; sound = λ s. s }

IsEven-ensure : (owner : String) (w v : Wallets) → IsEven (ensure_wallet owner w) v → IsEven w v
IsEven-ensure owner w v h = record {
  balances = λ a. h.balances a ∙ balance-ensure_wallet owner a w;
  total = h.total ∙ supply-ensure_wallet owner w;
  sound = λ s. h.sound (ensure_wallet-IsSound owner w s);
}

-- The first loop changes no balance, whether it passes or not.
pub check_stakes-IsEven : (owners : List String) (w : Wallets) → IsEven w (check_stakes owners w).1
unfolding check_stakes
check_stakes-IsEven [] w = IsEven-refl w
check_stakes-IsEven (o ∷ os) w =
    elim (Bool-cases (ltb_ℤ (balance_of o (ensure_wallet o w)) round_stake)) [
      | inl short ↦ rw short (IsEven-ensure o w _ (IsEven-refl _))
      | inr enough ↦ rw enough (IsEven-ensure o w _ (check_stakes-IsEven os (ensure_wallet o w)))
    ]

-- Where it fails, an owner is short of the stake.
abbrev IsShort : Wallets → List String → Type 0
IsShort w [] = ⊥
IsShort w (o ∷ os) = (coins o w < 50) ⊎ IsShort w os

IsShort-even :
    (w v : Wallets) (owners : List String) → IsEven w v → IsShort v owners → IsShort w owners
IsShort-even w v [] e h = h
IsShort-even w v (o ∷ os) e (inl h) = inl (ground (arith, e.balances o))
IsShort-even w v (o ∷ os) e (inr h) = inr (IsShort-even w v os e h)

check_stakes-IsShort :
    (owners : List String) (w : Wallets) {x : Error}
    → IsSolvent w
    → (check_stakes owners w).0 ≡ err x
    → (x ≡ insufficient_funds) × IsShort w owners
unfolding check_stakes
check_stakes-IsShort [] w s h = cc
check_stakes-IsShort (o ∷ os) w {x} s h =
    elim (Bool-cases (ltb_ℤ (balance_of o (ensure_wallet o w)) round_stake)) [
      | inl short ↦
          (ground arith, inl (ground (arith, balance-ensure_wallet o o w, balance-solvent o w s)))
      | inr enough ↦
          let rest =
            check_stakes-IsShort os (ensure_wallet o w) {x = x} (ensure_wallet-IsSolvent o w s)
              (ground arith) in
          (
            rest.0,
            inr (
                IsShort-even w (ensure_wallet o w) os (IsEven-ensure o w _ (IsEven-refl _)) rest.1),
          )
    ]

-- Where it passes, every owner holds the stake.
check_stakes-coins :
    (owners : List String) (w : Wallets)
    → IsSolvent w
    → (check_stakes owners w).0 ≡ ok tt
    → All (λ o. 50 ≤ coins o w) owners
unfolding check_stakes
check_stakes-coins [] w s h = tt
check_stakes-coins (o ∷ os) w s h =
    elim (Bool-cases (ltb_ℤ (balance_of o (ensure_wallet o w)) round_stake)) [
      | inl short ↦ absurd (ground arith)
      | inr enough ↦ (
        ground (arith, balance-ensure_wallet o o w, balance-solvent o w s),
        All-coins os o w (
            check_stakes-coins os (ensure_wallet o w) (ensure_wallet-IsSolvent o w s)
              (ground arith)),
      )
    ]
  where
    All-coins :
        (os : List String) (o : String) (w : Wallets)
        → All (λ a. 50 ≤ coins a (ensure_wallet o w)) os
        → All (λ a. 50 ≤ coins a w) os
    All-coins [] o w h = tt
    All-coins (a ∷ os) o w h = (ground (arith, balance-ensure_wallet o a w), All-coins os o w h.1)

-- The stakes are in the escrow; every other account is as it was.
pub record IsPaid (a b escrow : String) (before after : Wallets) : Type 0 where
  pub first_pays : coins a after + 50 ≡ coins a before
  pub second_pays : coins b after + 50 ≡ coins b before
  pub escrow_holds : coins escrow after ≡ 100
  pub each_account :
      (o : String)
      → coins o after ≡ (
          if escrow == o
          then 100
          else if b == o
          then coins b before - 50
          else if a == o
          then coins a before - 50
          else coins o before)
  pub total : supply after ≡ supply before
  pub sound : IsSound after

-- Two different owners pay the stake each, into an escrow that was empty.
module _ (a b escrow : String) (w : Wallets) (s : IsSound w) (a_b : a ≢ b) (a_escrow : a ≢ escrow)
    (b_escrow : b ≢ escrow) (empty : coins escrow w ≡ 0) (a_pays : 50 ≤ coins a w)
    (b_pays : 50 ≤ coins b w) where
  paid_one : Wallets
  paid_one = insert a (pos (coins a w - 50)) w

  paid_two : Wallets
  paid_two = insert b (pos (coins b w - 50)) paid_one

  paid : Wallets
  paid = insert escrow (pos 100) paid_two

  supply_one : supply paid_one + 50 ≡ supply w
  unfolding paid_one
  supply_one = omega (arith, supply-insert a (pos (coins a w - 50)) w)

  coins_one : (o : String) → coins o paid_one ≡ (if a == o then coins a w - 50 else coins o w)
  unfolding paid_one
  coins_one o = coins-insert a o (pos (coins a w - 50)) w

  IsSound-one : IsSound paid_one
  unfolding paid_one
  IsSound-one = record {
    solvent = insert-IsSolvent a _ w s.solvent refl;
    bounded = omega (arith, supply_one, s.bounded);
  }

  coins_b : coins b paid_one ≡ coins b w
  coins_b = ground (arith, coins_one b, string_eq.beq_iff a b)

  take_two : take_stakes (a ∷ b ∷ []) w ≡ paid_two
  unfolding take_stakes paid_one paid_two
  take_two =
      ap (debit b (pos 50)) (debit_lem a 50 w s a_pays)
      ∙ debit_lem b 50 paid_one IsSound-one (omega (arith, coins_b))
      ∙ ap (λ (n : ℕ). insert b (pos (n - 50)) paid_one) coins_b

  supply_two : supply paid_two + 100 ≡ supply w
  unfolding paid_two
  supply_two = omega (arith, supply_one, coins_b, supply-insert b (pos (coins b w - 50)) paid_one)

  coins_two :
      (o : String)
      → coins o paid_two
        ≡ (if b == o then coins b w - 50 else if a == o then coins a w - 50 else coins o w)
  unfolding paid_two
  coins_two o = ground (arith, coins_one o, coins-insert b o (pos (coins b w - 50)) paid_one)

  coins_escrow : coins escrow paid_two ≡ 0
  coins_escrow =
      ground (arith, coins_two escrow, string_eq.beq_iff a escrow, string_eq.beq_iff b escrow)

  paid-supply : supply paid ≡ supply w
  unfolding paid
  paid-supply = omega (arith, supply_two, coins_escrow, supply-insert escrow (pos 100) paid_two)

  paid-coins : (o : String) → coins o paid ≡ (if escrow == o then 100 else coins o paid_two)
  unfolding paid
  paid-coins o = coins-insert escrow o (pos 100) paid_two

  paid-IsSound : IsSound paid
  unfolding paid paid_two
  paid-IsSound = record {
    solvent =
        insert-IsSolvent escrow (pos 100) paid_two
          (insert-IsSolvent b _ paid_one IsSound-one.solvent refl) refl;
    bounded = omega (arith, paid-supply, s.bounded);
  }

  paid-IsPaid : IsPaid a b escrow w paid
  paid-IsPaid = record {
    first_pays = ground (
      arith,
      paid-coins a,
      coins_two a,
      string_eq.beq_iff escrow a,
      string_eq.beq_iff b a,
      string_eq.beq_iff a a,
    );
    second_pays =
        ground
          (arith, paid-coins b, coins_two b, string_eq.beq_iff escrow b, string_eq.beq_iff b b);
    escrow_holds = ground (arith, paid-coins escrow, string_eq.beq_iff escrow escrow);
    each_account = λ o. ground (arith, paid-coins o, coins_two o);
    total = paid-supply;
    sound = paid-IsSound;
  }

  pub take_stakes-IsPaid :
      IsPaid a b escrow w (insert escrow (pos 100) (take_stakes (a ∷ b ∷ []) w))
  unfolding paid
  take_stakes-IsPaid = rw take_two paid-IsPaid

IsPaid-even :
    (a b escrow : String) (w v after : Wallets)
    → IsEven w v
    → IsPaid a b escrow v after
    → IsPaid a b escrow w after
IsPaid-even a b escrow w v after e p = record {
  first_pays = ground (arith, p.first_pays, e.balances a);
  second_pays = ground (arith, p.second_pays, e.balances b);
  escrow_holds = p.escrow_holds;
  each_account = λ o. ground (arith, p.each_account o, e.balances o, e.balances a, e.balances b);
  total = p.total ∙ e.total;
  sound = p.sound;
}

-- What funding a round has done: both stakes are in the escrow and the round is marked, or an owner
-- was short of the stake and no balance has changed.
abbrev pub Funds :
    GoLibrary
    → String
    → ℕ
    → String
    → String
    → StoredRoom
    → Wallets
    → Fallible StoredRoom × Wallets
    → Type 0
Funds go code round a b stored w (ok stored', w') =
    (stored' ≡ record stored { funded = insert round true stored.funded })
    × IsPaid a b (escrow_key go code round) w w'
Funds go code round a b stored w (err e, w') =
    (e ≡ insufficient_funds) × ((coins a w < 50) ⊎ (coins b w < 50)) × IsEven w w'

module _ (go : GoLibrary) (stored : StoredRoom) (code : String) (round : ℕ) (joining a b : String)
    (w : Wallets) (s : IsSound w) (charged : funding_owners stored joining ≡ a ∷ b ∷ [])
    (a_b : a ≢ b) (a_escrow : a ≢ escrow_key go code round)
    (b_escrow : b ≢ escrow_key go code round) (empty : coins (escrow_key go code round) w ≡ 0)
    (unfunded : is_funded round stored ≡ false) where
  charged_two :
      fund_round go stored code round joining w ≡ charge_owners go stored code round (a ∷ b ∷ []) w
  unfolding fund_round
  charged_two = ground (arith, charged)

  charge-Funds :
      Funds go code round a b stored w (charge_owners go stored code round (a ∷ b ∷ []) w)
  unfolding charge_owners
  charge-Funds = elim (Fallible-cases (check_stakes (a ∷ b ∷ []) w).0) [
    | inl (u, e) ↦
        let even = check_stakes-IsEven (a ∷ b ∷ []) w in
        let held = check_stakes-coins (a ∷ b ∷ []) w s.solvent e in
        rw e (
          refl,
          IsPaid-even a b (escrow_key go code round) w _ _ even (
              take_stakes-IsPaid a b (escrow_key go code round) (check_stakes (a ∷ b ∷ []) w).1
                (even.sound s) a_b a_escrow b_escrow
                (ground (arith, even.balances (escrow_key go code round)))
                (ground (arith, even.balances a)) (ground (arith, even.balances b))),
        )
    | inr (x, e) ↦
        let short = check_stakes-IsShort (a ∷ b ∷ []) w {x = x} s.solvent e in
        rw e (short.0, ground arith, check_stakes-IsEven (a ∷ b ∷ []) w)
  ]

  -- Funding a round that is not funded, over solvent wallets and an empty escrow, moves one stake
  -- from each of its two different owners to the escrow and marks the round, or reports that an
  -- owner is short and changes no balance.
  pub fund_round-Funds :
      Funds go code round a b stored w (fund_round go stored code round joining w)
  fund_round-Funds = rw charged_two charge-Funds
