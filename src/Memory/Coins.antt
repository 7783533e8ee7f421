-- ===== src/Memory/Coins.antt =====
-- The coins in the wallets of backend/internal/room/adapter/memory/repository.go: no step of a
-- round makes or loses one.
use rock_paper_money.Prelude.{
  if◌then◌else◌, All, ◌==◌, nat_eq, string_eq, bool_eq, ℕ, ◌+◌, ◌-◌, ◌≤◌, String, ◌≡◌, refl, ap,
  ◌≢◌, [], ◌∷◌, arith,
}
use rock_paper_money.Prelude.Dict.{lookup, insert, lookup-insert, All-insert}
use rock_paper_money.Prelude.Int.{ℤ, pos_part, neg_part, int_eq, sub64_pos, add64_pos, pos}
use rock_paper_money.Game.{move_eq, result_eq}
use rock_paper_money.Memory.{Wallets, balance_of, ensure_wallet, credit, debit}

-- All coins there are. Debts do not count, and there are none in solvent wallets.
unfoldable pub supply : Wallets → ℕ
supply [] = 0
supply ((owner, balance) ∷ wallets) = pos_part balance + supply wallets

-- The coins of an account.
abbrev pub coins : String → Wallets → ℕ
coins owner wallets = pos_part (balance_of owner wallets)

-- No balance is negative.
abbrev pub IsSolvent : Wallets → Type 0
IsSolvent wallets = All (λ (e : String × ℤ). neg_part e.1 ≡ 0) wallets

-- Solvent wallets whose coins together fit an `int64`.
pub record IsSound (wallets : Wallets) : Type 0 where
  pub solvent : IsSolvent wallets
  pub bounded : supply wallets ≤ 9223372036854775807

pub supply-insert :
    (owner : String) (balance : ℤ) (wallets : Wallets)
    → supply (insert owner balance wallets) + coins owner wallets
      ≡ supply wallets + pos_part balance
unfolding supply insert lookup
supply-insert owner balance [] = omega arith
supply-insert owner balance ((o, b) ∷ wallets) = ground (arith, supply-insert owner balance wallets)

pub balance-solvent :
    (owner : String) (wallets : Wallets)
    → IsSolvent wallets
    → neg_part (balance_of owner wallets) ≡ 0
unfolding lookup
balance-solvent owner [] h = refl
balance-solvent owner ((o, b) ∷ wallets) h = ground (arith, balance-solvent owner wallets h.1)

pub insert-IsSolvent :
    (owner : String) (balance : ℤ) (wallets : Wallets)
    → IsSolvent wallets
    → neg_part balance ≡ 0
    → IsSolvent (insert owner balance wallets)
insert-IsSolvent owner balance wallets h n =
    All-insert (λ (e : String × ℤ). neg_part e.1 ≡ 0) owner balance wallets n h

-- An account holds no more than all coins.
pub coins-le : (owner : String) (wallets : Wallets) → coins owner wallets ≤ supply wallets
unfolding supply lookup
coins-le owner [] = omega arith
coins-le owner ((o, b) ∷ wallets) = ground (arith, coins-le owner wallets)

-- Two accounts hold no more than all coins.
pub coins-le_two :
    (a b : String) (wallets : Wallets) → a ≢ b → coins a wallets + coins b wallets ≤ supply wallets
unfolding supply lookup
coins-le_two a b [] d = omega arith
coins-le_two a b ((o, x) ∷ wallets) d = ground (
  arith,
  coins-le_two a b wallets d,
  coins-le a wallets,
  coins-le b wallets,
  string_eq.beq_iff o a,
  string_eq.beq_iff o b,
)

pub coins-insert :
    (owner account : String) (balance : ℤ) (wallets : Wallets)
    → coins account (insert owner balance wallets)
      ≡ (if owner == account then pos_part balance else coins account wallets)
coins-insert owner account balance wallets =
    ground (arith, lookup-insert owner account balance wallets)

-- A payment within the coins of the account takes exactly its amount.
pub debit_lem :
    (owner : String) (amount : ℕ) (wallets : Wallets)
    → IsSound wallets
    → amount ≤ coins owner wallets
    → debit owner (pos amount) wallets ≡ insert owner (pos (coins owner wallets - amount)) wallets
unfolding debit
debit_lem owner amount wallets s h =
    ap (λ (b : ℤ). insert owner b wallets)
      (sub64_pos (balance_of owner wallets) amount (balance-solvent owner wallets s.solvent) h
        (omega (arith, s.bounded, coins-le owner wallets)))

-- A payment to the account adds exactly its amount, while all coins fit an `int64`.
pub credit_lem :
    (owner : String) (amount : ℕ) (wallets : Wallets)
    → IsSolvent wallets
    → coins owner wallets + amount ≤ 9223372036854775807
    → credit owner (pos amount) wallets ≡ insert owner (pos (coins owner wallets + amount)) wallets
unfolding credit
credit_lem owner amount wallets s h =
    ap (λ (b : ℤ). insert owner b wallets)
      (add64_pos (balance_of owner wallets) amount (balance-solvent owner wallets s) h)

-- What `ensureWallet` adds holds nothing.
pub balance-ensure_wallet :
    (owner account : String) (wallets : Wallets)
    → balance_of account (ensure_wallet owner wallets) ≡ balance_of account wallets
unfolding ensure_wallet
balance-ensure_wallet owner account wallets =
    ground (arith, lookup-insert owner account (pos 0) wallets, string_eq.beq_iff owner account)

pub ensure_wallet-IsSolvent :
    (owner : String) (wallets : Wallets)
    → IsSolvent wallets
    → IsSolvent (ensure_wallet owner wallets)
unfolding ensure_wallet
ensure_wallet-IsSolvent owner wallets h = ground (arith, insert-IsSolvent owner (pos 0) wallets h)

pub supply-ensure_wallet :
    (owner : String) (wallets : Wallets) → supply (ensure_wallet owner wallets) ≡ supply wallets
unfolding ensure_wallet
supply-ensure_wallet owner wallets = ground (arith, supply-insert owner (pos 0) wallets)

pub ensure_wallet-IsSound :
    (owner : String) (wallets : Wallets) → IsSound wallets → IsSound (ensure_wallet owner wallets)
ensure_wallet-IsSound owner wallets s = record {
  solvent = ensure_wallet-IsSolvent owner wallets s.solvent;
  bounded = rw supply-ensure_wallet s.bounded;
}
