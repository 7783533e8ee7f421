-- ===== src/Service/Wallet.antt =====
-- The wallet behind the service, backend/internal/room/application/service.go (`Recharge`), over
-- the memory repository's idempotent commands.
use rock_paper_money.Prelude.{
  nat_eq, string_eq, bool_eq, ==_refl, String, ◌≡◌, refl, ap, ◌∙◌, inl, inr, true, none, some,
  arith,
}
use rock_paper_money.Prelude.Int.{ℤ, int_eq}
use rock_paper_money.Prelude.Dict.{lookup}
use rock_paper_money.Failure.{Fallible-cases, ok}
use rock_paper_money.Action.{◌>>=◌, >>=-ok_elim}
use rock_paper_money.Application.{Time, Command, CommandResult}
use rock_paper_money.Memory.{GoLibrary, Repository}
use rock_paper_money.Memory.Commands.{recharge_command}
use rock_paper_money.Memory.Idempotent.{second_answer, execute_command_once}
use rock_paper_money.Service.{
  Library, Service, Meaning, amount_meaning, new_command, recharge_checked, recharge,
}
use rock_paper_money.Service.Store.{memory_commands}

-- A command keeps the client's key.
new_command-key :
    (lib : Library) (key operation : String) (meaning : Meaning) (c : Command)
    → new_command lib key operation meaning ≡ ok c
    → c.key ≡ key
unfolding new_command
new_command-key lib key operation meaning c h = elim (Fallible-cases (lib.hash_meaning meaning)) [
  | inl (a, e) ↦ ground arith
  | inr (x, e) ↦ absurd (ground arith)
]

-- A recharge that gave a balance has passed the three tests, whatever store it meets.
recharge_passed :
    {S : Type 0} (sv : Service S) (a : String) (amount : ℤ) (key : String) (s : S) (b : ℤ) (s' : S)
    → recharge sv a amount key s ≡ (ok b, s')
    → (s1 : S) → recharge sv a amount key s1 ≡ recharge_checked sv a amount key sv.commands s1
unfolding recharge ◌>>=◌
recharge_passed sv a amount key s b s' h s1 = ground arith

second_answer_same :
    (a : String) (c : Command) (result : CommandResult)
    → second_answer a c result a c ≡ ok (record result { replayed = true })
second_answer_same a c result =
    ground (arith, ==_refl a, ==_refl c.operation, ==_refl c.request_hash)

-- The recharge command, sent again.
recharge_command_twice :
    (a : String) (amount : ℤ) (c : Command) (s s' : Repository) (result : CommandResult)
    → lookup c.key s.receipts ≡ none
    → recharge_command a amount c s ≡ (ok result, s')
    → recharge_command a amount c s' ≡ (ok (record result { replayed = true }), s')
unfolding recharge_command
recharge_command_twice a amount c s s' result new_key q =
    execute_command_once a c _ s s' result a c _ new_key q refl
    ∙ ap (λ x. (x, s')) (second_answer_same a c result)

module _ (go : GoLibrary) (t : Time) (sv : Service Repository) where
  -- What a recharge by a command that gave a balance went through.
  recharge_checked-steps :
      (a : String) (amount : ℤ) (key : String) (s : Repository) (b : ℤ) (s' : Repository)
      → recharge_checked sv a amount key (some (memory_commands go t)) s ≡ (ok b, s')
      → (c : Command) × (result : CommandResult) × (new_command sv.library key "wallet.recharge"
            (amount_meaning amount)
          ≡ ok c)
        × (recharge_command a amount c s ≡ (ok result, s'))
        × (result.balance ≡ b)
  unfolding recharge_checked
  recharge_checked-steps a amount key s b s' h = >>=-ok_elim _ _ s h (λ c s1 p h1.
      >>=-ok_elim _ _ s1 h1
        (λ result s2 q h2. (c, result, ground arith, ground arith, ground arith)))

  recharge_checked_twice :
      (a : String) (amount : ℤ) (key : String) (s : Repository) (b : ℤ) (s' : Repository)
      → lookup key s.receipts ≡ none
      → recharge_checked sv a amount key (some (memory_commands go t)) s ≡ (ok b, s')
      → recharge_checked sv a amount key (some (memory_commands go t)) s' ≡ (ok b, s')
  unfolding recharge_checked ◌>>=◌
  recharge_checked_twice a amount key s b s' new_key h =
      let (c, result, p, q, e) = recharge_checked-steps a amount key s b s' h in
      let k = new_command-key sv.library key "wallet.recharge" (amount_meaning amount) c p in
      let once = recharge_command_twice a amount c s s' result (ground arith) q in ground arith

module _ (go : GoLibrary) (t : Time) (sv : Service Repository)
    (over_memory : sv.commands ≡ some (memory_commands go t)) where
  -- Over the memory repository's commands, a recharge under a new key that gave a balance, sent
  -- again under its key: the second answer is the first one's balance, and the store stays as the
  -- first one left it, so the account is credited once.
  pub recharge_twice :
      (a : String) (amount : ℤ) (key : String) (s : Repository) (b : ℤ) (s' : Repository)
      → lookup key s.receipts ≡ none
      → recharge sv a amount key s ≡ (ok b, s')
      → recharge sv a amount key s' ≡ (ok b, s')
  recharge_twice a amount key s b s' new_key h =
      let passed = recharge_passed sv a amount key s b s' h in
      let first = passed s in
      let second = passed s' in
      let twice = recharge_checked_twice go t sv a amount key s b s' new_key in ground arith
