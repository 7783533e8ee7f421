-- ===== src/Action.antt =====
-- A Go method on a shared object: it changes the object and returns a value or an error. What was
-- written before an error stays written, so the object comes back beside the error too.
use rock_paper_money.Prelude.{
  nat_eq, string_eq, bool_eq, Bool, true, false, Option, none, some, ◌≡◌, refl, arith,
}
use rock_paper_money.Failure.{Error, Fallible, ok, err}

abbrev pub Action {ℓ} : Type ℓ → Type ℓ → Type ℓ
Action S A = S → Fallible A × S

module _ {ℓ} {S A : Type ℓ} where
  abbrev pub pure : A → Action S A
  pure a s = (ok a, s)

  abbrev pub raise : Error → Action S A
  raise e s = (err e, s)

  abbrev pub lift : Fallible A → Action S A
  lift r s = (r, s)

  abbrev pub gets : (S → A) → Action S A
  gets f s = (ok (f s), s)

  abbrev pub or_raise : Option A → Error → Action S A
  or_raise none e s = (err e, s)
  or_raise (some a) e s = (ok a, s)

module _ {ℓ} {S : Type ℓ} where
  abbrev pub modify : (S → S) → Action S Unit
  modify f s = (ok tt, f s)

  -- `if b { return err }`
  abbrev pub raise_if : Bool → Error → Action S Unit
  raise_if true e s = (err e, s)
  raise_if false e s = (ok tt, s)

module _ {ℓ} {S A B : Type ℓ} where
  abbrev pub continue : Fallible A → (A → Action S B) → Action S B
  continue (ok a) f s = f a s
  continue (err e) f s = (err e, s)

  infixl 5 ◌>>=◌ ◌>>◌
  unfoldable pub ◌>>=◌ : Action S A → (A → Action S B) → Action S B
  ◌>>=◌ m f s = let (r, s') = m s in continue r f s'

  abbrev pub ◌>>◌ : Action S A → Action S B → Action S B
  m >> n = m >>= λ _. n

module _ {ℓ} {S A B : Type ℓ} where
  -- A sequence that gives a value: its first action gave one, and the rest went on from there.
  pub >>=-ok :
      (m : Action S A) (f : A → Action S B) (s : S) {b : B} {s' : S}
      → (m >>= f) s ≡ (ok b, s')
      → (a : A) × (s1 : S) × (m s ≡ (ok a, s1)) × (f a s1 ≡ (ok b, s'))
  unfolding ◌>>=◌
  >>=-ok m f s h = ok_of (m s) h
    where
      ok_of :
          (r : Fallible A × S) {b : B} {s' : S}
          → continue r.0 f r.1 ≡ (ok b, s')
          → (a : A) × (s1 : S) × (r ≡ (ok a, s1)) × (f a s1 ≡ (ok b, s'))
      ok_of (ok a, s1) h = (a, s1, refl, h)
      ok_of (err e, s1) h = absurd (ground arith)

  -- The same, for any conclusion drawn from it.
  pub >>=-ok_elim :
      {P : Type ℓ} (m : Action S A) (f : A → Action S B) (s : S) {b : B} {s' : S}
      → (m >>= f) s ≡ (ok b, s')
      → ((a : A) (s1 : S) → m s ≡ (ok a, s1) → f a s1 ≡ (ok b, s') → P)
      → P
  >>=-ok_elim m f s h k = let (a, s1, p, q) = >>=-ok m f s h in k a s1 p q
