-- ===== src/Prelude/Dict.antt =====
-- A Go map as an association list without repeated keys, over any key with an equality test.
-- Go's order of iteration is not fixed; the list's order stands for one such order.
use rock_paper_money.Prelude.Tests.{if◌then◌else◌, Bool-cases}
use rock_paper_money.Prelude.Lists.{length, All}
use rock_paper_money.Prelude.Keys.{Eq, ◌==◌, nat_eq, string_eq, bool_eq}
use Prim.Native.Nat.{suc}
use mathlib.Core.Path.{◌≡◌, refl, sym, ap, ◌∙◌}
use mathlib.Core.Logic.{◌≢◌, inl, inr}
use mathlib.Core.Bool.{Bool, true, false}
use mathlib.Core.Option.{Option, none, some}
use mathlib.Core.List.{List, [], ◌∷◌, ◌++◌, append-nil, append_assoc}
use native.Mathlib.Omega.{arith}

abbrev pub Dict {ℓ} : Type ℓ → Type ℓ → Type ℓ
Dict K V = List (K × V)

abbrev pub is_some {ℓ} : {A : Type ℓ} → Option A → Bool
is_some none = false
is_some (some _) = true

abbrev pub get_or {ℓ} : {A : Type ℓ} → Option A → A → A
get_or none d = d
get_or (some a) d = a

module _ {ℓ} {K V : Type ℓ} ⦃e : Eq K⦄ where
  -- `v, ok := m[k]`
  unfoldable pub lookup : K → Dict K V → Option V
  lookup wanted [] = none
  lookup wanted ((key, value) ∷ rest) = if key == wanted then some value else lookup wanted rest

  -- `m[k] = v`
  unfoldable pub insert : K → V → Dict K V → Dict K V
  insert key new [] = (key, new) ∷ []
  insert key new ((here, old) ∷ rest) =
      if here == key then (key, new) ∷ rest else (here, old) ∷ insert key new rest

  -- `delete(m, k)`
  unfoldable pub erase : K → Dict K V → Dict K V
  erase k [] = []
  erase k ((j, w) ∷ m) = if j == k then m else (j, w) ∷ erase k m

  -- `_, ok := m[k]`
  abbrev pub contains : K → Dict K V → Bool
  contains k m = is_some (lookup k m)

  -- A read after a write: the value written under that key, what was there under any other.
  pub lookup-insert :
      (key other : K) (new : V) (entries : Dict K V)
      → lookup other (insert key new entries)
        ≡ (if key == other then some new else lookup other entries)
  unfolding lookup insert
  lookup-insert key other new [] = refl
  lookup-insert key other new ((here, old) ∷ rest) =
      let same = lookup-insert key other new rest in
      ground (arith, same, e.beq_iff here other, e.beq_iff here key, e.beq_iff key other)

  pub lookup-insert_self :
      (key : K) (new : V) (entries : Dict K V) → lookup key (insert key new entries) ≡ some new
  lookup-insert_self key new entries =
      let read = lookup-insert key key new entries in ground (arith, e.beq_iff key key, read)

  pub lookup-insert_ne :
      (k j : K) (v : V) (m : Dict K V) → k ≢ j → lookup j (insert k v m) ≡ lookup j m
  lookup-insert_ne k j v m h = ground (arith, lookup-insert k j v m, e.beq_iff k j)

  -- A new key makes the map one longer, an old key leaves its length.
  pub length-insert :
      (k : K) (v : V) (m : Dict K V)
      → length (insert k v m) ≡ (if contains k m then length m else suc (length m))
  unfolding lookup insert
  length-insert k v [] = refl
  length-insert k v ((i, w) ∷ m) = ground (arith, length-insert k v m)

-- The maps that Go can hold: no key twice.
abbrev pub IsMap {ℓ} : {K V : Type ℓ} ⦃e : Eq K⦄ → Dict K V → Type ℓ
IsMap [] = Unit
IsMap ((k, v) ∷ m) = (lookup k m ≡ none) × IsMap m

module _ {ℓ} {K V : Type ℓ} ⦃e : Eq K⦄ where
  -- The loop `for k, v := range in { out[k] = v }`.
  unfoldable pub clone_into : Dict K V → Dict K V → Dict K V
  clone_into out [] = out
  clone_into out ((k, v) ∷ m) = clone_into (insert k v out) m

  unfoldable pub clone : Dict K V → Dict K V
  unfolding clone_into
  clone m = clone_into [] m

  pub insert-IsMap : (k : K) (v : V) (m : Dict K V) → IsMap m → IsMap (insert k v m)
  unfolding lookup insert
  insert-IsMap k v [] h = (refl, tt)
  insert-IsMap k v ((j, w) ∷ m) h =
      ground (arith, insert-IsMap k v m h.1, lookup-insert k j v m, e.beq_iff j k, e.beq_iff k j)

  insert_last : (k : K) (v : V) (m : Dict K V) → lookup k m ≡ none → insert k v m ≡ m ++ (k, v) ∷ []
  unfolding lookup insert
  insert_last k v [] h = refl
  insert_last k v ((j, w) ∷ m) h = ground (arith, insert_last k v m)

  lookup-append :
      (k : K) (m n : Dict K V)
      → lookup k (m ++ n) ≡ elim (lookup k m) [ none ↦ lookup k n | some v ↦ some v ]
  unfolding lookup
  lookup-append k [] n = refl
  lookup-append k ((j, w) ∷ m) n = ground (arith, lookup-append k m n)

  -- No key of the second map is in the first.
  abbrev Apart : Dict K V → Dict K V → Type ℓ
  Apart out [] = Unit
  Apart out ((k, v) ∷ m) = (lookup k out ≡ none) × Apart out m

  Apart-insert :
      (k : K) (v : V) (out m : Dict K V)
      → lookup k m ≡ none
      → Apart out m
      → Apart (insert k v out) m
  unfolding lookup
  Apart-insert k v out [] h a = tt
  Apart-insert k v out ((j, w) ∷ m) h a =
      ground (arith, lookup-insert k j v out, e.beq_iff j k, e.beq_iff k j, Apart-insert k v out m)

  clone_into-append : (out m : Dict K V) → IsMap m → Apart out m → clone_into out m ≡ out ++ m
  unfolding clone_into
  clone_into-append out [] h a = sym (append-nil out)
  clone_into-append out ((k, v) ∷ m) h a =
      clone_into-append (insert k v out) m h.1 (Apart-insert k v out m h.0 a.1)
      ∙ ap (λ (l : Dict K V). l ++ m) (insert_last k v out a.0)
      ∙ append_assoc out ((k, v) ∷ []) m

  Apart-nil : (m : Dict K V) → Apart [] m
  unfolding lookup
  Apart-nil [] = tt
  Apart-nil (x ∷ m) = (refl, Apart-nil m)

  -- A copy of a map is the map.
  pub clone_lem : (m : Dict K V) → IsMap m → clone m ≡ m
  unfolding clone
  clone_lem m h = clone_into-append [] m h (Apart-nil m)

  pub All-insert {κ} :
      (P : K × V → Type κ) (k : K) (v : V) (m : Dict K V)
      → P (k, v)
      → All P m
      → All P (insert k v m)
  unfolding insert
  All-insert P k v [] p h = (p, tt)
  All-insert P k v ((j, w) ∷ m) p h = elim (Bool-cases (j == k)) [
    | inl same ↦ rw same (p, h.1)
    | inr differs ↦ rw differs (h.0, All-insert P k v m p h.1)
  ]

  pub All-mono {κ} :
      (P Q : K × V → Type κ) (m : Dict K V) → ((x : K × V) → P x → Q x) → All P m → All Q m
  All-mono P Q [] f h = tt
  All-mono P Q (x ∷ m) f h = (f x h.0, All-mono P Q m f h.1)
