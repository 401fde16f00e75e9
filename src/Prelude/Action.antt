-- ===== src/Prelude/Action.antt =====
-- Methods that change a state and may raise. What was written before a raise stays written, unless
-- a transaction rolls it back, so the state comes back beside an error too.
use mathlib.Core.Path.{◌≡◌, refl}
use mathlib.Core.Logic.{◌⊎◌, inl, inr}
use mathlib.Core.Option.{Option, none, some}

pub data Result {ℓ} (E : Type 0) (A : Type ℓ) : Type ℓ where
  ok : A → Result E A
  err : E → Result E A

pub Result-cases {ℓ} :
    {E : Type 0} {A : Type ℓ} (r : Result E A) → ((a : A) × (r ≡ ok a)) ⊎ ((e : E) × (r ≡ err e))
Result-cases (ok a) = inl (a, refl)
Result-cases (err e) = inr (e, refl)

abbrev pub Action {ℓ} : Type 0 → Type 0 → Type ℓ → Type ℓ
Action S E A = S → Result E A × S

module _ {S E : Type 0} {A B : Type 0} where
  abbrev pub continue : Result E A → (A → Action S E B) → Action S E B
  continue (ok a) f s = f a s
  continue (err e) f s = (err e, s)

  infixl 5 ◌>>=◌ ◌>>◌
  abbrev pub ◌>>=◌ : Action S E A → (A → Action S E B) → Action S E B
  ◌>>=◌ m f s = let (r, s') = m s in continue r f s'

  abbrev pub ◌>>◌ : Action S E A → Action S E B → Action S E B
  m >> k = m >>= λ _. k

module _ {S E : Type 0} {A : Type 0} where
  abbrev pub pure : A → Action S E A
  pure a s = (ok a, s)

  abbrev pub raise : E → Action S E A
  raise e s = (err e, s)

  -- `async with conn.transaction()`: an exception rolls back what the block wrote.
  abbrev pub settle : S → Result E A × S → Result E A × S
  settle s (ok a, s') = (ok a, s')
  settle s (err e, s') = (err e, s)

  abbrev pub transaction : Action S E A → Action S E A
  transaction m s = settle s (m s)

  -- A statement during which the driver raises writes nothing. (That a statement was carried out
  -- although its answer is lost, is not modelled.)
  abbrev pub through : Option E → Action S E A → Action S E A
  through none m s = m s
  through (some e) m s = (err e, s)
