-- ===== src/Common/Exec.antt =====
-- Methods that change an object and may throw. What was written before a throw stays written.

-- `E` is what the methods of a component throw.
pub data Outcome {ℓ} (E A : Type ℓ) : Type ℓ where
  done : A → Outcome E A
  thrown : E → Outcome E A

abbrev pub Exec : Type 0 → Type 0 → Type 0 → Type 0
Exec S E A = S → Outcome E A × S

module _ {S E : Type 0} where
  abbrev pub pure : {A : Type 0} → A → Exec S E A
  pure a s = (done a, s)

  abbrev pub throw : {A : Type 0} → E → Exec S E A
  throw e s = (thrown e, s)

  abbrev pub gets : {A : Type 0} → (S → A) → Exec S E A
  gets f s = (done (f s), s)

  abbrev pub modify : (S → S) → Exec S E (Unit {0})
  modify f s = (done tt, f s)

  abbrev run_on : {A B : Type 0} → Outcome E A → (A → Exec S E B) → Exec S E B
  run_on (done a) f s = f a s
  run_on (thrown e) f s = (thrown e, s)

  infixl 5 ◌>>=◌ ◌>>◌
  abbrev pub ◌>>=◌ : {A B : Type 0} → Exec S E A → (A → Exec S E B) → Exec S E B
  ◌>>=◌ m f s = let (r, s') = m s in run_on r f s'

  abbrev pub ◌>>◌ : {B : Type 0} → Exec S E (Unit {0}) → Exec S E B → Exec S E B
  m >> k = m >>= λ _. k
