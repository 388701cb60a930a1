-- ===== src/Common/Effects.antt =====
-- Methods that write to the session and may raise. What was written before an exception stays in
-- the session, so the state comes back beside the error too; whether it is committed is up to the
-- caller of the method.
use mathlib.Core.Bool.{Bool, true, false}
use mathlib.Core.Path.{◌≡◌, refl}
use mathlib.Core.Option.{Option, none, some}

pub data Outcome (E A : Type 0) : Type 0 where
  returned : A → Outcome E A
  raised : E → Outcome E A

abbrev pub Exec : Type 0 → Type 0 → Type 0 → Type 0
Exec S E A = S → Outcome E A × S

module _ {S E A : Type 0} where
  abbrev pub pure : A → Exec S E A
  pure a s = (returned a, s)

  abbrev pub raise : E → Exec S E A
  raise e s = (raised e, s)

  abbrev pub gets : (S → A) → Exec S E A
  gets f s = (returned (f s), s)

  -- `if x is None: raise e`
  abbrev pub or_raise : Option A → E → Exec S E A
  or_raise none e s = (raised e, s)
  or_raise (some a) e s = (returned a, s)

module _ {S E : Type 0} where
  abbrev pub modify : (S → S) → Exec S E (Unit {0})
  modify f s = (returned tt, f s)

  -- `if b: raise e`
  abbrev pub raise_if : Bool → E → Exec S E (Unit {0})
  raise_if true e s = (raised e, s)
  raise_if false e s = (returned tt, s)

module _ {S E A B : Type 0} where
  abbrev pub resume_with : Outcome E A → (A → Exec S E B) → Exec S E B
  resume_with (returned a) f s = f a s
  resume_with (raised e) f s = (raised e, s)

  infixl 5 ◌>>=◌
  abbrev pub ◌>>=◌ : Exec S E A → (A → Exec S E B) → Exec S E B
  ◌>>=◌ m f s = resume_with (m s).0 f (m s).1

  -- What comes after the last write leaves the state.
  pub state->>=-pure :
      (m : Exec S E A) (f : A → B) (s : S) → ((m >>= λ a. pure (f a)) s).1 ≡ (m s).1
  state->>=-pure m f s = state_of_pure (m s)
    where
      state_of_pure : (r : Outcome E A × S) → (resume_with r.0 (λ a. pure (f a)) r.1).1 ≡ r.1
      state_of_pure (returned a, t) = refl
      state_of_pure (raised e, t) = refl

module _ {S E B : Type 0} where
  infixl 5 ◌>>◌
  abbrev pub ◌>>◌ : Exec S E (Unit {0}) → Exec S E B → Exec S E B
  m >> k = m >>= λ _. k
