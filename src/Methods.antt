-- ===== src/Methods.antt =====
-- Methods that read and write a state and may raise. What was written before a raise stays written, so the
-- state comes back beside the exception.
pub mod Triple
use devin_automation.Prelude.{Bool, Option, none, some}

pub data Result (E A : Type 0) : Type 0 where
  ok : A → Result E A
  err : E → Result E A

abbrev pub Method : Type 0 → Type 0 → Type 0 → Type 0
Method S E A = S → Result E A × S

module _ {S E A : Type 0} where
  unfoldable pub pure : A → Method S E A
  pure a s = (ok a, s)

  unfoldable pub raise : E → Method S E A
  raise x s = (err x, s)

  unfoldable pub gets : (S → A) → Method S E A
  gets f s = (ok (f s), s)

  -- A step of the state that answers or raises.
  unfoldable pub run : (S → Result E A × S) → Method S E A
  run f s = f s

  abbrev pub handle : Result E A → (E → Method S E A) → Method S E A
  handle (ok a) h s = (ok a, s)
  handle (err x) h s = h x s

  -- `try ... except`: the handler raises again what it does not name.
  unfoldable pub attempt : Method S E A → (E → Method S E A) → Method S E A
  attempt m h s = let (r, s') = m s in handle r h s'

  abbrev pub on_row : {R : Type 0} → Option R → Method S E A → (R → Method S E A) → Method S E A
  on_row none missing f = missing
  on_row (some r) missing f = f r

module _ {S E : Type 0} where
  unfoldable pub modify : (S → S) → Method S E (Unit {0})
  modify f s = (ok tt, f s)

module _ {S E A B : Type 0} where
  abbrev pub continue : Result E A → (A → Method S E B) → Method S E B
  continue (ok a) f s = f a s
  continue (err x) f s = (err x, s)

  infixl 10 ◌>>=◌ ◌>>◌
  unfoldable pub ◌>>=◌ : Method S E A → (A → Method S E B) → Method S E B
  ◌>>=◌ m f s = let (r, s') = m s in continue r f s'

  abbrev pub ◌>>◌ : Method S E A → Method S E B → Method S E B
  m >> n = m >>= λ _. n

-- `try ... finally`: what the last part raises replaces what was answered or raised.
module _ {S E A : Type 0} where
  abbrev pub concluded : Result E A → Result E (Unit {0}) × S → Result E A × S
  concluded r (ok u, s) = (r, s)
  concluded r (err x, s) = (err x, s)

  unfoldable pub ensure : Method S E A → Method S E (Unit {0}) → Method S E A
  ensure m last s = let (r, s') = m s in concluded r (last s')
