-- ===== src/Controller/Exec.antt =====
-- Methods of the controller: they read and write the database, call the outside and may raise.
-- What was written before a raise stays written, so the system comes back beside the exception.
pub mod Triple
pub mod Keeps
use devin_automation.Prelude.{ℕ, String, Option, none, some, List, [], ◌∷◌, ◌++◌, nat_eq, string_eq}
use devin_automation.Repairs.Types.{Kind, Store}
use devin_automation.Controller.Providers.{Fault, Answer, returned, raised}

-- A write to a provider: an object that an intent was recorded for, or the end of a session. The
-- repair and the marker say what the request was for.
pub data Call : Type 0 where
  opened : Kind → ℕ → String → Call
  terminated : ℕ → String → Call

-- The database, the world, and the log of the writes that left the process.
pub record Sys (W : Type 0) : Type 0 where
  pub store : Store
  pub world : W
  pub sent : List Call

pub data Exc : Type 0 where
  fault : Fault → Exc
  parked claimed value_error : String → Exc

pub data Result (A : Type 0) : Type 0 where
  ok : A → Result A
  err : Exc → Result A

abbrev pub Exec : Type 0 → Type 0 → Type 0
Exec W A = Sys W → Result A × Sys W

abbrev pub settle_call : {A : Type 0} → Answer A → Result A
settle_call (returned a) = ok a
settle_call (raised f) = err (fault f)

module _ {W A : Type 0} where
  unfoldable pub pure : A → Exec W A
  pure a s = (ok a, s)

  unfoldable pub raise : Exc → Exec W A
  raise x s = (err x, s)

  unfoldable pub gets : (Sys W → A) → Exec W A
  gets f s = (ok (f s), s)

  -- A call that changes nothing outside that is logged.
  unfoldable pub ask : (W → Answer A × W) → Exec W A
  ask call s = let (r, w) = call s.world in (settle_call r, record s { world = w })

  -- A call that writes: it is logged, whatever its answer.
  unfoldable pub tell : Call → (W → Answer A × W) → Exec W A
  tell log call s =
      let (r, w) = call s.world in
      (settle_call r, record s { world = w; sent = s.sent ++ log ∷ [] })

  -- `try ... except`: the handler raises again what it does not name.
  abbrev pub handle : Result A → (Exc → Exec W A) → Exec W A
  handle (ok a) h s = (ok a, s)
  handle (err x) h s = h x s

  unfoldable pub attempt : Exec W A → (Exc → Exec W A) → Exec W A
  attempt m h s = let (r, s') = m s in handle r h s'

module _ {W : Type 0} where
  unfoldable pub modify : (Store → Store) → Exec W (Unit {0})
  modify f s = (ok tt, record s { store = f s.store })

  -- A row that may be gone.
  abbrev pub on_row : {A R : Type 0} → Option R → Exec W A → (R → Exec W A) → Exec W A
  on_row none missing f = missing
  on_row (some r) missing f = f r

  unfoldable pub modify_with : {A : Type 0} → (Store → A × Store) → Exec W A
  modify_with f s = let (a, t) = f s.store in (ok a, record s { store = t })

module _ {W A B : Type 0} where
  abbrev pub continue : Result A → (A → Exec W B) → Exec W B
  continue (ok a) f s = f a s
  continue (err x) f s = (err x, s)

  infixl 10 ◌>>=◌ ◌>>◌
  unfoldable pub ◌>>=◌ : Exec W A → (A → Exec W B) → Exec W B
  ◌>>=◌ m f s = let (r, s') = m s in continue r f s'

  abbrev pub ◌>>◌ : Exec W A → Exec W B → Exec W B
  m >> n = m >>= λ _. n
