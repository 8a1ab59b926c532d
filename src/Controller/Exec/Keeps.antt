-- ===== src/Controller/Exec/Keeps.antt =====
-- Invariants of methods: `m` keeps `P`, whether it returns or raises. One rule for each way to build
-- a method.
use devin_automation.Prelude.{Bool, true, false, Option, none, some, if◌then◌else◌}
use devin_automation.Controller.Exec.{
  Sys, Exc, Result, ok, err, Exec, pure, raise, gets, on_row, attempt, continue, handle, ◌>>=◌,
}

pub record Keeps {W A : Type 0} (P : Sys W → Type 0) (m : Exec W A) : Type 0 where
  pub keeps : (s : Sys W) → P s → P (m s).1

module _ {W A : Type 0} {P : Sys W → Type 0} where
  pub Keeps-pure : (a : A) → Keeps P (pure a)
  unfolding pure
  Keeps-pure a = record { keeps = λ s h. h }

  pub Keeps-raise : (x : Exc) → Keeps P (raise {A = A} x)
  unfolding raise
  Keeps-raise x = record { keeps = λ s h. h }

  pub Keeps-gets : (f : Sys W → A) → Keeps P (gets f)
  unfolding gets
  Keeps-gets f = record { keeps = λ s h. h }

  pub Keeps-if : (b : Bool) (m n : Exec W A) → Keeps P m → Keeps P n → Keeps P (if b then m else n)
  Keeps-if true m n hm hn = hm
  Keeps-if false m n hm hn = hn

  pub Keeps-on_row :
      {T : Type 0} (row : Option T) (missing : Exec W A) (f : T → Exec W A)
      → Keeps P missing
      → ((r : T) → Keeps P (f r))
      → Keeps P (on_row row missing f)
  Keeps-on_row none missing f hm hf = hm
  Keeps-on_row (some r) missing f hm hf = hf r

  handled :
      (r : Result A) (s : Sys W) (h : Exc → Exec W A)
      → P s
      → ((x : Exc) → Keeps P (h x))
      → P (handle r h s).1
  handled (ok a) s h p hh = p
  handled (err x) s h p hh = (hh x).keeps s p

  pub Keeps-attempt :
      (m : Exec W A) (h : Exc → Exec W A)
      → Keeps P m
      → ((x : Exc) → Keeps P (h x))
      → Keeps P (attempt m h)
  unfolding attempt
  Keeps-attempt m h hm hh = record { keeps = λ s p. handled (m s).0 (m s).1 h (hm.keeps s p) hh }

module _ {W A B : Type 0} {P : Sys W → Type 0} where
  continued :
      (r : Result A) (s : Sys W) (f : A → Exec W B)
      → P s
      → ((a : A) → Keeps P (f a))
      → P (continue r f s).1
  continued (ok a) s f p hf = (hf a).keeps s p
  continued (err x) s f p hf = p

  pub Keeps-bind :
      (m : Exec W A) (f : A → Exec W B) → Keeps P m → ((a : A) → Keeps P (f a)) → Keeps P (m >>= f)
  unfolding ◌>>=◌
  Keeps-bind m f hm hf = record { keeps = λ s p. continued (m s).0 (m s).1 f (hm.keeps s p) hf }

pub ruleset keeps_rules =
    (Keeps-pure, Keeps-raise, Keeps-gets, Keeps-if, Keeps-on_row, Keeps-attempt, Keeps-bind)
