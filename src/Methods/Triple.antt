-- ===== src/Methods/Triple.antt =====
-- What holds after a method: of the value and the state if it returns, of the state if it raises.
use devin_automation.Prelude.{Bool, true, false, Option, none, some, ◌≡◌, refl, if◌then◌else◌}
use devin_automation.Methods.{
  Result, ok, err, Method, pure, raise, gets, modify, run, handle, attempt, on_row, continue, ◌>>=◌,
  concluded, ensure,
}

module _ {S E A : Type 0} where
  abbrev pub After : (A → S → Type 0) → (E → S → Type 0) → Result E A × S → Type 0
  After Q R (ok a, s) = Q a s
  After Q R (err x, s) = R x s

  pub record Triple (P : S → Type 0) (m : Method S E A) (Q : A → S → Type 0) (R : E → S → Type 0)
      : Type 0 where
    pub at : (s : S) → P s → After Q R (m s)

module _ {S E A B : Type 0} (Q : A → S → Type 0) (Q' : B → S → Type 0) (R : E → S → Type 0) where
  After-continue :
      (r : Result E A) (s : S) (f : A → Method S E B)
      → After Q R (r, s)
      → ((a : A) → Triple (Q a) (f a) Q' R)
      → After Q' R (continue r f s)
  After-continue (ok a) s f h hf = (hf a).at s h
  After-continue (err x) s f h hf = h

module _ {S E A : Type 0} where
  After-handle :
      (Q : A → S → Type 0) (R R' : E → S → Type 0) (r : Result E A) (s : S) (h : E → Method S E A)
      → After Q R (r, s)
      → ((x : E) → Triple (R x) (h x) Q R')
      → After Q R' (handle r h s)
  After-handle Q R R' (ok a) s h t hh = t
  After-handle Q R R' (err x) s h t hh = (hh x).at s t

  After-concluded :
      (Q Q' : A → S → Type 0) (R R' : E → S → Type 0) (r : Result E A) (s : S)
      (last : Method S E (Unit {0}))
      → After Q R (r, s)
      → ((a : A) → Triple (Q a) last (λ _. Q' a) R')
      → ((x : E) → Triple (R x) last (λ _. R' x) R')
      → After Q' R' (concluded r (last s))
  After-concluded Q Q' R R' (ok a) s last h hq hr = finished (last s) ((hq a).at s h)
    where
      finished :
          (d : Result E (Unit {0}) × S) → After (λ _. Q' a) R' d → After Q' R' (concluded (ok a) d)
      finished (ok u, t) d = d
      finished (err x, t) d = d
  After-concluded Q Q' R R' (err x) s last h hq hr = finished (last s) ((hr x).at s h)
    where
      finished :
          (d : Result E (Unit {0}) × S) → After (λ _. R' x) R' d → After Q' R' (concluded (err x) d)
      finished (ok u, t) d = d
      finished (err y, t) d = d

module _ {S E A : Type 0} {P : S → Type 0} {Q : A → S → Type 0} {R : E → S → Type 0} where
  pub Triple-pure : (a : A) → ((s : S) → P s → Q a s) → Triple P (pure a) Q R
  unfolding pure
  Triple-pure a h = record { at = h }

  pub Triple-raise : (x : E) → ((s : S) → P s → R x s) → Triple P (raise {A = A} x) Q R
  unfolding raise
  Triple-raise x h = record { at = h }

  pub Triple-gets : (f : S → A) → ((s : S) → P s → Q (f s) s) → Triple P (gets f) Q R
  unfolding gets
  Triple-gets f h = record { at = h }

  pub Triple-run :
      (f : S → Result E A × S) → ((s : S) → P s → After Q R (f s)) → Triple P (run f) Q R
  unfolding run
  Triple-run f h = record { at = h }

  pub Triple-if :
      (b : Bool) {m n : Method S E A}
      → (b ≡ true → Triple P m Q R)
      → (b ≡ false → Triple P n Q R)
      → Triple P (if b then m else n) Q R
  Triple-if true hm hn = hm refl
  Triple-if false hm hn = hn refl

  pub Triple-on_row :
      {T : Type 0} (row : Option T) {missing : Method S E A} {f : T → Method S E A}
      → (row ≡ none → Triple P missing Q R)
      → ((r : T) → row ≡ some r → Triple P (f r) Q R)
      → Triple P (on_row row missing f) Q R
  Triple-on_row none hm hf = hm refl
  Triple-on_row (some r) hm hf = hf r refl

  pub Triple-imp :
      {P' : S → Type 0} {Q' : A → S → Type 0} {R' : E → S → Type 0} {m : Method S E A}
      → ((s : S) → P' s → P s)
      → ((a : A) (s : S) → Q a s → Q' a s)
      → ((x : E) (s : S) → R x s → R' x s)
      → Triple P m Q R
      → Triple P' m Q' R'
  Triple-imp {P'} {Q'} {R'} {m} before after raised t = record {
    at = λ s h. widen (m s) (t.at s (before s h));
  }
    where
      widen : (d : Result E A × S) → After Q R d → After Q' R' d
      widen (ok a, s) d = after a s d
      widen (err x, s) d = raised x s d

module _ {S E : Type 0} {P : S → Type 0} {Q : Unit {0} → S → Type 0} {R : E → S → Type 0} where
  pub Triple-modify : (f : S → S) → ((s : S) → P s → Q tt (f s)) → Triple P (modify f) Q R
  unfolding modify
  Triple-modify f h = record { at = h }

module _ {S E A B : Type 0} {P : S → Type 0} {Q : A → S → Type 0} {Q' : B → S → Type 0}
    {R : E → S → Type 0} where
  pub Triple-bind :
      {m : Method S E A} {f : A → Method S E B}
      → Triple P m Q R
      → ((a : A) → Triple (Q a) (f a) Q' R)
      → Triple P (m >>= f) Q' R
  unfolding ◌>>=◌
  Triple-bind {m} {f} hm hf = record {
    at = λ s h. After-continue Q Q' R (m s).0 (m s).1 f (hm.at s h) hf;
  }

module _ {S E A : Type 0} {P : S → Type 0} {Q : A → S → Type 0} {R R' : E → S → Type 0} where
  pub Triple-attempt :
      {m : Method S E A} {h : E → Method S E A}
      → Triple P m Q R
      → ((x : E) → Triple (R x) (h x) Q R')
      → Triple P (attempt m h) Q R'
  unfolding attempt
  Triple-attempt {m} {h} hm hh = record {
    at = λ s p. After-handle Q R R' (m s).0 (m s).1 h (hm.at s p) hh;
  }

  pub Triple-ensure :
      {Q' : A → S → Type 0} {m : Method S E A} {last : Method S E (Unit {0})}
      → Triple P m Q R
      → ((a : A) → Triple (Q a) last (λ _. Q' a) R')
      → ((x : E) → Triple (R x) last (λ _. R' x) R')
      → Triple P (ensure m last) Q' R'
  unfolding ensure
  Triple-ensure {Q'} {m} {last} hm hq hr = record {
    at = λ s p. After-concluded Q Q' R R' (m s).0 (m s).1 last (hm.at s p) hq hr;
  }

-- A fact that holds before, and stays one.
pub Triple-fact :
    {S E A : Type 0} {F : Type 0} {P : S → Type 0} {Q : A → S → Type 0} {R : E → S → Type 0}
    {m : Method S E A}
    → (F → Triple P m Q R)
    → Triple (λ s. F × P s) m Q R
Triple-fact h = record { at = λ s both. (h both.0).at s both.1 }
