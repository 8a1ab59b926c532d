-- ===== src/Controller/Exec/Triple.antt =====
-- What holds after a method: of the value and the system if it returns, of the system if it raises.
use devin_automation.Prelude.{
  Bool, true, false, Option, none, some, ◌∷◌, [], ◌++◌, ◌≡◌, refl, if◌then◌else◌,
}
use devin_automation.Repairs.Types.{Store}
use devin_automation.Controller.Exec.{
  Sys, Exc, Result, ok, err, Exec, Call, pure, raise, gets, ask, tell, modify, modify_with, on_row,
  attempt, continue, handle, settle_call, ◌>>=◌,
}
use devin_automation.Controller.Exec.Keeps.{Keeps}
use devin_automation.Controller.Providers.{Answer, returned, raised}

module _ {W A : Type 0} where
  abbrev pub After : (A → Sys W → Type 0) → (Exc → Sys W → Type 0) → Result A × Sys W → Type 0
  After Q R (ok a, s) = Q a s
  After Q R (err x, s) = R x s

  pub record Triple (P : Sys W → Type 0) (m : Exec W A) (Q : A → Sys W → Type 0)
      (R : Exc → Sys W → Type 0) : Type 0 where
    pub at : (s : Sys W) → P s → After Q R (m s)

settled :
    {W A : Type 0} (Q : A → Sys W → Type 0) (R : Exc → Sys W → Type 0) (answer : Answer A)
    (s : Sys W)
    → ((a : A) → answer ≡ returned a → Q a s)
    → ((x : Exc) → R x s)
    → After Q R (settle_call answer, s)
settled Q R (returned a) s hq hr = hq a refl
settled Q R (raised f) s hq hr = hr _

continued :
    {W A B : Type 0} (Q : A → Sys W → Type 0) (Q' : B → Sys W → Type 0) (R : Exc → Sys W → Type 0)
    (r : Result A) (s : Sys W) (f : A → Exec W B)
    → After Q R (r, s)
    → ((a : A) → Triple (Q a) (f a) Q' R)
    → After Q' R (continue r f s)
continued Q Q' R (ok a) s f h hf = (hf a).at s h
continued Q Q' R (err x) s f h hf = h

handled :
    {W A : Type 0} (Q : A → Sys W → Type 0) (R R' : Exc → Sys W → Type 0) (r : Result A) (s : Sys W)
    (h : Exc → Exec W A)
    → After Q R (r, s)
    → ((x : Exc) → Triple (R x) (h x) Q R')
    → After Q R' (handle r h s)
handled Q R R' (ok a) s h t hh = t
handled Q R R' (err x) s h t hh = (hh x).at s t

module _ {W A : Type 0} {P : Sys W → Type 0} {Q : A → Sys W → Type 0}
    {R : Exc → Sys W → Type 0} where
  pub Triple-pure : (a : A) → ((s : Sys W) → P s → Q a s) → Triple P (pure a) Q R
  unfolding pure
  Triple-pure a h = record { at = h }

  pub Triple-raise : (x : Exc) → ((s : Sys W) → P s → R x s) → Triple P (raise {A = A} x) Q R
  unfolding raise
  Triple-raise x h = record { at = h }

  pub Triple-gets : (f : Sys W → A) → ((s : Sys W) → P s → Q (f s) s) → Triple P (gets f) Q R
  unfolding gets
  Triple-gets f h = record { at = h }

  pub Triple-if :
      (b : Bool) {m n : Exec W A}
      → (b ≡ true → Triple P m Q R)
      → (b ≡ false → Triple P n Q R)
      → Triple P (if b then m else n) Q R
  Triple-if true hm hn = hm refl
  Triple-if false hm hn = hn refl

  pub Triple-on_row :
      {T : Type 0} (row : Option T) {missing : Exec W A} {f : T → Exec W A}
      → Triple P missing Q R
      → ((r : T) → row ≡ some r → Triple P (f r) Q R)
      → Triple P (on_row row missing f) Q R
  Triple-on_row none hm hf = hm
  Triple-on_row (some r) hm hf = hf r refl

  pub Triple-ask :
      (call : W → Answer A × W)
      → ((s : Sys W) (a : A)
          → P s
          → (call s.world).0 ≡ returned a
          → Q a (record s { world = (call s.world).1 }))
      → ((s : Sys W) (x : Exc) (w : W) → P s → R x (record s { world = w }))
      → Triple P (ask call) Q R
  unfolding ask
  Triple-ask call hq hr = record {
    at = λ s h. settled Q R (call s.world).0 _ (λ a e. hq s a h e) (λ x. hr s x (call s.world).1 h);
  }

  pub Triple-tell :
      (log : Call) (call : W → Answer A × W)
      → ((s : Sys W) (a : A)
          → P s
          → (call s.world).0 ≡ returned a
          → Q a (record s { world = (call s.world).1; sent = s.sent ++ log ∷ [] }))
      → ((s : Sys W) (x : Exc) (w : W)
          → P s
          → R x (record s { world = w; sent = s.sent ++ log ∷ [] }))
      → Triple P (tell log call) Q R
  unfolding tell
  Triple-tell log call hq hr = record {
    at = λ s h. settled Q R (call s.world).0 _ (λ a e. hq s a h e) (λ x. hr s x (call s.world).1 h);
  }

  pub Triple-modify_with :
      (f : Store → A × Store)
      → ((s : Sys W) → P s → Q (f s.store).0 (record s { store = (f s.store).1 }))
      → Triple P (modify_with f) Q R
  unfolding modify_with
  Triple-modify_with f h = record { at = h }

  pub Triple-before :
      {P' : Sys W → Type 0} {m : Exec W A}
      → ((s : Sys W) → P' s → P s)
      → Triple P m Q R
      → Triple P' m Q R
  Triple-before sub t = record { at = λ s h. t.at s (sub s h) }

module _ {W : Type 0} {P : Sys W → Type 0} {Q : Unit {0} → Sys W → Type 0}
    {R : Exc → Sys W → Type 0} where
  pub Triple-modify :
      (f : Store → Store)
      → ((s : Sys W) → P s → Q tt (record s { store = f s.store }))
      → Triple P (modify f) Q R
  unfolding modify
  Triple-modify f h = record { at = h }

module _ {W A B : Type 0} {P : Sys W → Type 0} {Q : A → Sys W → Type 0} {Q' : B → Sys W → Type 0}
    {R : Exc → Sys W → Type 0} where
  pub Triple-bind :
      {m : Exec W A} {f : A → Exec W B}
      → Triple P m Q R
      → ((a : A) → Triple (Q a) (f a) Q' R)
      → Triple P (m >>= f) Q' R
  unfolding ◌>>=◌
  Triple-bind {m} {f} hm hf = record {
    at = λ s h. continued Q Q' R (m s).0 (m s).1 f (hm.at s h) hf;
  }

module _ {W A : Type 0} {P : Sys W → Type 0} {Q : A → Sys W → Type 0} {R : Exc → Sys W → Type 0}
    {R' : Exc → Sys W → Type 0} where
  pub Triple-attempt :
      {m : Exec W A} {h : Exc → Exec W A}
      → Triple P m Q R
      → ((x : Exc) → Triple (R x) (h x) Q R')
      → Triple P (attempt m h) Q R'
  unfolding attempt
  Triple-attempt {m} {h} hm hh = record {
    at = λ s p. handled Q R R' (m s).0 (m s).1 h (hm.at s p) hh;
  }

module _ {W A : Type 0} {P : Sys W → Type 0} where
  -- An invariant, as what holds after, and back.
  pub Triple-of_Keeps : {m : Exec W A} → Keeps P m → Triple P m (λ _. P) (λ _. P)
  Triple-of_Keeps {m} k = record { at = λ s h. either (m s).0 (m s).1 (k.keeps s h) }
    where
      either : (r : Result A) (s : Sys W) → P s → After (λ _. P) (λ _. P) (r, s)
      either (ok a) s h = h
      either (err x) s h = h

  pub Keeps-of_Triple : {m : Exec W A} → Triple P m (λ _. P) (λ _. P) → Keeps P m
  Keeps-of_Triple {m} t = record { keeps = λ s h. either (m s).0 (m s).1 (t.at s h) }
    where
      either : (r : Result A) (s : Sys W) → After (λ _. P) (λ _. P) (r, s) → P s
      either (ok a) s h = h
      either (err x) s h = h

pub Triple-fact :
    {W A : Type 0} {F : Type 0} {P : Sys W → Type 0} {Q : A → Sys W → Type 0}
    {R : Exc → Sys W → Type 0} {m : Exec W A}
    → (F → Triple P m Q R)
    → Triple (λ s. F × P s) m Q R
Triple-fact h = record { at = λ s both. (h both.0).at s both.1 }
