-- ===== src/Controller/Recovery.antt =====
-- portal/controller.py, `recover`: the creation intents whose worker never came back.
use devin_automation.Prelude.{
  ℕ, ◌+◌, ◌*◌, String, Bool, true, false, ◌&&◌, List, [], ◌∷◌, ◌≡◌, refl, sym, ◌∙◌, arith, All,
  All-map, All-imp, any, keep, map, ltb, ◌==◌, nat_eq, ==_refl, Bool-cases, inl, inr, if_rule,
  if◌then◌else◌,
}
use devin_automation.Repairs.Types.{Intent, IntentState}
use devin_automation.Repairs.Store
use devin_automation.Repairs.Store.{is_intended}
use devin_automation.Controller.Exec.{Sys, Result, ok, err, gets, ◌>>=◌}
use devin_automation.Controller.Exec.Triple.{
  Triple, After, Triple-pure, Triple-gets, Triple-bind, Triple-modify,
}
use devin_automation.Controller.Providers.{Providers, Texts, Config}
use devin_automation.Controller.Base.{Decision, minute, now, settle, update}
use devin_automation.Controller.Polling.{park}
use devin_automation.Controller.Advance.{recover_intent, recover_all, recover}

-- `updated_at < before` of an intent that is still open.
abbrev pub is_stale : ℕ → ℕ → Intent → Bool
is_stale at span i = is_intended i.state && ltb (i.updated_at + span) at

-- The open intents that are stale are all in the list that is still to be settled.
abbrev Left : ℕ → ℕ → List Intent → List Intent → Type 0
Left at span xs rows = All (λ j. is_stale at span j ≡ true → any (λ x. j.id == x.id) xs ≡ true) rows

Left-keep : (at span : ℕ) (rows : List Intent) → Left at span (keep (is_stale at span) rows) rows
Left-keep at span [] = tt
Left-keep at span (x ∷ rows) =
    if_rule (λ (ys : List Intent). Left at span ys (x ∷ rows)) (is_stale at span x)
      (λ stale. (
        (λ _. rw (==_refl x.id) refl),
        All-imp _ _ rows (λ j h old. ground (arith, h old)) (Left-keep at span rows),
      ))
      (λ fresh. ((λ old. cc), Left-keep at span rows))

Left-settle :
    (at span time : ℕ) (i : Intent) (rest rows : List Intent) (detail : String)
    → Left at span (i ∷ rest) rows
    → Left at span rest (
        map
          (λ j.
            if j.id == i.id
            then record j { state = IntentState.ambiguous; detail = detail; updated_at = time }
            else j)
          rows)
Left-settle at span time i rest rows detail h =
    All-map _ _ _ rows
      (λ j hj. elim (Bool-cases (j.id == i.id)) [
        | inl mine ↦ rw mine λ old. cc
        | inr other ↦ rw other λ old. ground (arith, hj old)
      ])
      h

-- Nothing has gone out, and the world has not been touched.
pub record IsQuiet {W : Type 0} (before s : Sys W) : Type 0 where
  pub same_sent : s.sent ≡ before.sent
  pub same_world : s.world ≡ before.world

module _ {W : Type 0} (p : Providers W) (t : Texts) (c : Config) (at span : ℕ)
    (before : Sys W) where
  record LeftIn (xs : List Intent) (s : Sys W) : Type 0 where
    left : Left at span xs s.store.intents
    quiet : IsQuiet before s

  moved :
      {xs ys : List Intent} {s s' : Sys W}
      → LeftIn xs s
      → Left at span ys s'.store.intents
      → s'.sent ≡ s.sent
      → s'.world ≡ s.world
      → LeftIn ys s'
  moved h left sent world = record {
    left = left;
    quiet = record {
      same_sent = sent ∙ h.quiet.same_sent;
      same_world = world ∙ h.quiet.same_world;
    };
  }

  Triple-recover_intent :
      (i : Intent) (rest : List Intent)
      → Triple (LeftIn (i ∷ rest)) (recover_intent p t c i) (λ _. LeftIn rest) (λ _. LeftIn [])
  unfolding recover_intent settle park update now Store.settle Store.update
  Triple-recover_intent i rest =
      Triple-bind
        (Triple-bind {Q = λ _. LeftIn (i ∷ rest)} (Triple-gets _ λ s h. h) λ time.
          Triple-modify _
            λ s h. moved h (Left-settle at span time i rest s.store.intents _ h.left) refl refl)
        λ _.
          Triple-bind {Q = λ _. LeftIn rest}
            (Triple-bind {Q = λ _. LeftIn rest} (Triple-gets _ λ s h. h)
              λ time. Triple-modify _ λ s h. moved h h.left refl refl)
            λ _. Triple-pure _ λ s h. h

  Triple-recover_all :
      (xs : List Intent)
      → Triple (LeftIn xs) (recover_all p t c xs) (λ _. LeftIn []) (λ _. LeftIn [])
  unfolding recover_all
  Triple-recover_all [] = Triple-pure _ λ s h. h
  Triple-recover_all (i ∷ rest) =
      Triple-bind (Triple-recover_intent i rest)
        λ d. Triple-bind (Triple-recover_all rest) λ ds. Triple-pure _ λ s h. h

module _ {W : Type 0} (p : Providers W) (t : Texts) (c : Config) (minutes : ℕ) (s : Sys W) where
  -- After a recovery, whether it returns or raises, no intent is left open that was last written before the
  -- given number of minutes; and it has made no request, and changed nothing outside the store.
  pub recover-is_stale :
      All
        (λ j. is_stale (p.clock s.world) (minutes * minute) j ≡ false)
        (recover p t c minutes s).1.store.intents
      × IsQuiet s (recover p t c minutes s).1
  unfolding recover now ◌>>=◌ gets Store.stale_intents
  recover-is_stale =
      let done =
        either
          (recover_all p t c (keep (is_stale (p.clock s.world) (minutes * minute)) s.store.intents)
            s)
          ((Triple-recover_all p t c (p.clock s.world) (minutes * minute) s _).at s (record {
            left = Left-keep (p.clock s.world) (minutes * minute) s.store.intents;
            quiet = record { same_sent = refl; same_world = refl };
          })) in
      (
        All-imp _ _ _ (λ j old. none_left (is_stale (p.clock s.world) (minutes * minute) j) old)
            done.left,
        done.quiet,
      )
    where
      none_left : (b : Bool) → (b ≡ true → false ≡ true) → b ≡ false
      none_left true h = sym (h refl)
      none_left false h = refl

      either :
          (r : Result (List Decision) × Sys W)
          → After
              (λ _. LeftIn p t c (p.clock s.world) (minutes * minute) s [])
              (λ _. LeftIn p t c (p.clock s.world) (minutes * minute) s [])
              r
          → LeftIn p t c (p.clock s.world) (minutes * minute) s [] r.1
      either (ok ds, s') h = h
      either (err x, s') h = h
