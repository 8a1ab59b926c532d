-- ===== src/Controller/Releases.antt =====
-- portal/controller.py, `_stop` and `_release_after_verification`: what becomes of the claim when the request
-- to end the session raises.
use devin_automation.Prelude.{String, true, false, ◌≡◌, refl, is_blank, is_blank-concat_first}
use devin_automation.Repairs.Types.{Repair}
use devin_automation.Controller.Exec.{Sys, tell, gets, pure, raise, attempt, modify, ◌>>=◌}
use devin_automation.Controller.Providers.{
  Providers, Texts, Config, Fault, raised, ambiguous, refused, runtime, died,
}
use devin_automation.Controller.Base.{
  update, now, is_named, stop_rest, stop_row, end_session, not_ended,
}
use devin_automation.Controller.Verdicts.{release_row, not_stopped}
use devin_automation.Repairs.Store

module _ {W : Type 0} (p : Providers W) (t : Texts) (c : Config) (r : Repair) (s : Sys W) where
  -- Where a Devin client is configured and the repair has a session, its slot stays claimed if the request to end
  -- the session raises anything: a refusal, an unknown outcome, an error, or the end of the process.
  pub release_row-slot :
      (f : Fault)
      → c.has_devin ≡ true
      → is_blank r.session_id ≡ false
      → (p.terminate_session r.session_id s.world).0 ≡ raised f
      → (release_row p t c r s).1.store.slot ≡ s.store.slot
  unfolding release_row tell attempt ◌>>=◌ not_stopped update now modify pure raise Store.update
      gets is_named
  release_row-slot died devin session no_answer = rw devin (rw session (rw no_answer refl))
  release_row-slot (ambiguous why) devin session no_answer =
      rw devin (rw session (rw no_answer refl))
  release_row-slot (refused why) devin session no_answer = rw devin (rw session (rw no_answer refl))
  release_row-slot (runtime why) devin session no_answer = rw devin (rw session (rw no_answer refl))

  unfinished :
      (problem reason : String) (after : Sys W)
      → is_blank problem ≡ false
      → (stop_rest p t c r reason problem after).1.store.slot ≡ after.store.slot
  unfolding stop_rest ◌>>=◌ update now modify Store.update gets
  unfinished problem reason after named = rw named refl

  -- Where a Devin client is configured and a repair that has a session is stopped, for whatever reason, its slot
  -- stays claimed if the request to end the session raises anything.
  pub stop_row-slot :
      (f : Fault) (reason : String)
      → c.has_devin ≡ true
      → is_blank r.session_id ≡ false
      → (p.terminate_session r.session_id s.world).0 ≡ raised f
      → (stop_row p t c r reason s).1.store.slot ≡ s.store.slot
  unfolding stop_row end_session not_ended tell attempt ◌>>=◌ pure raise
  stop_row-slot died reason devin session no_answer = rw devin (rw session (rw no_answer refl))
  stop_row-slot (ambiguous why) reason devin session no_answer = rw devin (
      rw session (
        rw no_answer
          (unfinished _ reason _ (is_blank-concat_first "termination outcome unknown (" _ refl))))
  stop_row-slot (refused why) reason devin session no_answer = rw devin (
      rw session (
        rw no_answer
          (unfinished _ reason _ (is_blank-concat_first "termination refused (" _ refl))))
  stop_row-slot (runtime why) reason devin session no_answer = rw devin (
      rw session (
        rw no_answer
          (unfinished _ reason _ (is_blank-concat_first "termination outcome unknown (" _ refl))))
