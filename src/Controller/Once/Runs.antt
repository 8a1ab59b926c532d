-- ===== src/Controller/Once/Runs.antt =====
-- portal/worker.py runs passes for as long as the process lives, and again after a restart: any sequence
-- of the operations of the controller, whatever the world does between them.
use devin_automation.Prelude.{ℕ, ◌≤◌, String, List, [], ◌∷◌, ◌≡◌, arith, count_if}
use devin_automation.Incidents.Types.{Incident}
use devin_automation.Repairs.Types.{Repair, Kind, MediaState}
use devin_automation.Repairs.Store
use devin_automation.Repairs.Store.{has_key}
use devin_automation.Repairs.Proposals.{upsert_apart}
use devin_automation.Controller.Exec.{Sys, modify}
use devin_automation.Controller.Exec.Keeps.{Keeps}
use devin_automation.Controller.Providers.{Providers, Texts, Config}
use devin_automation.Controller.Dispatch.{consider, consider_found, answer_row, propose}
use devin_automation.Controller.Media.{media_failed, media_delivered}
use devin_automation.Controller.Advance.{advance}
use devin_automation.Controller.Once.{IsRoom, is_write, once_rules, Keeps-modify}
use devin_automation.Controller.Once.Dispatching.{NamesWhatItMakes}
use devin_automation.Controller.Once.Passes.{Keeps-advance, Keeps-settle_media}

-- One operation of the controller, under the configuration of the process that runs it, or a change
-- of the world. An exception ends the operation.
pub data Act (W : Type 0) : Type 0 where
  pass : Config → Act W
  considered : Config → Incident → Act W
  published : Config → ℕ → String → String → Act W
  unpublished : Config → ℕ → String → Act W
  elsewhere : (W → W) → Act W

module _ {W : Type 0} (p : Providers W) (t : Texts) where
  unfoldable pub perform : Act W → Sys W → Sys W
  unfolding advance consider media_delivered media_failed
  perform (pass c) s = (advance p t c s).1
  perform (considered c i) s = (consider p t c i s).1
  perform (published c id file_id detail) s = (media_delivered p t c id file_id detail s).1
  perform (unpublished c id detail) s = (media_failed p t c id detail s).1
  perform (elsewhere change) s = record s { world = change s.world }

  unfoldable pub perform_all : List (Act W) → Sys W → Sys W
  unfolding perform
  perform_all [] s = s
  perform_all (a ∷ rest) s = perform_all rest (perform a s)

module _ {W : Type 0} {id : ℕ} {kind : Kind} {mark : String} (p : Providers W) (t : Texts)
    (names : NamesWhatItMakes p) where
  Keeps-consider : (c : Config) (i : Incident) → Keeps (IsRoom id kind mark 0) (consider p t c i)
  unfolding consider consider_found answer_row propose
  Keeps-consider c i = search (once_rules, proposed) depth 14
    where
      proposed :
          (at : ℕ) (row : Repair) (change : Repair → Repair)
          → Keeps {W = W} (IsRoom id kind mark 0) (modify (Store.upsert at row change))
      proposed at row change = Keeps-modify _ λ s. (upsert_apart at row change s).0

  Keeps-media_failed :
      (c : Config) (i : ℕ) (detail : String)
      → Keeps (IsRoom id kind mark 0) (media_failed p t c i detail)
  unfolding media_failed
  Keeps-media_failed c i detail = Keeps-settle_media p t c i MediaState.failed detail ""

  Keeps-media_delivered :
      (c : Config) (i : ℕ) (file_id detail : String)
      → Keeps (IsRoom id kind mark 0) (media_delivered p t c i file_id detail)
  unfolding media_delivered
  Keeps-media_delivered c i file_id detail =
      search (once_rules, Keeps-media_failed, Keeps-settle_media) depth 14

  IsRoom-perform :
      (a : Act W) (s : Sys W) → IsRoom id kind mark 0 s → IsRoom id kind mark 0 (perform p t a s)
  unfolding perform
  IsRoom-perform (pass c) s h = (Keeps-advance p t c names).keeps s h
  IsRoom-perform (considered c i) s h = (Keeps-consider c i).keeps s h
  IsRoom-perform (published c i file_id detail) s h =
      (Keeps-media_delivered c i file_id detail).keeps s h
  IsRoom-perform (unpublished c i detail) s h = (Keeps-media_failed c i detail).keeps s h
  IsRoom-perform (elsewhere change) s h = record {
    one_row = h.one_row;
    within = h.within;
    named = h.named;
  }

  -- Whatever the operations, the answers of the providers, the faults and the restarts: the intent table
  -- keeps one row at most for a repair, a kind and a marker, no more requests than such rows have left
  -- the process, and what is confirmed is named; if that held before, and the providers name what they
  -- make.
  pub perform_all-IsRoom :
      (acts : List (Act W)) (s : Sys W)
      → IsRoom id kind mark 0 s
      → IsRoom id kind mark 0 (perform_all p t acts s)
  unfolding perform_all
  perform_all-IsRoom [] s h = h
  perform_all-IsRoom (a ∷ rest) s h = perform_all-IsRoom rest _ (IsRoom-perform a s h)

-- From a database without intents, and whatever the operations, the answers of the providers, the
-- faults and the restarts, at most one request leaves the process for a repair, a kind (an issue, a
-- session or a message) and a marker; if the providers name what they make.
pub at_most_one_request :
    {W : Type 0} (p : Providers W) (t : Texts)
    → NamesWhatItMakes p
    → (acts : List (Act W)) (s : Sys W) (id : ℕ) (kind : Kind) (mark : String)
    → s.store.intents ≡ []
    → s.sent ≡ []
    → count_if (is_write id kind mark) (perform_all p t acts s).sent ≤ 1
at_most_one_request p t names acts s id kind mark no_intents nothing_sent =
    let kept = perform_all-IsRoom p t names acts s start in omega (arith, kept.one_row, kept.within)
  where
    start : IsRoom id kind mark 0 s
    start = record {
      one_row = rw no_intents (omega arith);
      within = rw no_intents (rw nothing_sent (omega arith));
      named = rw no_intents tt;
    }
