-- ===== src/Repairs/Store.antt =====
-- portal/controller.py, class RepairStore: each method on the database; `now` is `utcnow()`.
use devin_automation.Prelude.{
  ℕ, suc, ◌+◌, String, Bool, true, false, ◌&&◌, ◌||◌, Option, none, some, List, [], ◌∷◌, ◌++◌, map,
  find, keep, ◌==◌, nat_eq, string_eq, ltb, if◌then◌else◌,
}
use devin_automation.Repairs.Types.{
  State, Repair, Kind, issue, session, message, IntentState, intended, Intent, Claim, Store,
}

unfoldable pub get : ℕ → Store → Option Repair
get id s = find (λ r. r.id == id) s.repairs

unfoldable pub by_fingerprint : String → Store → Option Repair
by_fingerprint key s = find (λ r. r.fingerprint == key) s.repairs

-- `changes`: a scripted process stamps every row that it touches.
unfoldable pub write_row : Bool → ℕ → (Repair → Repair) → Repair → Repair
write_row simulated now change r =
    let r' = change r in record r' { updated_at = now; simulated = simulated || r'.simulated }

unfoldable pub update : ℕ → ℕ → (Repair → Repair) → Store → Store
unfolding write_row
update now id change s = record s {
  repairs = map (λ r. if r.id == id then write_row s.simulated now change r else r) s.repairs;
}

-- INSERT of a proposal; the columns that it does not name take their defaults.
unfoldable pub insert : ℕ → Repair → Store → Store
insert now r s = record s {
  repairs =
      s.repairs
      ++ record r {
        id = s.next_repair;
        created_at = now;
        updated_at = now;
        simulated = s.simulated;
      }
        ∷ [];
  next_repair = suc s.next_repair;
}

unfoldable pub upsert_found : ℕ → Repair → (Repair → Repair) → Option Repair → Store → Store
unfolding insert update
upsert_found now row change none s = insert now row s
upsert_found now row change (some old) s = update now old.id change s

-- `upsert`, for a row that holds all columns and the change that the same values make.
unfoldable pub upsert : ℕ → Repair → (Repair → Repair) → Store → Store
unfolding upsert_found by_fingerprint
upsert now row change s = upsert_found now row change (by_fingerprint row.fingerprint s) s

abbrev claimant : Claim → Store → Option Repair
claimant claim s = find (λ r. r.id == claim.repair_id) s.repairs

unfoldable pub active : Store → Option Repair
active s = elim s.slot [ none ↦ none | some claim ↦ claimant claim s ]

abbrev is_proposed : State → Bool
is_proposed State.proposed = true
is_proposed _ = false

-- ORDER BY id: rows are stored in the order of their ids.
unfoldable pub queued : Store → List Repair
queued s = keep (λ r. is_proposed r.state) s.repairs

unfoldable pub slot_holder : Store → Option ℕ
slot_holder s = elim s.slot [ none ↦ none | some claim ↦ some claim.repair_id ]

abbrev pub or_claim : Option Claim → Claim → Claim
or_claim none mine = mine
or_claim (some theirs) mine = theirs

-- INSERT OR IGNORE against the single row, then read who holds it.
unfoldable pub claim_slot : ℕ → ℕ → Store → Bool × Store
claim_slot now id s =
    let holder = or_claim s.slot (record { repair_id = id; claimed_at = now }) in
    (holder.repair_id == id, record s { slot = some holder })

unfoldable pub slot_claimed_at : Store → Option ℕ
slot_claimed_at s = elim s.slot [ none ↦ none | some claim ↦ some claim.claimed_at ]

unfoldable pub release_slot : ℕ → Store → Store
release_slot id s = record s {
  slot = elim s.slot [
    | none ↦ none
    | some claim ↦ if claim.repair_id == id then none else some claim
  ];
}

unfoldable pub run_row : String → Option String → Store → Bool × Store
run_row namespace none s = (true, record s { run = some namespace })
run_row namespace (some stored) s = (stored == namespace, s)

-- `adopt_run`: whether the namespace that is bound is the one asked for.
unfoldable pub adopt_run : String → Store → Bool × Store
unfolding run_row
adopt_run namespace s = run_row namespace s.run s

abbrev pub same_kind : Kind → Kind → Bool
same_kind issue issue = true
same_kind session session = true
same_kind message message = true
same_kind _ _ = false

-- UNIQUE (repair_id, kind, marker)
abbrev pub has_key : ℕ → Kind → String → Intent → Bool
has_key id kind mark i = i.repair_id == id && (same_kind i.kind kind && i.marker == mark)

unfoldable pub new_intent : ℕ → ℕ → Kind → String → ℕ → Intent
new_intent now id kind mark own = record {
  id = own;
  repair_id = id;
  kind = kind;
  marker = mark;
  state = intended;
  detail = "";
  created_at = now;
  updated_at = now;
}

unfoldable pub intend_row : ℕ → ℕ → Kind → String → Option Intent → Store → (Intent × Bool) × Store
unfolding new_intent
intend_row now id kind mark (some old) s = ((old, false), s)
intend_row now id kind mark none s =
    let mine = new_intent now id kind mark s.next_intent in
    ((mine, true), record s { intents = s.intents ++ mine ∷ []; next_intent = suc s.next_intent })

-- `intend`: the row of the key, and whether this call inserted it.
unfoldable pub intend : ℕ → ℕ → Kind → String → Store → (Intent × Bool) × Store
unfolding intend_row
intend now id kind mark s = intend_row now id kind mark (find (has_key id kind mark) s.intents) s

unfoldable pub settle : ℕ → ℕ → IntentState → String → Store → Store
settle now id state detail s = record s {
  intents =
      map
        (λ i.
          if i.id == id then record i { state = state; detail = detail; updated_at = now } else i)
        s.intents;
}

abbrev pub is_intended : IntentState → Bool
is_intended IntentState.intended = true
is_intended _ = false

-- `stale_intents`: `updated_at < before`, where `before` is `now` less the given span.
unfoldable pub stale_intents : ℕ → ℕ → Store → List Intent
stale_intents now span s =
    keep (λ i. is_intended i.state && ltb (i.updated_at + span) now) s.intents
