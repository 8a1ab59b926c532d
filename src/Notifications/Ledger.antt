-- ===== src/Notifications/Ledger.antt =====
-- portal/notify.py, class NotificationLog: one row per message, upload, thread and correction.
use devin_automation.Prelude.{
  ℕ, suc, String, Bool, true, false, not, ◌&&◌, Option, none, some, List, [], ◌∷◌, ◌++◌, map, find,
  keep, any, count_if, is_blank, or_text, lower, strip, short, concat, show, starts_with, leb, ◌==◌,
  nat_eq, string_eq, if◌then◌else◌,
}

pub data RowState : Type 0 where
  pending sent failed unknown disabled : RowState

-- `notifications`. A payload that is "" is no block.
pub record Row : Type 0 where
  pub id : ℕ
  pub event_id : String
  pub repair_id : Option ℕ
  pub kind : String
  pub text : String
  pub blocks : List String
  pub fallback : String
  pub state : RowState
  pub attempts : ℕ
  pub detail : String
  pub next_try_at : ℕ
  pub ts : String
  pub created_at : ℕ
  pub updated_at : ℕ

-- `notification_threads`, whose primary key is the repair.
pub record Thread : Type 0 where
  pub repair_id : ℕ
  pub channel : String
  pub parent_ts : String
  pub source : String
  pub created_at : ℕ

pub record Upload : Type 0 where
  pub upload_id : String
  pub repair_id : Option ℕ
  pub path : String
  pub sha : String
  pub file_id : String
  pub caption : String
  pub state : RowState
  pub detail : String
  pub created_at : ℕ
  pub updated_at : ℕ

pub record Amendment : Type 0 where
  pub ts : String
  pub channel : String
  pub previous : String
  pub replacement : String
  pub reason : String
  pub state : RowState
  pub detail : String
  pub created_at : ℕ

-- The tables, in the order of their rows, and the counter of the first.
pub record Ledger : Type 0 where
  pub rows : List Row
  pub next_row : ℕ
  pub threads : List Thread
  pub uploads : List Upload
  pub amendments : List Amendment
  pub watermark : Option ℕ

abbrev pub same_state : RowState → RowState → Bool
same_state pending pending = true
same_state sent sent = true
same_state failed failed = true
same_state unknown unknown = true
same_state disabled disabled = true
same_state _ _ = false

-- `ORDER BY id DESC LIMIT 1`
unfoldable pub find_last {ℓ} : {A : Type ℓ} → (A → Bool) → List A → Option A
find_last p [] = none
find_last p (x ∷ xs) = elim (find_last p xs) [
  | some y ↦ some y
  | none ↦ if p x then some x else none
]

abbrev pub has_event : String → Row → Bool
has_event event_id r = r.event_id == event_id

abbrev pub new_row : ℕ → ℕ → String → String → String → Option ℕ → List String → String → Row
new_row now id event_id kind text repair_id blocks fallback = record {
  id = id;
  event_id = event_id;
  repair_id = repair_id;
  kind = kind;
  text = text;
  blocks = blocks;
  fallback = fallback;
  state = pending;
  attempts = 0;
  detail = "";
  next_try_at = now;
  ts = "";
  created_at = now;
  updated_at = now;
}

-- `enqueue`: none where the event id is known.
unfoldable pub enqueue :
    ℕ → String → String → String → Option ℕ → List String → String → Ledger → Option Row × Ledger
enqueue now event_id kind text repair_id blocks fallback l =
    let row = new_row now l.next_row event_id kind text repair_id blocks fallback in
    if any (has_event event_id) l.rows
    then (none, l)
    else (some row, record l { rows = l.rows ++ row ∷ []; next_row = suc l.next_row })

abbrev pub change_row : ℕ → (Row → Row) → Row → Row
change_row id change r = if r.id == id then change r else r

-- `settle`; `next_try_at` stays where none is given.
unfoldable pub settle : ℕ → ℕ → RowState → String → Option ℕ → Bool → Ledger → Ledger
settle now id state detail next_try tried l = record l {
  rows =
      map
        (change_row id λ r. record r {
          state = state;
          detail = detail;
          attempts = if tried then suc r.attempts else r.attempts;
          next_try_at = elim next_try [ none ↦ r.next_try_at | some at ↦ at ];
          updated_at = now;
        })
        l.rows;
}

unfoldable pub due : ℕ → Ledger → List Row
due now l = keep (λ r. same_state r.state pending && leb r.next_try_at now) l.rows

unfoldable pub get : String → Ledger → Option Row
get event_id l = find (has_event event_id) l.rows

unfoldable pub by_ts : String → Ledger → Option Row
unfolding find_last
by_ts ts l = find_last (λ r. r.ts == ts) l.rows

unfoldable pub record_ts : ℕ → String → Ledger → Ledger
record_ts id ts l =
    if is_blank ts
    then l
    else record l { rows = map (change_row id λ r. record r { ts = ts }) l.rows }

unfoldable pub replace_text : ℕ → ℕ → String → List String → String → Ledger → Ledger
replace_text now id text blocks fallback l = record l {
  rows =
      map
        (change_row id
          λ r. record r { text = text; blocks = blocks; fallback = fallback; updated_at = now })
        l.rows;
}

unfoldable pub thread_of : ℕ → String → Ledger → String
thread_of repair_id channel l =
    elim (find (λ (t : Thread). t.repair_id == repair_id && t.channel == channel) l.threads) [
      | none ↦ ""
      | some t ↦ t.parent_ts
    ]

-- INSERT OR IGNORE INTO notification_threads
unfoldable pub add_thread : ℕ → ℕ → String → String → String → Ledger → Ledger
add_thread now repair_id channel parent_ts source l =
    if any (λ (t : Thread). t.repair_id == repair_id) l.threads then l else record l {
      threads =
          l.threads
          ++ record {
            repair_id = repair_id;
            channel = channel;
            parent_ts = parent_ts;
            source = source;
            created_at = now;
          }
            ∷ [];
    }

unfoldable pub remember_thread : ℕ → ℕ → String → String → Ledger → Ledger
unfolding add_thread
remember_thread now repair_id channel parent_ts l =
    if is_blank parent_ts then l else add_thread now repair_id channel parent_ts "posted" l

unfoldable pub bootstrap_threads : ℕ → String → List (ℕ × String) → Ledger → Ledger
unfolding add_thread
bootstrap_threads now channel [] l = l
bootstrap_threads now channel ((repair_id, parent_ts) ∷ rest) l =
    bootstrap_threads now channel rest (add_thread now repair_id channel parent_ts "bootstrap" l)

abbrev is_upload : String → Upload → Bool
is_upload upload_id u = u.upload_id == upload_id

unfoldable pub upload : String → Ledger → Option Upload
upload upload_id l = find (is_upload upload_id) l.uploads

-- `claim_upload`: none where the upload is known.
unfoldable pub claim_upload :
    ℕ → String → Option ℕ → String → String → Ledger → Option Upload × Ledger
claim_upload now upload_id repair_id path sha l =
    let row : Upload = record {
      upload_id = upload_id;
      repair_id = repair_id;
      path = path;
      sha = sha;
      file_id = "";
      caption = "";
      state = pending;
      detail = "";
      created_at = now;
      updated_at = now;
    } in
    if any (is_upload upload_id) l.uploads
    then (none, l)
    else (some row, record l { uploads = l.uploads ++ row ∷ [] })

unfoldable pub settle_upload : ℕ → String → RowState → String → String → String → Ledger → Ledger
settle_upload now upload_id state detail file_id caption l = record l {
  uploads =
      map
        (λ (u : Upload).
          if is_upload upload_id u
          then record u {
            state = state;
            detail = detail;
            file_id = or_text file_id u.file_id;
            caption = or_text caption u.caption;
            updated_at = now;
          }
          else u)
        l.uploads;
}

unfoldable pub clip_by_file_id : String → Ledger → Option Upload
unfolding find_last
clip_by_file_id file_id l =
    find_last (λ (u : Upload). u.file_id == file_id && same_state u.state sent) l.uploads

unfoldable pub recaption_clip : ℕ → String → String → Ledger → Ledger
recaption_clip now upload_id caption l = record l {
  uploads =
      map
        (λ (u : Upload).
          if is_upload upload_id u then record u { caption = caption; updated_at = now } else u)
        l.uploads;
}

is_for : ℕ → Option ℕ → Bool
is_for repair_id none = false
is_for repair_id (some id) = id == repair_id

-- `delivered_clip`
unfoldable pub delivered_clip : ℕ → String → Ledger → String
unfolding find_last is_for
delivered_clip repair_id sha l =
    let prefix = concat ("clip:" ∷ show repair_id ∷ ":" ∷ short (lower (strip sha)) ∷ ":" ∷ []) in
    elim (find_last
      (λ (u : Upload).
        is_for repair_id u.repair_id
        && (same_state u.state sent
            && (not (is_blank u.file_id) && starts_with u.upload_id prefix)))
      l.uploads) [ none ↦ "" | some u ↦ u.file_id ]

unfoldable pub record_amendment :
    ℕ → String → String → String → String → String → RowState → String → Ledger → Ledger
record_amendment now ts channel previous replacement reason state detail l = record l {
  amendments =
      l.amendments
      ++ record {
        ts = ts;
        channel = channel;
        previous = previous;
        replacement = replacement;
        reason = reason;
        state = state;
        detail = detail;
        created_at = now;
      }
        ∷ [];
}

-- `watermark`: set on the first read and never moved.
unfoldable pub watermark : ℕ → Ledger → ℕ × Ledger
watermark now l = elim l.watermark [
  | none ↦ (now, record l { watermark = some now })
  | some at ↦ (at, l)
]

unfoldable pub total : RowState → Ledger → ℕ
total state l = count_if (λ (r : Row). same_state r.state state) l.rows
