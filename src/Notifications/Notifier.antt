-- ===== src/Notifications/Notifier.antt =====
-- portal/notify.py, class Notifier: messages are recorded, delivered over one of two wires, and tried again.
use devin_automation.Prelude.{
  ℕ, ◌+◌, ◌*◌, String, Bool, true, false, not, ◌&&◌, ◌||◌, Option, none, some, List, [], ◌∷◌, ◌++◌,
  concat, is_blank, or_text, leb, if◌then◌else◌, ◌==◌, nat_eq,
}
use devin_automation.Verification.Scope.{no_entries}
use devin_automation.Notifications.Ledger.{
  RowState, pending, sent, failed, unknown, disabled, Row, Ledger, enqueue, settle, due, get,
  thread_of, remember_thread, record_ts,
}

-- What ends a request without an answer. A notifier catches each `Exception`.
pub data Fault : Type 0 where
  ambiguous refused rejected : String → Fault
  other : String → Fault

pub data Answer (A : Type 0) : Type 0 where
  answered : A → Answer A
  lost : Fault → Answer A

-- A card, and what `blocks` and `fallback` lay out of it.
pub record Card : Type 0 where
  pub headline : String
  pub what : String
  pub next_step : String
  pub links : List (String × String)
  pub context : List String

pub record Layout : Type 0 where
  pub blocks : Card → List String
  pub fallback : Card → String

-- The channel, the clock, and `redact_webhook` with the escaping of portal/redaction.py.
pub record Slack (W : Type 0) : Type 0 where
  pub clock : W → ℕ
  -- a POST to the webhook, of a text and its blocks: "" or the error of the response
  pub request : String → String → List String → W → Answer String × W
  -- `bot.post` of a text, its blocks and its thread: the `ts` of the message
  pub post : String → List String → String → W → Answer String × W
  pub redact : String → String → String
  pub layout : Layout
  pub labelled : String → String
  pub webhook_problem : String → String
  pub channel_problem : String → String

-- The bot's channel, and whether its wire is simulated.
pub record Bot : Type 0 where
  pub channel : String
  pub simulated : Bool

-- The arguments of `Notifier`. `transport` says, of a transport that was given, whether it is simulated.
pub record Arguments : Type 0 where
  pub webhook : String
  pub bot : Option Bot
  pub channel : String
  pub transport : Option Bool
  pub max_attempts : ℕ
  pub simulated : Bool

-- A notifier after `__post_init__`.
pub record Notifier : Type 0 where
  pub webhook : String
  pub bot : Option Bot
  pub channel : String
  pub transport : Option Bool
  pub max_attempts : ℕ
  pub simulated : Bool
  pub problem : String

-- The ledger, the world, and the rows that a request was made for.
pub record Sys (W : Type 0) : Type 0 where
  pub ledger : Ledger
  pub world : W
  pub posts : List ℕ

abbrev pub simulated_refusal : String
simulated_refusal = "simulated repair: real delivery refused"

abbrev pub is_simulated : Option Bool → Bool
is_simulated none = false
is_simulated (some simulated) = simulated

abbrev pub bot_is_simulated : Option Bot → Bool
bot_is_simulated none = true
bot_is_simulated (some bot) = bot.simulated

abbrev pub has_bot : Option Bot → Bool
has_bot none = false
has_bot (some bot) = true

-- BACKOFF_SECONDS, in milliseconds, at `min(index, 3)`.
unfoldable pub backoff : ℕ → ℕ
backoff index =
    if index == 0
    then 0
    else if index == 1
    then 30 * 1000
    else if index == 2
    then 120 * 1000
    else 600 * 1000

-- `_payload`
abbrev payload : Row → Bool
payload row = not (no_entries row.blocks)

module _ {W : Type 0} (o : Slack W) where
  -- What `__post_init__` finds wrong with the destination.
  unfoldable pub destination_problem : Arguments → String
  destination_problem a = elim a.bot [
    | none ↦ if is_blank a.webhook then "" else o.webhook_problem a.webhook
    | some bot ↦ or_text (o.channel_problem a.channel) (o.channel_problem bot.channel)
  ]

  -- `__post_init__`
  unfoldable pub new_notifier : Arguments → Notifier
  unfolding destination_problem
  new_notifier a =
      let real_wire = a.simulated && not (is_simulated a.transport) in
      let real_bot = a.simulated && not (bot_is_simulated a.bot) in
      record {
        webhook = if real_wire then "" else a.webhook;
        bot = if real_bot then none else a.bot;
        channel = a.channel;
        transport = a.transport;
        max_attempts = a.max_attempts;
        simulated = a.simulated;
        problem = if real_wire || real_bot then simulated_refusal else destination_problem a;
      }

  -- `enabled`
  unfoldable pub enabled : Notifier → Bool
  enabled n = (has_bot n.bot || not (is_blank n.webhook)) && is_blank n.problem

  module _ (n : Notifier) where
    -- `log.settle` of a row.
    unfoldable pub settled : ℕ → RowState → String → Option ℕ → Bool → Sys W → Sys W
    unfolding settle
    settled id state detail next_try tried s = record s {
      ledger = settle (o.clock s.world) id state detail next_try tried s.ledger;
    }

    -- `_retry`
    unfoldable pub retry : ℕ → ℕ → String → Sys W → RowState × Sys W
    unfolding settled backoff
    retry id attempts detail s =
        let why = o.redact n.webhook detail in
        if leb n.max_attempts (attempts + 1) then (failed, settled id failed why none true s) else (
          pending,
          settled id pending why (some (o.clock s.world + backoff (attempts + 1))) true s,
        )

    unfoldable pub unanswered : ℕ → String → Sys W → RowState × Sys W
    unfolding settled
    unanswered id detail s = (
      unknown,
      settled id unknown
          (o.redact n.webhook (concat ("delivery outcome unknown (" ∷ detail ∷ ")" ∷ []))) none true
          s,
    )

    -- `_attempt`, once the webhook answered.
    unfoldable pub after_request : Row → Answer String → Sys W → RowState × Sys W
    unfolding retry settled unanswered
    after_request row (answered error) s =
        if is_blank error
        then (sent, settled row.id sent "" none true s)
        else retry row.id row.attempts error s
    after_request row (lost (ambiguous text)) s = unanswered row.id text s
    after_request row (lost (refused text)) s =
        retry row.id row.attempts (concat ("refused (" ∷ text ∷ ")" ∷ [])) s
    after_request row (lost (rejected text)) s = retry row.id row.attempts "SlackRejected" s
    after_request row (lost (other name)) s = retry row.id row.attempts name s

    unfoldable pub remembered : Row → String → String → Sys W → Sys W
    unfolding remember_thread
    remembered row thread_ts ts s = elim row.repair_id [
      | none ↦ s
      | some repair_id ↦
          if is_blank thread_ts
          then record s {
            ledger = remember_thread (o.clock s.world) repair_id n.channel ts s.ledger;
          }
          else s
    ]

    -- `_attempt_bot`, once the Web API answered.
    unfoldable pub after_post : Row → String → Answer String → Sys W → RowState × Sys W
    unfolding retry settled unanswered remembered record_ts
    after_post row thread_ts (answered ts) s =
        let s' = remembered row thread_ts ts (record s { ledger = record_ts row.id ts s.ledger }) in
        (sent, settled row.id sent "" none true s')
    after_post row thread_ts (lost (ambiguous text)) s = unanswered row.id text s
    after_post row thread_ts (lost (refused text)) s =
        retry row.id row.attempts (concat ("Refused: " ∷ text ∷ [])) s
    after_post row thread_ts (lost (rejected text)) s =
        retry row.id row.attempts (concat ("SlackRejected: " ∷ text ∷ [])) s
    after_post row thread_ts (lost (other name)) s = retry row.id row.attempts name s

    unfoldable pub thread_for : Row → Ledger → String
    unfolding thread_of
    thread_for row l = elim row.repair_id [
      | none ↦ ""
      | some repair_id ↦ thread_of repair_id n.channel l
    ]

    abbrev posted : Row → W → Sys W → Sys W
    posted row w s = record s { world = w; posts = s.posts ++ row.id ∷ [] }

    -- `_attempt` and `_attempt_bot`
    unfoldable pub attempt : Row → Sys W → RowState × Sys W
    unfolding after_request after_post thread_for
    attempt row s =
        let spoken = or_text row.fallback row.text in
        let prose = if payload row then spoken else o.labelled row.text in
        let thread_ts = thread_for row s.ledger in
        let (over_bot, w) = o.post prose row.blocks thread_ts s.world in
        let (over_webhook, w') = o.request n.webhook spoken row.blocks s.world in
        if has_bot n.bot
        then after_post row thread_ts over_bot (posted row w s)
        else after_request row over_webhook (posted row w' s)

    unfoldable pub marked : Bool → String → String
    marked simulated text = if simulated then concat ("[SIMULATED] " ∷ text ∷ []) else text

    marked_card : Bool → Option Card → Option Card
    unfolding marked
    marked_card simulated none = none
    marked_card simulated (some card) =
        some (record card { headline = marked simulated card.headline })

    -- `publish`, of a row that is new.
    unfoldable pub publish_row : Bool → Row → Sys W → RowState × Sys W
    unfolding settled attempt enabled
    publish_row simulated_record row s =
        if simulated_record && not n.simulated
        then (
          disabled,
          settled row.id disabled "simulated repair record: real delivery refused" none false s,
        )
        else if not (enabled n)
        then (
          disabled,
          settled row.id disabled
              (or_text n.problem "no SLACK_BOT_TOKEN or SLACK_WEBHOOK_URL configured") none false s,
        )
        else attempt row s

    -- `publish`, once the row was recorded or found.
    unfoldable pub publish_recorded : String → Bool → Option Row → Sys W → RowState × Sys W
    unfolding publish_row get
    publish_recorded event_id simulated_record none s = elim (get event_id s.ledger) [
      | none ↦ (sent, s)
      | some row ↦ (row.state, s)
    ]
    publish_recorded event_id simulated_record (some row) s = publish_row simulated_record row s

    rendered_blocks : Option Card → List String
    rendered_blocks none = []
    rendered_blocks (some card) = o.layout.blocks card

    rendered_fallback : Option Card → String
    rendered_fallback none = ""
    rendered_fallback (some card) = o.layout.fallback card

    unfoldable pub publish :
        String → String → String → Option ℕ → Bool → Option Card → Sys W → RowState × Sys W
    unfolding enqueue publish_recorded marked marked_card rendered_blocks rendered_fallback
    publish event_id kind text repair_id simulated_record card s =
        let is_marked = n.simulated || simulated_record in
        let (row, ledger) =
          enqueue (o.clock s.world) event_id kind (marked is_marked text) repair_id
            (rendered_blocks (marked_card is_marked card))
            (rendered_fallback (marked_card is_marked card)) s.ledger in
        publish_recorded event_id simulated_record row (record s { ledger = ledger })

    unfoldable pub deliver_all : List Row → Sys W → List RowState × Sys W
    unfolding attempt
    deliver_all [] s = ([], s)
    deliver_all (row ∷ rest) s =
        let (state, s') = attempt row s in
        let (states, s'') = deliver_all rest s' in (state ∷ states, s'')

    -- `deliver_due`
    unfoldable pub deliver_due : Sys W → List RowState × Sys W
    unfolding enabled deliver_all due
    deliver_due s =
        if not (enabled n) then ([], s) else deliver_all (due (o.clock s.world) s.ledger) s
