-- ===== src/Notifications/Tests.antt =====
-- portal/notify.py on a channel that refuses the first request.
use devin_automation.Prelude.{
  keep, String, map, ℕ, ◌+◌, true, false, none, some, List, [], ◌∷◌, ◌≡◌, refl, arith, inl, All,
  ltb, if◌then◌else◌,
}
use devin_automation.Notifications.Ledger.{thread_of, remember_thread, pending, sent, Row}
use devin_automation.Notifications.Notifier.{
  deliver_due, Slack, Notifier, Arguments, Sys, answered, lost, refused, enabled, new_notifier,
  publish, is_simulated, bot_is_simulated,
}
use devin_automation.Notifications.Bounded.{IsSound, HasState}
use devin_automation.Notifications.Runs.{
  Op, published, delivered, elsewhere, perform_all, perform_all-IsSound, perform_all-HasState,
}
use devin_automation.Notifications.Threads.{thread_of-remember_thread}
use devin_automation.Notifications.Events.{publish-once}
use devin_automation.Notifications.Sending.{
  publish-posts, new_notifier-is_simulated, perform_all-posts, deliver_due-map, is_due,
}

-- The world is the time; the channel answers from the second minute on.
abbrev channel : Slack ℕ
channel = record {
  clock = λ w. w;
  request =
      λ url text blocks w. (if ltb w 60000 then lost (refused "no route") else answered "", w);
  post = λ text blocks thread w.
      (if ltb w 60000 then lost (refused "no route") else answered "1.1", w);
  redact = λ webhook text. text;
  layout = record { blocks = λ card. card.headline ∷ []; fallback = λ card. card.headline };
  labelled = λ text. text;
  webhook_problem = λ url. "";
  channel_problem = λ name. "";
}

abbrev arguments : Arguments
arguments = record {
  webhook = "";
  bot = some (record { channel = "C1"; simulated = false });
  channel = "C1";
  transport = none;
  max_attempts = 4;
  simulated = false;
}

abbrev notifier : Notifier
notifier = record {
  webhook = "";
  bot = some (record { channel = "C1"; simulated = false });
  channel = "C1";
  transport = none;
  max_attempts = 4;
  simulated = false;
  problem = "";
}

abbrev start : Sys ℕ
start = record {
  ledger = record {
    rows = [];
    next_row = 1;
    threads = [];
    uploads = [];
    amendments = [];
    watermark = none;
  };
  world = 0;
  posts = [];
}

start-IsSound : IsSound notifier start
start-IsSound = record { one_row = λ k. omega arith; below = tt; within = tt; unsent = λ k h. refl }

abbrev operations : List (Op ℕ)
operations =
    published "repair:1:verified" "verified" "Repair 1 is verified" (some 1) false none
    ∷ delivered
    ∷ elsewhere (λ w. w + 60000)
    ∷ delivered
    ∷ delivered
    ∷ []

perform_all-IsSound_example : IsSound notifier (perform_all channel notifier operations start)
perform_all-IsSound_example =
    perform_all-IsSound channel notifier operations start (omega arith) start-IsSound

-- One refused request, and one that is answered.
two_requests : (perform_all channel notifier operations start).posts ≡ 1 ∷ 1 ∷ []
unfolding perform_all deliver_due publish
two_requests = refl

abbrev sent_row : Row
sent_row = record {
  id = 1;
  event_id = "repair:1:verified";
  repair_id = some 1;
  kind = "verified";
  text = "Repair 1 is verified";
  blocks = [];
  fallback = "";
  state = sent;
  attempts = 1;
  detail = "";
  next_try_at = 0;
  ts = "1.1";
  created_at = 0;
  updated_at = 0;
}

abbrev after_sent : Sys ℕ
after_sent = record {
  ledger = record {
    rows = sent_row ∷ [];
    next_row = 2;
    threads = [];
    uploads = [];
    amendments = [];
    watermark = none;
  };
  world = 0;
  posts = 1 ∷ [];
}

after_sent-IsSound : IsSound notifier after_sent
after_sent-IsSound = record {
  one_row = λ k. ground arith;
  below = (omega arith, tt);
  within = ((omega arith, omega arith, λ p. absurd (cc p)), tt);
  unsent = λ k h. ground (arith, h);
}

perform_all-HasState_example :
    All (HasState 1 sent) (perform_all channel notifier operations after_sent).ledger.rows
perform_all-HasState_example =
    perform_all-HasState channel notifier operations after_sent 1 sent (omega arith)
      after_sent-IsSound (λ p. cc p) (omega arith) (λ e. refl, tt)

publish-once_example :
    let first =
      publish channel notifier "repair:1:verified" "verified" "Repair 1 is verified"
        (some 1)
        false
        none
        start in
    (publish channel notifier "repair:1:verified" "merged" "Again" none false none
      (perform_all channel notifier operations first.1)).1
    ≡ perform_all channel notifier operations first.1
publish-once_example =
    publish-once channel notifier "repair:1:verified" "verified" "Repair 1 is verified" (some 1)
      false none operations "merged" "Again" none false none start

publish-posts_example :
    (publish channel notifier "repair:2:verified" "verified" "Scripted"
      (some 2)
      true
      none
      start).1.posts
    ≡ []
publish-posts_example =
    publish-posts channel notifier "repair:2:verified" "verified" "Scripted" (some 2) true none
      start (inl refl)

abbrev scripted : Arguments
scripted = record arguments {
  bot = some (record { channel = "C1"; simulated = true });
  transport = some true;
  simulated = true;
}

new_notifier-is_simulated_example :
    (is_simulated scripted.transport ≡ true) × (bot_is_simulated scripted.bot ≡ true)
unfolding new_notifier enabled
new_notifier-is_simulated_example = new_notifier-is_simulated channel scripted refl may_send
  where
    may_send : enabled channel (new_notifier channel scripted) ≡ true
    may_send = refl

abbrev ambient : Notifier
ambient = record notifier { simulated = true; problem = "simulated repair: real delivery refused" }

perform_all-posts_example : (perform_all channel ambient operations start).posts ≡ []
unfolding enabled
perform_all-posts_example = perform_all-posts channel ambient operations start off
  where
    off : enabled channel ambient ≡ false
    off = refl

abbrev pending_start : Sys ℕ
pending_start = record {
  ledger = record {
    rows = record sent_row { state = pending; ts = "" } ∷ [];
    next_row = 2;
    threads = [];
    uploads = [];
    amendments = [];
    watermark = none;
  };
  world = 5;
  posts = [];
}

deliver_due-map_example :
    (deliver_due channel notifier pending_start).1.posts
    ≡ map (λ r. r.id) (keep (is_due 5) pending_start.ledger.rows)
unfolding enabled
deliver_due-map_example = deliver_due-map channel notifier pending_start refl

abbrev first_ts : String
first_ts = "1.1"

thread_of-remember_thread_example :
    thread_of 1 "C1" (remember_thread 7 1 "C2" "2.2" (remember_thread 5 1 "C1" "1.1" start.ledger))
    ≡ first_ts
thread_of-remember_thread_example =
    thread_of-remember_thread 5 7 1 "C1" "1.1" "C2" "2.2" start.ledger refl refl
