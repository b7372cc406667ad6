-- ===== src/Notify.antt =====
-- internal/notify/notify.go, and the table notification_log with its statements in
-- internal/store/store.go. The templates of render.go, the sender and the clock are arguments of the
-- dispatcher; logging is left out. Times are in microseconds.
pub mod Dispatched
pub mod Settled
pub mod Drains
pub mod Attempted
use replenishment_system.Common.{
  ℕ, zero, suc, ◌+◌, Bool, true, false, not, ◌&&◌, ◌||◌, Option, none, some, List, [], ◌∷◌, ◌++◌,
  String, ltb, leb, ◌==◌, if◌then◌else◌,
}
use replenishment_system.Common.Int.{ℤ, pos, negsuc}
use replenishment_system.Common.Lists.{length}
use replenishment_system.Common.Text.{Text, text, text_eq}
use replenishment_system.Domain.Types.{
  OccurrenceStatus, EventType, schedule_created, schedule_paused, schedule_resumed,
  schedule_canceled, occurrence_armed, same_event, Schedule, ScheduleItem, Occurrence,
  ScheduleEvent, Value, number, day, word, Error, not_found, invalid, Result, ok, err,
}
use replenishment_system.Store.Rows.{select, order_by}
use replenishment_system.Store.Db.{Db}
use replenishment_system.Store.Scope.{system_scope}
use replenishment_system.Store.Schedules.{ItemReads, get_schedule, list_schedule_items}
use replenishment_system.Store.Occurrences.{get_occurrence_by_sequence}

pub data NotificationStatus : Type 0 where
  pending sent failed : NotificationStatus

-- A row of notification_log.
pub record Notification : Type 0 where
  pub schedule_event_id : ℕ
  pub status : NotificationStatus
  pub attempts : ℕ
  pub last_attempt_at : ℕ
  pub sent_at : Option ℕ
  pub last_error : Option String

-- What the sender is called with.
pub record Mail : Type 0 where
  pub to : Text
  pub subject : Text
  pub html_body : Text

-- The database, the log, and the calls of the sender so far.
pub record World : Type 0 where
  pub db : Db
  pub log : List Notification
  pub mail : List Mail

-- `send` may answer each call in its own way: `none` is success. `now n` is the server's clock
-- during the n-th page of a run. `item_reads` is how items are read.
pub record Dispatcher : Type 0 where
  pub render :
      ScheduleEvent → Schedule → List ScheduleItem → Option Occurrence → Text → Result (Text × Text)
  pub send : List Mail → Mail → Option String
  pub support_contact : Text
  pub now : ℕ → ℕ
  pub item_reads : ItemReads

-- Fifteen minutes.
abbrev pub visibility_timeout : ℕ
visibility_timeout = 900000000

abbrev pub max_attempts : ℕ
max_attempts = 5

abbrev pub batch_size : ℕ
batch_size = 200

unfoldable pub notifiable : EventType → Bool
notifiable schedule_created = true
notifiable schedule_paused = true
notifiable schedule_resumed = true
notifiable schedule_canceled = true
notifiable occurrence_armed = true
notifiable _ = false

unfoldable pub needs_items : EventType → Bool
needs_items schedule_created = true
needs_items occurrence_armed = true
needs_items _ = false

-- The row of an event; schedule_event_id is unique.
unfoldable pub logged : ℕ → List Notification → Option Notification
logged id [] = none
logged id (n ∷ rest) = if n.schedule_event_id == id then some n else logged id rest

abbrev pub status_is_pending : NotificationStatus → Bool
status_is_pending pending = true
status_is_pending _ = false

-- n.id IS NULL OR (n.status = 'pending' AND n.last_attempt_at < now() - timeout)
abbrev pub outstanding : ℕ → Option Notification → Bool
outstanding now none = true
outstanding now (some n) =
    status_is_pending n.status && ltb (n.last_attempt_at + visibility_timeout) now

abbrev pub claimable : ℕ → List Notification → ScheduleEvent → Bool
claimable now log e = notifiable e.event_type && outstanding now (logged e.id log)

unfoldable pub take_rows {ℓ} : {A : Type ℓ} → ℕ → List A → List A
take_rows zero xs = []
take_rows (suc n) [] = []
take_rows (suc n) (x ∷ xs) = x ∷ take_rows n xs

-- INSERT … ON CONFLICT DO UPDATE
unfoldable pub claim_row : ℕ → ℕ → List Notification → List Notification
claim_row now id [] =
    record {
      schedule_event_id = id;
      status = pending;
      attempts = 1;
      last_attempt_at = now;
      sent_at = none;
      last_error = none;
    }
    ∷ []
claim_row now id (n ∷ rest) =
    let more = claim_row now id rest in
    if n.schedule_event_id == id
    then record n { attempts = n.attempts + 1; last_attempt_at = now } ∷ rest
    else n ∷ more

unfoldable pub claim_rows : ℕ → List ScheduleEvent → List Notification → List Notification
claim_rows now [] log = log
claim_rows now (e ∷ rest) log = claim_rows now rest (claim_row now e.id log)

unfoldable pub candidates : ℕ → World → List ScheduleEvent
candidates now w =
    take_rows batch_size
      (order_by (λ (a b : ScheduleEvent). ltb a.id b.id) (select (claimable now w.log) w.db.events))

-- The events claimed, and the log with their claims.
unfoldable pub claim_notifiable_events : ℕ → World → List ScheduleEvent × World
claim_notifiable_events now w =
    (candidates now w, record w { log = claim_rows now (candidates now w) w.log })

-- UPDATE notification_log … WHERE schedule_event_id = $1
unfoldable pub update_log :
    ℕ → (Notification → Notification) → List Notification → List Notification
update_log id f [] = []
update_log id f (n ∷ rest) = (if n.schedule_event_id == id then f n else n) ∷ update_log id f rest

abbrev affected : Option Notification → Result (Unit {0})
affected none = err not_found
affected (some n) = ok tt

unfoldable pub mark_notification_sent : ℕ → ℕ → World → Result (Unit {0}) × World
mark_notification_sent id now w = (
  affected (logged id w.log),
  record w {
    log =
        update_log id (λ n. record n { status = sent; sent_at = some now; last_error = none })
          w.log;
  },
)

unfoldable pub mark_notification_failed : ℕ → String → World → Result (Unit {0}) × World
mark_notification_failed id message w = (
  affected (logged id w.log),
  record w {
    log =
        update_log id
          (λ n. record n {
            status = if leb max_attempts n.attempts then failed else pending;
            last_error = some message;
          })
          w.log;
  },
)

abbrev sequence_value : Value → Result ℤ
sequence_value (number n) = ok n
sequence_value (day d) = err (invalid "decode armed payload")
sequence_value (word t) = err (invalid "decode armed payload")

-- `sequence_no` of the payload.
unfoldable pub find_sequence : List (String × Value) → Result ℤ
find_sequence [] = err (invalid "armed event has no sequence_no")
find_sequence ((key, value) ∷ rest) =
    let more = find_sequence rest in
    if text_eq (text key) (text "sequence_no") then sequence_value value else more

abbrev occurrence_at : Db → Text → Result ℤ → Result Occurrence
occurrence_at db id (err e) = err e
occurrence_at db id (ok (pos n)) = (get_occurrence_by_sequence id n db).0
occurrence_at db id (ok (negsuc n)) = err not_found

unfoldable pub armed_occurrence : Db → ScheduleEvent → Result Occurrence
armed_occurrence db e = occurrence_at db e.schedule_id (find_sequence e.payload)

pub data DispatchOutcome : Type 0 where
  outcome_sent outcome_skipped outcome_superseded outcome_send_failed : DispatchOutcome

-- An outcome once the log says so.
abbrev pub recorded : DispatchOutcome → Result (Unit {0}) × World → Result DispatchOutcome × World
recorded o (ok u, w) = (ok o, w)
recorded o (err e, w) = (err e, w)

abbrev pub resolve : ℕ → ScheduleEvent → Option String → World → Result DispatchOutcome × World
resolve now e none w = recorded outcome_sent (mark_notification_sent e.id now w)
resolve now e (some message) w =
    recorded outcome_send_failed (mark_notification_failed e.id message w)

unfoldable pub send_mail :
    Dispatcher → ℕ → ScheduleEvent → Mail → World → Result DispatchOutcome × World
send_mail d now e m w = resolve now e (d.send w.mail m) (record w { mail = w.mail ++ m ∷ [] })

abbrev pub send_rendered :
    Dispatcher
    → ℕ
    → ScheduleEvent
    → Schedule
    → Result (Text × Text)
    → World
    → Result DispatchOutcome × World
send_rendered d now e s (err x) w = (err x, w)
send_rendered d now e s (ok (subject, body)) w =
    send_mail d now e (record { to = s.customer_email; subject = subject; html_body = body }) w

abbrev pub send_items :
    Dispatcher
    → ℕ
    → ScheduleEvent
    → Schedule
    → Option Occurrence
    → Result (List ScheduleItem)
    → World
    → Result DispatchOutcome × World
send_items d now e s o (err x) w = (err x, w)
send_items d now e s o (ok items) w =
    send_rendered d now e s (d.render e s items o d.support_contact) w

-- The items where the template lists them, the template, and the send.
unfoldable pub deliver :
    Dispatcher
    → ℕ
    → ScheduleEvent
    → Schedule
    → Option Occurrence
    → World
    → Result DispatchOutcome × World
deliver d now e s o w =
    send_items d now e s o
      (if needs_items e.event_type
        then (list_schedule_items d.item_reads e.schedule_id system_scope w.db).0
        else ok [])
      w

abbrev pub still_pending : OccurrenceStatus → Bool
still_pending OccurrenceStatus.pending = true
still_pending _ = false

abbrev pub deliver_if_pending :
    Dispatcher
    → ℕ
    → ScheduleEvent
    → Schedule
    → Bool
    → Occurrence
    → World
    → Result DispatchOutcome × World
deliver_if_pending d now e s Bool.true o w = deliver d now e s (some o) w
deliver_if_pending d now e s Bool.false o w =
    recorded outcome_superseded (mark_notification_sent e.id now w)

abbrev pub deliver_armed :
    Dispatcher
    → ℕ
    → ScheduleEvent
    → Schedule
    → Result Occurrence
    → World
    → Result DispatchOutcome × World
deliver_armed d now e s (err x) w = (err x, w)
deliver_armed d now e s (ok o) w = deliver_if_pending d now e s (still_pending o.status) o w

abbrev pub deliver_event :
    Dispatcher → ℕ → ScheduleEvent → Schedule → Bool → World → Result DispatchOutcome × World
deliver_event d now e s Bool.true w = deliver_armed d now e s (armed_occurrence w.db e) w
deliver_event d now e s Bool.false w = deliver d now e s none w

abbrev pub dispatch_addressed :
    Dispatcher → ℕ → ScheduleEvent → Schedule → Bool → World → Result DispatchOutcome × World
dispatch_addressed d now e s Bool.true w =
    recorded outcome_skipped (mark_notification_sent e.id now w)
dispatch_addressed d now e s Bool.false w =
    deliver_event d now e s (same_event e.event_type occurrence_armed) w

abbrev pub dispatch_found :
    Dispatcher → ℕ → ScheduleEvent → Result Schedule → World → Result DispatchOutcome × World
dispatch_found d now e (err x) w = (err x, w)
dispatch_found d now e (ok s) w = dispatch_addressed d now e s (text_eq s.customer_email []) w

unfoldable pub dispatch_one :
    Dispatcher → ℕ → ScheduleEvent → World → Result DispatchOutcome × World
dispatch_one d now e w = dispatch_found d now e (get_schedule e.schedule_id system_scope w.db).0 w

-- `Result`, with the number of errors that `errors.Join` has put together.
pub record RunResult : Type 0 where
  pub claimed : ℕ
  pub sent : ℕ
  pub skipped : ℕ
  pub superseded : ℕ
  pub send_failed : ℕ
  pub errors : ℕ

abbrev pub no_results : RunResult
no_results = record {
  claimed = 0;
  sent = 0;
  skipped = 0;
  superseded = 0;
  send_failed = 0;
  errors = 0;
}

unfoldable pub count_outcome : Result DispatchOutcome → RunResult → RunResult
count_outcome (err e) r = record r { errors = suc r.errors }
count_outcome (ok outcome_sent) r = record r { sent = suc r.sent }
count_outcome (ok outcome_skipped) r = record r { skipped = suc r.skipped }
count_outcome (ok outcome_superseded) r = record r { superseded = suc r.superseded }
count_outcome (ok outcome_send_failed) r = record r {
  send_failed = suc r.send_failed;
  errors = suc r.errors;
}

-- The events of one page, one after the other.
unfoldable pub dispatch_page :
    Dispatcher → ℕ → List ScheduleEvent → RunResult → World → RunResult × World
dispatch_page d now [] r w = (r, w)
dispatch_page d now (e ∷ rest) r w =
    let one = dispatch_one d now e w in dispatch_page d now rest (count_outcome one.0 r) one.1

-- The loop over pages, from the n-th on, until one comes back short; `none` when the fuel ends.
unfoldable pub run_pages : Dispatcher → ℕ → ℕ → RunResult → World → Option (RunResult × World)
run_pages d zero n r w = none
run_pages d (suc fuel) n r w =
    let (events, w1) = claim_notifiable_events (d.now n) w in
    let page =
      dispatch_page d (d.now n) events (record r { claimed = r.claimed + length events }) w1 in
    let more = run_pages d fuel (suc n) page.0 page.1 in
    if ltb (length events) batch_size then some page else more

unfoldable pub run_all : Dispatcher → World → Option (RunResult × World)
run_all d w = run_pages d (suc (length w.db.events)) 0 no_results w
