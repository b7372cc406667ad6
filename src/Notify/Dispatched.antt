-- ===== src/Notify/Dispatched.antt =====
-- `dispatchOne` of internal/notify/notify.go: what it writes, and which letters it sends.
use replenishment_system.Common.{
  ℕ, ◌≡◌, ◌≢◌, refl, sym, ap, subst, ◌∙◌, ◌⊎◌, inl, inr, Bool, true, false, Option, none, some,
  List, [], ◌∷◌, ◌++◌, String, ◌==◌, Bool-cases, leb, if◌then◌else◌,
}
use replenishment_system.Common.Text.{Text, text_eq, text_eq_ne}
use replenishment_system.Domain.Types.{
  OccurrenceStatus, occurrence_armed, same_event, Schedule, ScheduleItem, Occurrence, ScheduleEvent,
  Result, ok, err,
}
use replenishment_system.Store.Db.{Db}
use replenishment_system.Store.Scope.{system_scope}
use replenishment_system.Store.Schedules.{get_schedule}
use replenishment_system.Notify.{
  sent, failed, pending, Notification, Mail, World, Dispatcher, update_log, max_attempts,
  mark_notification_sent, mark_notification_failed, armed_occurrence, DispatchOutcome, recorded,
  resolve, send_mail, send_rendered, send_items, deliver, still_pending, deliver_if_pending,
  deliver_armed, deliver_event, dispatch_addressed, dispatch_found, dispatch_one,
}

-- A change of a row that keeps its event and its last claim.
pub record Marks (f : Notification → Notification) : Type 0 where
  pub event_kept : (n : Notification) → (f n).schedule_event_id ≡ n.schedule_event_id
  pub claim_kept : (n : Notification) → (f n).last_attempt_at ≡ n.last_attempt_at

-- A letter to the address that the schedule has now. The notice of an order goes out only while the
-- order is pending.
pub record Letter (e : ScheduleEvent) (db : Db) (m : Mail) : Type 0 where
  pub schedule : Schedule
  pub found : (get_schedule e.schedule_id system_scope db).0 ≡ ok schedule
  pub address : m.to ≡ schedule.customer_email
  pub not_blank : schedule.customer_email ≢ []
  pub order_pending :
      same_event e.event_type occurrence_armed ≡ true
      → (o : Occurrence) × (armed_occurrence db e ≡ ok o) × (o.status ≡ OccurrenceStatus.pending)

pub record Dispatched (e : ScheduleEvent) (w w' : World) : Type 0 where
  pub db_kept : w'.db ≡ w.db
  pub change : Notification → Notification
  pub marks : Marks change
  pub log_is : w'.log ≡ update_log e.id change w.log
  pub mail_is : (w'.mail ≡ w.mail) ⊎ ((m : Mail) × (w'.mail ≡ w.mail ++ m ∷ []) × Letter e w.db m)

update_log-same : (id : ℕ) (log : List Notification) → update_log id (λ n. n) log ≡ log
unfolding update_log
update_log-same id [] = refl
update_log-same id (n ∷ rest) = elim (Bool-cases (n.schedule_event_id == id)) [
  | inl hit ↦ rw (hit, update_log-same id rest) refl
  | inr miss ↦ rw (miss, update_log-same id rest) refl
]

recorded_same : (o : DispatchOutcome) (r : Result (Unit {0}) × World) → (recorded o r).1 ≡ r.1
recorded_same o (ok u, w) = refl
recorded_same o (err e, w) = refl

Dispatched-refl : (e : ScheduleEvent) (w : World) → Dispatched e w w
Dispatched-refl e w = record {
  db_kept = refl;
  change = λ n. n;
  marks = record { event_kept = λ n. refl; claim_kept = λ n. refl };
  log_is = sym (update_log-same e.id w.log);
  mail_is = inl refl;
}

-- The row of the event is marked, and the mail is that of `w1`.
mark_sent-Dispatched :
    (e : ScheduleEvent) (now : ℕ) (o : DispatchOutcome) (w w1 : World)
    → w1.db ≡ w.db
    → w1.log ≡ w.log
    → (w1.mail ≡ w.mail) ⊎ ((m : Mail) × (w1.mail ≡ w.mail ++ m ∷ []) × Letter e w.db m)
    → Dispatched e w (recorded o (mark_notification_sent e.id now w1)).1
unfolding mark_notification_sent
mark_sent-Dispatched e now o w w1 same_db same_log mail =
    subst (Dispatched e w) (sym (recorded_same o (mark_notification_sent e.id now w1))) (record {
      db_kept = same_db;
      change = λ n. record n { status = sent; sent_at = some now; last_error = none };
      marks = record { event_kept = λ n. refl; claim_kept = λ n. refl };
      log_is = ap (update_log e.id _) same_log;
      mail_is = mail;
    })

mark_failed-Dispatched :
    (e : ScheduleEvent) (message : String) (o : DispatchOutcome) (w w1 : World)
    → w1.db ≡ w.db
    → w1.log ≡ w.log
    → (w1.mail ≡ w.mail) ⊎ ((m : Mail) × (w1.mail ≡ w.mail ++ m ∷ []) × Letter e w.db m)
    → Dispatched e w (recorded o (mark_notification_failed e.id message w1)).1
unfolding mark_notification_failed
mark_failed-Dispatched e message o w w1 same_db same_log mail =
    subst (Dispatched e w) (sym (recorded_same o (mark_notification_failed e.id message w1)))
      (record {
        db_kept = same_db;
        change = λ n. record n {
          status = if leb max_attempts n.attempts then failed else pending;
          last_error = some message;
        };
        marks = record { event_kept = λ n. refl; claim_kept = λ n. refl };
        log_is = ap (update_log e.id _) same_log;
        mail_is = mail;
      })

module _ (d : Dispatcher) (now : ℕ) (e : ScheduleEvent) where
  resolve-Dispatched :
      (answer : Option String) (w w1 : World)
      → w1.db ≡ w.db
      → w1.log ≡ w.log
      → (w1.mail ≡ w.mail) ⊎ ((m : Mail) × (w1.mail ≡ w.mail ++ m ∷ []) × Letter e w.db m)
      → Dispatched e w (resolve now e answer w1).1
  resolve-Dispatched none w w1 a b c = mark_sent-Dispatched e now _ w w1 a b c
  resolve-Dispatched (some message) w w1 a b c = mark_failed-Dispatched e message _ w w1 a b c

  module _ (s : Schedule) (w : World)
      (letter : (m : Mail) → m.to ≡ s.customer_email → Letter e w.db m) where
    send_rendered-Dispatched :
        (r : Result (Text × Text)) → Dispatched e w (send_rendered d now e s r w).1
    unfolding send_mail
    send_rendered-Dispatched (err x) = Dispatched-refl e w
    send_rendered-Dispatched (ok (subject, body)) = resolve-Dispatched _ w _ refl refl (
        inr (
          record { to = s.customer_email; subject = subject; html_body = body },
          refl,
          letter _ refl,
        ))

    send_items-Dispatched :
        (o : Option Occurrence) (r : Result (List ScheduleItem))
        → Dispatched e w (send_items d now e s o r w).1
    send_items-Dispatched o (err x) = Dispatched-refl e w
    send_items-Dispatched o (ok items) = send_rendered-Dispatched _

    deliver-Dispatched : (o : Option Occurrence) → Dispatched e w (deliver d now e s o w).1
    unfolding deliver
    deliver-Dispatched o = send_items-Dispatched o _

  module _ (s : Schedule) (w : World)
      (found : (get_schedule e.schedule_id system_scope w.db).0 ≡ ok s)
      (not_blank : s.customer_email ≢ []) where
    deliver_if_pending-Dispatched :
        (o : Occurrence) (b : Bool)
        → armed_occurrence w.db e ≡ ok o
        → still_pending o.status ≡ b
        → Dispatched e w (deliver_if_pending d now e s b o w).1
    deliver_if_pending-Dispatched o true armed p =
        deliver-Dispatched s w
          (λ m to. record {
            schedule = s;
            found = found;
            address = to;
            not_blank = not_blank;
            order_pending = λ k. (o, armed, pending_status o.status p);
          })
          (some o)
      where
        pending_status :
            (st : OccurrenceStatus) → still_pending st ≡ true → st ≡ OccurrenceStatus.pending
        pending_status OccurrenceStatus.pending h = refl
        pending_status OccurrenceStatus.planned h = absurd cc
        pending_status OccurrenceStatus.placed h = absurd cc
        pending_status OccurrenceStatus.skipped h = absurd cc
        pending_status OccurrenceStatus.failed h = absurd cc
        pending_status OccurrenceStatus.canceled h = absurd cc
    deliver_if_pending-Dispatched o false armed p =
        mark_sent-Dispatched e now _ w w refl refl (inl refl)

    deliver_armed-Dispatched :
        (r : Result Occurrence)
        → armed_occurrence w.db e ≡ r
        → Dispatched e w (deliver_armed d now e s r w).1
    deliver_armed-Dispatched (err x) h = Dispatched-refl e w
    deliver_armed-Dispatched (ok o) h =
        deliver_if_pending-Dispatched o (still_pending o.status) h refl

    deliver_event-Dispatched :
        (b : Bool)
        → same_event e.event_type occurrence_armed ≡ b
        → Dispatched e w (deliver_event d now e s b w).1
    deliver_event-Dispatched true h = deliver_armed-Dispatched (armed_occurrence w.db e) refl
    deliver_event-Dispatched false h =
        deliver-Dispatched s w
          (λ m to. record {
            schedule = s;
            found = found;
            address = to;
            not_blank = not_blank;
            order_pending = λ k. absurd (let bad : true ≡ false = sym k ∙ h in cc);
          })
          none

  dispatch_addressed-Dispatched :
      (s : Schedule) (w : World) (blank : Bool)
      → (get_schedule e.schedule_id system_scope w.db).0 ≡ ok s
      → text_eq s.customer_email [] ≡ blank
      → Dispatched e w (dispatch_addressed d now e s blank w).1
  dispatch_addressed-Dispatched s w true found h =
      mark_sent-Dispatched e now _ w w refl refl (inl refl)
  dispatch_addressed-Dispatched s w false found h =
      deliver_event-Dispatched s w found (text_eq_ne s.customer_email [] h)
        (same_event e.event_type occurrence_armed) refl

  dispatch_found-Dispatched :
      (r : Result Schedule) (w : World)
      → (get_schedule e.schedule_id system_scope w.db).0 ≡ r
      → Dispatched e w (dispatch_found d now e r w).1
  dispatch_found-Dispatched (err x) w h = Dispatched-refl e w
  dispatch_found-Dispatched (ok s) w h =
      dispatch_addressed-Dispatched s w (text_eq s.customer_email []) h refl

-- The dispatch of one event leaves the database, changes the log only in the row of that event, of
-- which it keeps the time of the claim, and sends one letter at most. A letter goes to the address that the event's schedule has now, which is not
-- blank, and a notice of an order goes out only while that order is pending.
pub dispatch_one-Dispatched :
    (d : Dispatcher) (now : ℕ) (e : ScheduleEvent) (w : World)
    → Dispatched e w (dispatch_one d now e w).1
unfolding dispatch_one
dispatch_one-Dispatched d now e w = dispatch_found-Dispatched d now e _ w refl
