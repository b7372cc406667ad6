-- ===== src/Store/Integrity.antt =====
-- The constraints of internal/store/migrations, as an invariant of the database of
-- internal/store/store.go, and what a change on behalf of one schedule leaves alone.
use mathlib.Core.List.{append-nil, append_assoc}
use replenishment_system.Common.{
  ℕ, ◌≤◌, ◌<◌, ◌≡◌, ◌≢◌, refl, sym, ◌∙◌, Bool, true, false, not, some, List, [], ◌++◌,
}
use replenishment_system.Common.Lists.{All, All-append}
use replenishment_system.Common.Text.{Text, text_eq}
use replenishment_system.Calendar.Days.{IsValid}
use replenishment_system.Domain.Types.{
  ScheduleStatus, OccurrenceStatus, Schedule, ScheduleItem, Occurrence, ScheduleEvent, ok,
}
use replenishment_system.Domain.Cadence.{validate_interval, idempotency_key}
use replenishment_system.Store.Rows.{select, exists_row}
use replenishment_system.Store.Rows.Unique.{Unique}
use replenishment_system.Store.Db.{Db}
use replenishment_system.Store.Schedules.{is_some, with_id}
use replenishment_system.Store.Occurrences.{lacks_order}

-- schedules_interval_days_range, schedules_discount_pct_range and
-- schedules_paused_until_requires_paused
pub record ScheduleOk (s : Schedule) : Type 0 where
  pub interval_ok : validate_interval s.interval_days ≡ ok tt
  pub discount_ok : s.discount_hundredths ≤ 10000
  pub anchor_ok : IsValid s.anchor_date
  pub pause_ok : is_some s.paused_until ≡ true → s.status ≡ ScheduleStatus.paused

-- schedule_items_quantity_positive, and the range of the column's 32 bits.
pub record ItemOk (it : ScheduleItem) : Type 0 where
  pub quantity_low : 1 ≤ it.quantity
  pub quantity_high : it.quantity ≤ 2147483647

-- occurrences_sequence_no_positive, occurrences_order_requires_placed, and the key's form.
pub record OccurrenceOk (o : Occurrence) : Type 0 where
  pub key_is : o.idempotency_key ≡ idempotency_key o.schedule_id o.sequence_no
  pub date_ok : IsValid o.scheduled_for
  pub number_ok : 1 ≤ o.sequence_no
  pub order_placed : lacks_order o.order_id ≡ false → o.status ≡ OccurrenceStatus.placed

-- The primary key and schedules_origin_order_id_unique.
abbrev pub SchedulesApart : Schedule → Schedule → Type 0
SchedulesApart a b = (a.id ≢ b.id) × (a.origin_order_id ≢ b.origin_order_id)

-- The primary key and schedule_items_unique_sku.
abbrev pub ItemsApart : ScheduleItem → ScheduleItem → Type 0
ItemsApart a b = (a.id ≢ b.id) × (a.schedule_id ≡ b.schedule_id → a.sku ≢ b.sku)

-- The primary key and occurrences_idempotency_key_unique, from which
-- occurrences_sequence_unique follows.
abbrev pub Apart : Occurrence → Occurrence → Type 0
Apart a b = (a.id ≢ b.id) × (a.idempotency_key ≢ b.idempotency_key)

-- The primary key and the index schedule_events_idempotency_key_unique.
abbrev pub EventsApart : ScheduleEvent → ScheduleEvent → Type 0
EventsApart a b =
    (a.id ≢ b.id)
    × ((key : Text)
        → a.schedule_id ≡ b.schedule_id
        → a.event_type ≡ b.event_type
        → a.idempotency_key ≡ some key
        → b.idempotency_key ≢ some key)

-- The table of items: its constraints, and each item belongs to a schedule of the other table.
pub record ItemsOk (schedules : List Schedule) (items : List ScheduleItem) : Type 0 where
  pub each_ok : All ItemOk items
  pub items_unique : Unique ItemsApart items
  pub owned :
      All (λ (it : ScheduleItem). exists_row (with_id it.schedule_id) schedules ≡ true) items

-- The log: its constraints, and the sequence behind the ids is ahead of them.
pub record EventsOk (next : ℕ) (events : List ScheduleEvent) : Type 0 where
  pub numbered : All (λ (e : ScheduleEvent). e.id < next) events
  pub events_unique : Unique EventsApart events

-- The constraints of the four tables: primary keys, unique and check constraints, and the foreign
-- key of the items.
pub record WellFormed (db : Db) : Type 0 where
  pub schedules_ok : All ScheduleOk db.schedules
  pub schedules_unique : Unique SchedulesApart db.schedules
  pub items_ok : ItemsOk db.schedules db.items
  pub rows_ok : All OccurrenceOk db.occurrences
  pub rows_unique : Unique Apart db.occurrences
  pub events_ok : EventsOk db.next_event_id db.events

-- Rows that belong to another schedule.
abbrev pub other_schedule : Text → Schedule → Bool
other_schedule id s = not (text_eq s.id id)

abbrev pub other_occurrence : Text → Occurrence → Bool
other_occurrence id o = not (text_eq o.schedule_id id)

-- From `db` to `db'` nothing of another schedule has changed, and the audit log has only grown,
-- by events of this one.
pub record Frame (id : Text) (db db' : Db) : Type 0 where
  pub schedules_kept :
      select (other_schedule id) db'.schedules ≡ select (other_schedule id) db.schedules
  pub occurrences_kept :
      select (other_occurrence id) db'.occurrences ≡ select (other_occurrence id) db.occurrences
  pub items_kept : db'.items ≡ db.items
  pub logged : List ScheduleEvent
  pub events_are : db'.events ≡ db.events ++ logged
  pub logged_own : All (λ (e : ScheduleEvent). e.schedule_id ≡ id) logged

pub Frame-refl : (id : Text) (db : Db) → Frame id db db
Frame-refl id db = record {
  schedules_kept = refl;
  occurrences_kept = refl;
  items_kept = refl;
  logged = [];
  events_are = sym (append-nil db.events);
  logged_own = tt;
}

pub Frame-trans : (id : Text) (a b c : Db) → Frame id a b → Frame id b c → Frame id a c
Frame-trans id a b c f g = record {
  schedules_kept = g.schedules_kept ∙ f.schedules_kept;
  occurrences_kept = g.occurrences_kept ∙ f.occurrences_kept;
  items_kept = g.items_kept ∙ f.items_kept;
  logged = f.logged ++ g.logged;
  events_are = g.events_are ∙ rw f.events_are (append_assoc a.events f.logged g.logged);
  logged_own = All-append _ f.logged g.logged f.logged_own g.logged_own;
}
