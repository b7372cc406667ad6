-- ===== src/Examples/Data.antt =====
-- One active schedule of 30 days with a planned order, one canceled schedule, and a service whose
-- clock stands at 2026-03-01.
use replenishment_system.Common.{
  ℕ, zero, suc, ◌+◌, ◌<◌, ◌≡◌, ◌≢◌, refl, ap, arith, false, Bool-cases, inl, inr, some, none, List,
  [], ◌∷◌,
}
use replenishment_system.Common.Int.{pos}
use replenishment_system.Common.Lists.{length}
use replenishment_system.Common.Text.{Text, text, text_eq, text_eq_sound, text_eq_ne}
use replenishment_system.Calendar.{Date, date, is_leap, month_len}
use replenishment_system.Calendar.Days.{IsValid}
use replenishment_system.Domain.Types.{
  ScheduleStatus, OccurrenceStatus, customer, Schedule, ScheduleItem, Occurrence,
}
use replenishment_system.Domain.Cadence.{validate_interval, idempotency_key}
use replenishment_system.Store.Rows.{exists_row}
use replenishment_system.Store.Db.{Db}
use replenishment_system.Store.Scope.{customer_scope}
use replenishment_system.Store.Integrity.{WellFormed}
use replenishment_system.Materialize.Fresh.{FreshIds}
use replenishment_system.Service.{Service, Caller}
use replenishment_system.Service.Frame.{ClockOk}

abbrev pub today_date : Date
today_date = date 2026 3 1

pub today_date-IsValid : IsValid today_date
unfolding month_len is_leap
today_date-IsValid = record {
  month_in = (omega arith, omega arith);
  day_in = (omega arith, ground arith);
}

abbrev pub order_date : Date
order_date = date 2026 3 31

pub order_date-IsValid : IsValid order_date
unfolding month_len is_leap
order_date-IsValid = record {
  month_in = (omega arith, omega arith);
  day_in = (omega arith, ground arith);
}

abbrev schedule : Text → ScheduleStatus → Schedule
schedule id status = record {
  id = id;
  customer_id = text "c1";
  status = status;
  customer_email = text "c1@example.com";
  origin_order_id = id;
  interval_days = pos 30;
  anchor_date = today_date;
  next_run_date = none;
  timezone = text "UTC";
  payment_token_ref = [];
  shipping_address_id = [];
  discount_hundredths = 0;
  paused_until = none;
  created_at = 0;
}

abbrev pub live : Schedule
live = schedule (text "s1") ScheduleStatus.active

abbrev pub ended : Schedule
ended = schedule (text "s2") ScheduleStatus.canceled

abbrev pub order : Occurrence
order = record {
  id = text "o1";
  schedule_id = text "s1";
  sequence_no = 1;
  scheduled_for = order_date;
  status = OccurrenceStatus.planned;
  order_id = none;
  idempotency_key = idempotency_key (text "s1") 1;
}

abbrev pub item : ScheduleItem
item = record { id = text "i0"; schedule_id = text "s1"; sku = text "tea"; quantity = 2 }

abbrev pub shop : Db
shop = record {
  schedules = live ∷ ended ∷ [];
  items = item ∷ [];
  occurrences = order ∷ [];
  events = [];
  next_event_id = 1;
  clock = 0;
}

pub two_apart : text "s1" ≢ text "s2"
unfolding text_eq
two_apart = text_eq_ne (text "s1") (text "s2") refl

pub shop-WellFormed : WellFormed shop
unfolding validate_interval exists_row text_eq
shop-WellFormed = record {
  schedules_ok = (
    record {
      interval_ok = refl;
      discount_ok = omega arith;
      anchor_ok = today_date-IsValid;
      pause_ok = λ e. cc;
    },
    (
      record {
        interval_ok = refl;
        discount_ok = omega arith;
        anchor_ok = today_date-IsValid;
        pause_ok = λ e. cc;
      },
      tt,
    ),
  );
  schedules_unique = (((two_apart, two_apart), tt), (tt, tt));
  items_ok = record {
    each_ok = (record { quantity_low = omega arith; quantity_high = omega arith }, tt);
    items_unique = (tt, tt);
    owned = (refl, tt);
  };
  events_ok = record { numbered = tt; events_unique = tt };
  rows_ok = (
    record {
      key_is = refl;
      date_ok = order_date-IsValid;
      number_ok = omega arith;
      order_placed = λ e. cc;
    },
    tt,
  );
  rows_unique = (tt, tt);
}

-- An identifier longer than those of all the rows.
abbrev zeros : ℕ → Text
zeros zero = []
zeros (suc n) = 0 ∷ zeros n

abbrev total : List Occurrence → ℕ
total [] = 0
total (x ∷ xs) = length x.id + total xs

length-zeros : (n : ℕ) → length (zeros n) ≡ n
length-zeros zero = refl
length-zeros (suc n) = ap suc (length-zeros n)

zeros_fresh :
    (n : ℕ) (rows : List Occurrence)
    → total rows < n
    → exists_row (λ (row : Occurrence). text_eq row.id (zeros n)) rows ≡ false
unfolding exists_row
zeros_fresh n [] h = refl
zeros_fresh n (x ∷ xs) h = elim (Bool-cases (text_eq x.id (zeros n))) [
  | inl e ↦ absurd (omega (arith, ap length (text_eq_sound x.id (zeros n) e), length-zeros n))
  | inr e ↦ rw e (zeros_fresh n xs (omega arith))
]

abbrev pub service : Service
service = record {
  mat = record { horizon = 2; new_id = λ rows. zeros (suc (total rows)) };
  clock = record { local_date = λ zone. some today_date; utc_date = today_date };
}

pub service-ClockOk : ClockOk service.clock
service-ClockOk = record { local_ok = λ zone d e. same d e; utc_ok = today_date-IsValid }
  where
    same : (d : Date) → some today_date ≡ some d → IsValid d
    same d e = let h : today_date ≡ d = cc e in rw h at today_date-IsValid

abbrev pub owner : Caller
owner = record { actor = customer; scope = customer_scope (text "c1") }

pub service-FreshIds : FreshIds service.mat
service-FreshIds = record { fresh = λ rows. zeros_fresh (suc (total rows)) rows (omega arith) }
