-- ===== src/Sweep/Counts.antt =====
-- What the passes of internal/sweep/sweep.go report.
use replenishment_system.Common.{◌+◌, Bool, not, ◌&&◌}
use replenishment_system.Common.Int.{pos}
use replenishment_system.Common.Text.{text_eq}
use replenishment_system.Calendar.{Date, add_days, after}
use replenishment_system.Domain.Types.{Schedule, Occurrence, status_is_active}
use replenishment_system.Domain.Transitions.{arm_window_days}
use replenishment_system.Store.Rows.{exists_row}
use replenishment_system.Store.Db.{Db}
use replenishment_system.Store.Schedules.{status_is_paused, status_is_planned, due_by}

-- A row that the listing of pauses takes in, a day ahead of UTC.
abbrev pub may_resume : Date → Schedule → Bool
may_resume on s = status_is_paused s.status && due_by (add_days on (pos 1)) s.paused_until

-- A row that the listing of orders to arm takes in.
abbrev pub may_arm : Date → Db → Schedule → Bool
may_arm on db s =
    status_is_active s.status
    && exists_row
        (λ (o : Occurrence).
          text_eq o.schedule_id s.id
          && (status_is_planned o.status
              && not (after o.scheduled_for (add_days on (pos (arm_window_days + 1))))))
        db.occurrences
