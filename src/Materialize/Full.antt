-- ===== src/Materialize/Full.antt =====
-- `Run` of internal/materialize, from its guards to `RefreshNextRunDate`.
use replenishment_system.Common.{
  ℕ, ◌+◌, ◌-◌, ◌≤◌, ◌≡◌, refl, ap, ◌∙◌, arith, Bool, true, Option, none, some, List, [], ◌∷◌,
  Bool-cases, inl, inr, leb,
}
use replenishment_system.Common.Int.{pos}
use replenishment_system.Common.Lists.{All}
use replenishment_system.Common.Text.{Text}
use replenishment_system.Calendar.{Date, to_time, before, after}
use replenishment_system.Calendar.Days.{IsValid}
use replenishment_system.Calendar.Order.{before_iff}
use replenishment_system.Domain.Types.{Schedule, Occurrence, Result, ok, err, is_active}
use replenishment_system.Domain.Cadence.{validate_interval}
use replenishment_system.Domain.Cadence.Next.{IsInterval, validate_interval_iff}
use replenishment_system.Store.Rows.{count_rows, select, exists_row, update_rows}
use replenishment_system.Store.Rows.Laws.{In-select, In-All, All-In}
use replenishment_system.Store.Db.{Db, pure, continue_with, ◌>>=◌}
use replenishment_system.Store.Schedules.{with_id, update_schedule, update_schedule_next_run}
use replenishment_system.Store.Occurrences.{
  is_open, of_schedule, planned_after, max_sequence, max_sequence_no, latest_date,
  latest_scheduled_date, later_date, list_planned_occurrences, count_future_planned_occurrences,
}
use replenishment_system.Store.Integrity.{WellFormed, OccurrenceOk}
use replenishment_system.Materialize.{
  Materializer, start_cursor, refresh_next_run_date, top_up, run,
}
use replenishment_system.Materialize.Fresh.{FreshIds}
use replenishment_system.Materialize.Horizon.{InReach, Filled, plan-Filled}

select-OccurrenceOk :
    (p : Occurrence → Bool) (rows : List Occurrence)
    → All OccurrenceOk rows
    → All OccurrenceOk (select p rows)
select-OccurrenceOk p rows h =
    In-All OccurrenceOk (select p rows)
      (λ x i. All-In OccurrenceOk x rows h (In-select p x rows i).0)

later_date-IsValid :
    (d : Date) (o : Option Date)
    → IsValid d
    → ((e : Date) → o ≡ some e → IsValid e)
    → IsValid (later_date d o)
later_date-IsValid d none v h = v
later_date-IsValid d (some e) v h = elim (Bool-cases (before d e)) [
  | inl lt ↦ rw lt (h e refl)
  | inr ge ↦ rw ge v
]

latest_date-IsValid :
    (rows : List Occurrence) (d : Date)
    → All OccurrenceOk rows
    → latest_date rows ≡ some d
    → IsValid d
unfolding latest_date
latest_date-IsValid [] d h e = cc
latest_date-IsValid (x ∷ xs) d h e =
    let same : later_date x.scheduled_for (latest_date xs) ≡ d = cc e in
    rw same at (
      later_date-IsValid x.scheduled_for (latest_date xs) h.0.date_ok
        (λ b k. latest_date-IsValid xs b h.1 k))

-- The walk along the cadence starts at a date of the calendar, today or later.
start_cursor-IsValid :
    (today : Date) (o : Option Date)
    → IsValid today
    → ((d : Date) → o ≡ some d → IsValid d)
    → IsValid (start_cursor today o) × (to_time today ≤ to_time (start_cursor today o))
unfolding after
start_cursor-IsValid today none v h = (v, omega arith)
start_cursor-IsValid today (some d) v h = elim (Bool-cases (before today d)) [
  | inl lt ↦ rw lt (h d refl, omega (arith, (before_iff today d v (h d refl)).0 lt))
  | inr ge ↦ rw ge (v, omega arith)
]

exists_row-update_rows :
    (id : Text) (f : Schedule → Schedule) (rows : List Schedule)
    → ((x : Schedule) → (f x).id ≡ x.id)
    → exists_row (with_id id) (update_rows (with_id id) f rows) ≡ exists_row (with_id id) rows
unfolding exists_row update_rows
exists_row-update_rows id f [] h = refl
exists_row-update_rows id f (x ∷ xs) h = elim (Bool-cases (with_id id x)) [
  | inl hit ↦ rw (hit, h x, hit) refl
  | inr miss ↦ rw (miss, miss) (exists_row-update_rows id f xs h)
]

-- What the run leaves: its answer, the number of orders planned after today, and the schedule's row.
pub record Full (m : Materializer) (s : Schedule) (today : Date) (created : ℕ)
    (r : Result (ℕ × ℕ) × Db) : Type 0 where
  pub answered : r.0 ≡ ok (created, 0)
  pub full : count_rows (planned_after s.id today) r.1.occurrences ≡ m.horizon
  pub still_there : exists_row (with_id s.id) r.1.schedules ≡ true

module _ (m : Materializer) (s : Schedule) (today : Date) where
  refresh-there :
      (db : Db)
      → exists_row (with_id s.id) db.schedules ≡ true
      → ((refresh_next_run_date s today db).0 ≡ ok tt)
        × ((refresh_next_run_date s today db).1.occurrences ≡ db.occurrences)
        × (exists_row (with_id s.id) (refresh_next_run_date s today db).1.schedules ≡ true)
  unfolding refresh_next_run_date list_planned_occurrences update_schedule_next_run update_schedule
  refresh-there db here =
      rw here (refl, refl, exists_row-update_rows s.id _ db.schedules (λ x. refl) ∙ here)

then_pure :
    {A : Type 0} (q : Result (Unit {0}) × Db) (a : A)
    → q.0 ≡ ok tt
    → continue_with q (λ u. pure a) ≡ (ok a, q.1)
then_pure (ok u, d) a e = refl
then_pure (err x, d) a e = cc

module _ (m : Materializer) (s : Schedule) (today : Date) where
  -- The end of a run: `next_run_date` is refreshed, and the counts are the answer.
  abbrev refreshed : ℕ × ℕ → Db → Result (ℕ × ℕ) × Db
  refreshed counts db = (refresh_next_run_date s today >>= λ u. pure counts) db

  refreshed-Full :
      (created : ℕ) (counts : ℕ × ℕ) (db : Db)
      → counts ≡ (created, 0)
      → count_rows (planned_after s.id today) db.occurrences ≡ m.horizon
      → exists_row (with_id s.id) db.schedules ≡ true
      → Full m s today created (refreshed counts db)
  refreshed-Full created counts db e full here =
      let (done, same, there) = refresh-there m s today db here in
      rw (then_pure (refresh_next_run_date s today db) counts done)
        (record { answered = ap ok e; full = rw same full; still_there = there })

  after_plan-Full :
      (missing : ℕ) (db : Db) (r : Result (ℕ × ℕ) × Db)
      → Filled s.id today db missing 0 0 r
      → count_rows (planned_after s.id today) db.occurrences + missing ≡ m.horizon
      → exists_row (with_id s.id) db.schedules ≡ true
      → Full m s today missing (continue_with r refreshed)
  after_plan-Full missing db (ok counts, d) f total here =
      refreshed-Full missing counts d (counts_are f.counted_all) (f.planned_all ∙ total)
        (rw f.schedules_same here)
    where
      counts_are : ok counts ≡ ok (0 + missing, 0) → counts ≡ (missing, 0)
      counts_are e = ok_inj e ∙ ap (λ n. (n, 0)) (omega arith)
        where
          ok_inj : {x y : ℕ × ℕ} → ok x ≡ ok y → x ≡ y
          ok_inj k = cc
  after_plan-Full missing db (err x, d) f total here = cc f.counted_all

  -- A full horizon: a run creates nothing.
  idle-Full :
      (db : Db)
      → is_active s ≡ true
      → validate_interval s.interval_days ≡ ok tt
      → count_rows (planned_after s.id today) db.occurrences ≡ m.horizon
      → exists_row (with_id s.id) db.schedules ≡ true
      → Full m s today 0 (run m s today db)
  unfolding run count_future_planned_occurrences
  idle-Full db active valid full here =
      let enough : leb m.horizon (count_rows (planned_after s.id today) db.occurrences) ≡ true =
        ground arith in
      rw (active, valid, enough) (refreshed-Full 0 (0, 0) db refl full here)

module _ (m : Materializer) (s : Schedule) (today : Date) (i : ℕ) (db : Db) (w : WellFormed db)
    (ids : FreshIds m) (today_ok : IsValid today) (active : is_active s ≡ true)
    (interval : s.interval_days ≡ pos i) (range : IsInterval i)
    (here : exists_row (with_id s.id) db.schedules ≡ true)
    (room : count_rows (planned_after s.id today) db.occurrences ≤ m.horizon)
    (near : InReach s.anchor_date i
      (m.horizon - count_rows (planned_after s.id today) db.occurrences)
      (start_cursor today (latest_date (select (of_schedule s.id is_open) db.occurrences)))) where
  valid_interval : validate_interval s.interval_days ≡ ok tt
  valid_interval = (validate_interval_iff s.interval_days).1 (i, interval, range)

  top_up-Full :
      Full m s today
        (m.horizon - count_rows (planned_after s.id today) db.occurrences)
        (top_up m s today (m.horizon - count_rows (planned_after s.id today) db.occurrences) db)
  unfolding top_up max_sequence_no latest_scheduled_date
  top_up-Full =
      let open_rows : List Occurrence = select (of_schedule s.id is_open) db.occurrences in
      let start = start_cursor-IsValid today (latest_date open_rows) today_ok (λ d e.
        latest_date-IsValid open_rows d (select-OccurrenceOk _ db.occurrences w.rows_ok) e) in
      after_plan-Full m s today _ db _
        (plan-Filled m s today i interval range ids today_ok _ (max_sequence s.id db.occurrences)
          (start_cursor today (latest_date open_rows)) 0 0 db w start.0 start.1 (omega arith) near)
        (omega arith) here

  -- In a well-formed database with the schedule's row, a run for an active schedule with a valid
  -- interval succeeds, where fresh identifiers are given, today is a date of the calendar, no more
  -- orders are planned after today than the horizon has, and the walk along the cadence stays within
  -- 106751 days of the anchor. It creates exactly the orders that were missing and meets no
  -- duplicate; afterwards exactly as many orders are planned after today as the horizon has.
  pub run-Full :
      Full m s today
        (m.horizon - count_rows (planned_after s.id today) db.occurrences)
        (run m s today db)
  unfolding run count_future_planned_occurrences
  run-Full =
      elim (Bool-cases (leb m.horizon (count_rows (planned_after s.id today) db.occurrences))) [
        | inl enough ↦
            let none_missing : m.horizon - count_rows (planned_after s.id today) db.occurrences
                ≡ 0 =
              ground arith in
            let exact : count_rows (planned_after s.id today) db.occurrences ≡ m.horizon =
              ground arith in
            rw none_missing (idle-Full m s today db active valid_interval exact here)
        | inr short ↦ rw (active, valid_interval, short) top_up-Full
      ]

  -- Under the conditions of `run-Full` a second run succeeds, creates nothing, and leaves the number
  -- of orders planned after today at the horizon.
  pub run_again-Full : Full m s today 0 (run m s today (run m s today db).1)
  run_again-Full =
      idle-Full m s today (run m s today db).1 active valid_interval run-Full.full
        run-Full.still_there
