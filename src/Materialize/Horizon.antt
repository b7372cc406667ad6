-- ===== src/Materialize/Horizon.antt =====
-- The loop of `Run` in internal/materialize, round by round.
use replenishment_system.Common.{
  ℕ, zero, suc, ◌+◌, ◌*◌, ◌≤◌, ◌<◌, ◌≡◌, ◌⊎◌, inl, inr, refl, ap, ◌∙◌, arith, true, Bool-cases, leb,
}
use replenishment_system.Common.Int.{pos}
use replenishment_system.Common.Text.{Text, text_eq_refl}
use replenishment_system.Calendar.{Date, to_time, before, after, max_duration_days}
use replenishment_system.Calendar.Days.{IsValid}
use replenishment_system.Calendar.Order.{before_iff}
use replenishment_system.Calendar.Arith.{to_time-add_days_pos, add_days-IsValid}
use replenishment_system.Domain.Types.{Schedule, Result, ok}
use replenishment_system.Domain.Cadence.Next.{IsInterval, IsNext, next_occurrence_after-IsNext}
use replenishment_system.Store.Rows.{count_rows}
use replenishment_system.Store.Rows.Laws.{count_rows-append}
use replenishment_system.Store.Db.{Db}
use replenishment_system.Store.Occurrences.{planned_after, max_sequence}
use replenishment_system.Store.Integrity.{WellFormed}
use replenishment_system.Materialize.{Materializer, planned_occurrence, plan_one, plan}
use replenishment_system.Materialize.Frame.{plan_one-Does}
use replenishment_system.Materialize.Fresh.{FreshIds, planted, plan_one-eq, max_sequence-append}

-- The next date is one interval past the limit at most, or one past the anchor.
IsNext-close :
    (anchor : Date) (i : ℕ) (limit : Date) (seq : ℕ) (d : Date)
    → IsNext anchor i limit seq d
    → (to_time d ≤ to_time limit + i) ⊎ (to_time d ≡ to_time anchor + i)
IsNext-close anchor i limit zero d n = absurd (omega (arith, n.number_in))
IsNext-close anchor i limit (suc zero) d n =
    inr (ap to_time n.on_grid ∙ to_time-add_days_pos anchor (i * 1) ∙ omega arith)
IsNext-close anchor i limit (suc (suc k)) d n = inl (omega (arith, at_date, not_past))
  where
    at_date : to_time d ≡ to_time anchor + i * suc k + i
    at_date = ap to_time n.on_grid ∙ to_time-add_days_pos anchor (i * suc (suc k)) ∙ omega arith

    not_past : to_time anchor + i * suc k ≤ to_time limit
    not_past = elim (Bool-cases (leb (to_time anchor + i * suc k) (to_time limit))) [
      | inl e ↦ ground arith
      | inr e ↦ absurd (omega (arith, n.first (suc k) (omega arith) (ground arith)))
    ]

-- `more` orders were created and none was a duplicate; that many more are planned after `today`.
pub record Filled (id : Text) (today : Date) (db : Db) (more created duplicates : ℕ)
    (r : Result (ℕ × ℕ) × Db) : Type 0 where
  pub counted_all : r.0 ≡ ok (created + more, duplicates)
  pub planned_all :
      count_rows (planned_after id today) r.1.occurrences
      ≡ count_rows (planned_after id today) db.occurrences + more
  pub schedules_same : r.1.schedules ≡ db.schedules

-- The cursor is so near that `left` rounds stay where `DaysUntil` is exact.
pub record InReach (anchor : Date) (i left : ℕ) (cursor : Date) : Type 0 where
  pub rounds : left * i ≤ max_duration_days
  pub reach : to_time cursor + left * i ≤ to_time anchor + max_duration_days

InReach-next :
    (anchor : Date) (i left : ℕ) (cursor : Date) (seq : ℕ) (d : Date)
    → InReach anchor i (suc left) cursor
    → IsNext anchor i cursor seq d
    → InReach anchor i left d
InReach-next anchor i left cursor seq d r n = record {
  rounds = omega (arith, r.rounds);
  reach = elim (IsNext-close anchor i cursor seq d n) [
    | inl e ↦ omega (arith, e, r.reach)
    | inr e ↦ omega (arith, e, r.rounds)
  ];
}

module _ (m : Materializer) (s : Schedule) (today : Date) (i : ℕ)
    (interval : s.interval_days ≡ pos i) (range : IsInterval i) (ids : FreshIds m)
    (today_ok : IsValid today) where
  planted-count :
      (seq : ℕ) (date : Date) (db : Db)
      → before today date ≡ true
      → count_rows (planned_after s.id today) (planted m s seq date db).occurrences
        ≡ count_rows (planned_after s.id today) db.occurrences + 1
  unfolding after
  planted-count seq date db late =
      count_rows-append (planned_after s.id today) db.occurrences
        (planned_occurrence m s seq date db.occurrences)
      ∙ rw (text_eq_refl s.id, late) refl

  pub plan-Filled :
      (left seq : ℕ) (cursor : Date) (created duplicates : ℕ) (db : Db)
      → WellFormed db
      → IsValid cursor
      → to_time today ≤ to_time cursor
      → max_sequence s.id db.occurrences ≤ seq
      → InReach s.anchor_date i left cursor
      → Filled s.id today db left created duplicates
          (plan m s left seq cursor (created, duplicates) db)
  unfolding plan plan_one
  plan-Filled zero seq cursor created duplicates db w v late h r = record {
    counted_all = ap (λ c. ok (c, duplicates)) (omega arith);
    planned_all = omega arith;
    schedules_same = refl;
  }
  plan-Filled (suc left) seq cursor created duplicates db w v late h r =
      let (n, date, answer, next) =
        next_occurrence_after-IsNext s.anchor_date cursor i range v (omega (arith, r.reach)) in
      let valid : IsValid date = rw next.on_grid (add_days-IsValid s.anchor_date (pos (i * n))) in
      let past : to_time today < to_time date = omega (arith, next.past_limit, late) in
      let db1 : Db = planted m s (seq + 1) date db in
      let created_one : plan_one m s (seq + 1) date db ≡ (ok true, db1) =
        plan_one-eq m s seq date db ids w.rows_ok h in
      let w1 : WellFormed db1 =
        rw created_one at
          ((plan_one-Does m s (seq + 1) date (omega arith) valid).at db w).well_formed in
      let rest : Filled s.id today db1 left (suc created) duplicates
          (plan m s left (seq + 1) date (suc created, duplicates) db1) =
        plan-Filled left (seq + 1) date (suc created) duplicates db1 w1 valid (omega (arith, past))
          (max_sequence-append s.id db.occurrences
            (planned_occurrence m s (seq + 1) date db.occurrences) (seq + 1) (omega (arith, h))
            (omega arith))
          (InReach-next s.anchor_date i left cursor n date r next) in
      rw (interval, answer, created_one)
        (one_more date db (seq + 1) rest ((before_iff today date today_ok valid).1 past))
    where
      one_more :
          (date : Date) (d : Db) (number : ℕ)
          → Filled s.id today
              (planted m s number date d)
              left
              (suc created)
              duplicates
              (plan m s left number date (suc created, duplicates) (planted m s number date d))
          → before today date ≡ true
          → Filled s.id today d
              (suc left)
              created
              duplicates
              (plan m s left number date (suc created, duplicates) (planted m s number date d))
      one_more date d number f after_today = record {
        counted_all = f.counted_all ∙ ap (λ c. ok (c, duplicates)) (omega arith);
        planned_all = omega (arith, f.planned_all, planted-count number date d after_today);
        schedules_same = f.schedules_same;
      }
