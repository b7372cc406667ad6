-- ===== src/Materialize/All/Kept.antt =====
-- What `RunAll` of internal/materialize/materialize.go reports against what it leaves.
use replenishment_system.Common.{
  ℕ, zero, suc, ◌+◌, ◌-◌, ◌≡◌, refl, sym, ap, subst, ◌∙◌, arith, Bool, true, false, not, ◌||◌, ◌==◌,
  none, [], ◌∷◌, ◌++◌, leb, if◌then◌else◌,
}
use replenishment_system.Common.Lists.{length, length-append}
use replenishment_system.Calendar.{Date}
use replenishment_system.Domain.Types.{
  Schedule, Occurrence, ScheduleEvent, not_found, no_transaction, duplicate_occurrence,
  duplicate_schedule, transition, invalid, Result, ok, err, is_active,
}
use replenishment_system.Domain.Cadence.{validate_interval, next_occurrence_after}
use replenishment_system.Store.Rows.{exists_row}
use replenishment_system.Store.Db.{Db, Store, pure, lift, ◌>>=◌, >>=-runs}
use replenishment_system.Store.Schedules.{update_schedule, update_schedule_next_run}
use replenishment_system.Store.Occurrences.{
  conflicts_with, same_primary_key, create_occurrence, list_planned_occurrences,
  count_future_planned_occurrences, max_sequence_no, latest_scheduled_date,
}
use replenishment_system.Store.Events.{append_event}
use replenishment_system.Materialize.{
  Materializer, run, plan, plan_one, planned_occurrence, materialized_event, after_create, counted,
  start_cursor, top_up, refresh_next_run_date,
}
use replenishment_system.Materialize.All.{
  noted, or_stop, answer_or, missing_tally, plan_tally, run_tally,
}

abbrev pub rows : Db → ℕ
rows db = length db.occurrences

abbrev no_counts : ℕ × ℕ
no_counts = (0, 0)

if-rows :
    {A : Type 0} (n : ℕ) (b : Bool) (x y : A × Db)
    → rows x.1 ≡ n
    → rows y.1 ≡ n
    → rows (if b then x else y).1 ≡ n
if-rows n true x y h k = h
if-rows n false x y h k = k

rows-append_event : (e : ScheduleEvent) (db : Db) → rows (append_event e db).1 ≡ rows db
unfolding append_event
rows-append_event e db = if-rows (rows db) _ _ _ refl refl

refresh_rows :
    (s : Schedule) (today : Date) (db : Db) → rows (refresh_next_run_date s today db).1 ≡ rows db
unfolding refresh_next_run_date list_planned_occurrences update_schedule_next_run update_schedule
refresh_rows s today db = if-rows (rows db) _ _ _ refl refl

-- What an attempt to create a row counts, and the rows it leaves.
record Attempted (m : Materializer) (s : Schedule) (seq : ℕ) (date : Date) (counts : ℕ × ℕ)
    (db : Db) (is_new : Bool) : Type 0 where
  noted_is :
      noted (create_occurrence (planned_occurrence m s seq date db.occurrences) db).0 counts
      ≡ counted is_new counts
  grown : rows (plan_one m s seq date db).1 + counts.0 ≡ rows db + (counted is_new counts).0

after_create-rows :
    (e : ScheduleEvent) (r : Result (Unit {0}) × Db) (db : Db) (counts : ℕ × ℕ) (is_new : Bool)
    → (r.0 ≡ ok tt → rows r.1 ≡ suc (rows db))
    → (r.0 ≡ err duplicate_occurrence → rows r.1 ≡ rows db)
    → (after_create e r).0 ≡ ok is_new
    → (noted r.0 counts ≡ counted is_new counts)
      × (rows (after_create e r).1 + counts.0 ≡ rows db + (counted is_new counts).0)
after_create-rows e (ok u, d) db counts is_new added kept h =
    let (v, first, whole) = >>=-runs (append_event e) (λ u. pure true) d is_new h in
    let new : is_new ≡ true =
      (let g : ok true ≡ ok is_new = ap (λ (x : Result Bool × Db). x.0) (sym whole) ∙ h in
        let k : true ≡ is_new = cc g in sym k) in
    let same : rows (after_create e (ok u, d)).1 ≡ rows d =
      ap (λ (x : Result Bool × Db). rows x.1) whole ∙ rows-append_event e d in
    rw new (refl, omega (arith, same, added refl))
after_create-rows e (err duplicate_occurrence, d) db counts is_new added kept h =
    let old : false ≡ is_new = cc h in rw (sym old) (refl, omega (arith, kept refl))
after_create-rows e (err not_found, d) db counts is_new added kept h = absurd cc
after_create-rows e (err no_transaction, d) db counts is_new added kept h = absurd cc
after_create-rows e (err duplicate_schedule, d) db counts is_new added kept h = absurd cc
after_create-rows e (err (transition a b c), d) db counts is_new added kept h = absurd cc
after_create-rows e (err (invalid x), d) db counts is_new added kept h = absurd cc

abbrev insert_when : Bool → Bool → Occurrence → Db → Result (Unit {0}) × Db
insert_when taken refused o db =
    if taken
    then (err duplicate_occurrence, db)
    else if refused
    then (err (invalid "insert occurrence"), db)
    else (ok tt, record db { occurrences = db.occurrences ++ o ∷ [] })

insert_added :
    (taken refused : Bool) (o : Occurrence) (db : Db)
    → (insert_when taken refused o db).0 ≡ ok tt
    → rows (insert_when taken refused o db).1 ≡ suc (rows db)
insert_added true refused o db e = absurd cc
insert_added false true o db e = absurd cc
insert_added false false o db e = omega (arith, length-append db.occurrences (o ∷ []))

insert_kept :
    (taken refused : Bool) (o : Occurrence) (db : Db)
    → (insert_when taken refused o db).0 ≡ err duplicate_occurrence
    → rows (insert_when taken refused o db).1 ≡ rows db
insert_kept true refused o db e = refl
insert_kept false true o db e = refl
insert_kept false false o db e = absurd cc

create_added :
    (o : Occurrence) (db : Db)
    → (create_occurrence o db).0 ≡ ok tt
    → rows (create_occurrence o db).1 ≡ suc (rows db)
unfolding create_occurrence
create_added o db h =
    insert_added (exists_row (conflicts_with o) db.occurrences)
      (exists_row (same_primary_key o) db.occurrences || (o.sequence_no == 0)) o db h

create_kept :
    (o : Occurrence) (db : Db)
    → (create_occurrence o db).0 ≡ err duplicate_occurrence
    → rows (create_occurrence o db).1 ≡ rows db
unfolding create_occurrence
create_kept o db h =
    insert_kept (exists_row (conflicts_with o) db.occurrences)
      (exists_row (same_primary_key o) db.occurrences || (o.sequence_no == 0)) o db h

or_stop_ok :
    {A : Type 0} (counts : ℕ × ℕ) (r : Result A) (a : A) (next : A → ℕ × ℕ)
    → r ≡ ok a
    → or_stop counts r next ≡ next a
or_stop_ok counts r a next e = rw e refl

module _ (m : Materializer) (s : Schedule) where
  plan_one-Attempted :
      (seq : ℕ) (date : Date) (counts : ℕ × ℕ) (db : Db) (is_new : Bool)
      → (plan_one m s seq date db).0 ≡ ok is_new
      → Attempted m s seq date counts db is_new
  unfolding plan_one
  plan_one-Attempted seq date counts db is_new h =
      let o = planned_occurrence m s seq date db.occurrences in
      let (a, b) =
        after_create-rows (materialized_event s seq date) (create_occurrence o db) db counts is_new
          (create_added o db) (create_kept o db) h in
      record { noted_is = a; grown = b }

  -- The loop counts the rows that it adds.
  plan_counts :
      (left seq : ℕ) (cursor : Date) (counts : ℕ × ℕ) (db : Db) (c : ℕ × ℕ)
      → (plan m s left seq cursor counts db).0 ≡ ok c
      → (plan_tally m s left seq cursor counts db ≡ c)
        × (rows (plan m s left seq cursor counts db).1 + counts.0 ≡ rows db + c.0)
  unfolding plan plan_tally
  plan_counts zero seq cursor counts db c h = let same : counts ≡ c = cc h in rw same (refl, refl)
  plan_counts (suc left) seq cursor counts db c h =
      let (next, found, whole) =
        >>=-runs (lift (next_occurrence_after s.anchor_date s.interval_days cursor))
          (λ (p : ℕ × Date). plan_one m s (seq + 1) p.1 >>= λ is_new.
            plan m s left (seq + 1) p.1 (counted is_new counts))
          db c h in
      let h1 = ap (λ (x : Result (ℕ × ℕ) × Db). x.0) (sym whole) ∙ h in
      let (is_new, tried, rest) =
        >>=-runs (plan_one m s (seq + 1) next.1)
          (λ is_new. plan m s left (seq + 1) next.1 (counted is_new counts)) db c h1 in
      let h2 = ap (λ (x : Result (ℕ × ℕ) × Db). x.0) (sym rest) ∙ h1 in
      let a = plan_one-Attempted (seq + 1) next.1 counts db is_new tried in
      let (tallied, grown) =
        plan_counts left (seq + 1) next.1 (counted is_new counts)
          (plan_one m s (seq + 1) next.1 db).1 c h2 in
      let total : rows (plan m s (suc left) seq cursor counts db).1
          ≡ rows
              (plan m s left (seq + 1) next.1 (counted is_new counts)
                (plan_one m s (seq + 1) next.1 db).1).1 =
        ap (λ (x : Result (ℕ × ℕ) × Db). rows x.1) (whole ∙ rest) in
      let dated : next_occurrence_after s.anchor_date s.interval_days cursor ≡ ok next = found in
      (
        or_stop_ok counts _ next _ dated
            ∙ or_stop_ok _ _ is_new _ tried
            ∙ ap (λ n. plan_tally m s left (seq + 1) next.1 n (plan_one m s (seq + 1) next.1 db).1)
                a.noted_is
            ∙ tallied,
        omega (arith, total, grown, a.grown),
      )

  -- The parts of `Run` past its checks.
  abbrev refreshed_only : Date → Store (ℕ × ℕ)
  refreshed_only today = refresh_next_run_date s today >>= λ u. pure no_counts

  abbrev refreshed_after : Date → Store (ℕ × ℕ) → Store (ℕ × ℕ)
  refreshed_after today loop = loop >>= λ counts. refresh_next_run_date s today >>= λ u. pure counts

  abbrev topped : Date → ℕ → Bool → Store (ℕ × ℕ)
  topped today existing full =
      if full then refreshed_only today else top_up m s today (m.horizon - existing)

  abbrev checked_run : Date → Bool → Store (ℕ × ℕ)
  checked_run today idle =
      if idle
      then pure no_counts
      else (lift (validate_interval s.interval_days) >>= λ u.
          count_future_planned_occurrences s.id today >>= λ existing.
          topped today existing (leb m.horizon existing))

  full_counts :
      (today : Date) (db : Db) (c : ℕ × ℕ)
      → (refreshed_only today db).0 ≡ ok c
      → (no_counts ≡ c) × (rows (refreshed_only today db).1 ≡ rows db + c.0)
  full_counts today db c h =
      let (u, refreshed, whole) =
        >>=-runs (refresh_next_run_date s today) (λ u. pure no_counts) db c h in
      let done : ok no_counts ≡ ok c = ap (λ (x : Result (ℕ × ℕ) × Db). x.0) (sym whole) ∙ h in
      let same : no_counts ≡ c = cc done in
      let kept : rows (refreshed_only today db).1 ≡ rows db =
        ap (λ (x : Result (ℕ × ℕ) × Db). rows x.1) whole ∙ refresh_rows s today db in
      (
        same,
        subst (λ (n : ℕ × ℕ). rows (refreshed_only today db).1 ≡ rows db + n.0) same
            (omega (arith, kept)),
      )

  planned_counts :
      (today : Date) (missing seq : ℕ) (cursor : Date) (db : Db) (c : ℕ × ℕ)
      → (refreshed_after today (plan m s missing seq cursor no_counts) db).0 ≡ ok c
      → (plan_tally m s missing seq cursor no_counts db ≡ c)
        × (rows (refreshed_after today (plan m s missing seq cursor no_counts) db).1
            ≡ rows db + c.0)
  planned_counts today missing seq cursor db c h =
      let (counts, planned, whole) =
        >>=-runs (plan m s missing seq cursor no_counts)
          (λ counts. refresh_next_run_date s today >>= λ u. pure counts) db c h in
      let d = (plan m s missing seq cursor no_counts db).1 in
      let h1 = ap (λ (x : Result (ℕ × ℕ) × Db). x.0) (sym whole) ∙ h in
      let (u, refreshed, rest) =
        >>=-runs (refresh_next_run_date s today) (λ u. pure counts) d c h1 in
      let done : ok counts ≡ ok c = ap (λ (x : Result (ℕ × ℕ) × Db). x.0) (sym rest) ∙ h1 in
      let same : counts ≡ c = cc done in
      let (tallied, grown) = plan_counts missing seq cursor no_counts db counts planned in
      let kept =
        ap (λ (x : Result (ℕ × ℕ) × Db). rows x.1) (whole ∙ rest) ∙ refresh_rows s today d in
      (
        tallied ∙ same,
        kept ∙ subst (λ (n : ℕ × ℕ). rows d ≡ rows db + n.0) same (omega (arith, grown)),
      )

  topped_counts :
      (today : Date) (existing : ℕ) (full : Bool) (db : Db) (c : ℕ × ℕ)
      → (topped today existing full db).0 ≡ ok c
      → ((if full
            then no_counts
            else plan_tally m s
                (m.horizon - existing)
                (answer_or 0 (max_sequence_no s.id db).0)
                (start_cursor today (answer_or none (latest_scheduled_date s.id db).0))
                no_counts
                db)
          ≡ c)
        × (rows (topped today existing full db).1 ≡ rows db + c.0)
  unfolding top_up max_sequence_no latest_scheduled_date
  topped_counts today existing true db c h = full_counts today db c h
  topped_counts today existing false db c h = planned_counts today _ _ _ db c h

  checked_counts :
      (today : Date) (db : Db) (idle : Bool) (c : ℕ × ℕ)
      → (checked_run today idle db).0 ≡ ok c
      → ((if idle
            then no_counts
            else or_stop no_counts (validate_interval s.interval_days) λ u.
              missing_tally m s today db
                (answer_or 0 (count_future_planned_occurrences s.id today db).0))
          ≡ c)
        × (rows (checked_run today idle db).1 ≡ rows db + c.0)
  unfolding count_future_planned_occurrences
  checked_counts today db true c h =
      let same : no_counts ≡ c = cc h in
      (same, subst (λ (n : ℕ × ℕ). rows db ≡ rows db + n.0) same (omega arith))
  checked_counts today db false c h =
      let (u, valid, whole) =
        >>=-runs (lift (validate_interval s.interval_days))
          (λ u. count_future_planned_occurrences s.id today >>= λ existing.
            topped today existing (leb m.horizon existing))
          db c h in
      let (tallied, grown) =
        topped_counts today _ (leb m.horizon _) db c
          (ap (λ (x : Result (ℕ × ℕ) × Db). x.0) (sym whole) ∙ h) in
      (
        or_stop_ok no_counts (validate_interval s.interval_days) u _ valid ∙ tallied,
        ap (λ (x : Result (ℕ × ℕ) × Db). rows x.1) whole ∙ grown,
      )

  -- A run that succeeds counts the rows that it adds.
  pub run_counts :
      (today : Date) (db : Db) (c : ℕ × ℕ)
      → (run m s today db).0 ≡ ok c
      → (run_tally m s today db ≡ c) × (rows (run m s today db).1 ≡ rows db + c.0)
  unfolding run run_tally
  run_counts today db c h = checked_counts today db (not (is_active s)) c h
