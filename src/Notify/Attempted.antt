-- ===== src/Notify/Attempted.antt =====
-- Which events a run of `RunAll` (internal/notify/notify.go) has attempted when it ends.
use replenishment_system.Common.{
  ℕ, zero, suc, ◌+◌, ◌<◌, ◌≡◌, refl, sym, subst, ◌∙◌, inl, inr, arith, Bool, true, Option, none,
  some, List, [], ◌∷◌, ltb, Bool-cases, Option-cases,
}
use replenishment_system.Common.Lists.{length}
use replenishment_system.Domain.Types.{ScheduleEvent}
use replenishment_system.Store.Rows.{In, select, place_row, order_by}
use replenishment_system.Store.Db.{Db}
use replenishment_system.Notify.{
  Notification, World, Dispatcher, batch_size, notifiable, logged, claimable, take_rows, claim_row,
  claim_rows, candidates, claim_notifiable_events, RunResult, dispatch_page, run_pages, run_all,
  no_results,
}
use replenishment_system.Notify.Drains.{
  claimed_since, claim_row_hit, claim_rows_keeps, page_keeps, page_log_keeps, page_db,
}

module _ {A : Type 0} where
  select-In : (p : A → Bool) (x : A) (xs : List A) → In x xs → p x ≡ true → In x (select p xs)
  unfolding select
  select-In p x [] i h = absurd i
  select-In p x (y ∷ ys) (inl e) h =
      let hit : p y ≡ true = subst (λ z. p z ≡ true) e h in rw hit (inl e)
  select-In p x (y ∷ ys) (inr i) h = elim (Bool-cases (p y)) [
    | inl hit ↦ rw hit (inr (select-In p x ys i h))
    | inr miss ↦ rw miss (select-In p x ys i h)
  ]

  place_row-head :
      (less : A → A → Bool) (x y : A) (ys : List A) → x ≡ y → In x (place_row less y ys)
  unfolding place_row
  place_row-head less x y [] e = inl e
  place_row-head less x y (z ∷ zs) e = elim (Bool-cases (less z y)) [
    | inl later ↦ rw later (inr (place_row-head less x y zs e))
    | inr here ↦ rw here (inl e)
  ]

  place_row-In :
      (less : A → A → Bool) (x y : A) (ys : List A) → In x ys → In x (place_row less y ys)
  unfolding place_row
  place_row-In less x y [] i = absurd i
  place_row-In less x y (z ∷ zs) i = elim (Bool-cases (less z y)) [
    | inr here ↦ rw here (inr i)
    | inl later ↦ rw later (elim i [ inl e ↦ inl e | inr j ↦ inr (place_row-In less x y zs j) ])
  ]

  order_by-In : (less : A → A → Bool) (x : A) (xs : List A) → In x xs → In x (order_by less xs)
  unfolding order_by
  order_by-In less x [] i = absurd i
  order_by-In less x (y ∷ ys) (inl e) = place_row-head less x y (order_by less ys) e
  order_by-In less x (y ∷ ys) (inr i) =
      place_row-In less x y (order_by less ys) (order_by-In less x ys i)

  -- A list that is cut short of the bound is not cut.
  take_rows-In :
      (n : ℕ) (x : A) (xs : List A) → In x xs → length (take_rows n xs) < n → In x (take_rows n xs)
  unfolding take_rows
  take_rows-In zero x xs i h = absurd (omega (arith, h))
  take_rows-In (suc n) x [] i h = absurd i
  take_rows-In (suc n) x (y ∷ ys) (inl e) h = inl e
  take_rows-In (suc n) x (y ∷ ys) (inr i) h = inr (take_rows-In n x ys i (omega (arith, h)))

claim_rows-In :
    (now : ℕ) (e : ScheduleEvent) (events : List ScheduleEvent) (log : List Notification)
    → In e events
    → claimed_since 0 (logged e.id (claim_rows now events log)) ≡ true
unfolding claim_rows
claim_rows-In now e [] log i = absurd i
claim_rows-In now e (x ∷ rest) log (inl same) =
    claim_rows_keeps 0 now e.id rest (claim_row now x.id log) (omega arith) (
      subst (λ (y : ScheduleEvent). claimed_since 0 (logged e.id (claim_row now y.id log)) ≡ true)
        same (claim_row_hit 0 now e.id log (omega arith)))
claim_rows-In now e (x ∷ rest) log (inr i) = claim_rows-In now e rest (claim_row now x.id log) i

logged_claimed :
    (o : Option Notification) (n : Notification) → o ≡ some n → claimed_since 0 o ≡ true
logged_claimed none n e = absurd cc
logged_claimed (some m) n e = ground arith

-- A page that comes back short has claimed every event that had no row.
short_page :
    (d : Dispatcher) (now : ℕ) (e : ScheduleEvent) (r : RunResult) (w : World)
    → In e w.db.events
    → notifiable e.event_type ≡ true
    → length (candidates now w) < batch_size
    → claimed_since 0 (
        logged e.id
          (dispatch_page d now
            (candidates now w)
            r
            (record w { log = claim_rows now (candidates now w) w.log })).1.log)
      ≡ true
short_page d now e r w i k short = elim (Option-cases (logged e.id w.log)) [
  | inr (n, found) ↦
      page_log_keeps d 0 now e.id (candidates now w) r w (omega arith)
        (logged_claimed (logged e.id w.log) n found)
  | inl new ↦
      let open_now : claimable now w.log e ≡ true = rw (k, new) refl in
      page_keeps d 0 now e.id (candidates now w) r _
      ∙ claim_rows-In now e (candidates now w) w.log (listed open_now short)
]
  where
    listed :
        claimable now w.log e ≡ true
        → length (candidates now w) < batch_size
        → In e (candidates now w)
    listed c h =
        unfold candidates in
        take_rows-In batch_size e
          (order_by (λ (a b : ScheduleEvent). ltb a.id b.id)
            (select (claimable now w.log) w.db.events))
          (order_by-In _ e (select (claimable now w.log) w.db.events)
            (select-In (claimable now w.log) e w.db.events i c))
          h

run_pages_attempted :
    (d : Dispatcher) (e : ScheduleEvent) (fuel n : ℕ) (r : RunResult) (w : World) (res : RunResult)
    (w' : World)
    → In e w.db.events
    → notifiable e.event_type ≡ true
    → run_pages d fuel n r w ≡ some (res, w')
    → claimed_since 0 (logged e.id w'.log) ≡ true
unfolding run_pages claim_notifiable_events
run_pages_attempted d e zero n r w res w' i k run = absurd cc
run_pages_attempted d e (suc fuel) n r w res w' i k run =
    let start : RunResult = record r { claimed = r.claimed + length (candidates (d.now n) w) } in
    let w1 : World = record w { log = claim_rows (d.now n) (candidates (d.now n) w) w.log } in
    let page : RunResult × World = dispatch_page d (d.now n) (candidates (d.now n) w) start w1 in
    elim (Bool-cases (ltb (length (candidates (d.now n) w)) batch_size)) [
      | inl short ↦
          let last : some page ≡ some (res, w') = rw short at run in
          let same : page ≡ (res, w') = cc last in
          subst (λ (x : RunResult × World). claimed_since 0 (logged e.id x.1.log) ≡ true) same
            (short_page d (d.now n) e start w i k (ground arith))
      | inr full ↦
          run_pages_attempted d e fuel (suc n) page.0 page.1 res w'
            (subst (λ (db : Db). In e db.events)
              (sym (page_db d (d.now n) (candidates (d.now n) w) start w1)) i)
            k (rw full at run)
    ]

-- When a run has ended, every event of the log of events that calls for a notification has been attempted: notification_log has
-- a row for it.
pub run_all_attempted :
    (d : Dispatcher) (e : ScheduleEvent) (w : World) (res : RunResult) (w' : World)
    → In e w.db.events
    → notifiable e.event_type ≡ true
    → run_all d w ≡ some (res, w')
    → (row : Notification) × (logged e.id w'.log ≡ some row)
unfolding run_all
run_all_attempted d e w res w' i k run =
    row_of (logged e.id w'.log) (run_pages_attempted d e _ 0 no_results w res w' i k run)
  where
    row_of :
        (o : Option Notification) → claimed_since 0 o ≡ true → (row : Notification) × (o ≡ some row)
    row_of none h = absurd cc
    row_of (some row) h = (row, refl)
