-- ===== src/Notify/Drains.antt =====
-- The loop over pages of `RunAll` (internal/notify/notify.go) comes to an end.
use replenishment_system.Common.{
  ℕ, zero, suc, ◌+◌, ◌≤◌, ◌<◌, ◌≡◌, ◌≢◌, refl, sym, ap, subst, ◌∙◌, inl, inr, arith, Bool, true,
  false, not, Option, none, some, List, [], ◌∷◌, ◌==◌, ltb, Bool-cases, and_right,
}
use replenishment_system.Common.Lists.{length}
use replenishment_system.Domain.Types.{ScheduleEvent}
use replenishment_system.Store.Rows.{In, select, count_rows}
use replenishment_system.Store.Rows.Laws.{In-order_by, In-select}
use replenishment_system.Store.Db.{Db}
use replenishment_system.Notify.{
  Notification, World, Dispatcher, batch_size, visibility_timeout, logged, status_is_pending,
  outstanding, claimable, take_rows, claim_row, claim_rows, candidates, claim_notifiable_events,
  update_log, dispatch_one, count_outcome, RunResult, dispatch_page, run_pages, run_all, no_results,
}
use replenishment_system.Notify.Dispatched.{Marks, dispatch_one-Dispatched}
use replenishment_system.Notify.Settled.{logged-claim_row_apart}

-- The log holds a claim of the event since `start`.
abbrev pub claimed_since : ℕ → Option Notification → Bool
claimed_since start none = false
claimed_since start (some n) = not (ltb n.last_attempt_at start)

-- Events that no page since `start` has claimed.
abbrev untaken : ℕ → List Notification → ScheduleEvent → Bool
untaken start log e = not (claimed_since start (logged e.id log))

claim_time_update :
    (start id k : ℕ) (f : Notification → Notification) (log : List Notification)
    → Marks f
    → claimed_since start (logged id (update_log k f log)) ≡ claimed_since start (logged id log)
unfolding logged update_log
claim_time_update start id k f [] m = refl
claim_time_update start id k f (n ∷ rest) m =
    ground (arith, m.event_kept n, m.claim_kept n, claim_time_update start id k f rest m)

pub claim_row_hit :
    (start now id : ℕ) (log : List Notification)
    → start ≤ now
    → claimed_since start (logged id (claim_row now id log)) ≡ true
unfolding logged claim_row
claim_row_hit start now id [] h = ground arith
claim_row_hit start now id (n ∷ rest) h = ground (arith, claim_row_hit start now id rest h)

claim_row_keeps :
    (start now id k : ℕ) (log : List Notification)
    → start ≤ now
    → claimed_since start (logged id log) ≡ true
    → claimed_since start (logged id (claim_row now k log)) ≡ true
claim_row_keeps start now id k log h c = elim (Bool-cases (k == id)) [
  | inl same ↦ let e : k ≡ id = ground arith in rw e (claim_row_hit start now id log h)
  | inr apart ↦ rw (logged-claim_row_apart now id k log apart) c
]

pub claim_rows_keeps :
    (start now id : ℕ) (events : List ScheduleEvent) (log : List Notification)
    → start ≤ now
    → claimed_since start (logged id log) ≡ true
    → claimed_since start (logged id (claim_rows now events log)) ≡ true
unfolding claim_rows
claim_rows_keeps start now id [] log h c = c
claim_rows_keeps start now id (e ∷ rest) log h c =
    claim_rows_keeps start now id rest (claim_row now e.id log) h
      (claim_row_keeps start now id e.id log h c)

pub page_keeps :
    (d : Dispatcher) (start now id : ℕ) (events : List ScheduleEvent) (r : RunResult) (w : World)
    → claimed_since start (logged id (dispatch_page d now events r w).1.log)
      ≡ claimed_since start (logged id w.log)
unfolding dispatch_page
page_keeps d start now id [] r w = refl
page_keeps d start now id (e ∷ rest) r w =
    let one = dispatch_one d now e w in
    let s = dispatch_one-Dispatched d now e w in
    page_keeps d start now id rest (count_outcome one.0 r) one.1
    ∙ ap (λ log. claimed_since start (logged id log)) s.log_is
    ∙ claim_time_update start id e.id s.change w.log s.marks

pub page_db :
    (d : Dispatcher) (now : ℕ) (events : List ScheduleEvent) (r : RunResult) (w : World)
    → (dispatch_page d now events r w).1.db ≡ w.db
unfolding dispatch_page
page_db d now [] r w = refl
page_db d now (e ∷ rest) r w =
    page_db d now rest _ (dispatch_one d now e w).1 ∙ (dispatch_one-Dispatched d now e w).db_kept

-- What was claimable within the timeout of the start had not been taken since.
claimable-untaken :
    (start now : ℕ) (log : List Notification) (e : ScheduleEvent)
    → now ≤ start + visibility_timeout
    → claimable now log e ≡ true
    → untaken start log e ≡ true
claimable-untaken start now log e h c = go (logged e.id log) (and_right _ _ c)
  where
    go : (o : Option Notification) → outstanding now o ≡ true → not (claimed_since start o) ≡ true
    go none p = refl
    go (some n) p = let q = and_right (status_is_pending n.status) _ p in ground arith

module _ (p q : ScheduleEvent → Bool) (less : (x : ScheduleEvent) → q x ≡ true → p x ≡ true) where
  count_rows_le : (xs : List ScheduleEvent) → count_rows q xs ≤ count_rows p xs
  unfolding count_rows
  count_rows_le [] = omega arith
  count_rows_le (x ∷ xs) = ground (arith, less x, count_rows_le xs)

  -- A row that counts before and not after.
  count_rows_drop :
      (x : ScheduleEvent) (xs : List ScheduleEvent)
      → In x xs
      → p x ≡ true
      → q x ≡ false
      → count_rows q xs < count_rows p xs
  unfolding count_rows
  count_rows_drop x [] i a b = absurd i
  count_rows_drop x (y ∷ ys) (inl e) a b =
      let py : p y ≡ true = subst (λ z. p z ≡ true) e a in
      let qy : q y ≡ false = subst (λ z. q z ≡ false) e b in ground (arith, count_rows_le ys)
  count_rows_drop x (y ∷ ys) (inr i) a b = ground (arith, less y, count_rows_drop x ys i a b)

count_rows-length :
    (p : ScheduleEvent → Bool) (xs : List ScheduleEvent) → count_rows p xs ≤ length xs
unfolding count_rows
count_rows-length p [] = omega arith
count_rows-length p (x ∷ xs) = ground (arith, count_rows-length p xs)

In-take_rows :
    (n : ℕ) (x : ScheduleEvent) (xs : List ScheduleEvent) → In x (take_rows n xs) → In x xs
unfolding take_rows
In-take_rows zero x xs i = absurd i
In-take_rows (suc n) x [] i = absurd i
In-take_rows (suc n) x (y ∷ ys) (inl e) = inl e
In-take_rows (suc n) x (y ∷ ys) (inr i) = inr (In-take_rows n x ys i)

candidates-In :
    (now : ℕ) (w : World) (x : ScheduleEvent)
    → In x (candidates now w)
    → In x w.db.events × (claimable now w.log x ≡ true)
unfolding candidates
candidates-In now w x i = In-select (claimable now w.log) x w.db.events (
    In-order_by (λ (a b : ScheduleEvent). ltb a.id b.id) x
      (select (claimable now w.log) w.db.events) (In-take_rows batch_size x _ i))

-- What a page leaves of the claims since the start.
pub page_log_keeps :
    (d : Dispatcher) (start now id : ℕ) (events : List ScheduleEvent) (r : RunResult) (w : World)
    → start ≤ now
    → claimed_since start (logged id w.log) ≡ true
    → claimed_since start (
        logged id
          (dispatch_page d now events r (record w { log = claim_rows now events w.log })).1.log)
      ≡ true
page_log_keeps d start now id events r w h c =
    page_keeps d start now id events r _ ∙ claim_rows_keeps start now id events w.log h c

page_takes_first :
    (d : Dispatcher) (start now : ℕ) (x : ScheduleEvent) (rest : List ScheduleEvent) (r : RunResult)
    (w : World)
    → start ≤ now
    → claimed_since start (
        logged x.id
          (dispatch_page d now
            (x ∷ rest)
            r
            (record w { log = claim_rows now (x ∷ rest) w.log })).1.log)
      ≡ true
unfolding claim_rows
page_takes_first d start now x rest r w h =
    page_keeps d start now x.id (x ∷ rest) r _
    ∙ claim_rows_keeps start now x.id rest (claim_row now x.id w.log) h
        (claim_row_hit start now x.id w.log h)

untaken_back : (a b : Bool) → (a ≡ true → b ≡ true) → not b ≡ true → not a ≡ true
untaken_back true b k h = absurd (let bb = k refl in ground arith)
untaken_back false b k h = refl

-- A page that claims something leaves fewer events untaken.
page_drains :
    (d : Dispatcher) (start now : ℕ) (events : List ScheduleEvent) (r : RunResult) (w : World)
    → start ≤ now
    → now ≤ start + visibility_timeout
    → ((x : ScheduleEvent) → In x events → In x w.db.events × (claimable now w.log x ≡ true))
    → length events ≢ 0
    → count_rows
        (untaken start
          (dispatch_page d now events r (record w { log = claim_rows now events w.log })).1.log)
        w.db.events
      < count_rows (untaken start w.log) w.db.events
page_drains d start now [] r w h k own some_event = absurd (some_event refl)
page_drains d start now (x ∷ rest) r w h k own some_event =
    let (there, claim) = own x (inl refl) in
    count_rows_drop _ _
      (λ y open_after.
        untaken_back _ _ (λ c. page_log_keeps d start now y.id (x ∷ rest) r w h c) open_after)
      x w.db.events there (claimable-untaken start now w.log x k claim)
      (rw (page_takes_first d start now x rest r w h) refl)

module _ (d : Dispatcher) (after_start : (n : ℕ) → d.now 0 ≤ d.now n)
    (in_time : (n : ℕ) → d.now n ≤ d.now 0 + visibility_timeout) where
  abbrev page_start : ℕ → RunResult → World → RunResult
  page_start n r w = record r { claimed = r.claimed + length (candidates (d.now n) w) }

  -- The n-th page.
  abbrev one_page : ℕ → RunResult → World → RunResult × World
  one_page n r w =
      dispatch_page d (d.now n) (candidates (d.now n) w) (page_start n r w)
        (record w { log = claim_rows (d.now n) (candidates (d.now n) w) w.log })

  run_pages_finishes :
      (fuel n : ℕ) (r : RunResult) (w : World)
      → count_rows (untaken (d.now 0) w.log) w.db.events < fuel
      → (res : RunResult) × (w' : World) × (run_pages d fuel n r w ≡ some (res, w'))
  unfolding run_pages claim_notifiable_events
  run_pages_finishes zero n r w h = absurd (omega (arith, h))
  run_pages_finishes (suc fuel) n r w h =
      elim (Bool-cases (ltb (length (candidates (d.now n) w)) batch_size)) [
        | inl short ↦ ((one_page n r w).0, (one_page n r w).1, rw short refl)
        | inr full ↦
            let fewer =
              page_drains d (d.now 0) (d.now n) (candidates (d.now n) w) (page_start n r w) w
                (after_start n) (in_time n) (candidates-In (d.now n) w)
                (λ e. absurd (ground arith)) in
            let same : (one_page n r w).1.db ≡ w.db =
              page_db d (d.now n) (candidates (d.now n) w) (page_start n r w) _ in
            let less : count_rows (untaken (d.now 0) (one_page n r w).1.log)
                  (one_page n r w).1.db.events
                < fuel =
              subst
                (λ (db : Db).
                  count_rows (untaken (d.now 0) (one_page n r w).1.log) db.events < fuel)
                (sym same) (omega (arith, fewer, h)) in
            let (res, w', finished) =
              run_pages_finishes fuel (suc n) (one_page n r w).0 (one_page n r w).1 less in
            (res, w', rw full finished)
      ]

  -- A run over all outstanding notifications comes to an end after as many pages as there are events and one more,
  -- whatever the sender and the templates answer. The clock must not stand before the run's start, and the run has to stay
  -- within the visibility timeout.
  pub run_all_finishes :
      (w : World) → (res : RunResult) × (w' : World) × (run_all d w ≡ some (res, w'))
  unfolding run_all
  run_all_finishes w =
      run_pages_finishes (suc (length w.db.events)) 0 no_results w
        (omega (arith, count_rows-length (untaken (d.now 0) w.log) w.db.events))
