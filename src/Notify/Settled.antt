-- ===== src/Notify/Settled.antt =====
-- Rows of notification_log that are resolved (internal/notify/notify.go, internal/store/store.go).
use replenishment_system.Common.{
  ℕ, zero, suc, ◌+◌, ◌≡◌, refl, ap, subst, ◌∙◌, inl, inr, arith, true, false, some, List, [], ◌∷◌,
  ◌==◌, ltb, Bool-cases, and_right,
}
use replenishment_system.Common.Lists.{All, length}
use replenishment_system.Domain.Types.{ScheduleEvent}
use replenishment_system.Store.Rows.Laws.{In-All, All-In, In-order_by, In-select}
use replenishment_system.Notify.{
  Notification, World, Dispatcher, batch_size, logged, status_is_pending, outstanding, notifiable,
  claimable, take_rows, claim_row, claim_rows, candidates, claim_notifiable_events, update_log,
  dispatch_one, count_outcome, RunResult, dispatch_page, run_pages, run_all, no_results,
}
use replenishment_system.Notify.Dispatched.{Marks, dispatch_one-Dispatched}

-- Another event than `id`.
abbrev pub Apart : ℕ → ScheduleEvent → Type 0
Apart id e = (e.id == id) ≡ false

pub logged-update_log_apart :
    (id k : ℕ) (f : Notification → Notification) (log : List Notification)
    → Marks f
    → (k == id) ≡ false
    → logged id (update_log k f log) ≡ logged id log
unfolding logged update_log
logged-update_log_apart id k f [] m h = refl
logged-update_log_apart id k f (n ∷ rest) m h =
    ground (arith, m.event_kept n, logged-update_log_apart id k f rest m h)

pub logged-claim_row_apart :
    (now id k : ℕ) (log : List Notification)
    → (k == id) ≡ false
    → logged id (claim_row now k log) ≡ logged id log
unfolding logged claim_row
logged-claim_row_apart now id k [] h = rw h refl
logged-claim_row_apart now id k (n ∷ rest) h =
    ground (arith, logged-claim_row_apart now id k rest h)

logged-claim_rows-Apart :
    (now id : ℕ) (events : List ScheduleEvent) (log : List Notification)
    → All (Apart id) events
    → logged id (claim_rows now events log) ≡ logged id log
unfolding claim_rows
logged-claim_rows-Apart now id [] log h = refl
logged-claim_rows-Apart now id (e ∷ rest) log h =
    logged-claim_rows-Apart now id rest (claim_row now e.id log) h.1
    ∙ logged-claim_row_apart now id e.id log h.0

dispatch_page-Apart :
    (d : Dispatcher) (now id : ℕ) (events : List ScheduleEvent) (r : RunResult) (w : World)
    → All (Apart id) events
    → logged id (dispatch_page d now events r w).1.log ≡ logged id w.log
unfolding dispatch_page
dispatch_page-Apart d now id [] r w h = refl
dispatch_page-Apart d now id (e ∷ rest) r w h =
    let one = dispatch_one d now e w in
    let s = dispatch_one-Dispatched d now e w in
    dispatch_page-Apart d now id rest (count_outcome one.0 r) one.1 h.1
    ∙ ap (logged id) s.log_is
    ∙ logged-update_log_apart id e.id s.change w.log s.marks h.0

All-take_rows :
    {A : Type 0} (P : A → Type 0) (n : ℕ) (xs : List A) → All P xs → All P (take_rows n xs)
unfolding take_rows
All-take_rows P zero xs h = tt
All-take_rows P (suc n) [] h = tt
All-take_rows P (suc n) (x ∷ xs) h = (h.0, All-take_rows P n xs h.1)

-- Every event that is claimed was claimable.
pub candidates-All :
    (now : ℕ) (w : World) → All (λ e. claimable now w.log e ≡ true) (candidates now w)
unfolding candidates
candidates-All now w =
    All-take_rows _ batch_size _
      (In-All _ _ λ e i. (In-select _ e w.db.events (In-order_by _ e _ i)).1)

settled-Apart :
    (now id : ℕ) (log : List Notification) (row : Notification) (e : ScheduleEvent)
    → logged id log ≡ some row
    → status_is_pending row.status ≡ false
    → outstanding now (logged e.id log) ≡ true
    → Apart id e
settled-Apart now id log row e found settled due = elim (Bool-cases (e.id == id)) [
  | inl same ↦
      let same_id : e.id ≡ id = ground arith in
      let found_e : logged e.id log ≡ some row = rw same_id found in
      let o : outstanding now (some row) ≡ true =
        subst (λ x. outstanding now x ≡ true) found_e due in
      absurd (let bad : false ≡ true = rw settled at o in cc)
  | inr apart ↦ apart
]

page_settled :
    (d : Dispatcher) (now id : ℕ) (row : Notification) (r : RunResult) (w : World)
    → logged id w.log ≡ some row
    → status_is_pending row.status ≡ false
    → logged id
        (dispatch_page d now
          (claim_notifiable_events now w).0
          r
          (claim_notifiable_events now w).1).1.log
      ≡ some row
unfolding claim_notifiable_events
page_settled d now id row r w found settled =
    dispatch_page-Apart d now id (candidates now w) r _ apart
    ∙ logged-claim_rows-Apart now id (candidates now w) w.log apart
    ∙ found
  where
    apart : All (Apart id) (candidates now w)
    apart = In-All (Apart id) (candidates now w) λ e i.
        settled-Apart now id w.log row e found settled (
          and_right (notifiable e.event_type) (outstanding now (logged e.id w.log)) (
            All-In (λ (x : ScheduleEvent). claimable now w.log x ≡ true) e (candidates now w)
              (candidates-All now w) i))

run_pages-settled :
    (d : Dispatcher) (id : ℕ) (row : Notification) (fuel n : ℕ) (r : RunResult) (w : World)
    (res : RunResult) (w' : World)
    → logged id w.log ≡ some row
    → status_is_pending row.status ≡ false
    → run_pages d fuel n r w ≡ some (res, w')
    → logged id w'.log ≡ some row
unfolding run_pages
run_pages-settled d id row zero n r w res w' found settled e = absurd cc
run_pages-settled d id row (suc fuel) n r w res w' found settled e =
    let (events, w1) = claim_notifiable_events (d.now n) w in
    let start : RunResult = record r { claimed = r.claimed + length events } in
    let page = dispatch_page d (d.now n) events start w1 in
    let kept = page_settled d (d.now n) id row start w found settled in
    elim (Bool-cases (ltb (length events) batch_size)) [
      | inl short ↦
          let last : some page ≡ some (res, w') = rw short at e in
          let same : page ≡ (res, w') = cc last in
          subst (λ (x : RunResult × World). logged id x.1.log ≡ some row) same kept
      | inr full ↦
          run_pages-settled d id row fuel (suc n) page.0 page.1 res w' kept settled (rw full at e)
    ]

-- A notification that the log says is sent, or given up on, is never taken up again: the row of its
-- event is the same after a run over all outstanding ones as before.
pub run_all_settled :
    (d : Dispatcher) (id : ℕ) (row : Notification) (w : World) (res : RunResult) (w' : World)
    → logged id w.log ≡ some row
    → status_is_pending row.status ≡ false
    → run_all d w ≡ some (res, w')
    → logged id w'.log ≡ some row
unfolding run_all
run_all_settled d id row w res w' found settled e =
    run_pages-settled d id row _ 0 no_results w res w' found settled e
