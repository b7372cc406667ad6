-- ===== src/Store/Db.antt =====
-- The database and the statements that run against it. A statement returns its result and the
-- database that it leaves, also when it fails. `clock` is the server's now().
use replenishment_system.Common.{ℕ, ◌≡◌, refl, List}
use replenishment_system.Domain.Types.{
  Schedule, ScheduleItem, Occurrence, ScheduleEvent, Error, Result, ok, err,
}

pub record Db : Type 0 where
  pub schedules : List Schedule
  pub items : List ScheduleItem
  pub occurrences : List Occurrence
  pub events : List ScheduleEvent
  pub next_event_id : ℕ
  pub clock : ℕ

abbrev pub Store {ℓ} : Type ℓ → Type ℓ
Store A = Db → Result A × Db

-- A repository speaks to the pool, or to one transaction (`r.db == nil`).
pub data Conn : Type 0 where
  pool in_transaction : Conn

abbrev pub pure {ℓ} : {A : Type ℓ} → A → Store A
pure a db = (ok a, db)

abbrev pub raise {ℓ} : {A : Type ℓ} → Error → Store A
raise e db = (err e, db)

abbrev pub lift {ℓ} : {A : Type ℓ} → Result A → Store A
lift r db = (r, db)

abbrev pub gets {ℓ} : {A : Type ℓ} → (Db → A) → Store A
gets f db = (ok (f db), db)

abbrev pub continue_with {ℓ κ} :
    {A : Type ℓ} {B : Type κ} → Result A × Db → (A → Db → Result B × Db) → Result B × Db
continue_with (ok a, db) f = f a db
continue_with (err e, db) f = (err e, db)

infixl 5 ◌>>=◌ ◌>>◌
abbrev pub ◌>>=◌ : {A B : Type 0} → Store A → (A → Store B) → Store B
◌>>=◌ m f db = continue_with (m db) f

abbrev pub ◌>>◌ : {A B : Type 0} → Store A → Store B → Store B
m >> k = m >>= λ _. k

-- What a rolled-back transaction leaves.
abbrev pub commit_or_rollback {ℓ} : {A : Type ℓ} → Db → Result A × Db → Result A × Db
commit_or_rollback before (ok a, after) = (ok a, after)
commit_or_rollback before (err e, after) = (err e, before)

-- `InTx`: inside a transaction the function runs in that one.
unfoldable pub in_tx {ℓ} : {A : Type ℓ} → Conn → (Conn → Store A) → Store A
in_tx pool fn db = commit_or_rollback db (fn in_transaction db)
in_tx in_transaction fn db = fn in_transaction db

-- What a sequence of statements that succeeds has answered on the way.
bind-eq-ok :
    {A B : Type 0} (r : Result A × Db) (f : A → Store B) (b : B)
    → (continue_with r f).0 ≡ ok b
    → (a : A) × (r.0 ≡ ok a) × ((f a r.1).0 ≡ ok b)
bind-eq-ok (ok a, db) f b e = (a, refl, e)
bind-eq-ok (err x, db) f b e = cc

pub >>=-eq-ok :
    {A B : Type 0} (m : Store A) (f : A → Store B) (db : Db) (b : B)
    → ((m >>= f) db).0 ≡ ok b
    → (a : A) × ((m db).0 ≡ ok a) × ((f a (m db).1).0 ≡ ok b)
>>=-eq-ok m f db b e = bind-eq-ok (m db) f b e

bind-runs :
    {A B : Type 0} (r : Result A × Db) (f : A → Store B) (b : B)
    → (continue_with r f).0 ≡ ok b
    → (a : A) × (r.0 ≡ ok a) × (continue_with r f ≡ f a r.1)
bind-runs (ok a, db) f b e = (a, refl, refl)
bind-runs (err x, db) f b e = cc

-- A sequence that succeeds goes on where its first part has come to.
pub >>=-runs :
    {A B : Type 0} (m : Store A) (f : A → Store B) (db : Db) (b : B)
    → ((m >>= f) db).0 ≡ ok b
    → (a : A) × ((m db).0 ≡ ok a) × ((m >>= f) db ≡ f a (m db).1)
>>=-runs m f db b e = bind-runs (m db) f b e
