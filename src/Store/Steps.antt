-- ===== src/Store/Steps.antt =====
-- Statements of internal/store/store.go that keep the constraints and touch one schedule only,
-- and the ways to put them together.
pub mod EventRows
pub mod ScheduleRows
pub mod OccurrenceRows
pub mod Reads
pub mod CreateRows
use mathlib.Core.List.{append-nil}
use replenishment_system.Common.{◌≡◌, refl, sym, Bool, true, false, List, [], if◌then◌else◌}
use replenishment_system.Common.Text.{Text}
use replenishment_system.Domain.Types.{Error, Result, ok, err}
use replenishment_system.Store.Rows.{select}
use replenishment_system.Store.Db.{Db, Store, lift, continue_with, ◌>>=◌}
use replenishment_system.Store.Integrity.{
  WellFormed, other_schedule, other_occurrence, Frame, Frame-refl, Frame-trans,
}

-- `db'` is well-formed, and differs from `db` in what belongs to schedule `id`.
pub record Step (id : Text) (db db' : Db) : Type 0 where
  pub well_formed : WellFormed db'
  pub frame : Frame id db db'

pub Step-refl : (id : Text) (db : Db) → WellFormed db → Step id db db
Step-refl id db w = record { well_formed = w; frame = Frame-refl id db }

pub Step-trans : (id : Text) (a b c : Db) → Step id a b → Step id b c → Step id a c
Step-trans id a b c f g = record {
  well_formed = g.well_formed;
  frame = Frame-trans id a b c f.frame g.frame;
}

-- A change of the two tables only.
pub Step-rows :
    (id : Text) (db db' : Db)
    → WellFormed db'
    → select (other_schedule id) db'.schedules ≡ select (other_schedule id) db.schedules
    → select (other_occurrence id) db'.occurrences ≡ select (other_occurrence id) db.occurrences
    → db'.items ≡ db.items
    → db'.events ≡ db.events
    → Step id db db'
Step-rows id db db' w s o i e = record {
  well_formed = w;
  frame = record {
    schedules_kept = s;
    occurrences_kept = o;
    items_kept = i;
    logged = [];
    events_are = rw e (sym (append-nil db.events));
    logged_own = tt;
  };
}

-- A statement, or a sequence of them, that makes such a step, whether it fails or not.
pub record Does {A : Type 0} (id : Text) (m : Store A) : Type 0 where
  pub at : (db : Db) → WellFormed db → Step id db (m db).1

pub Does-same : {A : Type 0} (id : Text) (m : Store A) → ((db : Db) → (m db).1 ≡ db) → Does id m
Does-same id m same = record {
  at = λ db w. record { well_formed = rw (same db) w; frame = rw (same db) (Frame-refl id db) };
}

pub Step-if :
    {A : Type 0} (id : Text) (db : Db) (b : Bool) (x y : Result A × Db)
    → (b ≡ true → Step id db x.1)
    → (b ≡ false → Step id db y.1)
    → Step id db (if b then x else y).1
Step-if id db true x y h k = h refl
Step-if id db false x y h k = k refl

module _ {A B : Type 0} (id : Text) where
  continue-Step :
      (db : Db) (r : Result A × Db) (f : A → Store B)
      → Step id db r.1
      → ((a : A) → r.0 ≡ ok a → Step id r.1 (f a r.1).1)
      → Step id db (continue_with r f).1
  continue-Step db (ok a, db') f s k = Step-trans id db db' (f a db').1 s (k a refl)
  continue-Step db (err e, db') f s k = s

  -- After a first part the rest may use what the first part answered in this database.
  pub Step-bind :
      (m : Store A) (f : A → Store B) (db : Db)
      → Step id db (m db).1
      → ((a : A) → (m db).0 ≡ ok a → Step id (m db).1 (f a (m db).1).1)
      → Step id db ((m >>= f) db).1
  Step-bind m f db s k = continue-Step db (m db) f s k

  -- After a query the rest runs in the same database.
  pub Step-read :
      (m : Store A) (f : A → Store B) (db : Db)
      → WellFormed db
      → (m db).1 ≡ db
      → ((a : A) → (m db).0 ≡ ok a → Step id db (f a db).1)
      → Step id db ((m >>= f) db).1
  Step-read m f db w same k =
      Step-bind m f db (rw same (Step-refl id db w)) (λ a e. rw same (k a e))

  -- What follows a first part that keeps the constraints.
  pub Step-after :
      (m : Store A) (f : A → Store B) (db : Db)
      → Step id db (m db).1
      → ((a : A) → Does id (f a))
      → Step id db ((m >>= f) db).1
  Step-after m f db s d = Step-bind m f db s (λ a e. (d a).at (m db).1 s.well_formed)

  pub Does-bind :
      (m : Store A) (f : A → Store B) → Does id m → ((a : A) → Does id (f a)) → Does id (m >>= f)
  Does-bind m f dm df = record {
    at = λ db w.
        let s : Step id db (m db).1 = dm.at db w in
        Step-bind m f db s (λ a e. (df a).at (m db).1 s.well_formed);
  }

  pub Does-bind-lift :
      (r : Result A) (f : A → Store B)
      → ((a : A) → r ≡ ok a → Does id (f a))
      → Does id (lift r >>= f)
  Does-bind-lift (ok a) f d = d a refl
  Does-bind-lift (err e) f d = Does-same id (lift (err e)) (λ db. refl)

-- A sequence of statements in this database.
pub record DoesAt {A : Type 0} (id : Text) (db : Db) (m : Store A) : Type 0 where
  pub steps : Step id db (m db).1

module _ {A B : Type 0} (id : Text) where
  -- A query first: the rest runs in the same database and may use what the query answered.
  pub Does-read :
      (m : Store A) (f : A → Store B)
      → ((db : Db) → (m db).1 ≡ db)
      → ((db : Db) (a : A) → WellFormed db → (m db).0 ≡ ok a → DoesAt id db (f a))
      → Does id (m >>= f)
  Does-read m f same k = record {
    at = λ db w. Step-read id m f db w (same db) (λ a e. (k db a w e).steps);
  }

  pub DoesAt-after :
      (db : Db) (m : Store A) (f : A → Store B)
      → Step id db (m db).1
      → ((a : A) → Does id (f a))
      → DoesAt id db (m >>= f)
  DoesAt-after db m f s d = record { steps = Step-after id m f db s d }
