-- ===== src/Sweep/Passes.antt =====
-- The counts and the steps of a pass of internal/sweep/sweep.go, whatever it attempts.
use replenishment_system.Common.{suc, ◌+◌, ◌≡◌, refl, arith, Option, List, [], ◌∷◌}
use replenishment_system.Common.Lists.{All, length}
use replenishment_system.Domain.Types.{Schedule, Error}
use replenishment_system.Store.Db.{Db}
use replenishment_system.Sweep.{PassResult, Attempt, done, not_due, moved, failed, tally, pass}

tally-considered :
    (a : Attempt) (sum : PassResult × Option Error)
    → (tally a sum).0.considered ≡ suc sum.0.considered
unfolding tally
tally-considered done sum = refl
tally-considered not_due sum = refl
tally-considered moved sum = refl
tally-considered (failed x) sum = refl

module _ (attempt : Schedule → Db → Attempt × Db) where
  pub pass-considered :
      (rest : List Schedule) (sum : PassResult × Option Error) (db : Db)
      → (pass attempt rest sum db).0.0.considered ≡ sum.0.considered + length rest
  unfolding pass
  pass-considered [] sum db = omega arith
  pass-considered (s ∷ rest) sum db = omega (
    arith,
    pass-considered rest (tally (attempt s db).0 sum) (attempt s db).1,
    tally-considered (attempt s db).0 sum,
  )

  -- What every attempt on a candidate keeps, the pass keeps.
  pub pass-keeps :
      (P : Db → Type 0) (rest : List Schedule) (sum : PassResult × Option Error) (db : Db)
      → All (λ (s : Schedule). (d : Db) → P d → P (attempt s d).1) rest
      → P db
      → P (pass attempt rest sum db).1
  unfolding pass
  pass-keeps P [] sum db k p = p
  pass-keeps P (s ∷ rest) sum db k p =
      pass-keeps P rest (tally (attempt s db).0 sum) (attempt s db).1 k.1 (k.0 db p)
