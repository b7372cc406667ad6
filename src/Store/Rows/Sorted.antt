-- ===== src/Store/Rows/Sorted.antt =====
-- ORDER BY of the queries in internal/store/store.go answers with the same rows.
use mathlib.Core.List.{Perm}
use mathlib.Core.List.Perm
use replenishment_system.Common.{
  ◌≡◌, refl, arith, Bool, true, false, List, [], ◌∷◌, ◌++◌, Bool-cases, inl, inr,
}
use replenishment_system.Common.Lists.{All}
use replenishment_system.Store.Rows.{select, place_row, order_by}

module _ {A : Type 0} (less : A → A → Bool) where
  place_row-Perm : (x : A) (ys : List A) → Perm (place_row less x ys) (x ∷ ys)
  unfolding place_row
  place_row-Perm x [] = Perm.refl (x ∷ [])
  place_row-Perm x (y ∷ ys) = elim (Bool-cases (less y x)) [
    | inl later ↦ rw later (Perm.trans (Perm.cons y (place_row-Perm x ys)) (Perm.swap x y ys))
    | inr sooner ↦ rw sooner (Perm.refl (x ∷ y ∷ ys))
  ]

  pub order_by-Perm : (xs : List A) → Perm (order_by less xs) xs
  unfolding order_by
  order_by-Perm [] = Perm.refl []
  order_by-Perm (x ∷ xs) =
      Perm.trans (place_row-Perm x (order_by less xs)) (Perm.cons x (order_by-Perm xs))

module _ {A : Type 0} (p : A → Bool) where
  -- A query sees of an extended table only what has come, where it saw nothing before.
  pub select-append_new :
      (xs ys : List A)
      → All (λ x. p x ≡ false) xs
      → All (λ y. p y ≡ true) ys
      → select p (xs ++ ys) ≡ ys
  unfolding select
  select-append_new [] [] h k = refl
  select-append_new [] (y ∷ ys) h k = ground (arith, k.0, select-append_new [] ys tt k.1)
  select-append_new (x ∷ xs) ys h k = ground (arith, h.0, select-append_new xs ys h.1 k)
