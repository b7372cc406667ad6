-- ===== src/Store/Rows.antt =====
-- Tables as lists of rows: the SELECT, UPDATE, count and ORDER BY of the queries in
-- internal/store/store.go.
pub mod Laws
pub mod Unique
pub mod Sorted
use replenishment_system.Common.{
  ℕ, suc, ◌+◌, ◌≤◌, ◌≡◌, ◌⊎◌, inl, inr, refl, arith, Bool, true, false, ◌||◌, List, [], ◌∷◌, ◌++◌,
  Option, none, some, if◌then◌else◌,
}
use replenishment_system.Common.Lists.{All, length}

-- `x` is one of the rows.
abbrev pub In : {A : Type 0} → A → List A → Type 0
In x [] = ⊥
In x (y ∷ ys) = (x ≡ y) ⊎ In x ys

module _ {ℓ} {A : Type ℓ} where
  unfoldable pub select : (A → Bool) → List A → List A
  select p [] = []
  select p (x ∷ xs) = let rest = select p xs in if p x then x ∷ rest else rest

  unfoldable pub count_rows : (A → Bool) → List A → ℕ
  count_rows p [] = 0
  count_rows p (x ∷ xs) = let rest = count_rows p xs in if p x then suc rest else rest

  unfoldable pub update_rows : (A → Bool) → (A → A) → List A → List A
  update_rows p f [] = []
  update_rows p f (x ∷ xs) = (if p x then f x else x) ∷ update_rows p f xs

  unfoldable pub exists_row : (A → Bool) → List A → Bool
  exists_row p [] = false
  exists_row p (x ∷ xs) = p x || exists_row p xs

  unfoldable pub first_row : List A → Option A
  first_row [] = none
  first_row (x ∷ xs) = some x

  -- ORDER BY: rows that compare equal keep their order.
  unfoldable pub place_row : (A → A → Bool) → A → List A → List A
  place_row less x [] = x ∷ []
  place_row less x (y ∷ ys) =
      let rest = place_row less x ys in if less y x then y ∷ rest else x ∷ y ∷ ys

  unfoldable pub order_by : (A → A → Bool) → List A → List A
  order_by less [] = []
  order_by less (x ∷ xs) = place_row less x (order_by less xs)
