-- ===== src/Store/Rows/Unique.antt =====
-- Tables of internal/store/store.go whose rows are apart from each other, as a primary key or a unique
-- constraint wants.
use replenishment_system.Common.{inl, inr, Bool, List, [], ◌∷◌, ◌++◌, Bool-cases}
use replenishment_system.Common.Lists.{All}
use replenishment_system.Store.Rows.{update_rows}
use replenishment_system.Store.Rows.Laws.{All-append_row}

module _ {A : Type 0} (R : A → A → Type 0) where
  -- Each row and each later one are in the relation.
  abbrev pub Unique : List A → Type 0
  Unique [] = Unit {0}
  Unique (x ∷ xs) = All (R x) xs × Unique xs

  pub Unique-append_row :
      (xs : List A) (y : A) → Unique xs → All (λ x. R x y) xs → Unique (xs ++ y ∷ [])
  Unique-append_row [] y u h = (tt, tt)
  Unique-append_row (x ∷ xs) y u h =
      (All-append_row (R x) xs y u.0 h.0, Unique-append_row xs y u.1 h.1)

  module _ (p : A → Bool) (f : A → A) (keeps_left : (x y : A) → R x y → R (f x) y)
      (keeps_right : (x y : A) → R x y → R x (f y)) where
    All-updated : (x : A) (ys : List A) → All (R x) ys → All (R x) (update_rows p f ys)
    unfolding update_rows
    All-updated x [] h = tt
    All-updated x (z ∷ zs) h = elim (Bool-cases (p z)) [
      | inl hit ↦ rw hit (keeps_right x z h.0, All-updated x zs h.1)
      | inr miss ↦ rw miss (h.0, All-updated x zs h.1)
    ]

    All-left : (x : A) (ys : List A) → All (R x) ys → All (R (f x)) ys
    All-left x [] h = tt
    All-left x (y ∷ ys) h = (keeps_left x y h.0, All-left x ys h.1)

    -- A change that keeps what sets the rows apart keeps them apart.
    pub Unique-update_rows : (xs : List A) → Unique xs → Unique (update_rows p f xs)
    unfolding update_rows
    Unique-update_rows [] u = tt
    Unique-update_rows (x ∷ xs) u = elim (Bool-cases (p x)) [
      | inl hit ↦ rw hit (All-left x _ (All-updated x xs u.0), Unique-update_rows xs u.1)
      | inr miss ↦ rw miss (All-updated x xs u.0, Unique-update_rows xs u.1)
    ]
