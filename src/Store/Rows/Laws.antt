-- ===== src/Store/Rows/Laws.antt =====
-- Laws of the table operations behind internal/store/store.go.
use replenishment_system.Common.{
  ◌+◌, ◌≡◌, ◌⊎◌, inl, inr, refl, arith, Bool, true, false, List, [], ◌∷◌, ◌++◌, some, if◌then◌else◌,
  Bool-cases,
}
use replenishment_system.Common.Lists.{All}
use replenishment_system.Store.Rows.{
  In, select, count_rows, update_rows, exists_row, first_row, place_row, order_by,
}

module _ {A : Type 0} where
  -- A change to rows of one kind is not seen by a query for rows of the other kinds.
  pub select-update_rows_apart :
      (q p : A → Bool) (f : A → A) (xs : List A)
      → All (λ x. p x ≡ true → (q x ≡ false) × (q (f x) ≡ false)) xs
      → select q (update_rows p f xs) ≡ select q xs
  unfolding select update_rows
  select-update_rows_apart q p f [] h = refl
  select-update_rows_apart q p f (x ∷ xs) h = ground (arith, select-update_rows_apart q p f xs h.1)

  pub select-append_apart :
      (q : A → Bool) (xs : List A) (y : A) → q y ≡ false → select q (xs ++ y ∷ []) ≡ select q xs
  unfolding select
  select-append_apart q [] y h = rw h
  select-append_apart q (x ∷ xs) y h = ground (arith, select-append_apart q xs y h)

  pub count_rows-append :
      (p : A → Bool) (xs : List A) (y : A)
      → count_rows p (xs ++ y ∷ []) ≡ count_rows p xs + (if p y then 1 else 0)
  unfolding count_rows
  count_rows-append p [] y = ground arith
  count_rows-append p (x ∷ xs) y = ground (arith, count_rows-append p xs y)

  pub exists_row-false :
      (p : A → Bool) (xs : List A) → exists_row p xs ≡ false → All (λ x. p x ≡ false) xs
  unfolding exists_row
  exists_row-false p [] h = tt
  exists_row-false p (x ∷ xs) h = (ground arith, exists_row-false p xs (ground arith))

  pub exists_row-none :
      (p : A → Bool) (xs : List A) → All (λ x. p x ≡ false) xs → exists_row p xs ≡ false
  unfolding exists_row
  exists_row-none p [] h = refl
  exists_row-none p (x ∷ xs) h = ground (arith, exists_row-none p xs h.1)

  pub exists_row-update_rows :
      (q p : A → Bool) (f : A → A) (xs : List A)
      → ((x : A) → q (f x) ≡ q x)
      → exists_row q xs ≡ true
      → exists_row q (update_rows p f xs) ≡ true
  unfolding exists_row update_rows
  exists_row-update_rows q p f [] same h = h
  exists_row-update_rows q p f (x ∷ xs) same h =
      ground (arith, same x, exists_row-update_rows q p f xs same)

  pub exists_row-append :
      (q : A → Bool) (xs : List A) (y : A)
      → exists_row q xs ≡ true
      → exists_row q (xs ++ y ∷ []) ≡ true
  unfolding exists_row
  exists_row-append q [] y h = cc
  exists_row-append q (x ∷ xs) y h = ground (arith, exists_row-append q xs y)

module _ {A : Type 0} (P : A → Type 0) where
  pub All-In : (x : A) (xs : List A) → All P xs → In x xs → P x
  All-In x [] h i = absurd i
  All-In x (y ∷ ys) h (inl e) = subst' e h.0
    where
      subst' : x ≡ y → P y → P x
      subst' e t = rw e t
  All-In x (y ∷ ys) h (inr i) = All-In x ys h.1 i

  pub In-All : (xs : List A) → ((x : A) → In x xs → P x) → All P xs
  In-All [] h = tt
  In-All (x ∷ xs) h = (h x (inl refl), In-All xs (λ y i. h y (inr i)))

  pub All-update_rows :
      (p : A → Bool) (f : A → A) (xs : List A)
      → All P xs
      → All (λ x. p x ≡ true → P x → P (f x)) xs
      → All P (update_rows p f xs)
  unfolding update_rows
  All-update_rows p f [] h k = tt
  All-update_rows p f (x ∷ xs) h k = elim (Bool-cases (p x)) [
    | inl hit ↦ rw hit (k.0 hit h.0, All-update_rows p f xs h.1 k.1)
    | inr miss ↦ rw miss (h.0, All-update_rows p f xs h.1 k.1)
  ]

  pub All-append_row : (xs : List A) (y : A) → All P xs → P y → All P (xs ++ y ∷ [])
  All-append_row [] y h k = (k, tt)
  All-append_row (x ∷ xs) y h k = (h.0, All-append_row xs y h.1 k)

module _ {A : Type 0} where
  In-place_row :
      (less : A → A → Bool) (x y : A) (ys : List A) → In x (place_row less y ys) → (x ≡ y) ⊎ In x ys
  unfolding place_row
  In-place_row less x y [] i = i
  In-place_row less x y (z ∷ zs) i = ground (arith, In-place_row less x y zs)

  pub In-order_by : (less : A → A → Bool) (x : A) (xs : List A) → In x (order_by less xs) → In x xs
  unfolding order_by
  In-order_by less x [] i = i
  In-order_by less x (y ∷ ys) i =
      ground (arith, In-place_row less x y (order_by less ys) i, In-order_by less x ys)

  pub In-select : (p : A → Bool) (x : A) (xs : List A) → In x (select p xs) → In x xs × (p x ≡ true)
  unfolding select
  In-select p x [] i = absurd i
  In-select p x (y ∷ ys) i = ground (arith, In-select p x ys)

  first_row-In : (x : A) (xs : List A) → first_row xs ≡ some x → In x xs
  unfolding first_row
  first_row-In x [] e = cc
  first_row-In x (y ∷ ys) e = inl (ground arith)

  -- What ORDER BY … LIMIT 1 answers with is a row of the table that passes the test.
  pub first_row-order_by :
      (less : A → A → Bool) (p : A → Bool) (x : A) (xs : List A)
      → first_row (order_by less (select p xs)) ≡ some x
      → In x xs × (p x ≡ true)
  first_row-order_by less p x xs e =
      In-select p x xs (In-order_by less x (select p xs) (first_row-In x _ e))

  pub first_row-select :
      (p : A → Bool) (x : A) (xs : List A)
      → first_row (select p xs) ≡ some x
      → In x xs × (p x ≡ true)
  first_row-select p x xs e = In-select p x xs (first_row-In x _ e)

-- What holds of each row by one property holds by a property that follows from it.
pub All-map :
    {A : Type 0} (P Q : A → Type 0) (xs : List A) → ((x : A) → P x → Q x) → All P xs → All Q xs
All-map P Q [] k h = tt
All-map P Q (x ∷ xs) k h = (k x h.0, All-map P Q xs k h.1)
