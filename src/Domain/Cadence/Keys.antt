-- ===== src/Domain/Cadence/Keys.antt =====
-- `IdempotencyKey` of internal/domain/cadence.go, read back from its end.
use mathlib.Core.List.{tail-eq_of_cons-eq, head-eq_of_cons-eq}
use replenishment_system.Common.{
  ℕ, zero, suc, ◌+◌, ◌-◌, ◌*◌, ◌/◌, ◌<◌, ◌≡◌, ◌≢◌, refl, sym, ap, ◌∙◌, arith, [], ◌∷◌, ◌++◌, ltb,
  Bool-cases, inl, inr,
}
use replenishment_system.Common.Lists.{All, All-append}
use replenishment_system.Common.Text.{Text}
use replenishment_system.Domain.Cadence.{decimal_digits, decimal, idempotency_key}

-- The value of a run of digits, read from the left.
read_decimal : ℕ → Text → ℕ
read_decimal acc [] = acc
read_decimal acc (c ∷ s) = read_decimal (acc * 10 + c - 48) s

read_decimal-append :
    (s t : Text) (acc : ℕ) → read_decimal acc (s ++ t) ≡ read_decimal (read_decimal acc s) t
unfolding read_decimal
read_decimal-append [] t acc = refl
read_decimal-append (c ∷ s) t acc = read_decimal-append s t (acc * 10 + c - 48)

read_decimal-decimal_digits : (fuel n : ℕ) → n < fuel → read_decimal 0 (decimal_digits fuel n) ≡ n
unfolding decimal_digits read_decimal
read_decimal-decimal_digits zero n h = absurd (omega arith)
read_decimal-decimal_digits (suc fuel) n h = elim (Bool-cases (ltb n 10)) [
  | inl small ↦ rw small (ground arith)
  | inr large ↦
      rw (large, read_decimal-append (decimal_digits fuel (n / 10)) _ 0)
        (ground (arith, read_decimal-decimal_digits fuel (n / 10)))
]

read_decimal-decimal : (n : ℕ) → read_decimal 0 (decimal n) ≡ n
unfolding decimal
read_decimal-decimal n = read_decimal-decimal_digits (n + 1) n (omega arith)

abbrev LacksColon : Text → Type 0
LacksColon = All (λ c. c ≢ 58)

decimal_digits-LacksColon : (fuel n : ℕ) → LacksColon (decimal_digits fuel n)
unfolding decimal_digits
decimal_digits-LacksColon zero n = tt
decimal_digits-LacksColon (suc fuel) n = elim (Bool-cases (ltb n 10)) [
  | inl small ↦ rw small (ground arith, tt)
  | inr large ↦ rw large (
      All-append (λ (c : ℕ). c ≢ 58) (decimal_digits fuel (n / 10)) _
        (decimal_digits-LacksColon fuel (n / 10)) (omega arith, tt))
]

decimal-LacksColon : (n : ℕ) → LacksColon (decimal n)
unfolding decimal
decimal-LacksColon n = decimal_digits-LacksColon (n + 1) n

no_colon_inside : (s t u : Text) → LacksColon u → u ≢ s ++ 58 ∷ t
no_colon_inside [] t [] h e = cc
no_colon_inside [] t (c ∷ u) h e = h.0 (head-eq_of_cons-eq e)
no_colon_inside (c ∷ s) t [] h e = cc
no_colon_inside (c ∷ s) t (d ∷ u) h e = no_colon_inside s t u h.1 (tail-eq_of_cons-eq e)

split_at_last_colon :
    (s s' t t' : Text)
    → LacksColon t
    → LacksColon t'
    → s ++ 58 ∷ t ≡ s' ++ 58 ∷ t'
    → (s ≡ s') × (t ≡ t')
split_at_last_colon [] [] t t' h k e = (refl, tail-eq_of_cons-eq e)
split_at_last_colon [] (c ∷ s') t t' h k e =
    absurd (no_colon_inside s' t' t h (tail-eq_of_cons-eq e))
split_at_last_colon (c ∷ s) [] t t' h k e =
    absurd (no_colon_inside s t t' k (sym (tail-eq_of_cons-eq e)))
split_at_last_colon (c ∷ s) (d ∷ s') t t' h k e =
    let rest = split_at_last_colon s s' t t' h k (tail-eq_of_cons-eq e) in
    (cc (rest.0, head-eq_of_cons-eq e), rest.1)

-- Two keys are equal only if the schedule and the sequence number are: no two occurrences of the
-- service share a key, whatever bytes the schedule identifiers hold.
pub idempotency_key_inj :
    (s t : Text) (m n : ℕ) → idempotency_key s m ≡ idempotency_key t n → (s ≡ t) × (m ≡ n)
unfolding idempotency_key
idempotency_key_inj s t m n e =
    let parts =
      split_at_last_colon s t (decimal m) (decimal n) (decimal-LacksColon m) (decimal-LacksColon n)
        e in
    (parts.0, sym (read_decimal-decimal m) ∙ ap (read_decimal 0) parts.1 ∙ read_decimal-decimal n)
