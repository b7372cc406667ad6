-- ===== src/Domain/DateText/Laws.antt =====
-- `Date.String` of internal/domain/cadence.go against `parseDate` of internal/httpapi/schedules.go.
use replenishment_system.Common.{
  ℕ, suc, ◌+◌, ◌-◌, ◌*◌, ◌/◌, ◌%◌, ◌≤◌, ◌<◌, ◌≡◌, refl, sym, ap, subst, ◌∙◌, arith, inl, inr, true,
  ◌&&◌, Option, none, some, [], ◌∷◌, ◌++◌, ltb, leb, ◌==◌, Bool-cases,
}
use replenishment_system.Common.Lists.{length}
use replenishment_system.Common.Text.{Text}
use replenishment_system.Calendar.{Date, date, is_leap, month_len, new_date, to_time}
use replenishment_system.Calendar.Days.{IsValid}
use replenishment_system.Calendar.Order.{of_utc_day-to_time}
use replenishment_system.Domain.Cadence.{decimal, decimal_digits}
use replenishment_system.Domain.DateText.{
  zeros, padded, date_string, is_digit, read_digits, read_dash, checked_date, ◌>>=◌, parse_date,
}

digits-one : (f n : ℕ) → n < 10 → decimal_digits (suc f) n ≡ (48 + n) ∷ []
unfolding decimal_digits
digits-one f n h = ground arith

digits-step :
    (f n : ℕ) → 10 ≤ n → decimal_digits (suc f) n ≡ decimal_digits f (n / 10) ++ (48 + n % 10) ∷ []
unfolding decimal_digits
digits-step f n h = ground arith

digits-two :
    (f n : ℕ)
    → 10 ≤ n
    → n < 100
    → decimal_digits (suc (suc f)) n ≡ (48 + n / 10) ∷ (48 + n % 10) ∷ []
digits-two f n l h = rw (digits-step (suc f) n l, digits-one f (n / 10) (omega arith)) refl

digits-three :
    (f n : ℕ)
    → 100 ≤ n
    → n < 1000
    → decimal_digits (suc (suc (suc f))) n
      ≡ (48 + n / 100) ∷ (48 + n / 10 % 10) ∷ (48 + n % 10) ∷ []
digits-three f n l h =
    let e : n / 10 / 10 ≡ n / 100 = omega arith in
    rw
      (
        digits-step (suc (suc f)) n (omega arith),
        digits-two f (n / 10) (omega arith) (omega arith),
        e,
      )
      refl

digits-four :
    (f n : ℕ)
    → 1000 ≤ n
    → n < 10000
    → decimal_digits (suc (suc (suc (suc f)))) n
      ≡ (48 + n / 1000) ∷ (48 + n / 100 % 10) ∷ (48 + n / 10 % 10) ∷ (48 + n % 10) ∷ []
digits-four f n l h =
    let e : n / 10 / 100 ≡ n / 1000 = omega arith in
    let g : n / 10 / 10 ≡ n / 100 = omega arith in
    rw
      (
        digits-step (suc (suc (suc f))) n (omega arith),
        digits-three f (n / 10) (omega arith) (omega arith),
        e,
        g,
      )
      refl

-- A run of digits with zeros in front of it.
padded-of : (w n : ℕ) (t : Text) → decimal n ≡ t → padded w n ≡ zeros (w - length t) ++ t
unfolding padded
padded-of w n t e = rw e refl

decimal-with_fuel : (fuel n : ℕ) → n + 1 ≡ fuel → decimal n ≡ decimal_digits fuel n
unfolding decimal
decimal-with_fuel fuel n e = rw e refl

decimal-one : (n : ℕ) → n < 10 → decimal n ≡ (48 + n) ∷ []
decimal-one n h = decimal-with_fuel (suc n) n (omega arith) ∙ digits-one n n h

decimal-two : (n : ℕ) → 10 ≤ n → n < 100 → decimal n ≡ (48 + n / 10) ∷ (48 + n % 10) ∷ []
decimal-two n l h = decimal-with_fuel (suc (suc (n - 1))) n (omega arith) ∙ digits-two (n - 1) n l h

decimal-three :
    (n : ℕ)
    → 100 ≤ n
    → n < 1000
    → decimal n ≡ (48 + n / 100) ∷ (48 + n / 10 % 10) ∷ (48 + n % 10) ∷ []
decimal-three n l h =
    decimal-with_fuel (suc (suc (suc (n - 2)))) n (omega arith) ∙ digits-three (n - 2) n l h

decimal-four :
    (n : ℕ)
    → 1000 ≤ n
    → n < 10000
    → decimal n ≡ (48 + n / 1000) ∷ (48 + n / 100 % 10) ∷ (48 + n / 10 % 10) ∷ (48 + n % 10) ∷ []
decimal-four n l h =
    decimal-with_fuel (suc (suc (suc (suc (n - 3))))) n (omega arith) ∙ digits-four (n - 3) n l h

abbrev pub two_digits : ℕ → Text
two_digits n = (48 + n / 10) ∷ (48 + n % 10) ∷ []

abbrev pub four_digits : ℕ → Text
four_digits n = (48 + n / 1000) ∷ (48 + n / 100 % 10) ∷ (48 + n / 10 % 10) ∷ (48 + n % 10) ∷ []

four_of :
    (a b c d x y z w : ℕ)
    → a ≡ x
    → b ≡ y
    → c ≡ z
    → d ≡ w
    → Path Text (a ∷ b ∷ c ∷ d ∷ []) (x ∷ y ∷ z ∷ w ∷ [])
four_of a b c d x y z w e f g h = rw (e, f, g, h) refl

pub padded-two : (n : ℕ) → n < 100 → padded 2 n ≡ two_digits n
padded-two n h = elim (Bool-cases (ltb n 10)) [
  | inl one ↦
      padded-of 2 n _ (decimal-one n (ground arith))
      ∙ unfold zeros in
        (let e : 48 ≡ 48 + n / 10 = ground arith in
          let g : 48 + n ≡ 48 + n % 10 = ground arith in rw (sym e, sym g) refl)
  | inr two ↦ padded-of 2 n _ (decimal-two n (ground arith) h) ∙ unfold zeros in refl
]

pub padded-four : (n : ℕ) → n < 10000 → padded 4 n ≡ four_digits n
padded-four n h = elim (Bool-cases (ltb n 10)) [
  | inl one ↦
      padded-of 4 n _ (decimal-one n (ground arith))
      ∙ unfold zeros in
        four_of _ _ _ _ _ _ _ _ (ground arith) (ground arith) (ground arith) (ground arith)
  | inr more ↦ elim (Bool-cases (ltb n 100)) [
    | inl two ↦
        padded-of 4 n _ (decimal-two n (ground arith) (ground arith))
        ∙ unfold zeros in
          four_of _ _ _ _ _ _ _ _ (ground arith) (ground arith) (ground arith) (ground arith)
    | inr many ↦ elim (Bool-cases (ltb n 1000)) [
      | inl three ↦
          padded-of 4 n _ (decimal-three n (ground arith) (ground arith))
          ∙ unfold zeros in
            four_of _ _ _ _ _ _ _ _ (ground arith) (ground arith) (ground arith) (ground arith)
      | inr four ↦ padded-of 4 n _ (decimal-four n (ground arith) h) ∙ unfold zeros in refl
    ]
  ]
]

read_digits-hit :
    (k acc c n : ℕ) (t : Text)
    → c < 10
    → acc * 10 + c ≡ n
    → read_digits (suc k) acc ((48 + c) ∷ t) ≡ read_digits k n t
unfolding read_digits
read_digits-hit k acc c n t h e = ground arith

read_digits-two : (n : ℕ) (t : Text) → n < 100 → read_digits 2 0 (two_digits n ++ t) ≡ some (n, t)
read_digits-two n t h =
    read_digits-hit 1 0 (n / 10) (n / 10) _ (omega arith) (omega arith)
    ∙ read_digits-hit 0 (n / 10) (n % 10) n t (omega arith) (omega arith)
    ∙ unfold read_digits in refl

read_digits-four :
    (n : ℕ) (t : Text) → n < 10000 → read_digits 4 0 (four_digits n ++ t) ≡ some (n, t)
read_digits-four n t h =
    read_digits-hit 3 0 (n / 1000) (n / 1000) _ (omega arith) (omega arith)
    ∙ read_digits-hit 2 (n / 1000) (n / 100 % 10) (n / 100) _ (omega arith) (omega arith)
    ∙ read_digits-hit 1 (n / 100) (n / 10 % 10) (n / 10) _ (omega arith) (omega arith)
    ∙ read_digits-hit 0 (n / 10) (n % 10) n t (omega arith) (omega arith)
    ∙ unfold read_digits in refl

-- A number that was read stands in the text, digit by digit.
read_digits-shown :
    (k acc n : ℕ) (t r : Text)
    → read_digits (suc k) acc t ≡ some (n, r)
    → (c : ℕ) × (u : Text) × (t ≡ (48 + c) ∷ u)
      × (c < 10)
      × (read_digits k (acc * 10 + c) u ≡ some (n, r))
unfolding read_digits
read_digits-shown k acc n [] r e = cc
read_digits-shown k acc n (c ∷ u) r e = elim (Bool-cases (is_digit c)) [
  | inl digit ↦
      let back : c ≡ 48 + (c - 48) = ground arith in
      (c - 48, u, ap (λ x. x ∷ u) back, ground arith, rw digit at e)
  | inr letter ↦ absurd (let f : none ≡ some (n, r) = rw letter at e in cc)
]

read_digits-end : (acc n : ℕ) (t r : Text) → read_digits 0 acc t ≡ some (n, r) → (acc ≡ n) × (t ≡ r)
unfolding read_digits
read_digits-end acc n t r e = (cc, cc)

pub read_digits-two_shown :
    (n : ℕ) (t r : Text) → read_digits 2 0 t ≡ some (n, r) → (n < 100) × (t ≡ two_digits n ++ r)
read_digits-two_shown n t r e =
    let (c, u, t_is, c_in, more) = read_digits-shown 1 0 n t r e in
    let (d, v, u_is, d_in, done) = read_digits-shown 0 (0 * 10 + c) n u r more in
    let (n_is, v_is) = read_digits-end _ n v r done in
    let tens : c ≡ n / 10 = omega arith in
    let units : d ≡ n % 10 = omega arith in (omega arith, t_is ∙ rw (u_is, v_is, tens, units) refl)

pub read_digits-four_shown :
    (n : ℕ) (t r : Text) → read_digits 4 0 t ≡ some (n, r) → (n < 10000) × (t ≡ four_digits n ++ r)
read_digits-four_shown n t r e =
    let (a, t1, t_is, a_in, more) = read_digits-shown 3 0 n t r e in
    let (b, t2, t1_is, b_in, more2) = read_digits-shown 2 (0 * 10 + a) n t1 r more in
    let (c, t3, t2_is, c_in, more3) = read_digits-shown 1 _ n t2 r more2 in
    let (d, t4, t3_is, d_in, done) = read_digits-shown 0 _ n t3 r more3 in
    let (n_is, t4_is) = read_digits-end _ n t4 r done in
    let e1 : a ≡ n / 1000 = omega arith in
    let e2 : b ≡ n / 100 % 10 = omega arith in
    let e3 : c ≡ n / 10 % 10 = omega arith in
    let e4 : d ≡ n % 10 = omega arith in
    (omega arith, t_is ∙ rw (t1_is, t2_is, t3_is, t4_is, e1, e2, e3, e4) refl)

read_dash-hit : (t : Text) → read_dash (45 ∷ t) ≡ some t
unfolding read_dash
read_dash-hit t = refl

read_dash_shown : (t r : Text) → read_dash t ≡ some r → t ≡ 45 ∷ r
unfolding read_dash
read_dash_shown [] r e = cc
read_dash_shown (c ∷ t) r e = elim (Bool-cases (c == 45)) [
  | inl dash ↦
      let c_is : c ≡ 45 = ground arith in
      let same : some t ≡ some r = rw dash at e in
      let rest : t ≡ r = cc same in rw (c_is, rest) refl
  | inr other ↦ absurd (let f : none ≡ some r = rw other at e in cc)
]

new_date-IsValid_lem : (d : Date) → IsValid d → new_date d.year d.month d.day ≡ d
unfolding new_date to_time
new_date-IsValid_lem d v = of_utc_day-to_time d v

checked_date-valid : (d : Date) → IsValid d → checked_date d.year d.month d.day [] ≡ some d
unfolding checked_date
checked_date-valid d v =
    let e = new_date-IsValid_lem d v in
    let (m1, m2) = v.month_in in
    let (d1, d2) = v.day_in in
    let ok : leb 1 d.month
          && leb d.month 12
          && (leb 1 d.day && leb d.day (month_len (is_leap d.year) d.month))
        ≡ true =
      ground arith in
    rw (ok, e) refl

day_small : (d : Date) → IsValid d → d.day < 100
day_small d v = unfold month_len in ground (arith, v.day_in)

continue_some :
    {A B : Type 0} (o : Option A) (f : A → Option B) (a : A) → o ≡ some a → (o >>= f) ≡ f a
continue_some o f a e = rw e refl

-- A date of the calendar up to the year 9999 is printed as a text that is read back as this date.
pub parse_date-date_string :
    (d : Date) → IsValid d → d.year < 10000 → parse_date (date_string d) ≡ some d
unfolding parse_date date_string
parse_date-date_string d v y =
    rw (padded-four d.year y, padded-two d.month m, padded-two d.day (day_small d v))
      (continue_some _ _ _ (read_digits-four d.year _ y)
        ∙ continue_some _ _ _ (read_dash-hit _)
        ∙ continue_some _ _ _ (read_digits-two d.month _ m)
        ∙ continue_some _ _ _ (read_dash-hit _)
        ∙ continue_some _ _ _ (read_digits-two d.day [] (day_small d v))
        ∙ checked_date-valid d v)
  where
    m : d.month < 100
    m = omega (arith, v.month_in)

checked_date-shown :
    (y m n : ℕ) (t : Text) (d : Date)
    → checked_date y m n t ≡ some d
    → (t ≡ []) × IsValid d × (d ≡ date y m n)
unfolding checked_date
checked_date-shown y m n (c ∷ t) d e = cc
checked_date-shown y m n [] d e =
    elim (Bool-cases (leb 1 m && leb m 12 && (leb 1 n && leb n (month_len (is_leap y) m)))) [
      | inl inside ↦
          let v : IsValid (date y m n) = record {
            month_in = (ground arith, ground arith);
            day_in = (ground arith, ground arith);
          } in
          let f : some (new_date y m n) ≡ some d = rw inside at e in
          (refl, subst IsValid (sym (is_date v f)) v, is_date v f)
      | inr outside ↦ absurd (let f : none ≡ some d = rw outside at e in cc)
    ]
  where
    is_date : IsValid (date y m n) → some (new_date y m n) ≡ some d → d ≡ date y m n
    is_date v f = let g : new_date y m n ≡ d = cc f in sym g ∙ new_date-IsValid_lem (date y m n) v

after_some :
    {A B : Type 0} (o : Option A) (f : A → Option B) (b : B)
    → (o >>= f) ≡ some b
    → (a : A) × (o ≡ some a) × (f a ≡ some b)
after_some none f b e = absurd cc
after_some (some a) f b e = (a, refl, e)

put_together :
    (y m n : ℕ)
    → y < 10000
    → m < 100
    → n < 100
    → (t p t1 q t2 r : Text) → t ≡ four_digits y ++ p
    → p ≡ 45 ∷ t1
    → t1 ≡ two_digits m ++ q
    → q ≡ 45 ∷ t2
    → t2 ≡ two_digits n ++ r
    → r ≡ []
    → t ≡ date_string (date y m n)
unfolding date_string
put_together y m n y_in m_in d_in t p t1 q t2 r e1 e2 e3 e4 e5 e6 =
    rw (e1, e2, e3, e4, e5, e6, padded-four y y_in, padded-two m m_in, padded-two n d_in) refl

-- A text that `parse_date` reads is the printed form of its result, which is a date of the calendar
-- and at most of the year 9999.
pub parse_date_shown :
    (t : Text) (d : Date)
    → parse_date t ≡ some d
    → IsValid d × (d.year < 10000) × (t ≡ date_string d)
unfolding parse_date date_string
parse_date_shown t d e =
    let (p, y_read, e1) = after_some (read_digits 4 0 t) _ d e in
    let (t1, dash1, e2) = after_some (read_dash p.1) _ d e1 in
    let (q, m_read, e3) = after_some (read_digits 2 0 t1) _ d e2 in
    let (t2, dash2, e4) = after_some (read_dash q.1) _ d e3 in
    let (r, d_read, e5) = after_some (read_digits 2 0 t2) _ d e4 in
    let (y_in, t_is) = read_digits-four_shown p.0 t p.1 y_read in
    let (m_in, t1_is) = read_digits-two_shown q.0 t1 q.1 m_read in
    let (d_in, t2_is) = read_digits-two_shown r.0 t2 r.1 d_read in
    let (end_is, valid, d_is) = checked_date-shown p.0 q.0 r.0 r.1 d e5 in
    let p_is = read_dash_shown p.1 t1 dash1 in
    let q_is = read_dash_shown q.1 t2 dash2 in
    let whole : t ≡ date_string (date p.0 q.0 r.0) =
      put_together p.0 q.0 r.0 y_in m_in d_in t p.1 t1 q.1 t2 r.1 t_is p_is t1_is q_is t2_is
        end_is in
    (valid, rw d_is y_in, rw d_is whole)
