-- ===== src/Domain/DateText.antt =====
-- `Date.String` of internal/domain/cadence.go and `parseDate` of internal/httpapi/schedules.go,
-- with what `time.Parse("2006-01-02")` accepts: digits and dashes in the ten places, and a month and
-- a day of the calendar.
pub mod Laws
use replenishment_system.Common.{
  ℕ, zero, suc, ◌+◌, ◌-◌, ◌*◌, Bool, true, false, ◌&&◌, Option, none, some, List, [], ◌∷◌, ◌++◌,
  leb, ltb, ◌==◌, if◌then◌else◌,
}
use replenishment_system.Common.Lists.{length}
use replenishment_system.Common.Text.{Text}
use replenishment_system.Calendar.{Date, is_leap, month_len, new_date}
use replenishment_system.Domain.Cadence.{decimal}

unfoldable pub zeros : ℕ → Text
zeros zero = []
zeros (suc n) = 48 ∷ zeros n

-- `%0wd`
unfoldable pub padded : ℕ → ℕ → Text
padded w n = zeros (w - length (decimal n)) ++ decimal n

-- %04d-%02d-%02d
unfoldable pub date_string : Date → Text
date_string d = padded 4 d.year ++ 45 ∷ padded 2 d.month ++ 45 ∷ padded 2 d.day

abbrev pub is_digit : ℕ → Bool
is_digit c = leb 48 c && leb c 57

-- A number of `k` digits, with `n` before them, and the rest of the text.
unfoldable pub read_digits : ℕ → ℕ → Text → Option (ℕ × Text)
read_digits zero n t = some (n, t)
read_digits (suc k) n [] = none
read_digits (suc k) n (c ∷ t) =
    let more = read_digits k (n * 10 + (c - 48)) t in if is_digit c then more else none

unfoldable pub read_dash : Text → Option Text
read_dash [] = none
read_dash (c ∷ t) = if c == 45 then some t else none

-- Package time refuses a month and a day out of range, and text after the day.
unfoldable pub checked_date : ℕ → ℕ → ℕ → Text → Option Date
checked_date y m d [] =
    if leb 1 m && leb m 12 && (leb 1 d && leb d (month_len (is_leap y) m))
    then some (new_date y m d)
    else none
checked_date y m d (c ∷ t) = none

infixl 5 ◌>>=◌
abbrev pub ◌>>=◌ : {A B : Type 0} → Option A → (A → Option B) → Option B
none >>= f = none
some a >>= f = f a

unfoldable pub parse_date : Text → Option Date
parse_date t = do
  (y, after_year) ← read_digits 4 0 t
  month_text ← read_dash after_year
  (m, after_month) ← read_digits 2 0 month_text
  day_text ← read_dash after_month
  (d, rest) ← read_digits 2 0 day_text
  checked_date y m d rest
