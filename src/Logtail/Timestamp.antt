-- ===== src/Logtail/Timestamp.antt =====
-- `ParseLineTimestamp` of internal/logtail/logtail_poll.go, with what time.ParseInLocation does for
-- its layout. A fraction is accepted whether or not the layout has one, so the two layouts that the
-- source tries accept the same texts, and one attempt stands for both.
pub mod Print
pub mod Head
pub mod Bounds
use vpub_exporter.Prelude.{
  ℕ, zero, suc, ◌+◌, ◌-◌, ◌*◌, ◌^◌, Bool, ◌&&◌, ◌||◌, Option, none, some, [], ◌∷◌, leb, ltb, ◌==◌,
  if◌then◌else◌, length, take,
}
use vpub_exporter.Text.{Bytes, index_byte}
use vpub_exporter.Clock.{Time, date, days_in}

infixl 5 ◌>>=◌ ◌>>◌
abbrev pub ◌>>=◌ {ℓ κ} : {A : Type ℓ} {B : Type κ} → Option A → (A → Option B) → Option B
none >>= f = none
some a >>= f = f a

abbrev pub ◌>>◌ {ℓ} : {B : Type ℓ} → Option (Unit {0}) → Option B → Option B
m >> k = m >>= λ _. k

abbrev pub guard : Bool → Option (Unit {0})
guard Bool.true = some tt
guard Bool.false = none

abbrev pub is_digit : ℕ → Bool
is_digit c = leb b'0' c && leb c b'9'

abbrev digit : ℕ → ℕ
digit c = c - b'0'

-- getnum(s, true)
two_digits : Bytes → Option (ℕ × Bytes)
two_digits (a ∷ b ∷ s) = if is_digit a && is_digit b then some (digit a * 10 + digit b, s) else none
two_digits _ = none

-- getnum(s, false)
one_or_two_digits : Bytes → Option (ℕ × Bytes)
one_or_two_digits [] = none
one_or_two_digits (a ∷ []) = if is_digit a then some (digit a, []) else none
one_or_two_digits (a ∷ b ∷ s) =
    if is_digit a
    then (if is_digit b then some (digit a * 10 + digit b, s) else some (digit a, b ∷ s))
    else none

four_digits : Bytes → Option (ℕ × Bytes)
four_digits (a ∷ b ∷ c ∷ d ∷ s) =
    if is_digit a && is_digit b && is_digit c && is_digit d
    then some (digit a * 1000 + digit b * 100 + digit c * 10 + digit d, s)
    else none
four_digits _ = none

expect : ℕ → Bytes → Option Bytes
expect c [] = none
expect c (a ∷ s) = if a == c then some s else none

-- The digits in front of a text: at most nine of them, in units of 10 ^ -9 when `left` is 9.
nanoseconds : ℕ → ℕ → Bytes → ℕ × Bytes
nanoseconds left n [] = (n * 10 ^ left, [])
nanoseconds zero n (c ∷ s) = if is_digit c then nanoseconds zero n s else (n, c ∷ s)
nanoseconds (suc left) n (c ∷ s) =
    let more = nanoseconds left (n * 10 + digit c) s in
    if is_digit c then more else (n * 10 ^ suc left, c ∷ s)

-- The fraction of a second, if a point or a comma and a digit stand in front.
fraction : Bytes → ℕ × Bytes
unfolding nanoseconds
fraction (p ∷ c ∷ s) =
    if (p == b'.' || p == b',') && is_digit c then nanoseconds 9 0 (c ∷ s) else (0, p ∷ c ∷ s)
fraction s = (0, s)

at_end : Bytes → Option (Unit {0})
at_end [] = some tt
at_end (c ∷ s) = none

-- The value read field by field, each field with its range check.
fields_of : Bytes → Option Time
fields_of value = do
  (year, s) ← four_digits value
  s ← expect b'-' s
  (month, s) ← two_digits s
  guard (ltb 0 month && leb month 12)
  s ← expect b'-' s
  (day, s) ← two_digits s
  s ← expect b'T' s
  (hour, s) ← one_or_two_digits s
  guard (ltb hour 24)
  s ← expect b':' s
  (minute, s) ← two_digits s
  guard (ltb minute 60)
  s ← expect b':' s
  (second, s) ← two_digits s
  guard (ltb second 60)
  at_end (fraction s).1
  guard (ltb 0 day && leb day (days_in month year))
  some (date year month day hour minute second (fraction s).0)

unfoldable pub parse_in_location : Bytes → Option Time
unfolding fields_of two_digits one_or_two_digits four_digits expect fraction at_end
parse_in_location value = fields_of value

-- `line[:sp]` for the first space, which must stand within the first 33 bytes and not in front.
head_of : Bytes → Option ℕ → Option Bytes
head_of line none = none
head_of line (some sp) = if sp == 0 || ltb 32 sp then none else some (take sp line)

unfoldable pub parse_line_timestamp : Bytes → Option Time
unfolding head_of
parse_line_timestamp line =
    if ltb (length line) 19
    then none
    else (do head ← head_of line (index_byte line b' '); parse_in_location head)
