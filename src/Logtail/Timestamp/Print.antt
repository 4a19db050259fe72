-- ===== src/Logtail/Timestamp/Print.antt =====
-- The time stamps that the publisher prints, and that `ParseLineTimestamp` reads them back.
use vpub_exporter.Prelude.{
  ℕ, suc, ◌+◌, ◌*◌, ◌/◌, ◌%◌, ◌≤◌, ◌<◌, true, false, Bool, some, [], ◌∷◌, ◌++◌, ◌≡◌, refl, ◌∙◌, ap,
  arith, length, take, leb, ltb, ◌&&◌, All,
}
use vpub_exporter.Text.{Bytes, index_byte}
use vpub_exporter.Clock.{Time, date, days_in}
use vpub_exporter.Logtail.Timestamp.{
  two_digits, one_or_two_digits, four_digits, nanoseconds, fraction, fields_of, expect, at_end,
  guard, parse_in_location, head_of, parse_line_timestamp,
}

-- A number in two, four or six digits.
abbrev pub two : ℕ → Bytes → Bytes
two n s = (48 + n / 10) ∷ (48 + n % 10) ∷ s

abbrev pub four : ℕ → Bytes → Bytes
four n s = two (n / 100) (two (n % 100) s)

abbrev pub six : ℕ → Bytes → Bytes
six n s = two (n / 10000) (four (n % 10000) s)

two_digits-two : (n : ℕ) (s : Bytes) → n < 100 → two_digits (two n s) ≡ some (n, s)
unfolding two_digits
two_digits-two n s h = ground arith

one_or_two_digits-two : (n : ℕ) (s : Bytes) → n < 100 → one_or_two_digits (two n s) ≡ some (n, s)
unfolding one_or_two_digits
one_or_two_digits-two n s h = ground arith

four_digits-four : (n : ℕ) (s : Bytes) → n < 10000 → four_digits (four n s) ≡ some (n, s)
unfolding four_digits
four_digits-four n s h = ground arith

nanoseconds-digit :
    (left n d : ℕ) (s : Bytes)
    → d < 10
    → nanoseconds (suc left) n ((48 + d) ∷ s) ≡ nanoseconds left (n * 10 + d) s
unfolding nanoseconds
nanoseconds-digit left n d s h = ground arith

nanoseconds-two :
    (left n m : ℕ) (s : Bytes)
    → m < 100
    → nanoseconds (suc (suc left)) n (two m s) ≡ nanoseconds left (n * 100 + m) s
nanoseconds-two left n m s h =
    nanoseconds-digit (suc left) n (m / 10) ((48 + m % 10) ∷ s) (omega arith)
    ∙ nanoseconds-digit left (n * 10 + m / 10) (m % 10) s (omega arith)
    ∙ ap (λ k. nanoseconds left k s) (omega arith)

nanoseconds-six : (n : ℕ) → n < 1000000 → nanoseconds 9 0 (six n []) ≡ (n * 1000, [])
unfolding nanoseconds
nanoseconds-six n h =
    nanoseconds-two 7 0 (n / 10000) (four (n % 10000) []) (omega arith)
    ∙ nanoseconds-two 5 (0 * 100 + n / 10000) (n % 10000 / 100) (two (n % 10000 % 100) [])
        (omega arith)
    ∙ nanoseconds-two 3 ((0 * 100 + n / 10000) * 100 + n % 10000 / 100) (n % 10000 % 100) []
        (omega arith)
    ∙ ap (λ k. (k, [])) (omega arith)

fraction-digit :
    (d : ℕ) (s : Bytes) → d < 10 → fraction (b'.' ∷ (48 + d) ∷ s) ≡ nanoseconds 9 0 ((48 + d) ∷ s)
unfolding fraction
fraction-digit d s h = ground arith

fraction-six : (n : ℕ) → n < 1000000 → fraction (b'.' ∷ six n []) ≡ (n * 1000, [])
fraction-six n h =
    fraction-digit (n / 10000 / 10) ((48 + n / 10000 % 10) ∷ four (n % 10000) []) (omega arith)
    ∙ nanoseconds-six n h

-- The fields of a time of day and date as they stand in a line, with microseconds.
pub record Stamp : Type 0 where
  pub year : ℕ
  pub month : ℕ
  pub day : ℕ
  pub hour : ℕ
  pub minute : ℕ
  pub second : ℕ
  pub micro : ℕ

pub record IsValid (t : Stamp) : Type 0 where
  pub year_in : t.year < 10000
  pub month_in : (1 ≤ t.month) × (t.month ≤ 12)
  pub day_in : (1 ≤ t.day) × (t.day ≤ days_in t.month t.year)
  pub hour_in : t.hour < 24
  pub minute_in : t.minute < 60
  pub second_in : t.second < 60
  pub micro_in : t.micro < 1000000

-- As in 2026-06-06T11:50:04.670582.
abbrev pub print_stamp : Stamp → Bytes
print_stamp t = four t.year (
    b'-'
    ∷ two t.month (
        b'-'
        ∷ two t.day (
            b'T' ∷ two t.hour (b':' ∷ two t.minute (b':' ∷ two t.second (b'.' ∷ six t.micro []))))))

days_in-le : (m y : ℕ) → days_in m y ≤ 31
unfolding days_in
days_in-le m y = ground arith

abbrev pub time_of : Stamp → Time
time_of t = date t.year t.month t.day t.hour t.minute t.second (t.micro * 1000)

expect-head : (c : ℕ) (s : Bytes) → expect c (c ∷ s) ≡ some s
unfolding expect
expect-head c s = ground arith

at_end-nil : at_end [] ≡ some tt
unfolding at_end
at_end-nil = refl

guard-true : {b : Bool} → b ≡ true → guard b ≡ some tt
guard-true h = ap guard h

ltb-true : {a b : ℕ} → a < b → ltb a b ≡ true
ltb-true h = ground arith

within-true : {a b c : ℕ} → a < b → b ≤ c → (ltb a b && leb b c) ≡ true
within-true h k = ground arith

fields_of-print : (t : Stamp) → IsValid t → fields_of (print_stamp t) ≡ some (time_of t)
unfolding fields_of
fields_of-print t v =
    let month_lt = v.month_in.1 in
    let day_lt = days_in-le t.month t.year in
    rw
      (
        four_digits-four t.year _ v.year_in,
        expect-head,
        two_digits-two t.month _ (omega arith),
        within-true v.month_in.0 v.month_in.1,
        expect-head,
        two_digits-two t.day _ (omega arith),
        expect-head,
        one_or_two_digits-two t.hour _ (omega arith),
        ltb-true v.hour_in,
        expect-head,
        two_digits-two t.minute _ (omega arith),
        ltb-true v.minute_in,
        expect-head,
        two_digits-two t.second _ (omega arith),
        ltb-true v.second_in,
        fraction-six t.micro v.micro_in,
        at_end-nil,
        within-true v.day_in.0 v.day_in.1,
      )
      refl

parse_in_location-print :
    (t : Stamp) → IsValid t → parse_in_location (print_stamp t) ≡ some (time_of t)
unfolding parse_in_location
parse_in_location-print = fields_of-print

-- No byte of the text is a space or below one.
Above : Bytes → Type 0
Above = All (λ c. 32 < c)

print_stamp-Above : (t : Stamp) → Above (print_stamp t)
unfolding Above
print_stamp-Above t = ground arith

index_byte-append : (s rest : Bytes) → Above s → index_byte (s ++ 32 ∷ rest) 32 ≡ some (length s)
unfolding Above index_byte
index_byte-append [] rest h = refl
index_byte-append (c ∷ s) rest h = ground (arith, index_byte-append s rest h.1)

take-append : (s rest : Bytes) → take (length s) (s ++ rest) ≡ s
take-append [] rest = refl
take-append (c ∷ s) rest = ap (λ t. c ∷ t) (take-append s rest)

head_of-print :
    (t : Stamp) (rest : Bytes)
    → head_of (print_stamp t ++ 32 ∷ rest) (index_byte (print_stamp t ++ 32 ∷ rest) 32)
      ≡ some (print_stamp t)
unfolding head_of
head_of-print t rest = rw (index_byte-append (print_stamp t) rest (print_stamp-Above t)) refl

print_stamp-long : (t : Stamp) (rest : Bytes) → ltb (length (print_stamp t ++ 32 ∷ rest)) 19 ≡ false
print_stamp-long t rest = ground arith

-- Every valid date and time of day with microseconds, printed in front of a line with a space
-- after it, is read back by `ParseLineTimestamp` as that very time, whatever the line goes on with.
pub parse_line_timestamp-print :
    (t : Stamp) (rest : Bytes)
    → IsValid t
    → parse_line_timestamp (print_stamp t ++ b' ' ∷ rest) ≡ some (time_of t)
unfolding parse_line_timestamp
parse_line_timestamp-print t rest v =
    rw (print_stamp-long t rest, head_of-print t rest) (parse_in_location-print t v)
