-- ===== src/Logtail/Timestamp/Bounds.antt =====
-- What `ParseLineTimestamp` of internal/logtail/logtail_poll.go accepts: its fields are in range.
use vpub_exporter.Prelude.{
  ℕ, zero, suc, ◌+◌, ◌*◌, ◌^◌, ◌≤◌, ◌<◌, true, false, Bool, Bool-cases, Option, none, some, [], ◌∷◌,
  ◌≡◌, refl, sym, ap, ◌∙◌, arith, inl, inr, length, ltb, leb, ◌&&◌, ◌||◌, ◌==◌,
}
use native.Mathlib.Nat.{mul-lt-mul_of_pos_right, mul-le-mul_right, mul_assoc}
use native.Mathlib.Omega.{pow_step}
use mathlib.Core.Path.{subst}
use mathlib.Core.Option.{some_inj}
use vpub_exporter.Text.{Bytes, index_byte}
use vpub_exporter.Clock.{Time, date, days_in}
use vpub_exporter.Logtail.Timestamp.Head.{Head, parse_line_timestamp-Head}
use vpub_exporter.Logtail.Timestamp.{
  ◌>>=◌, ◌>>◌, guard, is_digit, digit, two_digits, one_or_two_digits, four_digits, nanoseconds,
  fraction, fields_of, parse_in_location, head_of, parse_line_timestamp, expect, at_end,
}

-- Whatever the result, if any, satisfies the predicate.
Yields {ℓ κ} : {A : Type ℓ} → Option A → (A → Type κ) → Type κ
Yields none Q = Unit
Yields (some a) Q = Q a

module _ {κ} {B : Type 0} (Q : B → Type κ) where
  bind-Yields :
      {A : Type 0} (m : Option A) (f : A → Option B)
      → ((a : A) → m ≡ some a → Yields (f a) Q)
      → Yields (m >>= f) Q
  unfolding Yields
  bind-Yields none f h = tt
  bind-Yields (some a) f h = h a refl

  guard-Yields : (b : Bool) (m : Option B) → (b ≡ true → Yields m Q) → Yields (guard b >> m) Q
  unfolding Yields
  guard-Yields true m h = h refl
  guard-Yields false m h = tt

digit-in : (c : ℕ) → is_digit c ≡ true → digit c ≤ 9
digit-in c h = ground arith

four_digits-lt : (s t : Bytes) (n : ℕ) → four_digits s ≡ some (n, t) → n < 10000
unfolding four_digits
four_digits-lt s t n h = ground arith

pow_pos : (k : ℕ) → 0 < 10 ^ k
pow_pos zero = omega arith
pow_pos (suc k) = omega (arith, pow_pos k, pow_step 10 k)

-- One digit more has the next smaller unit.
ten_times : (k n d m : ℕ) → d ≤ 9 → m < (n * 10 + d + 1) * 10 ^ k → m < (n + 1) * 10 ^ suc k
ten_times k n d m h lt =
    let more : (n * 10 + d + 1) * 10 ^ k ≤ ((n + 1) * 10) * 10 ^ k =
      mul-le-mul_right (10 ^ k) (omega arith) in
    let same : ((n + 1) * 10) * 10 ^ k ≡ (n + 1) * 10 ^ suc k =
      mul_assoc (n + 1) 10 (10 ^ k) ∙ ap (λ p. (n + 1) * p) (sym (pow_step 10 k)) in
    omega arith

nanoseconds-lt : (left n : ℕ) (s : Bytes) → (nanoseconds left n s).0 < (n + 1) * 10 ^ left
unfolding nanoseconds
nanoseconds-lt left n [] = mul-lt-mul_of_pos_right (omega arith) (pow_pos left)
nanoseconds-lt zero n (c ∷ s) = elim (Bool-cases (is_digit c)) [
  | inl e ↦ rw e (nanoseconds-lt zero n s)
  | inr e ↦ rw e (omega arith)
]
nanoseconds-lt (suc left) n (c ∷ s) = elim (Bool-cases (is_digit c)) [
  | inl e ↦
      rw e (ten_times left n (digit c) _ (digit-in c e) (nanoseconds-lt left (n * 10 + digit c) s))
  | inr e ↦ rw e (mul-lt-mul_of_pos_right (omega arith) (pow_pos (suc left)))
]

fraction-lt : (s : Bytes) → (fraction s).0 < 10 ^ 9
unfolding fraction
fraction-lt (p ∷ c ∷ s) = elim (Bool-cases ((p == b'.' || p == b',') && is_digit c)) [
  | inl e ↦ rw e (omega (arith, nanoseconds-lt 9 0 (c ∷ s)))
  | inr e ↦ rw e (omega arith)
]
fraction-lt _ = omega arith

abbrev pub IsTime : Time → Type 0
IsTime t =
    (year : ℕ) × (month : ℕ) × (day : ℕ) × (hour : ℕ) × (minute : ℕ) × (second : ℕ) × (nsec : ℕ)
    × (t ≡ date year month day hour minute second nsec)
    × (year < 10000)
    × (1 ≤ month)
    × (month ≤ 12)
    × (1 ≤ day)
    × (day ≤ days_in month year)
    × (hour < 24)
    × (minute < 60)
    × (second < 60)
    × (nsec < 10 ^ 9)

fields_of-Yields : (s : Bytes) → Yields (fields_of s) IsTime
unfolding fields_of Yields
fields_of-Yields s = bind-Yields IsTime (four_digits s) _ (λ y ey.
    bind-Yields IsTime (expect b'-' y.1) _ (λ s1 _. bind-Yields IsTime (two_digits s1) _ (λ mo _.
      guard-Yields IsTime (ltb 0 mo.0 && leb mo.0 12) _ (λ hmo.
        bind-Yields IsTime (expect b'-' mo.1) _ (λ s2 _.
          bind-Yields IsTime (two_digits s2) _ (λ d _.
            bind-Yields IsTime (expect b'T' d.1) _ (λ s3 _.
              bind-Yields IsTime (one_or_two_digits s3) _ (λ h _.
                guard-Yields IsTime (ltb h.0 24) _ (λ hh.
                  bind-Yields IsTime (expect b':' h.1) _ (λ s4 _.
                    bind-Yields IsTime (two_digits s4) _ (λ mi _.
                      guard-Yields IsTime (ltb mi.0 60) _ (λ hmi.
                        bind-Yields IsTime (expect b':' mi.1) _ (λ s5 _.
                          bind-Yields IsTime (two_digits s5) _ (λ se _.
                            guard-Yields IsTime (ltb se.0 60) _ (λ hse.
                              bind-Yields IsTime (at_end (fraction se.1).1) _ (λ _ _.
                                guard-Yields IsTime (ltb 0 d.0 && leb d.0 (days_in mo.0 y.0)) _
                                  (λ hd. (
                                    y.0,
                                    mo.0,
                                    d.0,
                                    h.0,
                                    mi.0,
                                    se.0,
                                    (fraction se.1).0,
                                    refl,
                                    four_digits-lt s y.1 y.0 ey,
                                    ground arith,
                                    ground arith,
                                    ground arith,
                                    ground arith,
                                    ground arith,
                                    ground arith,
                                    ground arith,
                                    fraction-lt se.1,
                                  ))))))))))))))))))

Yields-some {ℓ κ} :
    {A : Type ℓ} (Q : A → Type κ) (m : Option A) (a : A) → Yields m Q → m ≡ some a → Q a
unfolding Yields
Yields-some Q none a y h = absurd (ground arith)
Yields-some Q (some b) a y h = subst Q (some_inj.0 h) y

parse_in_location-Yields : (s : Bytes) → Yields (parse_in_location s) IsTime
unfolding parse_in_location
parse_in_location-Yields = fields_of-Yields

parse_line_timestamp-Yields : (line : Bytes) → Yields (parse_line_timestamp line) IsTime
unfolding parse_line_timestamp Yields
parse_line_timestamp-Yields line = elim (Bool-cases (ltb (length line) 19)) [
  | inl e ↦ rw (e, parse_line_timestamp) tt
  | inr e ↦
      rw (e, parse_line_timestamp)
        (bind-Yields IsTime (head_of line (index_byte line b' ')) _
          (λ s _. parse_in_location-Yields s))
]

-- A time that `ParseLineTimestamp` finds is read from what stands in front of the first space of the
-- line, which is at most 32 bytes long, and the line has at least 19; it is that of a calendar date
-- with a year below 10000 and a time of day in range, with less than a billion nanoseconds, however
-- many digits the fraction of a second has.
pub parse_line_timestamp-IsTime :
    (line : Bytes) (t : Time)
    → parse_line_timestamp line ≡ some t
    → Head line t × (19 ≤ length line) × IsTime t
unfolding parse_line_timestamp
parse_line_timestamp-IsTime line t h = (
  parse_line_timestamp-Head line t h,
  ground arith,
  Yields-some IsTime (parse_line_timestamp line) t (parse_line_timestamp-Yields line) h,
)
