-- ===== src/Text/Number/Format.antt =====
-- strconv.FormatInt in base 10, for an int64.
use vpub_exporter.Prelude.{
  ℕ, zero, suc, ◌+◌, ◌/◌, ◌%◌, ◌^◌, ◌<◌, ◌≤◌, ltb, ltb→lt, Bool-cases, inl, inr, some, [], ◌∷◌,
  ◌++◌, ◌≡◌, if◌then◌else◌, arith, ℤ, pos, negsuc,
}
use mathlib.Core.Path.{subst}
use vpub_exporter.Text.Basic.{Bytes}
use vpub_exporter.Text.Number.{atoi}
use vpub_exporter.Text.Number.Decimal.{Decimal, digit, longer, atoi-Decimal}

-- The digits of a number, at most as many as the first argument.
unfoldable format_digits : ℕ → ℕ → Bytes
format_digits zero n = []
format_digits (suc k) n =
    let rest = format_digits k (n / 10) in
    if ltb n 10 then (b'0' + n) ∷ [] else rest ++ (b'0' + n % 10) ∷ []

-- An int64 has at most 19 digits.
unfoldable pub format_int : ℤ → Bytes
unfolding format_digits
format_int (pos n) = format_digits 19 n
format_int (negsuc n) = b'-' ∷ format_digits 19 (n + 1)

format_digits-one : (k n : ℕ) → n < 10 → format_digits (suc k) n ≡ (48 + n) ∷ []
unfolding format_digits
format_digits-one k n h = ground arith

format_digits-more :
    (k n : ℕ) → 10 ≤ n → format_digits (suc k) n ≡ format_digits k (n / 10) ++ (48 + n % 10) ∷ []
unfolding format_digits
format_digits-more k n h = ground arith

-- As many digits as the number has are enough.
format_digits-Decimal : (k n : ℕ) → n < 10 ^ suc k → Decimal n (format_digits (suc k) n)
format_digits-Decimal zero n h = rw (format_digits-one 0 n (omega arith)) (digit n (omega arith))
format_digits-Decimal (suc k) n h = elim (Bool-cases (ltb n 10)) [
  | inl small ↦ let lt = ltb→lt n 10 small in rw (format_digits-one (suc k) n lt) (digit n lt)
  | inr large ↦
      let rest : Decimal (n / 10) (format_digits (suc k) (n / 10)) =
        format_digits-Decimal k (n / 10) (omega arith) in
      rw (format_digits-more (suc k) n (ground arith)) (
        subst (λ m. Decimal m (format_digits (suc k) (n / 10) ++ (48 + n % 10) ∷ [])) (omega arith)
          (longer (n / 10) (n % 10) _ rest (omega arith)))
]

-- strconv.Atoi reads back what FormatInt prints of a number that is not negative.
pub atoi-format_int : (n : ℕ) → n < 2 ^ 63 → atoi (format_int (pos n)) ≡ some (pos n)
unfolding format_int
atoi-format_int n h = atoi-Decimal n _ (format_digits-Decimal 18 n (omega arith)) h
