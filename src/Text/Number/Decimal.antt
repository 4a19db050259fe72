-- ===== src/Text/Number/Decimal.antt =====
-- The decimal text of a number, and what strconv.Atoi makes of it.
use vpub_exporter.Prelude.{
  ℕ, ◌+◌, ◌*◌, ◌-◌, ◌^◌, ◌<◌, some, [], ◌∷◌, ◌++◌, ◌≡◌, refl, ◌∙◌, ap, sym, arith, pos,
}
use mathlib.Core.Option.{some_inj}
use vpub_exporter.Text.Basic.{Bytes}
use vpub_exporter.Text.Space.Ascii.{IsWord, IsWord-append}
use vpub_exporter.Text.Number.{digits, atoi}

-- A digit, or the text of a number with one digit behind it.
pub data Decimal : ℕ → Bytes → Type 0 where
  digit : (d : ℕ) → d < 10 → Decimal d ((48 + d) ∷ [])
  longer : (n d : ℕ) (s : Bytes) → Decimal n s → d < 10 → Decimal (n * 10 + d) (s ++ (48 + d) ∷ [])

digits-append : (k n : ℕ) (s t : Bytes) → digits k s ≡ some n → digits k (s ++ t) ≡ digits n t
unfolding digits
digits-append k n [] t h = ap (λ m. digits m t) (some_inj.0 h)
digits-append k n (c ∷ s) t h = ground (arith, digits-append (k * 10 + (c - 48)) n s t)

digits-one : (n d : ℕ) → d < 10 → digits n ((48 + d) ∷ []) ≡ some (n * 10 + d)
unfolding digits
digits-one n d h = ground arith

digits-Decimal : (n : ℕ) (s : Bytes) → Decimal n s → digits 0 s ≡ some n
digits-Decimal n _ (digit d h) = digits-one 0 n h ∙ ap some (omega arith)
digits-Decimal _ _ (longer n d s t h) =
    digits-append 0 n s ((48 + d) ∷ []) (digits-Decimal n s t) ∙ digits-one n d h

-- The text begins with a digit.
first_digit :
    (n : ℕ) (s : Bytes) → Decimal n s → (d : ℕ) × (t : Bytes) × (d < 10) × (s ≡ (48 + d) ∷ t)
first_digit n _ (digit d h) = (d, [], h, refl)
first_digit _ _ (longer n e s t h) =
    let (d, r, lt, e1) = first_digit n s t in
    (d, r ++ (48 + e) ∷ [], lt, ap (λ l. l ++ (48 + e) ∷ []) e1)

pub Decimal-IsWord : (n : ℕ) (s : Bytes) → Decimal n s → IsWord s
Decimal-IsWord n _ (digit d h) = ((omega arith, omega arith), tt)
Decimal-IsWord _ _ (longer n d s t h) =
    IsWord-append s ((48 + d) ∷ []) (Decimal-IsWord n s t) ((omega arith, omega arith), tt)

atoi-digit :
    (d : ℕ) (s : Bytes) (n : ℕ)
    → d < 10
    → n < 2 ^ 63
    → digits 0 ((48 + d) ∷ s) ≡ some n
    → atoi ((48 + d) ∷ s) ≡ some (pos n)
unfolding atoi digits
atoi-digit d s n h k e = ground arith

-- The decimal text of a number below 2 ^ 63 is read as that number.
pub atoi-Decimal : (n : ℕ) (s : Bytes) → Decimal n s → n < 2 ^ 63 → atoi s ≡ some (pos n)
atoi-Decimal n s t k =
    let (d, r, lt, e) = first_digit n s t in
    let read : digits 0 ((48 + d) ∷ r) ≡ some n = ap (digits 0) (sym e) ∙ digits-Decimal n s t in
    ap atoi e ∙ atoi-digit d r n lt k read

pub Decimal-cons : (n : ℕ) (s : Bytes) → Decimal n s → (c : ℕ) × (t : Bytes) × (s ≡ c ∷ t)
Decimal-cons n s t = let (d, r, lt, e) = first_digit n s t in (48 + d, r, e)
