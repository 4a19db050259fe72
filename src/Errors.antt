-- ===== src/Errors.antt =====
-- Go's error values as the source tells them apart, results, and `ErrorKind` of
-- internal/collectors/base.go. A message keeps the constant part of its format.
use vpub_exporter.Prelude.{◌≡◌, ◌⊎◌, inl, inr, refl, Option, none, some}
use vpub_exporter.Prelude.{[]}
use vpub_exporter.Text.{Bytes, codes}

pub data Error : Type 0 where
  -- context.DeadlineExceeded and context.Canceled, wrapped or not
  deadline_exceeded canceled : Error
  -- an error that wraps rpc.ErrAuth
  auth : Bytes → Error
  -- any other error
  failure : Bytes → Error

pub data Result {ℓ} (A : Type ℓ) : Type ℓ where
  ok : A → Result A
  err : Error → Result A

infixl 5 ◌>>=◌
abbrev pub ◌>>=◌ {ℓ κ} : {A : Type ℓ} {B : Type κ} → Result A → (A → Result B) → Result B
ok a >>= f = f a
err e >>= f = err e

module _ {ℓ} {A : Type ℓ} where
  pub Result-cases : (r : Result A) → ((a : A) × (r ≡ ok a)) ⊎ ((e : Error) × (r ≡ err e))
  Result-cases (ok a) = inl (a, refl)
  Result-cases (err e) = inr (e, refl)

  pub err-ok : {e : Error} {a : A} → err e ≡ ok a → ⊥
  err-ok h = cc

-- The kinds of `ErrorKind`; `unset` is the empty string.
pub data ErrorKind : Type 0 where
  unset timeout api parse io : ErrorKind

abbrev pub kind_label : ErrorKind → Bytes
kind_label unset = []
kind_label timeout = codes "timeout"
kind_label api = codes "api"
kind_label parse = codes "parse"
kind_label io = codes "io"

-- What a TickFunc returns.
pub record Outcome : Type 0 where
  pub kind : ErrorKind
  pub error : Option Error

abbrev pub success : Outcome
success = record { kind = unset; error = none }

abbrev pub fails : ErrorKind → Error → Outcome
fails k e = record { kind = k; error = some e }

-- `if firstErr == nil { firstErr, firstKind = err, kind }`
abbrev pub first_error : Outcome → ErrorKind → Error → Outcome
first_error o k e = elim o.error [ none ↦ fails k e | some f ↦ o ]
