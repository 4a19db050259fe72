-- ===== src/Registry/Distinct.antt =====
-- Lists of names without repetition.
use vpub_exporter.Prelude.{
  Bool, true, false, not, ◌&&◌, ◌||◌, ◌≡◌, refl, List, [], ◌∷◌, ◌++◌, arith, any, All, Bool-cases,
  inl, inr,
}
use vpub_exporter.Text.{Bytes, bytes_eq, bytes_eq_iff}

abbrev pub distinct : List Bytes → Bool
distinct [] = true
distinct (n ∷ ns) = not (any (bytes_eq n) ns) && distinct ns

pub any-append : (p : Bytes → Bool) (xs ys : List Bytes) → any p (xs ++ ys) ≡ (any p xs || any p ys)
any-append p [] ys = refl
any-append p (x ∷ xs) ys = ground (arith, any-append p xs ys)

-- What stands behind some names of a distinct list is distinct.
pub distinct-behind : (xs ys : List Bytes) → distinct (xs ++ ys) ≡ true → distinct ys ≡ true
distinct-behind [] ys h = h
distinct-behind (x ∷ xs) ys h = distinct-behind xs ys (ground arith)

-- No name of `ys` passes a test that `x` passes, so `x` is none of them.
pub any-eq_none :
    (p : Bytes → Bool) (x : Bytes) (ys : List Bytes)
    → p x ≡ true
    → All (λ y. p y ≡ false) ys
    → any (bytes_eq x) ys ≡ false
any-eq_none p x [] h k = refl
any-eq_none p x (y ∷ ys) h k = elim (Bool-cases (bytes_eq x y)) [
  | inl e ↦
      let same : x ≡ y = (bytes_eq_iff x y).0 e in
      let other : p y ≡ true = rw same at h in absurd (cc (other, k.0))
  | inr e ↦ rw e (any-eq_none p x ys h k.1)
]

-- Two distinct lists that a test tells apart are distinct together.
pub distinct-append :
    (p : Bytes → Bool) (xs ys : List Bytes)
    → distinct xs ≡ true
    → All (λ x. p x ≡ true) xs
    → distinct ys ≡ true
    → All (λ y. p y ≡ false) ys
    → distinct (xs ++ ys) ≡ true
distinct-append p [] ys d h e k = e
distinct-append p (x ∷ xs) ys d h e k = ground (
  arith,
  any-append (bytes_eq x) xs ys,
  any-eq_none p x ys h.0 k,
  distinct-append p xs ys (ground arith) h.1 e k,
)
