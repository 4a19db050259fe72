-- ===== src/Text/Split.antt =====
-- strings.Split and strings.SplitN with a separator of one byte, and filepath.Join.
use vpub_exporter.Prelude.{
  ℕ, Bool, false, ◌||◌, List, [], ◌∷◌, ◌++◌, reverse, ◌==◌, if◌then◌else◌, ◌≡◌, Bool-cases, inl,
  inr, arith,
}
use vpub_exporter.Text.Basic.{Bytes, codes, bytes_eq, is_empty}

extend : ℕ → List Bytes → List Bytes
extend c [] = (c ∷ []) ∷ []
extend c (p ∷ ps) = (c ∷ p) ∷ ps

-- strings.Split(s, string(sep)): one part more than there are separators
unfoldable pub split : Bytes → ℕ → List Bytes
unfolding extend
split [] sep = [] ∷ []
split (c ∷ s) sep = let rest = split s sep in if c == sep then [] ∷ rest else extend c rest

-- strings.SplitN(s, string(sep), 2)
unfoldable pub split_n2 : Bytes → ℕ → List Bytes
unfolding extend
split_n2 [] sep = [] ∷ []
split_n2 (c ∷ s) sep = let rest = split_n2 s sep in if c == sep then [] ∷ s ∷ [] else extend c rest

-- filepath.Clean on the parts between slashes; the stack holds the last part first.
parent_of : Bool → List Bytes → List Bytes
parent_of rooted [] = if rooted then [] else codes ".." ∷ []
parent_of rooted (p ∷ ps) = if bytes_eq p (codes "..") then codes ".." ∷ p ∷ ps else ps

resolve : Bool → List Bytes → List Bytes → List Bytes
unfolding parent_of
resolve rooted stack [] = stack
resolve rooted stack (p ∷ ps) =
    resolve rooted
      (if is_empty p || bytes_eq p (codes ".")
        then stack
        else if bytes_eq p (codes "..")
        then parent_of rooted stack
        else p ∷ stack)
      ps

slashed : List Bytes → Bytes
slashed [] = []
slashed (p ∷ []) = p
slashed (p ∷ q ∷ ps) = p ++ b'/' ∷ slashed (q ∷ ps)

starts_with_slash : Bytes → Bool
starts_with_slash [] = false
starts_with_slash (c ∷ s) = c == b'/'

-- `..` above the root of a rooted path is dropped.
clean : Bytes → Bytes
unfolding resolve slashed starts_with_slash split
clean s =
    let rooted = starts_with_slash s in
    let out = slashed (reverse (resolve rooted [] (split s b'/'))) in
    if rooted then b'/' ∷ out else if is_empty out then codes "." else out

-- filepath.Join(a, b): empty elements are left out, and no elements give "".
unfoldable pub join : Bytes → Bytes → Bytes
unfolding clean
join a b =
    if is_empty a
    then (if is_empty b then [] else clean b)
    else if is_empty b
    then clean a
    else clean (a ++ b'/' ∷ b)

is_empty-clean : (s : Bytes) → is_empty (clean s) ≡ false
unfolding clean
is_empty-clean s = ground arith

pub is_empty-join : (a b : Bytes) → is_empty b ≡ false → is_empty (join a b) ≡ false
unfolding join
is_empty-join a b h = elim (Bool-cases (is_empty a)) [
  | inl e ↦ rw (e, h) (is_empty-clean b)
  | inr e ↦ rw (e, h) (is_empty-clean (a ++ b'/' ∷ b))
]
