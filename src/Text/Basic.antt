-- ===== src/Text/Basic.antt =====
-- Go's strings as lists of bytes: literals, equality, prefixes and search.
-- These are the parts of the language and of package `strings` that the source uses.
use Prim.Native.Char.{code}
use vpub_exporter.Prelude.{
  ℕ, ◌+◌, String, ◌≡◌, ◌↔◌, Bool, true, false, ◌&&◌, ◌||◌, Option, none, some, List, [], ◌∷◌, arith,
  ◌==◌, leb, ◌-◌, if◌then◌else◌,
}
use mathlib.Core.Option

abbrev pub Bytes : Type 0
Bytes = List ℕ

-- The bytes of a literal; every literal of the development is ASCII.
abbrev pub codes : String → Bytes
codes String.[] = []
codes (String.◌∷◌ c s) = code c ∷ codes s

-- s == t
abbrev pub bytes_eq : Bytes → Bytes → Bool
bytes_eq [] [] = true
bytes_eq (a ∷ s) (b ∷ t) = a == b && bytes_eq s t
bytes_eq _ _ = false

pub bytes_eq_iff : (s t : Bytes) → (bytes_eq s t ≡ true) ↔ (s ≡ t)
bytes_eq_iff (a ∷ s) (b ∷ t) = ground (arith, bytes_eq_iff s t)
bytes_eq_iff _ _ = ground arith

pub bytes_eq_refl : (s : Bytes) → bytes_eq s s ≡ true
bytes_eq_refl s = (bytes_eq_iff s s).1 (λ _. s)

-- s == ""
abbrev pub is_empty : Bytes → Bool
is_empty [] = true
is_empty (c ∷ s) = false

-- strings.HasPrefix(s, p)
unfoldable pub has_prefix : Bytes → Bytes → Bool
has_prefix s [] = true
has_prefix [] (b ∷ p) = false
has_prefix (a ∷ s) (b ∷ p) = a == b && has_prefix s p

-- strings.Contains(s, t)
unfoldable pub contains : Bytes → Bytes → Bool
unfolding has_prefix
contains [] t = has_prefix [] t
contains (a ∷ s) t = has_prefix (a ∷ s) t || contains s t

-- strings.IndexByte(s, c), with `none` for -1
unfoldable pub index_byte : Bytes → ℕ → Option ℕ
index_byte [] c = none
index_byte (a ∷ s) c =
    let rest = index_byte s c in if a == c then some 0 else Option.map (λ i. i + 1) rest

-- strings.LastIndex(s, string(c)) for one byte, with `none` for -1
unfoldable pub last_index : Bytes → ℕ → Option ℕ
last_index [] c = none
last_index (a ∷ s) c = elim (last_index s c) [
  | some i ↦ some (i + 1)
  | none ↦ if a == c then some 0 else none
]

-- strings.ToUpper on ASCII; the names that it is applied to are ASCII.
unfoldable pub to_upper : Bytes → Bytes
to_upper [] = []
to_upper (c ∷ s) = (if leb b'a' c && leb c b'z' then c - 32 else c) ∷ to_upper s

-- strings.ReplaceAll(s, string(a), string(b)) for single bytes
unfoldable pub replace_all : Bytes → ℕ → ℕ → Bytes
replace_all [] a b = []
replace_all (c ∷ s) a b = (if c == a then b else c) ∷ replace_all s a b
