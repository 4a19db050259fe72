-- ===== src/Text/Space.antt =====
-- strings.TrimSpace and strings.Fields. A space is a code point of unicode.IsSpace in UTF-8.
pub mod Ascii
use vpub_exporter.Prelude.{
  ℕ, zero, suc, ◌-◌, Bool, true, false, ◌&&◌, ◌||◌, List, [], ◌∷◌, ◌++◌, map, reverse, ◌==◌, leb,
  ltb, if◌then◌else◌,
}
use vpub_exporter.Text.Basic.{Bytes}

ascii_space : ℕ → Bool
ascii_space c = leb 9 c && leb c 13 || c == b' '

-- U+1680, U+2000 to U+200A, U+2028, U+2029, U+202F, U+205F and U+3000
wide_space : ℕ → ℕ → ℕ → Bool
wide_space a b c =
    a == 0xe1 && b == 0x9a && c == 0x80
    || a == 0xe2 && b == 0x80 && (leb 0x80 c && leb c 0x8a || c == 0xa8 || c == 0xa9 || c == 0xaf)
    || a == 0xe2 && b == 0x81 && c == 0x9f
    || a == 0xe3 && b == 0x80 && c == 0x80

-- The bytes that the space in front of a string takes, 0 if there is none.
space_width : ℕ → Bytes → ℕ
unfolding ascii_space wide_space
space_width a (b ∷ c ∷ s) =
    if ascii_space a
    then 1
    else if a == 0xc2 && (b == 0x85 || b == 0xa0)
    then 2
    else if wide_space a b c
    then 3
    else 0
space_width a (b ∷ []) =
    if ascii_space a then 1 else if a == 0xc2 && (b == 0x85 || b == 0xa0) then 2 else 0
space_width a [] = if ascii_space a then 1 else 0

-- Each byte with the answer whether it belongs to a space. No space's first byte stands inside
-- another code point, so looking for spaces at each byte finds those that decoding finds.
mark : ℕ → Bytes → List (Bool × ℕ)
unfolding space_width
mark k [] = []
mark (suc k) (c ∷ s) = (true, c) ∷ mark k s
mark zero (c ∷ s) = let w = space_width c s in (ltb 0 w, c) ∷ mark (w - 1) s

skip_spaces : List (Bool × ℕ) → List (Bool × ℕ)
skip_spaces [] = []
skip_spaces ((true, c) ∷ s) = skip_spaces s
skip_spaces ((false, c) ∷ s) = (false, c) ∷ s

unfoldable pub trim_space : Bytes → Bytes
unfolding mark skip_spaces
trim_space s = map (λ m. m.1) (reverse (skip_spaces (reverse (skip_spaces (mark 0 s)))))

emit : Bytes → List Bytes
emit [] = []
emit (c ∷ w) = (c ∷ w) ∷ []

words : Bytes → List (Bool × ℕ) → List Bytes
unfolding emit
words w [] = emit w
words w ((true, c) ∷ s) = emit w ++ words [] s
words w ((false, c) ∷ s) = words (w ++ c ∷ []) s

unfoldable pub fields : Bytes → List Bytes
unfolding mark words
fields s = words [] (mark 0 s)
