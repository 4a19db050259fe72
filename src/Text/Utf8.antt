-- ===== src/Text/Utf8.antt =====
-- utf8.ValidString of package unicode/utf8.
use vpub_exporter.Prelude.{
  ℕ, zero, suc, Bool, true, false, ◌&&◌, List, [], ◌∷◌, leb, ltb, ◌==◌, if◌then◌else◌,
}
use vpub_exporter.Text.Basic.{Bytes}

-- With a number of bytes that the character still needs, the first of them within bounds.
valid_from : (need low high : ℕ) → Bytes → Bool
valid_from zero low high [] = true
valid_from (suc n) low high [] = false
valid_from (suc n) low high (a ∷ s) =
    let rest = valid_from n 0x80 0xbf s in leb low a && leb a high && rest
valid_from zero low high (a ∷ s) =
    let ascii = valid_from 0 0x80 0xbf s in
    let two = valid_from 1 0x80 0xbf s in
    let three = valid_from 2 0x80 0xbf s in
    let four = valid_from 3 0x80 0xbf s in
    let after_e0 = valid_from 2 0xa0 0xbf s in
    let after_ed = valid_from 2 0x80 0x9f s in
    let after_f0 = valid_from 3 0x90 0xbf s in
    let after_f4 = valid_from 3 0x80 0x8f s in
    if ltb a 0x80
    then ascii
    else if ltb a 0xc2
    then false
    else if leb a 0xdf
    then two
    else if a == 0xe0
    then after_e0
    else if a == 0xed
    then after_ed
    else if leb a 0xef
    then three
    else if a == 0xf0
    then after_f0
    else if leb a 0xf3
    then four
    else if a == 0xf4
    then after_f4
    else false

unfoldable pub valid_string : Bytes → Bool
unfolding valid_from
valid_string s = valid_from 0 0x80 0xbf s

abbrev pub all_valid : List Bytes → Bool
all_valid [] = true
all_valid (s ∷ ss) = valid_string s && all_valid ss
