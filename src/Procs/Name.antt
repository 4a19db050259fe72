-- ===== src/Procs/Name.antt =====
-- What the command name of a process does to `readPPID` of internal/procs/procs_proc.go.
use vpub_exporter.Prelude.{
  ℕ, ◌+◌, true, false, none, some, [], ◌∷◌, ◌++◌, ◌≡◌, refl, ap, arith, any, length, drop, leb,
  length-append, drop-append, if◌then◌else◌, ◌==◌, ℤ,
}
use vpub_exporter.Text.{Bytes, codes, last_index, trim_space, fields}
use vpub_exporter.Errors.{Result, err, failure}
use vpub_exporter.Procs.{parse_ppid, ppid_field}

last_index-none : (s : Bytes) (c : ℕ) → any (λ a. a == c) s ≡ false → last_index s c ≡ none
unfolding last_index
last_index-none [] c h = refl
last_index-none (a ∷ s) c h = ground (arith, last_index-none s c)

==_refl : (c : ℕ) → (c == c) ≡ true
==_refl c = ground arith

last_index-append :
    (p rest : Bytes) (c : ℕ)
    → any (λ a. a == c) rest ≡ false
    → last_index (p ++ c ∷ rest) c ≡ some (length p)
unfolding last_index
last_index-append [] rest c h = rw (last_index-none rest c h, ==_refl c)
last_index-append (a ∷ p) rest c h = rw (last_index-append p rest c h) (ap some (omega arith))

too_short :
    (p rest : Bytes) (c : ℕ) → leb (length (p ++ c ∷ rest)) (length p + 2) ≡ leb (length rest) 1
too_short p rest c = rw (length-append p (c ∷ rest)) (ground arith)

drop-name : (p rest : Bytes) (c : ℕ) → drop (length p + 1) (p ++ c ∷ rest) ≡ rest
drop-name p rest c = drop-append (length p + 1) 1 p (c ∷ rest) refl

-- What stands behind the name and its parenthesis, in a text with at least two bytes there.
abbrev pub behind_name : Bytes → Result ℤ
behind_name rest =
    if leb (length rest) 1
    then err (failure (codes "malformed /proc/*/stat"))
    else ppid_field (fields (trim_space rest))

-- Whatever stands in front of the last ")", so whatever name a process has, spaces and parentheses
-- included, the parent is read from the text behind it.
pub parse_ppid-append :
    (p rest : Bytes)
    → any (λ a. a == b')') rest ≡ false
    → parse_ppid (p ++ b')' ∷ rest) ≡ behind_name rest
unfolding parse_ppid
parse_ppid-append p rest h =
    rw (last_index-append p rest b')' h, parse_ppid, too_short p rest b')', drop-name p rest b')')
      refl
