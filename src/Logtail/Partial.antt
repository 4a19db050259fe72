-- ===== src/Logtail/Partial.antt =====
-- The partial line behind a drain has no newline, so the next drain reads on from it as if it had
-- never stopped.
use native.Mathlib.Nat.{zero-add}
use vpub_exporter.Prelude.{
  ℕ, ◌+◌, false, [], ◌∷◌, ◌++◌, ◌≡◌, refl, sym, ap, ◌∙◌, arith, ◌==◌, All, append_assoc, append-nil,
  Bool-cases, inl, inr,
}
use vpub_exporter.Text.{Bytes}
use vpub_exporter.Logtail.Lines.{lines, partial_line, consumed, lines-append}

abbrev HasNoNewline : Bytes → Type 0
HasNoNewline = All (λ c. (c == b'\n') ≡ false)

HasNoNewline-concat :
    (s : Bytes) (c : ℕ) → HasNoNewline s → (c == b'\n') ≡ false → HasNoNewline (s ++ c ∷ [])
HasNoNewline-concat [] c h e = (e, tt)
HasNoNewline-concat (a ∷ s) c h e = (h.0, HasNoNewline-concat s c h.1 e)

HasNoNewline-partial : (line s : Bytes) → HasNoNewline line → HasNoNewline (partial_line line s)
HasNoNewline-partial line [] h = h
HasNoNewline-partial line (c ∷ s) h = elim (Bool-cases (c == b'\n')) [
  | inl e ↦ rw e (HasNoNewline-partial [] s tt)
  | inr e ↦ rw e (HasNoNewline-partial (line ++ c ∷ []) s (HasNoNewline-concat line c h e))
]

-- A text with no newline is one partial line.
unbroken :
    (line p : Bytes)
    → HasNoNewline p
    → (lines line p ≡ []) × (partial_line line p ≡ line ++ p) × (consumed line p ≡ 0)
unbroken line [] h = (refl, sym (append-nil line), refl)
unbroken line (c ∷ p) h =
    let rest = unbroken (line ++ c ∷ []) p h.1 in
    rw h.0 (rest.0, rest.1 ∙ append_assoc line (c ∷ []) p, rest.2)

pub consumed-append :
    (line s t : Bytes) → consumed line (s ++ t) ≡ consumed line s + consumed (partial_line line s) t
consumed-append line [] t = sym (zero-add (consumed line t))
consumed-append line (c ∷ s) t = elim (Bool-cases (c == b'\n')) [
  | inl e ↦ rw e (omega (arith, consumed-append [] s t))
  | inr e ↦ rw e (consumed-append (line ++ c ∷ []) s t)
]

-- Reading the partial line again and then the new bytes `d` completes the same lines.
pub lines-resume :
    (c d : Bytes) → lines [] (c ++ d) ≡ lines [] c ++ lines [] (partial_line [] c ++ d)
lines-resume c d =
    let p : Bytes = partial_line [] c in
    let u = unbroken [] p (HasNoNewline-partial [] c tt) in
    lines-append [] c d
    ∙ ap (◌++◌ (lines [] c)) (sym (lines-append [] p d ∙ rw u.0 (ap (λ q. lines q d) u.1)))

pub consumed-resume :
    (c d : Bytes) → consumed [] (c ++ d) ≡ consumed [] c + consumed [] (partial_line [] c ++ d)
consumed-resume c d =
    let p : Bytes = partial_line [] c in
    let u = unbroken [] p (HasNoNewline-partial [] c tt) in
    consumed-append [] c d
    ∙ ap (λ k. consumed [] c + k)
        (sym (
          consumed-append [] p d
          ∙ rw u.2 (zero-add (consumed (partial_line [] p) d) ∙ ap (λ q. consumed q d) u.1)))
