-- ===== src/Logtail/Lines.antt =====
-- What a drain should do, by lines: a text is its complete lines and a partial one, and each
-- complete line gives its matches. The read loop of Logtail.Drain does that.
use vpub_exporter.Prelude.{
  ℕ, ◌+◌, true, none, some, List, [], ◌∷◌, ◌++◌, ◌≡◌, refl, sym, ap, ◌∙◌, arith, ◌==◌,
  if◌then◌else◌, length, drop, length-append, drop-append, append_assoc, append-nil, Bool-cases,
  inl, inr,
}
use native.Mathlib.Nat.{add-zero, add_assoc}
use vpub_exporter.Text.{Bytes}
use vpub_exporter.Clock.{Time}
use vpub_exporter.Regexp.{match_string}
use vpub_exporter.Logtail.Drain.{
  Match, Outbox, Reader, found, is_continuation, send, send_matches, handle_line, read_lines, drain,
}

-- The complete lines of `line ++ s`, where `line` has no newline, and what is behind them.
abbrev pub lines : Bytes → Bytes → List Bytes
lines line [] = []
lines line (c ∷ s) = if c == b'\n' then line ∷ lines [] s else lines (line ++ c ∷ []) s

abbrev pub partial_line : Bytes → Bytes → Bytes
partial_line line [] = line
partial_line line (c ∷ s) =
    if c == b'\n' then partial_line [] s else partial_line (line ++ c ∷ []) s

-- The bytes of the complete lines.
abbrev pub consumed : Bytes → Bytes → ℕ
consumed line [] = 0
consumed line (c ∷ s) =
    if c == b'\n' then length line + 1 + consumed [] s else consumed (line ++ c ∷ []) s

pub consumed-add-partial :
    (line s : Bytes) → consumed line s + length (partial_line line s) ≡ length line + length s
consumed-add-partial line [] = omega arith
consumed-add-partial line (c ∷ s) = elim (Bool-cases (c == b'\n')) [
  | inl e ↦ rw e (omega (arith, consumed-add-partial [] s))
  | inr e ↦
      rw e (omega (arith, consumed-add-partial (line ++ c ∷ []) s, length-append line (c ∷ [])))
]

pub lines-append :
    (line s t : Bytes) → lines line (s ++ t) ≡ lines line s ++ lines (partial_line line s) t
lines-append line [] t = refl
lines-append line (c ∷ s) t = elim (Bool-cases (c == b'\n')) [
  | inl e ↦ rw e (ap (◌∷◌ line) (lines-append [] s t))
  | inr e ↦ rw e (lines-append (line ++ c ∷ []) s t)
]

pub partial-append :
    (line s t : Bytes) → partial_line line (s ++ t) ≡ partial_line (partial_line line s) t
partial-append line [] t = refl
partial-append line (c ∷ s) t = elim (Bool-cases (c == b'\n')) [
  | inl e ↦ rw e (partial-append [] s t)
  | inr e ↦ rw e (partial-append (line ++ c ∷ []) s t)
]

-- What is left behind the complete lines is the partial one.
pub drop-consumed :
    (line s t : Bytes) → drop (consumed line s) (line ++ (s ++ t)) ≡ partial_line line s ++ t
drop-consumed line [] t = refl
drop-consumed line (c ∷ s) t = elim (Bool-cases (c == b'\n')) [
  | inl e ↦ rw e (
      ap (drop (length line + 1 + consumed [] s)) (sym (append_assoc line (c ∷ []) (s ++ t)))
      ∙ drop-append (length line + 1 + consumed [] s) (consumed [] s) (line ++ c ∷ []) (s ++ t)
          (omega (arith, length-append line (c ∷ [])))
      ∙ drop-consumed [] s t)
  | inr e ↦ rw e (
      ap (drop (consumed (line ++ c ∷ []) s)) (sym (append_assoc line (c ∷ []) (s ++ t)))
      ∙ drop-consumed (line ++ c ∷ []) s t)
]

abbrev pub opened : List Match → Outbox
opened ms = record { sent = ms; room = none; live = true }

module _ (r : Reader) (path : Bytes) (patterns : List Bytes) (now : Time) where
  abbrev pub matches_of : Bytes → List Bytes → List Match
  matches_of line [] = []
  matches_of line (p ∷ ps) =
      if match_string r.engine p line
      then found r path patterns now line p ∷ matches_of line ps
      else matches_of line ps

  -- The matches of one line: one for each pattern that matches it, none for a continuation.
  abbrev pub line_matches : Bytes → List Match
  line_matches line = if is_continuation r line then [] else matches_of line patterns

  abbrev pub all_matches : List Bytes → List Match
  all_matches [] = []
  all_matches (l ∷ ls) = line_matches l ++ all_matches ls

  pub all_matches-append :
      (ls ks : List Bytes) → all_matches (ls ++ ks) ≡ all_matches ls ++ all_matches ks
  all_matches-append [] ks = refl
  all_matches-append (l ∷ ls) ks = simp (all_matches-append ls ks, append_assoc)

  send_matches-opened :
      (line : Bytes) (ps : List Bytes) (ms : List Match)
      → send_matches r path patterns now line ps (opened ms) ≡ opened (ms ++ matches_of line ps)
  unfolding send_matches send
  send_matches-opened line [] ms = rw append-nil
  send_matches-opened line (p ∷ ps) ms = elim (Bool-cases (match_string r.engine p line)) [
    | inl e ↦ rw e (
        send_matches-opened line ps (ms ++ found r path patterns now line p ∷ []) ∙ rw append_assoc)
    | inr e ↦ rw e (send_matches-opened line ps ms)
  ]

  handle_line-opened :
      (line : Bytes) (ms : List Match)
      → handle_line r path patterns now line (opened ms) ≡ opened (ms ++ line_matches line)
  unfolding handle_line
  handle_line-opened line ms = elim (Bool-cases (is_continuation r line)) [
    | inl e ↦ rw e (rw append-nil)
    | inr e ↦ rw e (send_matches-opened line patterns ms)
  ]

  read_lines-opened :
      (line s : Bytes) (off : ℕ) (ms : List Match)
      → read_lines r path patterns now line s off (opened ms)
        ≡ (off + consumed line s, opened (ms ++ all_matches (lines line s)))
  unfolding read_lines
  read_lines-opened line [] off ms = rw (append-nil, add-zero)
  read_lines-opened line (c ∷ s) off ms = elim (Bool-cases (c == b'\n')) [
    | inl e ↦ rw e (
        rw handle_line-opened (
          read_lines-opened [] s (off + (length line + 1)) (ms ++ line_matches line)
          ∙ cc (
            add_assoc off (length line + 1) (consumed [] s),
            append_assoc ms (line_matches line) (all_matches (lines [] s)),
          )))
    | inr e ↦ rw e (read_lines-opened (line ++ c ∷ []) s off ms)
  ]

  -- What one drain does to the offset and the channel, in terms of lines.
  pub drain-lines :
      (s : Bytes) (off : ℕ)
      → drain r path patterns now (some s) off (opened [])
        ≡ (off + consumed [] s, opened (all_matches (lines [] s)))
  unfolding drain
  drain-lines s off = read_lines-opened [] s off []
