-- ===== src/Logtail/Cancel.antt =====
-- The drain of internal/logtail/logtail_poll.go while the context is cancelled.
use vpub_exporter.Prelude.{
  ℕ, zero, suc, ◌+◌, Bool, true, false, none, some, List, [], ◌∷◌, ◌++◌, ◌≡◌, refl, sym, ap, ◌∙◌,
  arith, ◌==◌, if◌then◌else◌, length, take, leb, append_assoc, append-nil, Bool-cases, inl, inr,
}
use vpub_exporter.Text.{Bytes}
use vpub_exporter.Clock.{Time}
use vpub_exporter.Regexp.{match_string}
use vpub_exporter.Logtail.Drain.{
  Match, Outbox, Reader, found, is_continuation, send, send_matches, handle_line, read_lines, drain,
}
use vpub_exporter.Logtail.Lines.{lines, matches_of, line_matches, all_matches}

if_true {ℓ} : {A : Type ℓ} (b : Bool) (x y : A) → b ≡ true → (if b then x else y) ≡ x
if_true true x y h = refl
if_true false x y h = cc

if_false {ℓ} : {A : Type ℓ} (b : Bool) (x y : A) → b ≡ false → (if b then x else y) ≡ y
if_false false x y h = refl
if_false true x y h = cc

-- Sends in order, up to the first that finds the context cancelled.
abbrev pub send_all : List Match → Outbox → Outbox
send_all [] o = o
send_all (m ∷ ms) o = let rest = send_all ms (send o m) in if o.live then rest else o

send_all-dead : (ms : List Match) (o : Outbox) → o.live ≡ false → send_all ms o ≡ o
send_all-dead [] o d = refl
send_all-dead (m ∷ ms) o d = if_false o.live (send_all ms (send o m)) o d

send_all-live :
    (m : Match) (ms : List Match) (o : Outbox)
    → o.live ≡ true
    → send_all (m ∷ ms) o ≡ send_all ms (send o m)
send_all-live m ms o l = if_true o.live (send_all ms (send o m)) o l

send_all-append :
    (ms ns : List Match) (o : Outbox) → send_all (ms ++ ns) o ≡ send_all ns (send_all ms o)
send_all-append [] ns o = refl
send_all-append (m ∷ ms) ns o = elim (Bool-cases o.live) [
  | inl e ↦
      send_all-live m (ms ++ ns) o e
      ∙ send_all-append ms ns (send o m)
      ∙ ap (send_all ns) (sym (send_all-live m ms o e))
  | inr e ↦
      send_all-dead (m ∷ (ms ++ ns)) o e
      ∙ sym (send_all-dead ns o e)
      ∙ ap (send_all ns) (sym (send_all-dead (m ∷ ms) o e))
]

-- A channel that takes n more sends before the context is cancelled.
abbrev pub bounded : List Match → ℕ → Outbox
bounded ms n = record { sent = ms; room = some n; live = true }

send_all-bounded :
    (ms sent : List Match) (n : ℕ)
    → ((send_all ms (bounded sent n)).sent ≡ sent ++ take n ms)
      × ((send_all ms (bounded sent n)).live ≡ leb (length ms) n)
unfolding send
send_all-bounded [] sent zero = (sym (append-nil sent), refl)
send_all-bounded [] sent (suc n) = (sym (append-nil sent), ground arith)
send_all-bounded (m ∷ ms) sent zero =
    let dead : Outbox = record { sent = sent; room = none; live = false } in
    let e : send_all ms dead ≡ dead = send_all-dead ms dead refl in
    (ap (λ o. o.sent) e ∙ sym (append-nil sent), ap (λ o. o.live) e ∙ ground arith)
send_all-bounded (m ∷ ms) sent (suc n) =
    let rest = send_all-bounded ms (sent ++ m ∷ []) n in
    (rest.0 ∙ append_assoc sent (m ∷ []) (take n ms), rest.1 ∙ ground arith)

module _ (r : Reader) (path : Bytes) (patterns : List Bytes) (now : Time) where
  live_or_stop :
      (ms : List Match) (o sent : Outbox)
      → (o.live ≡ true → sent ≡ send_all ms o)
      → (if o.live then sent else o) ≡ send_all ms o
  live_or_stop ms o sent h = elim (Bool-cases o.live) [
    | inl e ↦ if_true o.live sent o e ∙ h e
    | inr e ↦ if_false o.live sent o e ∙ sym (send_all-dead ms o e)
  ]

  send_matches-all :
      (line : Bytes) (ps : List Bytes) (o : Outbox)
      → o.live ≡ true
      → send_matches r path patterns now line ps o
        ≡ send_all (matches_of r path patterns now line ps) o
  unfolding send_matches
  send_matches-all line [] o l = refl
  send_matches-all line (p ∷ ps) o l =
      let rest : List Match = matches_of r path patterns now line ps in
      let after : Outbox = send o (found r path patterns now line p) in
      elim (Bool-cases (match_string r.engine p line)) [
        | inr e ↦ rw e (send_matches-all line ps o l)
        | inl e ↦ rw e (
            live_or_stop rest after (send_matches r path patterns now line ps after)
              (λ a. send_matches-all line ps after a)
            ∙ sym (send_all-live (found r path patterns now line p) rest o l))
      ]

  handle_line-all :
      (line : Bytes) (o : Outbox)
      → o.live ≡ true
      → handle_line r path patterns now line o ≡ send_all (line_matches r path patterns now line) o
  unfolding handle_line
  handle_line-all line o l = elim (Bool-cases (is_continuation r line)) [
    | inl e ↦ rw e
    | inr e ↦ rw e (send_matches-all line patterns o l)
  ]

  read_lines-all :
      (line s : Bytes) (off : ℕ) (o : Outbox)
      → o.live ≡ true
      → (read_lines r path patterns now line s off o).1
        ≡ send_all (all_matches r path patterns now (lines line s)) o
  unfolding read_lines
  read_lines-all line [] off o l = refl
  read_lines-all line (c ∷ s) off o l =
      let after : Outbox = handle_line r path patterns now line o in
      let later : List Match = all_matches r path patterns now (lines [] s) in
      let next : ℕ × Outbox = read_lines r path patterns now [] s (off + (length line + 1)) after in
      let stop : ℕ × Outbox = (off + (length line + 1), after) in
      let same =
        ap (send_all later) (handle_line-all line o l)
        ∙ sym (send_all-append (line_matches r path patterns now line) later o) in
      elim (Bool-cases (c == b'\n')) [
        | inr e ↦ rw e (read_lines-all (line ++ c ∷ []) s off o l)
        | inl e ↦ elim (Bool-cases after.live) [
          | inl a ↦ rw e (
              ap {A = ℕ × Outbox} (λ x. x.1) (if_true after.live next stop a)
              ∙ read_lines-all [] s (off + (length line + 1)) after a
              ∙ same)
          | inr a ↦ rw e (
              ap {A = ℕ × Outbox} (λ x. x.1) (if_false after.live next stop a)
              ∙ sym (send_all-dead later after a)
              ∙ same)
        ]
      ]

  -- When the context is cancelled after n sends, the drain has sent the first n of the matches that
  -- the complete lines give, in order, or all of them if there are not more, and it stops early only
  -- if there are more.
  pub drain-take :
      (s : Bytes) (off n : ℕ)
      → ((drain r path patterns now (some s) off (bounded [] n)).1.sent
          ≡ take n (all_matches r path patterns now (lines [] s)))
        × ((drain r path patterns now (some s) off (bounded [] n)).1.live
            ≡ leb (length (all_matches r path patterns now (lines [] s))) n)
  unfolding drain
  drain-take s off n =
      rw (read_lines-all [] s off (bounded [] n) refl)
        (send_all-bounded (all_matches r path patterns now (lines [] s)) [] n)
