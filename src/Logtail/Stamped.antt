-- ===== src/Logtail/Stamped.antt =====
-- The time of a match: whatever the tailer meets, a match of a line that has a time stamp has that
-- time.
use vpub_exporter.Prelude.{
  All-append, All-map, refl, ap, ◌∙◌, ℕ, zero, suc, Bool, true, false, none, some, Option-cases,
  inl, inr, List, [], ◌∷◌, ◌++◌, ◌≡◌, All, if◌then◌else◌, length, ◌+◌, ◌==◌, Option,
}
use mathlib.Core.List.{Mem, mem-cons_self, mem-cons_of_mem}
use vpub_exporter.Text.{Bytes}
use vpub_exporter.Clock.{Time}
use vpub_exporter.Regexp.{match_string}
use vpub_exporter.Logtail.Timestamp.{parse_line_timestamp}
use vpub_exporter.Logtail.Drain.{
  Match, Outbox, Reader, send, line_time, found, is_continuation, send_matches, handle_line,
  read_lines, drain,
}
use vpub_exporter.Logtail.Poll.{World, Tail, channel, locate, drain_open, poll, loop}

-- The time of a match that a round at some time sends: the line's own, or else the round's.
abbrev pub TimedAt : Time → Match → Type 0
TimedAt now m = m.at ≡ elim (parse_line_timestamp m.line) [ some t ↦ t | none ↦ now ]

-- The match has the time that one of the rounds gives it.
abbrev pub TimedIn : List World → Match → Type 0
TimedIn ws m = (w : World) × Mem w ws × TimedAt w.now m

-- A match of a line that has a time stamp has that time.
abbrev pub IsStamped : Match → Type 0
IsStamped m = (t : Time) → parse_line_timestamp m.line ≡ some t → m.at ≡ t

TimedIn-IsStamped : (ws : List World) (m : Match) → TimedIn ws m → IsStamped m
TimedIn-IsStamped ws m (w, mem, timed) t e =
    timed ∙ ap (λ (o : Option Time). elim o [ some t ↦ t | none ↦ w.now ]) e

AllTimed : Time → Outbox → Type 0
AllTimed now o = All (TimedAt now) o.sent

either {ℓ κ} :
    {A : Type ℓ} (Q : A → Type κ) (b : Bool) {x y : A} → Q x → Q y → Q (if b then x else y)
either Q true h k = h
either Q false h k = k

send-AllTimed :
    (now : Time) (o : Outbox) (m : Match) → AllTimed now o → TimedAt now m → AllTimed now (send o m)
unfolding AllTimed send
send-AllTimed now o m h k = elim (Option-cases o.room) [
  | inl e ↦ rw (e, send) (All-append (TimedAt now) o.sent (m ∷ []) h (k, tt))
  | inr (zero, e) ↦ rw (e, send) h
  | inr (suc n, e) ↦ rw (e, send) (All-append (TimedAt now) o.sent (m ∷ []) h (k, tt))
]

module _ (r : Reader) (path : Bytes) (patterns : List Bytes) (now : Time) where
  found-TimedAt : (line p : Bytes) → TimedAt now (found r path patterns now line p)
  unfolding found line_time
  found-TimedAt line p = refl

  send_matches-AllTimed :
      (line : Bytes) (ps : List Bytes) (o : Outbox)
      → AllTimed now o
      → AllTimed now (send_matches r path patterns now line ps o)
  unfolding send_matches
  send_matches-AllTimed line [] o h = h
  send_matches-AllTimed line (p ∷ ps) o h =
      let sent = send o (found r path patterns now line p) in
      let stamped =
        send-AllTimed now o (found r path patterns now line p) h (found-TimedAt line p) in
      either (AllTimed now) (match_string r.engine p line)
        (either (AllTimed now) sent.live (send_matches-AllTimed line ps sent stamped) stamped)
        (send_matches-AllTimed line ps o h)

  handle_line-AllTimed :
      (line : Bytes) (o : Outbox)
      → AllTimed now o
      → AllTimed now (handle_line r path patterns now line o)
  unfolding handle_line
  handle_line-AllTimed line o h =
      either (AllTimed now) (is_continuation r line) h (send_matches-AllTimed line patterns o h)

  read_lines-AllTimed :
      (line s : Bytes) (off : ℕ) (o : Outbox)
      → AllTimed now o
      → AllTimed now (read_lines r path patterns now line s off o).1
  unfolding read_lines
  read_lines-AllTimed line [] off o h = h
  read_lines-AllTimed line (c ∷ s) off o h =
      let Q = λ (x : ℕ × Outbox). AllTimed now x.1 in
      let o' = handle_line r path patterns now line o in
      let stamped = handle_line-AllTimed line o h in
      either Q (c == b'\n')
        (either Q o'.live (read_lines-AllTimed [] s (off + (length line + 1)) o' stamped) stamped)
        (read_lines-AllTimed (line ++ c ∷ []) s off o h)

  drain-AllTimed :
      (s : Option Bytes) (off : ℕ) (o : Outbox)
      → AllTimed now o
      → AllTimed now (drain r path patterns now s off o).1
  unfolding drain
  drain-AllTimed none off o h = h
  drain-AllTimed (some s) off o h = read_lines-AllTimed [] s off o h

module _ (r : Reader) (patterns : List Bytes) where
  drain_open-AllTimed : (w : World) (s : Tail) → AllTimed w.now (drain_open r patterns w s).1
  unfolding drain_open
  drain_open-AllTimed w s = elim (Option-cases s.handle) [
    | inl e ↦ rw (e, drain_open) (unfold AllTimed in tt)
    | inr (h, e) ↦
        rw (e, drain_open)
          (drain-AllTimed r s.cur_path patterns w.now (w.read_at h s.off) s.off (channel w)
            (unfold AllTimed in tt))
  ]

  -- Whatever the rounds find and however they fail, every match that the tailer sends has the time
  -- stamp of its line, or, if the line has none, the time of one of the rounds.
  pub loop-TimedIn : (ws : List World) (s : Tail) → All (TimedIn ws) (loop r patterns ws s)
  unfolding loop poll AllTimed
  loop-TimedIn [] s = tt
  loop-TimedIn (w ∷ ws) s =
      let p = poll r patterns w s in
      let later = if p.1.live then loop r patterns ws p.0 else [] in
      All-append (TimedIn (w ∷ ws)) p.1.sent later
        (All-map (TimedAt w.now) (TimedIn (w ∷ ws)) (λ m h. (w, mem-cons_self, h)) p.1.sent
          (drain_open-AllTimed w (locate w s)))
        (either (All (TimedIn (w ∷ ws))) p.1.live
          (All-map (TimedIn ws) (TimedIn (w ∷ ws)) (λ m (v, mem, h). (v, mem-cons_of_mem w mem, h))
            (loop r patterns ws p.0) (loop-TimedIn ws p.0))
          tt)

  pub loop-IsStamped : (ws : List World) (s : Tail) → All IsStamped (loop r patterns ws s)
  loop-IsStamped ws s =
      All-map (TimedIn ws) IsStamped (TimedIn-IsStamped ws) (loop r patterns ws s)
        (loop-TimedIn ws s)
