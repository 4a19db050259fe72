-- ===== src/Logtail/Delivery.antt =====
-- Following one file that only grows: over any number of rounds, whatever the sizes of the pieces,
-- each complete line of the file is matched once, in order.
use vpub_exporter.Prelude.{
  ℕ, ◌≤◌, false, none, some, List, [], ◌∷◌, ◌++◌, ◌≡◌, refl, sym, ap, ◌∙◌, arith, map,
  if◌then◌else◌, length, drop, append_assoc, append-nil, Bool-cases, inl, inr, length-append,
}
use mathlib.Core.List.{map-append}
use vpub_exporter.Text.{Bytes, bytes_eq_refl, is_empty}
use vpub_exporter.Errors.{ok}
use vpub_exporter.Clock.{Time}
use vpub_exporter.Regexp.{match_string}
use vpub_exporter.Logtail.Drain.{Match, Reader, is_continuation, found}
use vpub_exporter.Logtail.Poll.{
  InodeKey, FileInfo, World, Tail, inode_of, initial, locate, drain_open, poll, loop,
}
use vpub_exporter.Logtail.Lines.{
  lines, partial_line, consumed, opened, matches_of, all_matches, drain-lines, drop-consumed,
  consumed-add-partial,
}
use vpub_exporter.Logtail.Partial.{lines-resume, consumed-resume}

-- What a match says, but for its time.
pub record Delivery : Type 0 where
  pub file : Bytes
  pub line : Bytes
  pub pattern : Bytes

abbrev pub delivery : Match → Delivery
delivery m = record { file = m.file; line = m.line; pattern = m.pattern }

-- All calls of a round see the one file at `path`, open as `h`, with the content `c`.
pub record Serves (path : Bytes) (h : ℕ) (k : InodeKey) (w : World) (c : Bytes) : Type 0 where
  pub info : FileInfo
  pub latest_is : w.latest_file ≡ ok path
  pub stat_is : w.stat path ≡ some info
  pub inode_is : inode_of info ≡ k
  pub size_is : info.size ≡ length c
  pub opens : w.open_file path ≡ some h
  pub handle_is : w.stat_handle h ≡ some info
  pub reads : (off : ℕ) → w.read_at h off ≡ some (drop off c)
  pub not_cancelled : w.room ≡ none

-- The content grows from `c`, by any bytes before each round, to `z`.
pub data Growing (path : Bytes) (h : ℕ) (k : InodeKey) : Bytes → List World → Bytes → Type 0 where
  done : {c : Bytes} → Growing path h k c [] c
  more :
      {c z : Bytes} {w : World} {ws : List World} (d : Bytes)
      → Serves path h k w (c ++ d)
      → Growing path h k (c ++ d) ws z
      → Growing path h k c (w ∷ ws) z

module _ (r : Reader) (patterns : List Bytes) (path : Bytes) where
  -- The deliveries of a line: one for each pattern that matches, unless it is a continuation.
  abbrev pub matching : Bytes → List Bytes → List Delivery
  matching line [] = []
  matching line (p ∷ ps) =
      if match_string r.engine p line
      then record { file = path; line = line; pattern = p } ∷ matching line ps
      else matching line ps

  abbrev pub deliveries : List Bytes → List Delivery
  deliveries [] = []
  deliveries (l ∷ ls) = (if is_continuation r l then [] else matching l patterns) ++ deliveries ls

  pub deliveries-append :
      (ls ks : List Bytes) → deliveries (ls ++ ks) ≡ deliveries ls ++ deliveries ks
  deliveries-append [] ks = refl
  deliveries-append (l ∷ ls) ks = simp (deliveries-append ls ks, append_assoc)

  matches_of-matching :
      (now : Time) (l : Bytes) (ps : List Bytes)
      → map delivery (matches_of r path patterns now l ps) ≡ matching l ps
  unfolding found
  matches_of-matching now l [] = refl
  matches_of-matching now l (p ∷ ps) = elim (Bool-cases (match_string r.engine p l)) [
    | inl e ↦
        rw e
          (ap (◌∷◌ (record { file = path; line = l; pattern = p })) (matches_of-matching now l ps))
    | inr e ↦ rw e (matches_of-matching now l ps)
  ]

  pub all_matches-deliveries :
      (now : Time) (ls : List Bytes)
      → map delivery (all_matches r path patterns now ls) ≡ deliveries ls
  all_matches-deliveries now [] = refl
  all_matches-deliveries now (l ∷ ls) = elim (Bool-cases (is_continuation r l)) [
    | inl e ↦ rw e (all_matches-deliveries now ls)
    | inr e ↦ rw e (
        map-append delivery (matches_of r path patterns now l patterns)
          (all_matches r path patterns now ls)
        ∙ rw (matches_of-matching, all_matches-deliveries now ls))
  ]

module _ (path : Bytes) (h : ℕ) (k : InodeKey) where
  -- The loop's variables once the complete lines of `c` are read.
  abbrev pub caught_up : Bytes → Tail
  caught_up c = record { handle = some h; cur_path = path; cur_inode = k; off = consumed [] c }

-- The complete lines of a text are no longer than the text.
consumed-le : (c d : Bytes) → consumed [] c ≤ length (c ++ d)
consumed-le c d = omega (arith, consumed-add-partial [] c, length-append c d)

module _ (path : Bytes) (h : ℕ) (k : InodeKey) (ne : is_empty path ≡ false) where
  -- While the file stays in place the round keeps its variables.
  locate-caught_up :
      (w : World) (c d : Bytes)
      → Serves path h k w (c ++ d)
      → locate w (caught_up path h k c) ≡ caught_up path h k c
  unfolding locate
  locate-caught_up w c d s = ground (arith, bytes_eq_refl path, consumed-le c d)

  -- The first round opens the file at its start.
  locate-initial :
      (w : World) (c : Bytes) → Serves path h k w c → locate w initial ≡ caught_up path h k []
  unfolding locate
  locate-initial w c s = ground arith

module _ (r : Reader) (patterns : List Bytes) (path : Bytes) (h : ℕ) (k : InodeKey) where
  pub drain_open-caught_up :
      (w : World) (c d : Bytes)
      → Serves path h k w (c ++ d)
      → drain_open r patterns w (caught_up path h k c) ≡ (
        caught_up path h k (c ++ d),
        opened (all_matches r path patterns w.now (lines [] (partial_line [] c ++ d))),
      )
  unfolding drain_open
  drain_open-caught_up w c d s =
      let unread : drop (consumed [] c) (c ++ d) ≡ partial_line [] c ++ d = drop-consumed [] c d in
      rw (s.reads, unread, s.not_cancelled, drain-lines, consumed-resume c d)

module _ (r : Reader) (patterns : List Bytes) (path : Bytes) (h : ℕ) (k : InodeKey)
    (ne : is_empty path ≡ false) where
  -- The rounds of a growing file send what its new lines give, and hand over to later rounds.
  pub loop-Growing :
      (c : Bytes) {ws : List World} {z : Bytes} (later : List World)
      → Growing path h k c ws z
      → deliveries r patterns path (lines [] c)
          ++ map delivery (loop r patterns (ws ++ later) (caught_up path h k c))
        ≡ deliveries r patterns path (lines [] z)
          ++ map delivery (loop r patterns later (caught_up path h k z))
  unfolding loop poll
  loop-Growing c later done = refl
  loop-Growing c later (more {w = w} {ws = ws} d s g) =
      let new : List Bytes = lines [] (partial_line [] c ++ d) in
      let old : List Delivery = deliveries r patterns path (lines [] c) in
      let rest : List Match = loop r patterns (ws ++ later) (caught_up path h k (c ++ d)) in
      rw (locate-caught_up path h k ne w c d s, drain_open-caught_up r patterns path h k w c d s)
        (ap (◌++◌ old) (
            map-append delivery (all_matches r path patterns w.now new) rest
            ∙ ap (λ m. m ++ map delivery rest) (all_matches-deliveries r patterns path w.now new))
          ∙ sym (append_assoc old (deliveries r patterns path new) (map delivery rest))
          ∙ ap (λ m. m ++ map delivery rest)
              (sym (deliveries-append r patterns path (lines [] c) new)
                ∙ ap (deliveries r patterns path) (sym (lines-resume c d)))
          ∙ loop-Growing (c ++ d) later g)

  -- A round from the file's start, and the rounds behind it.
  pub loop-opened :
      (s : Tail) (w : World) {ws : List World} (c : Bytes) {z : Bytes} (later : List World)
      → locate w s ≡ caught_up path h k []
      → Serves path h k w c
      → Growing path h k c ws z
      → map delivery (loop r patterns (w ∷ ws ++ later) s)
        ≡ deliveries r patterns path (lines [] z)
          ++ map delivery (loop r patterns later (caught_up path h k z))
  unfolding loop poll
  loop-opened s w {ws} c later e serves g =
      let rest : List Match = loop r patterns (ws ++ later) (caught_up path h k c) in
      rw (e, drain_open-caught_up r patterns path h k w [] c serves)
        (map-append delivery (all_matches r path patterns w.now (lines [] c)) rest
          ∙ ap (λ m. m ++ map delivery rest)
              (all_matches-deliveries r patterns path w.now (lines [] c))
          ∙ loop-Growing c later g)

  -- Whatever a growing file receives between the rounds, the tailer sends each pattern's match for
  -- each complete line of the file at the end exactly once, in the file's order, and no match for
  -- a continuation line or for the partial last line. Each round finds the same file under the same
  -- inode as the newest and can read it, the file only grows, and the context is not cancelled. A
  -- match is its file, line and pattern here, without its time.
  pub loop_exactly_once :
      (w : World) (ws : List World) (c z : Bytes)
      → Serves path h k w c
      → Growing path h k c ws z
      → map delivery (loop r patterns (w ∷ ws) initial) ≡ deliveries r patterns path (lines [] z)
  loop_exactly_once w ws c z s g =
      ap (λ us. map delivery (loop r patterns (w ∷ us) initial)) (sym (append-nil ws))
      ∙ loop-opened initial w c [] (locate-initial path h k ne w c s) s g
      ∙ unfold loop in append-nil (deliveries r patterns path (lines [] z))
