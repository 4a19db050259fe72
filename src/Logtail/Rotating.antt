-- ===== src/Logtail/Rotating.antt =====
-- Following a log over its life: files that grow, rotate and are truncated, one after another.
use vpub_exporter.Prelude.{
  ℕ, ◌<◌, true, false, none, List, [], ◌∷◌, ◌++◌, ◌≡◌, ◌⊎◌, refl, ap, ◌∙◌, arith, map, length,
}
use vpub_exporter.Text.{Bytes, is_empty}
use vpub_exporter.Errors.{ok, err, Error}
use vpub_exporter.Logtail.Drain.{Reader}
use vpub_exporter.Logtail.Poll.{InodeKey, World, Tail, channel, initial, drain_open, loop}
use vpub_exporter.Logtail.Lines.{lines, consumed}
use vpub_exporter.Logtail.Delivery.{
  Delivery, delivery, deliveries, Serves, Growing, caught_up, loop-opened,
}
use vpub_exporter.Logtail.Rotation.{moved, locate-moved, locate-shrunk, poll_no_latest}

-- A file as the tailer saw it last: its path and its content.
abbrev pub Segment : Type 0
Segment = Bytes × Bytes

-- The rounds from a state of the loop on, and the files that they see: rounds before there is any
-- file; a file under another path or inode than before, or the same one truncated below the offset,
-- with the rounds in which it grows.
pub data Rotating : Tail → List World → List Segment → Type 0 where
  ended : {s : Tail} → Rotating s [] []
  waiting :
      {s : Tail} {w : World} {ws : List World} {segments : List Segment}
      → s.handle ≡ none
      → (w.latest_file ≡ ok []) ⊎ ((e : Error) × (w.latest_file ≡ err e))
      → Rotating s ws segments
      → Rotating s (w ∷ ws) segments
  rotated :
      {s : Tail} {ws later : List World} {segments : List Segment} (path : Bytes) (h : ℕ)
      (k : InodeKey) (w : World) (c z : Bytes)
      → is_empty path ≡ false
      → moved path k s ≡ true
      → Serves path h k w c
      → Growing path h k c ws z
      → Rotating (caught_up path h k z) later segments
      → Rotating s (w ∷ ws ++ later) ((path, z) ∷ segments)
  truncated :
      {ws later : List World} {segments : List Segment} (path : Bytes) (h : ℕ) (k : InodeKey)
      (w : World) (before c z : Bytes)
      → is_empty path ≡ false
      → length c < consumed [] before
      → Serves path h k w c
      → Growing path h k c ws z
      → Rotating (caught_up path h k z) later segments
      → Rotating (caught_up path h k before) (w ∷ ws ++ later) ((path, z) ∷ segments)

module _ (r : Reader) (patterns : List Bytes) where
  -- The deliveries of one file after the other.
  abbrev pub all_deliveries : List Segment → List Delivery
  all_deliveries [] = []
  all_deliveries ((path, c) ∷ segments) =
      deliveries r patterns path (lines [] c) ++ all_deliveries segments

  drain_closed :
      (w : World) (s : Tail) → s.handle ≡ none → drain_open r patterns w s ≡ (s, channel w)
  unfolding drain_open
  drain_closed w s e = ground arith

  loop_waiting :
      (w : World) (ws : List World) (s : Tail)
      → s.handle ≡ none
      → (w.latest_file ≡ ok []) ⊎ ((e : Error) × (w.latest_file ≡ err e))
      → loop r patterns (w ∷ ws) s ≡ loop r patterns ws s
  unfolding loop
  loop_waiting w ws s closed h = rw (poll_no_latest r patterns w s h, drain_closed w s closed) refl

  rotating_from :
      (s : Tail) {ws : List World} {segments : List Segment}
      → Rotating s ws segments
      → map delivery (loop r patterns ws s) ≡ all_deliveries segments
  rotating_from s ended = unfold loop in refl
  rotating_from s (waiting {w = w} {ws = ws} closed h later) =
      rw (loop_waiting w ws s closed h) (rotating_from s later)
  rotating_from s (rotated {later = later} path h k w c z named m serves g rest) =
      loop-opened r patterns path h k named s w c later (locate-moved path h k named w c s serves m)
        serves g
      ∙ ap (◌++◌ (deliveries r patterns path (lines [] z)))
          (rotating_from (caught_up path h k z) rest)
  rotating_from s (truncated {later = later} path h k w before c z named m serves g rest) =
      loop-opened r patterns path h k named (caught_up path h k before) w c later
        (locate-shrunk path h k named w c (consumed [] before) serves m) serves g
      ∙ ap (◌++◌ (deliveries r patterns path (lines [] z)))
          (rotating_from (caught_up path h k z) rest)

  -- However the log rotates and is truncated, the tailer sends, file by file, each pattern's match
  -- for each complete line exactly once and in order, and no other match: the matches of a file are
  -- those of its content in the last round that saw it. The rounds begin with any number that find
  -- no newest file. A file follows the one before it under another path or inode, or as the same
  -- file, shorter than what was read of it. While a file is the newest it only grows, every call on
  -- it succeeds, and the context is not cancelled.
  pub loop_rotating :
      (ws : List World) (segments : List Segment)
      → Rotating initial ws segments
      → map delivery (loop r patterns ws initial) ≡ all_deliveries segments
  loop_rotating ws segments rounds = rotating_from initial rounds
