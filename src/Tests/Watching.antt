-- ===== src/Tests/Watching.antt =====
-- Examples for the tailer on a directory.
use vpub_exporter.Prelude.{true, false, some, List, [], ◌∷◌, ◌++◌, ◌≡◌, refl, map, arith}
use vpub_exporter.Text.{Bytes, codes, join}
use vpub_exporter.Errors.{ok}
use vpub_exporter.Clock.{Time, after}
use vpub_exporter.Logfs.{DirEntry, latest_mtime}
use vpub_exporter.Logfs.Newest.{IsFirst, IsFile, IsNotAfter}
use vpub_exporter.Logtail.Poll.{World, initial, loop}
use vpub_exporter.Logtail.Lines.{lines}
use vpub_exporter.Logtail.Delivery.{delivery, deliveries}
use vpub_exporter.Main.{tail_latest}
use vpub_exporter.Main.Tailing.{run_reader}
use vpub_exporter.Main.Tailing.Newest.{SeesNewest, over, again, loop_newest}
use vpub_exporter.Tests.Ideal.{literal, moment, key, serving, serving-Serves}

abbrev dir : Bytes
dir = codes "/l"

abbrev today : Bytes
today = codes "2"

abbrev file : Bytes → Time → DirEntry
file name t = record {
  name = name;
  is_dir = false;
  info = some (record { is_regular = true; mod_time = t });
}

-- A younger directory, yesterday's file, today's, and another of the same time.
abbrev entries : List DirEntry
entries =
    record (file (codes "0") (moment 99)) { is_dir = true }
    ∷ file (codes "1") (moment 5)
    ∷ file today (moment 9)
    ∷ file (codes "3") (moment 9)
    ∷ []

abbrev round : Bytes → World
round c = record (serving (join dir today) 3 key c) {
  latest_file = tail_latest (λ d. latest_mtime (ok entries)) dir;
}

file-time : (n : Bytes) (t u : Time) → IsFile (file n t) u → u ≡ t
file-time n t u f = let same = f.1 in cc

today-IsFirst : IsFirst (moment 9) today entries
today-IsFirst = record {
  before =
      record (file (codes "0") (moment 99)) { is_dir = true } ∷ file (codes "1") (moment 5) ∷ [];
  entry = file today (moment 9);
  behind = file (codes "3") (moment 9) ∷ [];
  splits = refl;
  is_file = (refl, refl);
  name_is = refl;
  older = (
    λ u f. absurd (ground (arith, f.0)),
    (λ u f. rw (file-time (codes "1") (moment 5) u f) refl, tt),
  );
}

not_after : (n : Bytes) (t : Time) → after t (moment 9) ≡ false → IsNotAfter (moment 9) (file n t)
not_after n t h u f = rw (file-time n t u f) h

round-SeesNewest : (c : Bytes) → SeesNewest dir today 3 key (round c) c
round-SeesNewest c = record {
  entries = entries;
  time = moment 9;
  named = (refl, (refl, (refl, (refl, tt))));
  first = today-IsFirst;
  newest = (
    λ u f. absurd (ground (arith, f.0)),
    (
      not_after (codes "1") (moment 5) refl,
      (not_after today (moment 9) refl, (not_after (codes "3") (moment 9) refl, tt)),
    ),
  );
  since = refl;
  latest_is = refl;
  served = serving-Serves (join dir today) 3 key c;
}

abbrev start : Bytes
start = codes "a vote\nhalf a v"

abbrev more_of_it : Bytes
more_of_it = codes "ote\n"

abbrev patterns : List Bytes
patterns = codes "vote" ∷ []

loop_newest_example :
    map delivery
      (loop (run_reader literal) patterns (round start ∷ round (start ++ more_of_it) ∷ []) initial)
    ≡ deliveries (run_reader literal) patterns (join dir today) (lines [] (start ++ more_of_it))
loop_newest_example =
    loop_newest dir today 3 key literal patterns (round start) (round (start ++ more_of_it) ∷ [])
      start (start ++ more_of_it) (round-SeesNewest start)
      (again more_of_it (round-SeesNewest (start ++ more_of_it)) over)
