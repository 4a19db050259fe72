-- ===== src/Logtail/Rotation.antt =====
-- Rotation, truncation and failures of a round of the tailer.
use vpub_exporter.Prelude.{
  ℕ, ◌<◌, Bool, true, false, ◌||◌, not, none, some, List, [], ◌≡◌, ◌⊎◌, inl, inr, refl, ap, ◌∙◌,
  arith, ◌+◌, length,
}
use vpub_exporter.Text.{Bytes, bytes_eq, bytes_eq_refl, is_empty}
use vpub_exporter.Errors.{ok, err, Error}
use vpub_exporter.Logtail.Drain.{Reader}
use vpub_exporter.Logtail.Poll.{
  InodeKey, FileInfo, World, Tail, inode_of, same_inode, channel, locate, reopen, drain_open, poll,
}
use vpub_exporter.Logtail.Lines.{lines, consumed, opened, all_matches, drain-lines}
use vpub_exporter.Logtail.Delivery.{Serves, caught_up, drain_open-caught_up}

-- The test by which a round opens the file anew.
abbrev pub moved : Bytes → InodeKey → Tail → Bool
moved path k s = elim s.handle [
  | none ↦ true
  | some h ↦ not (bytes_eq path s.cur_path) || not (same_inode k s.cur_inode)
]

-- A round opens the file of this path: none is open, or one of another path, or one whose path has
-- another inode by now.
abbrev pub Opens : World → Bytes → Tail → Type 0
Opens w path s =
    (s.handle ≡ none)
    ⊎ ((h : ℕ) × (s.handle ≡ some h) × (bytes_eq path s.cur_path ≡ false))
    ⊎ ((h : ℕ) × (fi : FileInfo) × (s.handle ≡ some h)
        × (bytes_eq path s.cur_path ≡ true)
        × (w.stat path ≡ some fi)
        × (same_inode (inode_of fi) s.cur_inode ≡ false))

locate-Opens :
    (w : World) (path : Bytes) (s : Tail)
    → is_empty path ≡ false
    → w.latest_file ≡ ok path
    → Opens w path s
    → locate w s ≡ reopen w path s
unfolding locate
locate-Opens w path s ne latest (inl e) = ground arith
locate-Opens w path s ne latest (inr (inl (h, e, f))) = ground arith
locate-Opens w path s ne latest (inr (inr (h, fi, e, f, g, d))) = ground arith

module _ (path : Bytes) (h : ℕ) (k : InodeKey) (ne : is_empty path ≡ false) where
  pub locate-moved :
      (w : World) (c : Bytes) (s : Tail)
      → Serves path h k w c
      → moved path k s ≡ true
      → locate w s ≡ caught_up path h k []
  unfolding locate
  locate-moved w c s serves m = ground arith

  pub locate-shrunk :
      (w : World) (c : Bytes) (off : ℕ)
      → Serves path h k w c
      → length c < off
      → locate w (record { handle = some h; cur_path = path; cur_inode = k; off = off })
        ≡ caught_up path h k []
  unfolding locate
  locate-shrunk w c off serves m = ground (arith, bytes_eq_refl path)

module _ (r : Reader) (patterns : List Bytes) (path : Bytes) (h : ℕ) (k : InodeKey)
    (ne : is_empty path ≡ false) where
  -- A round that finds another path, or another inode under the path, sends the matches of all
  -- complete lines of the new file. What it does is the same whatever the file followed before holds
  -- behind the offset: lines that were added there since the last round are never matched.
  pub poll_rotation :
      (w : World) (c : Bytes) (s : Tail)
      → Serves path h k w c
      → moved path k s ≡ true
      → poll r patterns w s
        ≡ (caught_up path h k c, opened (all_matches r path patterns w.now (lines [] c)))
  unfolding poll
  poll_rotation w c s serves m =
      rw (locate-moved path h k ne w c s serves m)
        (drain_open-caught_up r patterns path h k w [] c serves)

  -- A round that finds the open file under its path and inode, but shorter than the offset, sends the
  -- matches of all its complete lines, from its start.
  pub poll_truncation :
      (w : World) (c : Bytes) (off : ℕ)
      → Serves path h k w c
      → length c < off
      → poll r patterns w (record { handle = some h; cur_path = path; cur_inode = k; off = off })
        ≡ (caught_up path h k c, opened (all_matches r path patterns w.now (lines [] c)))
  unfolding poll
  poll_truncation w c off serves m =
      rw (locate-shrunk path h k ne w c off serves m)
        (drain_open-caught_up r patterns path h k w [] c serves)

  -- A round that finds another path or inode and cannot open that file closes the old one and sends
  -- nothing; a next round that finds the file and can open it sends the matches of all its complete
  -- lines.
  pub poll_open_failure :
      (w w' : World) (c : Bytes) (s : Tail)
      → w.latest_file ≡ ok path
      → w.open_file path ≡ none
      → (info : FileInfo) → w.stat path ≡ some info
      → moved path (inode_of info) s ≡ true
      → Serves path h k w' c
      → ((poll r patterns w s).1.sent ≡ [])
        × (poll r patterns w' (poll r patterns w s).0
            ≡ (caught_up path h k c, opened (all_matches r path patterns w'.now (lines [] c))))
  poll_open_failure w w' c s latest closed info stat m serves =
      let e : poll r patterns w s ≡ (record s { handle = none }, channel w) =
        unfold poll locate drain_open in ground arith in
      rw e (refl, poll_rotation w' c (record s { handle = none }) serves refl)

  stat_failure-first :
      (w : World) (c : Bytes) (s : Tail)
      → w.latest_file ≡ ok path
      → w.open_file path ≡ some h
      → w.stat_handle h ≡ none
      → w.read_at h 0 ≡ some c
      → w.room ≡ none
      → Opens w path s
      → poll r patterns w s ≡ (
        record {
          handle = some h;
          cur_path = path;
          cur_inode = s.cur_inode;
          off = 0 + consumed [] c;
        },
        opened (all_matches r path patterns w.now (lines [] c)),
      )
  unfolding poll
  stat_failure-first w c s latest opens stat reads room closed =
      let e : locate w s
          ≡ record { handle = some h; cur_path = path; cur_inode = s.cur_inode; off = 0 } =
        locate-Opens w path s ne latest closed ∙ unfold reopen in ground arith in
      rw e (unfold drain_open in rw (reads, room, drain-lines r path patterns w.now c 0) refl)

  -- When a round opens the newest file, whether none was open, or one of another path, or one whose
  -- path has another inode by now, and Stat of the new file fails, that round sends the matches of all
  -- its complete lines, if the context is not cancelled; and if the inode that the tailer remembers is
  -- not that of the new file, the next round that finds the same content and is not cancelled sends
  -- all of them a second time.
  pub poll_stat_failure :
      (w w' : World) (c : Bytes) (s : Tail)
      → Opens w path s
      → w.latest_file ≡ ok path
      → w.open_file path ≡ some h
      → w.stat_handle h ≡ none
      → w.read_at h 0 ≡ some c
      → w.room ≡ none
      → same_inode k s.cur_inode ≡ false
      → Serves path h k w' c
      → ((poll r patterns w s).1 ≡ opened (all_matches r path patterns w.now (lines [] c)))
        × ((poll r patterns w' (poll r patterns w s).0).1
            ≡ opened (all_matches r path patterns w'.now (lines [] c)))
  poll_stat_failure w w' c s closed latest opens stat reads room other serves =
      rw (stat_failure-first w c s latest opens stat reads room closed)
        (refl, ap (λ x. x.1) (poll_rotation w' c _ serves (ground (arith, bytes_eq_refl path))))

-- With no newest file, or an error in finding it, a round reads on in the file that is open.
pub poll_no_latest :
    (r : Reader) (patterns : List Bytes) (w : World) (s : Tail)
    → (w.latest_file ≡ ok []) ⊎ ((e : Error) × (w.latest_file ≡ err e))
    → poll r patterns w s ≡ drain_open r patterns w s
unfolding poll locate
poll_no_latest r patterns w s h = ground arith
