-- ===== src/Logtail/Poll.antt =====
-- `Subscribe`, `loop` and the inode keys of internal/logtail/logtail_poll.go and inode_unix.go.
use vpub_exporter.Prelude.{
  ℕ, ◌+◌, ◌-◌, ◌*◌, ◌%◌, ◌^◌, Bool, true, ◌&&◌, not, Option, none, some, List, [], ◌∷◌, ◌++◌, ◌==◌,
  ltb, if◌then◌else◌, ℤ, pos, negsuc, pos_part, neg_part, sub_ℕ, leb_ℤ,
}
use vpub_exporter.Text.{Bytes, codes, bytes_eq, is_empty}
use vpub_exporter.Errors.{Result, ok, err, failure}
use vpub_exporter.Clock.{Time, unix}
use vpub_exporter.Logtail.Drain.{Match, Outbox, Reader, drain}

pub record InodeKey : Type 0 where
  pub dev : ℕ
  pub ino : ℕ

-- os.FileInfo: `sys` is the Stat_t, if it is one.
pub record FileInfo : Type 0 where
  pub sys : Option InodeKey
  pub size : ℕ
  pub mod_time : Time

to_uint64 : ℤ → ℕ
to_uint64 (pos n) = n % 2 ^ 64
to_uint64 (negsuc n) = 2 ^ 64 - 1 - n % 2 ^ 64

-- t.UnixNano() as a uint64
unix_nano : Time → ℕ
unfolding to_uint64 unix
unix_nano t =
    to_uint64 (sub_ℕ (pos_part (unix t) * 1000000000 + t.nsec) (neg_part (unix t) * 1000000000))

inode_of_stub : FileInfo → InodeKey
unfolding unix_nano
inode_of_stub fi = record { dev = fi.size; ino = unix_nano fi.mod_time }

unfoldable pub inode_of : FileInfo → InodeKey
unfolding inode_of_stub
inode_of fi = elim fi.sys [ some k ↦ k | none ↦ inode_of_stub fi ]

abbrev pub same_inode : InodeKey → InodeKey → Bool
same_inode a b = a.dev == b.dev && a.ino == b.ino

-- What the calls of one round of the loop give. A handle is a number that stands for an open file.
-- `read_at h off` is Seek and the reads behind it, as `drain` takes them.
pub record World : Type 0 where
  pub latest_file : Result Bytes
  pub stat : Bytes → Option FileInfo
  pub open_file : Bytes → Option ℕ
  pub stat_handle : ℕ → Option FileInfo
  pub read_at : ℕ → ℕ → Option Bytes
  pub now : Time
  pub room : Option ℕ

-- The variables of the loop; `handle` is f, `none` for nil.
pub record Tail : Type 0 where
  pub handle : Option ℕ
  pub cur_path : Bytes
  pub cur_inode : InodeKey
  pub off : ℕ

abbrev pub initial : Tail
initial = record { handle = none; cur_path = []; cur_inode = record { dev = 0; ino = 0 }; off = 0 }

-- if needReopen { closeF(); nf, openErr := os.OpenFile(…) … }
unfoldable pub reopen : World → Bytes → Tail → Tail
reopen w path s = elim (w.open_file path) [
  | none ↦ record s { handle = none }
  | some h ↦ record {
    handle = some h;
    cur_path = path;
    cur_inode = elim (w.stat_handle h) [ none ↦ s.cur_inode | some fi ↦ inode_of fi ];
    off = 0;
  }
]

-- The check on a file that is open under the same path.
unfoldable pub recheck : World → Bytes → Tail → Tail
unfolding reopen
recheck w path s = elim (w.stat path) [
  | none ↦ s
  | some fi ↦
      if not (same_inode (inode_of fi) s.cur_inode)
      then reopen w path s
      else if ltb fi.size s.off
      then record s { off = 0 }
      else s
]

unfoldable pub follow : World → Bytes → Tail → Tail
unfolding recheck
follow w path s = elim s.handle [
  | none ↦ reopen w path s
  | some h ↦ if bytes_eq path s.cur_path then recheck w path s else reopen w path s
]

-- 1) latest file?
unfoldable pub locate : World → Tail → Tail
unfolding follow
locate w s = elim w.latest_file [
  | err e ↦ s
  | ok path ↦ if is_empty path then s else follow w path s
]

abbrev pub channel : World → Outbox
channel w = record { sent = []; room = w.room; live = true }

module _ (r : Reader) (patterns : List Bytes) where
  -- 2) drain new lines
  unfoldable pub drain_open : World → Tail → Tail × Outbox
  drain_open w s = elim s.handle [
    | none ↦ (s, channel w)
    | some h ↦
        let (off', o') = drain r s.cur_path patterns w.now (w.read_at h s.off) s.off (channel w) in
        (record s { off = off' }, o')
  ]

  -- one round of the loop
  unfoldable pub poll : World → Tail → Tail × Outbox
  poll w s = drain_open w (locate w s)

  -- The matches that the rounds send; a round that finds the context cancelled is the last.
  unfoldable pub loop : List World → Tail → List Match
  loop [] s = []
  loop (w ∷ ws) s =
      let (s', o) = poll w s in let later = loop ws s' in o.sent ++ (if o.live then later else [])

-- PollingTailer, but for what `Reader` holds; intervals are in nanoseconds.
pub record PollingTailer : Type 0 where
  pub has_latest_file_fn : Bool
  pub poll_interval : ℤ

unfoldable pub subscribe : PollingTailer → Result PollingTailer
subscribe t =
    if not t.has_latest_file_fn
    then err (failure (codes "logtail: LatestFileFn is nil"))
    else ok
        (if leb_ℤ t.poll_interval (pos 0) then record t { poll_interval = pos 1000000000 } else t)
