-- ===== src/Logfs/Newest.antt =====
-- `LatestMtime` returns the first of the newest regular files.
use vpub_exporter.Prelude.{
  All-middle, true, false, some, List, [], ◌∷◌, ◌++◌, ◌≡◌, ◌⊎◌, inl, inr, refl, ap, arith, All,
}
use vpub_exporter.Text.{Bytes, is_empty}
use vpub_exporter.Errors.{ok}
use vpub_exporter.Clock.{Time, zero_time, after}
use vpub_exporter.Logfs.{DirEntry, Best, consider, consider_all, latest_mtime}

-- A regular file whose information can be read, with its time.
abbrev pub IsFile : DirEntry → Time → Type 0
IsFile e t = (e.is_dir ≡ false) × (e.info ≡ some (record { is_regular = true; mod_time = t }))

-- The entry is no regular file with a time after `t`.
abbrev pub IsNotAfter : Time → DirEntry → Type 0
IsNotAfter t e = (u : Time) → IsFile e u → after u t ≡ false

after_trans : (a b c : Time) → after a b ≡ false → after b c ≡ false → after a c ≡ false
after_trans a b c = ground arith

after_asym : (a b : Time) → after a b ≡ true → after b a ≡ false
after_asym a b = ground arith

after_irrefl : (a : Time) → after a a ≡ false
after_irrefl a = ground arith

-- The best file so far does not get older.
consider-le : (b : Best) (e : DirEntry) → after b.best_t (consider b e).best_t ≡ false
unfolding consider
consider-le b e = ground arith

consider-IsNotAfter : (b : Best) (e : DirEntry) → IsNotAfter (consider b e).best_t e
unfolding consider
consider-IsNotAfter b e u (f, i) = rw (f, i) (ground arith)

consider_all-le :
    (b : Best) (es : List DirEntry) → after b.best_t (consider_all b es).best_t ≡ false
unfolding consider_all
consider_all-le b [] = after_irrefl b.best_t
consider_all-le b (e ∷ es) =
    after_trans b.best_t (consider b e).best_t (consider_all (consider b e) es).best_t
      (consider-le b e) (consider_all-le (consider b e) es)

consider_all-All : (b : Best) (es : List DirEntry) → All (IsNotAfter (consider_all b es).best_t) es
unfolding consider_all
consider_all-All b [] = tt
consider_all-All b (e ∷ es) = (
  λ u f.
      after_trans u (consider b e).best_t (consider_all (consider b e) es).best_t
        (consider-IsNotAfter b e u f) (consider_all-le (consider b e) es),
  consider_all-All (consider b e) es,
)

after_le_trans : (a b c : Time) → after a b ≡ true → after c b ≡ false → after a c ≡ true
after_le_trans a b c = ground arith

-- `t` and `n` belong to a file, all files before it in the list are older.
pub record IsFirst (t : Time) (n : Bytes) (es : List DirEntry) : Type 0 where
  pub before : List DirEntry
  pub entry : DirEntry
  pub behind : List DirEntry
  pub splits : es ≡ before ++ entry ∷ behind
  pub is_file : IsFile entry t
  pub name_is : entry.name ≡ n
  pub older : All (λ e. (u : Time) → IsFile e u → after t u ≡ true) before

-- One entry keeps the best file, or is a newer one.
pub consider-cases :
    (b : Best) (e : DirEntry)
    → (consider b e ≡ b)
      ⊎ (IsFile e (consider b e).best_t
          × (e.name ≡ (consider b e).best_n)
          × (after (consider b e).best_t b.best_t ≡ true))
unfolding consider
consider-cases b e = ground arith

consider_all-cases :
    (b : Best) (es : List DirEntry)
    → (consider_all b es ≡ b)
      ⊎ (IsFirst (consider_all b es).best_t (consider_all b es).best_n es
          × (after (consider_all b es).best_t b.best_t ≡ true))
unfolding consider_all
consider_all-cases b [] = inl refl
consider_all-cases b (e ∷ es) = elim (consider_all-cases (consider b e) es) [
  | inl same ↦ rw same (elim (consider-cases b e) [
    | inl kept ↦ inl kept
    | inr (file, name, newer) ↦ inr (
      record {
        before = [];
        entry = e;
        behind = es;
        splits = refl;
        is_file = file;
        name_is = name;
        older = tt;
      },
      newer,
    )
  ])
  | inr (first, newer) ↦
      let r : Time = (consider_all (consider b e) es).best_t in
      inr (
        record {
          before = e ∷ first.before;
          entry = first.entry;
          behind = first.behind;
          splits = ap (◌∷◌ e) first.splits;
          is_file = first.is_file;
          name_is = first.name_is;
          older = (
            λ u f. after_le_trans r (consider b e).best_t u newer (consider-IsNotAfter b e u f),
            first.older,
          );
        },
        after_le_trans r (consider b e).best_t b.best_t newer (consider-le b e),
      )
]

-- What `LatestMtime` returns for a directory that can be read: the time and the name of the first
-- of its newest regular files; or the zero time and no name, and then no regular file is newer than
-- the zero time.
abbrev pub IsLatest : List DirEntry → Time → Bytes → Type 0
IsLatest es t n = All (IsNotAfter t) es × (((t ≡ zero_time) × (n ≡ [])) ⊎ IsFirst t n es)

-- File names are not empty, as in any directory.
abbrev pub HasNames : List DirEntry → Type 0
HasNames = All (λ e. is_empty e.name ≡ false)

abbrev pub start : Best
start = record { best_t = zero_time; best_n = [] }

pub IsFirst-named :
    {t : Time} {n : Bytes} (es : List DirEntry) → HasNames es → IsFirst t n es → is_empty n ≡ false
IsFirst-named es h f =
    let named : HasNames (f.before ++ f.entry ∷ f.behind) = rw f.splits at h in
    rw f.name_is at (All-middle (λ e. is_empty e.name ≡ false) f.before f.entry f.behind named)

-- On a directory that can be read, whose entries have names, `LatestMtime` returns no error, and what
-- it returns is the time and name of the first of the newest regular files, or the zero time and no
-- name if no regular file is newer than the zero time. Entries without an Info do not count.
pub latest_mtime-IsLatest :
    (es : List DirEntry)
    → HasNames es
    → (t : Time) × (n : Bytes) × (latest_mtime (ok es) ≡ ok (t, n)) × IsLatest es t n
unfolding latest_mtime
latest_mtime-IsLatest es h = elim (consider_all-cases start es) [
  | inl same ↦ (zero_time, [], rw same, (rw same at (consider_all-All start es), inl (refl, refl)))
  | inr (first, newer) ↦
      let b : Best = consider_all start es in
      (b.best_t, b.best_n, rw (IsFirst-named es h first), (consider_all-All start es, inr first))
]
