-- ===== src/Logfs/First.antt =====
-- `LatestMtime` and a regular file that is the first of the newest ones.
use vpub_exporter.Prelude.{
  All-behind, true, List, [], ◌∷◌, ◌++◌, ◌≡◌, inl, inr, refl, ap, ◌∙◌, arith, All,
}
use vpub_exporter.Text.{Bytes}
use vpub_exporter.Errors.{ok}
use vpub_exporter.Clock.{Time, zero_time, after}
use vpub_exporter.Logfs.{DirEntry, Best, consider, consider_all, latest_mtime}
use vpub_exporter.Logfs.Newest.{
  IsFile, IsNotAfter, consider-cases, IsFirst, HasNames, start, IsFirst-named,
}

consider_all-append :
    (b : Best) (xs ys : List DirEntry)
    → consider_all b (xs ++ ys) ≡ consider_all (consider_all b xs) ys
unfolding consider_all
consider_all-append b [] ys = refl
consider_all-append b (x ∷ xs) ys = consider_all-append (consider b x) xs ys

consider_all-kept :
    (b : Best) (es : List DirEntry) → All (IsNotAfter b.best_t) es → consider_all b es ≡ b
unfolding consider_all
consider_all-kept b [] h = refl
consider_all-kept b (e ∷ es) h = elim (consider-cases b e) [
  | inl same ↦ rw same (consider_all-kept b es h.1)
  | inr (file, name, newer) ↦ absurd (ground (arith, h.0 (consider b e).best_t file))
]

consider_all-older :
    (t : Time) (b : Best) (es : List DirEntry)
    → after t b.best_t ≡ true
    → All (λ e. (u : Time) → IsFile e u → after t u ≡ true) es
    → after t (consider_all b es).best_t ≡ true
unfolding consider_all
consider_all-older t b [] o h = o
consider_all-older t b (e ∷ es) o h =
    consider_all-older t (consider b e) es
      (elim (consider-cases b e) [
        | inl same ↦ rw same o
        | inr (file, name, newer) ↦ h.0 (consider b e).best_t file
      ])
      h.1

consider-newer :
    (b : Best) (e : DirEntry) (t : Time)
    → IsFile e t
    → after t b.best_t ≡ true
    → consider b e ≡ record { best_t = t; best_n = e.name }
unfolding consider
consider-newer b e t (d, i) newer = rw (d, i, newer) refl

consider_all-first :
    (es : List DirEntry) (t : Time) (n : Bytes)
    → IsFirst t n es
    → All (IsNotAfter t) es
    → after t zero_time ≡ true
    → consider_all start es ≡ record { best_t = t; best_n = n }
unfolding consider_all
consider_all-first es t n f newest since =
    let b : Best = consider_all start f.before in
    let at : Best = record { best_t = t; best_n = f.entry.name } in
    let rest : All (IsNotAfter t) f.behind =
      All-behind (IsNotAfter t) f.before f.entry f.behind (rw f.splits at newest) in
    ap (consider_all start) f.splits
    ∙ consider_all-append start f.before (f.entry ∷ f.behind)
    ∙ ap (λ b'. consider_all b' f.behind)
        (consider-newer b f.entry t f.is_file (consider_all-older t start f.before since f.older))
    ∙ consider_all-kept at f.behind rest
    ∙ ap (λ m. record { best_t = t; best_n = m }) f.name_is

-- The first of the newest regular files, newer than the zero time, is what `LatestMtime` returns.
pub latest_mtime-first :
    (es : List DirEntry) (t : Time) (n : Bytes)
    → HasNames es
    → IsFirst t n es
    → All (IsNotAfter t) es
    → after t zero_time ≡ true
    → latest_mtime (ok es) ≡ ok (t, n)
unfolding latest_mtime
latest_mtime-first es t n named f newest since =
    rw (consider_all-first es t n f newest since, IsFirst-named es named f) refl
