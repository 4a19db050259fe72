-- ===== src/Procs/Stat.antt =====
-- The lines of /proc/<pid>/stat, and that `readPPID` and `CountChildren` of
-- internal/procs/procs_proc.go find the children by them.
use vpub_exporter.Prelude.{
  ℕ, ◌+◌, ◌^◌, ◌≤◌, ◌<◌, Bool, true, false, ◌||◌, none, some, List, [], ◌∷◌, ◌++◌, ◌≡◌, ◌⊎◌, inl,
  inr, refl, sym, ap, ◌∙◌, arith, any, length, map, if◌then◌else◌, ◌==◌, All, ℤ, pos, leb_ℤ,
}
use mathlib.Core.Path.{subst}
use vpub_exporter.Text.{Bytes, codes, is_empty, join, trim_space, fields, atoi}
use vpub_exporter.Text.Space.Ascii.{Ascii, IsWord, fields-two_words}
use vpub_exporter.Text.Number.Decimal.{
  Decimal, digit, longer, Decimal-IsWord, Decimal-cons, atoi-Decimal,
}
use vpub_exporter.Errors.{Error, ok, err}
use vpub_exporter.Procs.{
  DirEntry, ProcFs, parse_ppid, ppid_field, read_ppid, is_child, count_matching, count_children,
}
use vpub_exporter.Procs.Name.{parse_ppid-append, behind_name}

abbrev has_paren : Bytes → Bool
has_paren s = any (λ a. a == b')') s

-- A process: its numbers with their texts, its name, its state, and the fields behind its parent.
pub record Process : Type 0 where
  pub pid : ℕ
  pub pid_text : Bytes
  pub comm : Bytes
  pub state : ℕ
  pub ppid : ℕ
  pub ppid_text : Bytes
  pub others : Bytes

-- The name may be any bytes at all.
pub record IsProcess (p : Process) : Type 0 where
  pub pid_in : (0 < p.pid) × (p.pid < 2 ^ 63)
  pub pid_is : Decimal p.pid p.pid_text
  pub state_in : (64 < p.state) × (p.state < 127)
  pub ppid_in : p.ppid < 2 ^ 63
  pub ppid_is : Decimal p.ppid p.ppid_text
  pub others_in : Ascii p.others
  pub others_are : has_paren p.others ≡ false

-- What stands behind the name and its parenthesis.
abbrev pub stat_end : Process → Bytes
stat_end p = 32 ∷ (p.state ∷ (32 ∷ (p.ppid_text ++ (32 ∷ p.others))))

-- The line of the process, as in "42 (a name) S 1 42 42 0".
abbrev pub stat_line : Process → Bytes
stat_line p = (p.pid_text ++ (codes " (" ++ p.comm)) ++ b')' ∷ stat_end p

has_paren-append : (s t : Bytes) → has_paren (s ++ t) ≡ (has_paren s || has_paren t)
has_paren-append [] t = refl
has_paren-append (c ∷ s) t = ground (arith, has_paren-append s t)

Decimal-has_paren : (n : ℕ) (s : Bytes) → Decimal n s → has_paren s ≡ false
Decimal-has_paren n _ (digit d h) = ground arith
Decimal-has_paren _ _ (longer n d s t h) =
    ground (arith, has_paren-append s ((48 + d) ∷ []), Decimal-has_paren n s t)

stat_end-has_paren : (p : Process) → IsProcess p → has_paren (stat_end p) ≡ false
stat_end-has_paren p v = ground (
  arith,
  v.state_in,
  v.others_are,
  has_paren-append p.ppid_text (32 ∷ p.others),
  Decimal-has_paren p.ppid p.ppid_text v.ppid_is,
)

ppid_field-atoi :
    (a b : Bytes) (more : List Bytes) (n : ℤ) → atoi b ≡ some n → ppid_field (a ∷ b ∷ more) ≡ ok n
unfolding ppid_field
ppid_field-atoi a b more n e = rw (e, ppid_field) refl

behind_name-fields : (s : Bytes) → 3 ≤ length s → behind_name s ≡ ppid_field (fields (trim_space s))
behind_name-fields s h = ground arith

stat_end-ppid : (p : Process) → IsProcess p → behind_name (stat_end p) ≡ ok (pos p.ppid)
stat_end-ppid p v =
    let (b, t, e) = Decimal-cons p.ppid p.ppid_text v.ppid_is in
    let word : IsWord (b ∷ t) = subst IsWord e (Decimal-IsWord p.ppid p.ppid_text v.ppid_is) in
    let state : IsWord (p.state ∷ []) = ((omega (arith, v.state_in.0), v.state_in.1), tt) in
    let (more, f) = fields-two_words p.state b [] t p.others state word v.others_in in
    let two =
      subst
        (λ l.
          fields (trim_space (32 ∷ (p.state ∷ (32 ∷ (l ++ (32 ∷ p.others))))))
          ≡ (p.state ∷ []) ∷ l ∷ more)
        (sym e) f in
    behind_name-fields (stat_end p) (omega arith)
    ∙ ap ppid_field two
    ∙ ppid_field-atoi (p.state ∷ []) p.ppid_text more (pos p.ppid)
        (atoi-Decimal p.ppid p.ppid_text v.ppid_is v.ppid_in)

parse_ppid-stat_line : (p : Process) → IsProcess p → parse_ppid (stat_line p) ≡ ok (pos p.ppid)
parse_ppid-stat_line p v =
    parse_ppid-append (p.pid_text ++ (codes " (" ++ p.comm)) (stat_end p) (stat_end-has_paren p v)
    ∙ stat_end-ppid p v

-- An entry of /proc: a process, or anything that is no process or has gone when its file is read.
pub data Entry : Type 0 where
  process : Process → Entry
  other : DirEntry → Entry

abbrev pub entry_of : Entry → DirEntry
entry_of (process p) = record { name = p.pid_text; is_dir = true }
entry_of (other e) = e

abbrev pub stat_path : Bytes → Bytes → Bytes
stat_path root name = join (join root name) (codes "stat")

-- The file system has the line of each process, and what is no process is no directory, has no
-- number for a name, or has no line that can be read.
abbrev pub Lists : ProcFs → Bytes → Entry → Type 0
Lists fs root (process p) =
    IsProcess p × (fs.read_file (stat_path root p.pid_text) ≡ ok (stat_line p))
Lists fs root (other e) =
    (e.is_dir ≡ false)
    ⊎ (atoi e.name ≡ none)
    ⊎ ((x : Error) × (fs.read_file (stat_path root e.name) ≡ err x))

-- How many of the processes have this parent.
abbrev pub children_of : ℕ → List Entry → ℕ
children_of parent [] = 0
children_of parent (process p ∷ es) =
    if p.ppid == parent then children_of parent es + 1 else children_of parent es
children_of parent (other e ∷ es) = children_of parent es

is_child-process :
    (fs : ProcFs) (root : Bytes) (parent : ℕ) (p : Process)
    → Lists fs root (process p)
    → is_child fs root (pos parent) (entry_of (process p)) ≡ (p.ppid == parent)
unfolding is_child read_ppid
is_child-process fs root parent p (v, r) =
    rw (atoi-Decimal p.pid p.pid_text v.pid_is v.pid_in.1, r, parse_ppid-stat_line p v)
      (ground (arith, v.pid_in.0))

is_child-other :
    (fs : ProcFs) (root : Bytes) (parent : ℕ) (e : DirEntry)
    → Lists fs root (other e)
    → is_child fs root (pos parent) e ≡ false
unfolding is_child read_ppid
is_child-other fs root parent e (inl h) = ground arith
is_child-other fs root parent e (inr (inl h)) = rw h (ground arith)
is_child-other fs root parent e (inr (inr (x, h))) = rw h (ground arith)

count_matching-children :
    (fs : ProcFs) (root : Bytes) (parent : ℕ) (es : List Entry)
    → All (Lists fs root) es
    → count_matching fs root (pos parent) (map entry_of es) ≡ children_of parent es
unfolding count_matching
count_matching-children fs root parent [] h = refl
count_matching-children fs root parent (process p ∷ es) h =
    rw (is_child-process fs root parent p h.0, count_matching-children fs root parent es h.1) refl
count_matching-children fs root parent (other e ∷ es) h =
    rw (is_child-other fs root parent e h.0, count_matching-children fs root parent es h.1) refl

positive : (n : ℕ) → 0 < n → leb_ℤ (pos n) (pos 0) ≡ false
positive n h = ground arith

-- In a process file system with the stat lines of some processes, `CountChildren` returns how many of
-- them have the given parent, whatever their names are, with spaces, parentheses and line ends in
-- them. Entries that are no directories, that have no number for a name, or whose process has gone
-- between the reading of the directory and that of its line, do not count. The parent is not 0.
pub count_children-children :
    (fs : ProcFs) (root : Bytes) (parent : ℕ) (es : List Entry)
    → 0 < parent
    → is_empty root ≡ false
    → fs.read_dir root ≡ ok (map entry_of es)
    → All (Lists fs root) es
    → count_children fs root (pos parent) ≡ ok (children_of parent es)
unfolding count_children
count_children-children fs root parent es h ne r l =
    rw (positive parent h, ne, r, count_matching-children fs root parent es l) refl
