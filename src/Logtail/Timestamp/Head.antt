-- ===== src/Logtail/Timestamp/Head.antt =====
-- What `ParseLineTimestamp` of internal/logtail/logtail_poll.go reads of a line: the part in front of
-- its first space.
use vpub_exporter.Prelude.{
  ℕ, zero, suc, ◌≤◌, false, Bool-cases, some, [], ◌∷◌, ◌≡◌, ◌++◌, All, take, Option-cases, ==_iff,
  refl, ap, arith, inl, inr, length, ◌==◌,
}
use vpub_exporter.Text.{Bytes, index_byte}
use vpub_exporter.Clock.{Time}
use vpub_exporter.Logtail.Timestamp.{parse_in_location, head_of, parse_line_timestamp}

-- What stands in front of a line with a time stamp.
pub record Head (line : Bytes) (t : Time) : Type 0 where
  pub head : Bytes
  pub rest : Bytes
  pub splits : line ≡ head ++ b' ' ∷ rest
  pub no_space : All (λ c. (c == b' ') ≡ false) head
  pub short : length head ≤ 32
  pub reads : parse_in_location head ≡ some t

index_byte-front : (a : ℕ) (s : Bytes) → (a == 32) ≡ false → index_byte (a ∷ s) 32 ≡ some 0 → ⊥
unfolding index_byte
index_byte-front a s e h = elim (Option-cases (index_byte s 32)) [
  | inl q ↦ ground arith
  | inr (k, q) ↦ ground arith
]

index_byte-behind :
    (a : ℕ) (s : Bytes) (n : ℕ)
    → index_byte (a ∷ s) 32 ≡ some (suc n)
    → ((a == 32) ≡ false) × (index_byte s 32 ≡ some n)
unfolding index_byte
index_byte-behind a s n h = elim (Option-cases (index_byte s 32)) [
  | inl q ↦ absurd (ground arith)
  | inr (k, q) ↦ ground arith
]

index_byte-splits :
    (s : Bytes) (n : ℕ)
    → index_byte s 32 ≡ some n
    → (rest : Bytes) × (s ≡ take n s ++ 32 ∷ rest)
      × All (λ c. (c == 32) ≡ false) (take n s)
      × (length (take n s) ≡ n)
unfolding index_byte
index_byte-splits [] n h = absurd cc
index_byte-splits (a ∷ s) zero h = elim (Bool-cases (a == 32)) [
  | inl e ↦ (s, ap (λ c. c ∷ s) ((==_iff a 32).0 e), tt, refl)
  | inr e ↦ absurd (index_byte-front a s e h)
]
index_byte-splits (a ∷ s) (suc n) h =
    let (e, later) = index_byte-behind a s n h in
    let (rest, splits, no_space, long) = index_byte-splits s n later in
    (rest, ap (◌∷◌ a) splits, (e, no_space), ap suc long)

-- The first space is within the bound, and what stands in front is read.
parse_line_timestamp-some :
    (line : Bytes) (t : Time)
    → parse_line_timestamp line ≡ some t
    → (n : ℕ) × (index_byte line 32 ≡ some n)
      × (n ≤ 32)
      × (parse_in_location (take n line) ≡ some t)
unfolding parse_line_timestamp head_of
parse_line_timestamp-some line t h = elim (Option-cases (index_byte line 32)) [
  | inl e ↦ absurd (ground arith)
  | inr (n, e) ↦ (n, e, ground arith, ground arith)
]

pub parse_line_timestamp-Head :
    (line : Bytes) (t : Time) → parse_line_timestamp line ≡ some t → Head line t
parse_line_timestamp-Head line t h =
    let (n, at, bound, reads) = parse_line_timestamp-some line t h in
    let (rest, splits, no_space, long) = index_byte-splits line n at in
    record {
      head = take n line;
      rest = rest;
      splits = splits;
      no_space = no_space;
      short = omega arith;
      reads = reads;
    }
