-- ===== src/Collectors/BridgeRpc/Timing/Bound.antt =====
-- A bound on the time that `Tick` of internal/collectors/bridge_rpc.go takes.
use vpub_exporter.Prelude.{
  ℕ, zero, suc, ◌+◌, ◌*◌, ◌/◌, ◌≤◌, Bool-cases, inl, inr, List, [], ◌∷◌, ◌≡◌, refl, arith, All, map,
  leb, length,
}
use vpub_exporter.Text.{Bytes, is_empty}
use vpub_exporter.Collectors.BridgeRpc.{probed_names, url_of}
use vpub_exporter.Collectors.BridgeRpc.Timing.{
  probe_timeout, Places, occupy, tick_end, free, later, times, not_after, Ascending, occupy-All,
  occupy-Ascending, occupy-not_after, occupy-length, not_after-All, earliest-le, wait_all-le,
}

-- In a round that began before `x`, `m` of the three places are free at `x`, and all are a probe
-- later.
record InRound (limit x now m : ℕ) (p : Places) : Type 0 where
  ascending : Ascending (times p)
  three : length (times p) ≡ 3
  early : m ≤ not_after x (times p)
  in_time : All (λ u. u ≤ x + limit) (times p)
  begun : now ≤ x

occupy-keeps : (x t : ℕ) (ts : List ℕ) → not_after x ts ≤ not_after x (times (occupy t ts))
occupy-keeps x t ts = elim (Bool-cases (leb t x)) [
  | inl e ↦ omega (arith, occupy-not_after x t ts)
  | inr e ↦ omega (arith, occupy-not_after x t ts)
]

not_after-le : (x : ℕ) (ts : List ℕ) → not_after x ts ≤ length ts
not_after-le x [] = omega arith
not_after-le x (t ∷ ts) = elim (Bool-cases (leb t x)) [
  | inl e ↦ rw e (omega (arith, not_after-le x ts))
  | inr e ↦ rw e (omega (arith, not_after-le x ts))
]

All-not_after : (x : ℕ) (ts : List ℕ) → length ts ≤ not_after x ts → All (λ u. u ≤ x) ts
All-not_after x [] h = tt
All-not_after x (t ∷ ts) h = elim (Bool-cases (leb t x)) [
  | inl e ↦ (ground arith, All-not_after x ts (ground arith))
  | inr e ↦ absurd (ground (arith, not_after-le x ts))
]

advance :
    (limit x now m d : ℕ) (p : Places)
    → InRound limit x now (suc m) p
    → d ≤ limit
    → InRound limit x (later now p.earliest) m (occupy (later now p.earliest + d) p.others)
advance limit x now m d p r h =
    let first = earliest-le x p.earliest p.others r.ascending.0 (omega (arith, r.early)) in
    let t = later now p.earliest in
    record {
      ascending = occupy-Ascending (t + d) p.others r.ascending.1;
      three = omega (arith, occupy-length (t + d) p.others, r.three);
      early = ground (arith, r.early, occupy-keeps x (t + d) p.others);
      in_time =
          occupy-All (λ u. u ≤ x + limit) (t + d) p.others (ground (arith, first, r.begun))
            r.in_time.1;
      begun = ground (arith, first, r.begun);
    }

All-later : (x y : ℕ) (ts : List ℕ) → All (λ u. u ≤ x) ts → All (λ u. u ≤ x + y) ts
All-later x y [] h = tt
All-later x y (t ∷ ts) h = (omega arith, All-later x y ts h.1)

-- Once no place is sure to be free, the next round begins a probe later.
next_round :
    (limit x now : ℕ) (p : Places) → InRound limit x now 0 p → InRound limit (x + limit) now 3 p
next_round limit x now p r = record {
  ascending = r.ascending;
  three = r.three;
  early = omega (arith, not_after-All (x + limit) (times p) r.in_time, r.three);
  in_time = All-later (x + limit) limit (times p) r.in_time;
  begun = omega (arith, r.begun);
}

tick_end-le :
    (limit x now m q : ℕ) (p : Places) (ds : List ℕ)
    → InRound limit x now m p
    → m ≤ 3
    → All (λ d. d ≤ limit) ds
    → length ds + 3 ≤ 3 * q + m
    → tick_end now p ds ≤ x + q * limit
unfolding tick_end
tick_end-le limit x now m zero p [] r b h k = omega (
  arith,
  wait_all-le x now (times p) r.begun (All-not_after x (times p) (omega (arith, r.three, r.early))),
)
tick_end-le limit x now m (suc q) p [] r b h k =
    omega (arith, wait_all-le (x + limit) now (times p) (omega (arith, r.begun)) r.in_time)
tick_end-le limit x now (suc m) q p (d ∷ ds) r b h k =
    tick_end-le limit x (later now p.earliest) m q (occupy (later now p.earliest + d) p.others) ds
      (advance limit x now m d p r h.0) (omega arith) h.1 (omega arith)
tick_end-le limit x now zero zero p (d ∷ ds) r b h k = absurd (omega arith)
tick_end-le limit x now zero (suc q) p (d ∷ ds) r b h k =
    let next = next_round limit x now p r in
    let rest =
      tick_end-le limit (x + limit) (later now p.earliest) 2 q
        (occupy (later now p.earliest + d) p.others) ds
        (advance limit (x + limit) now 2 d p next h.0) (omega arith) h.1 (omega arith) in
    omega (arith, rest)

free-InRound : (now : ℕ) → InRound probe_timeout now now 3 (free now)
free-InRound now = record {
  ascending = ((omega arith, (omega arith, tt)), ((omega arith, tt), (tt, tt)));
  three = refl;
  early = ground arith;
  in_time = (omega arith, (omega arith, (omega arith, tt)));
  begun = omega arith;
}

probed-in_time :
    (urls : List (Bytes × Bytes)) (names : List Bytes) (duration : Bytes → ℕ) (limit : ℕ)
    → All (λ n. duration n ≤ limit) names
    → All (λ d. d ≤ limit) (map duration (probed_names urls names))
      × (length (map duration (probed_names urls names)) ≤ length names)
unfolding probed_names
probed-in_time urls [] duration limit h = (tt, omega arith)
probed-in_time urls (n ∷ ns) duration limit h =
    let (fast, fewer) = probed-in_time urls ns duration limit h.1 in
    elim (Bool-cases (is_empty (url_of urls n))) [
      | inl e ↦ rw e (fast, omega (arith, fewer))
      | inr e ↦ rw e ((h.0, fast), omega (arith, fewer))
    ]

-- A tick of n providers ends at most (n + 2) / 3 times 5 seconds after it began, the division rounded
-- down, if no probe takes longer than its timeout of 5 seconds and the loop takes no time of its own.
pub tick_end-bound :
    (urls : List (Bytes × Bytes)) (names : List Bytes) (duration : Bytes → ℕ) (now : ℕ)
    → All (λ n. duration n ≤ probe_timeout) names
    → tick_end now (free now) (map duration (probed_names urls names))
      ≤ now + (length names + 2) / 3 * probe_timeout
tick_end-bound urls names duration now h =
    let ds : List ℕ = map duration (probed_names urls names) in
    let (fast, fewer) = probed-in_time urls names duration probe_timeout h in
    tick_end-le probe_timeout now now 3 ((length names + 2) / 3) (free now) ds (free-InRound now)
      (omega arith) fast (omega (arith, fewer))
