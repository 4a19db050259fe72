-- ===== src/Collectors/BridgeRpc/Timing.antt =====
-- How long `Tick` of internal/collectors/bridge_rpc.go takes, by how long its probes take: the
-- semaphore as the times at which its places get free.
pub mod Bound
use vpub_exporter.Prelude.{
  ℕ, Bool, true, false, zero, suc, ◌<◌, ◌+◌, ◌*◌, ◌/◌, ◌≤◌, Bool-cases, inl, inr, List, [], ◌∷◌,
  ◌≡◌, refl, arith, All, map, leb, if◌then◌else◌, length,
}
use vpub_exporter.Text.{Bytes, is_empty}
use vpub_exporter.Collectors.BridgeRpc.{probed_names, url_of}

-- c.timeout in nanoseconds
abbrev pub probe_timeout : ℕ
probe_timeout = 5 * 1000000000

-- The times at which the places of the semaphore get free: the earliest, and the others in ascending
-- order.
pub record Places : Type 0 where
  pub earliest : ℕ
  pub others : List ℕ

-- A place that gets free at `t`, among others in ascending order.
unfoldable pub occupy : ℕ → List ℕ → Places
occupy t [] = record { earliest = t; others = [] }
occupy t (u ∷ us) =
    let rest = occupy t us in
    if leb t u
    then record { earliest = t; others = u ∷ us }
    else record { earliest = u; others = rest.earliest ∷ rest.others }

abbrev pub later : ℕ → ℕ → ℕ
later a b = if leb a b then b else a

-- wg.Wait: the last of the places gets free.
unfoldable pub wait_all : ℕ → List ℕ → ℕ
wait_all now [] = now
wait_all now (t ∷ ts) = wait_all (later now t) ts

-- The loop and wg.Wait, by the durations of the probes in the order of the loop, which sends to the
-- semaphore as soon as a place is free.
unfoldable pub tick_end : ℕ → Places → List ℕ → ℕ
tick_end now p [] = wait_all now (p.earliest ∷ p.others)
tick_end now p (d ∷ ds) =
    let start = later now p.earliest in tick_end start (occupy (start + d) p.others) ds

-- The semaphore at the start: all of its three places are free.
abbrev pub free : ℕ → Places
free now = record { earliest = now; others = now ∷ now ∷ [] }

-- How many of the times are not after `x`.
abbrev pub not_after : ℕ → List ℕ → ℕ
not_after x [] = 0
not_after x (t ∷ ts) = (if leb t x then 1 else 0) + not_after x ts

abbrev pub times : Places → List ℕ
times p = p.earliest ∷ p.others

abbrev pub Ascending : List ℕ → Type 0
Ascending [] = Unit
Ascending (t ∷ ts) = All (λ u. t ≤ u) ts × Ascending ts

pub occupy-All :
    (Q : ℕ → Type 0) (t : ℕ) (ts : List ℕ) → Q t → All Q ts → All Q (times (occupy t ts))
unfolding occupy
occupy-All Q t [] h k = (h, tt)
occupy-All Q t (u ∷ us) h k = elim (Bool-cases (leb t u)) [
  | inl e ↦ rw e (h, k)
  | inr e ↦ rw e (k.0, occupy-All Q t us h k.1)
]

All-weaken : (a b : ℕ) (ts : List ℕ) → a ≤ b → All (λ u. b ≤ u) ts → All (λ u. a ≤ u) ts
All-weaken a b [] h k = tt
All-weaken a b (t ∷ ts) h k = (omega arith, All-weaken a b ts h k.1)

pub occupy-Ascending : (t : ℕ) (ts : List ℕ) → Ascending ts → Ascending (times (occupy t ts))
unfolding occupy
occupy-Ascending t [] h = (tt, tt)
occupy-Ascending t (u ∷ us) h = elim (Bool-cases (leb t u)) [
  | inl e ↦ rw e ((ground arith, All-weaken t u us (ground arith) h.0), h)
  | inr e ↦ rw e (occupy-All (λ v. u ≤ v) t us (ground arith) h.0, occupy-Ascending t us h.1)
]

pub occupy-not_after :
    (x t : ℕ) (ts : List ℕ)
    → not_after x (times (occupy t ts)) ≡ (if leb t x then 1 else 0) + not_after x ts
unfolding occupy
occupy-not_after x t [] = refl
occupy-not_after x t (u ∷ us) = elim (Bool-cases (leb t u)) [
  | inl e ↦ rw e refl
  | inr e ↦ rw e (omega (arith, occupy-not_after x t us))
]

pub occupy-length : (t : ℕ) (ts : List ℕ) → length (times (occupy t ts)) ≡ length ts + 1
unfolding occupy
occupy-length t [] = refl
occupy-length t (u ∷ us) = elim (Bool-cases (leb t u)) [
  | inl e ↦ rw e (omega arith)
  | inr e ↦ rw e (omega (arith, occupy-length t us))
]

not_after-none : (x t : ℕ) (ts : List ℕ) → x < t → All (λ u. t ≤ u) ts → not_after x ts ≡ 0
not_after-none x t [] h k = refl
not_after-none x t (u ∷ us) h k = ground (arith, k.0, not_after-none x t us h k.1)

pub not_after-All : (x : ℕ) (ts : List ℕ) → All (λ u. u ≤ x) ts → not_after x ts ≡ length ts
not_after-All x [] h = refl
not_after-All x (t ∷ ts) h = ground (arith, h.0, not_after-All x ts h.1)

pub earliest-le : (x t : ℕ) (ts : List ℕ) → All (λ u. t ≤ u) ts → 1 ≤ not_after x (t ∷ ts) → t ≤ x
earliest-le x t ts h k = elim (Bool-cases (leb t x)) [
  | inl e ↦ ground arith
  | inr e ↦ absurd (ground (arith, not_after-none x t ts (ground arith) h))
]

pub wait_all-le : (x now : ℕ) (ts : List ℕ) → now ≤ x → All (λ u. u ≤ x) ts → wait_all now ts ≤ x
unfolding wait_all
wait_all-le x now [] h k = h
wait_all-le x now (t ∷ ts) h k = wait_all-le x (later now t) ts (ground (arith, k.0)) k.1
