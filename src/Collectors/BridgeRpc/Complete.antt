-- ===== src/Collectors/BridgeRpc/Complete.antt =====
-- `Tick` of internal/collectors/bridge_rpc.go from the start of its loop to `wg.Wait`, and what the
-- metrics are then.
use vpub_exporter.Prelude.{
  ℕ, zero, suc, ◌+◌, ◌≤◌, Bool-cases, List, [], ◌∷◌, ◌++◌, ◌≡◌, refl, sym, ap, ◌∙◌, arith, inl, inr,
  some, pos, if◌then◌else◌,
}
use mathlib.Core.List.{Perm, foldr}
use mathlib.Core.List.Perm
use mathlib.Core.Path.{subst}
use native.Mathlib.Nat.{ℕ_set}
use vpub_exporter.Text.{Bytes, codes, bytes_eq, bytes_eq_iff}
use vpub_exporter.Prometheus.{Prometheus}
use vpub_exporter.Collectors.BridgeRpc.{BridgeRpcCollector, Probed, probed_names, tick}
use vpub_exporter.Collectors.BridgeRpc.Pool.{
  Pool, Steps, stop, step, begin, names_of, steps_left, IsOver, Steps-bound, Step-less,
  Step-progress,
}
use vpub_exporter.Collectors.BridgeRpc.Providers.{IsAbsent, up_of, status_of, tick_provider}

Steps-append : (p q r : Pool) → Steps p q → Steps q r → Steps p r
Steps-append p q _ run (stop _) = run
Steps-append p q _ run (step _ m r more s) = step p m r (Steps-append p q m run more) s

Steps-to_end : (left : ℕ) (p : Pool) → steps_left p ≤ left → (r : Pool) × Steps p r × IsOver r
Steps-to_end zero p h = elim (Step-progress p) [
  | inl over ↦ (p, stop p, over)
  | inr (q, s) ↦ absurd (omega (arith, Step-less p q s))
]
Steps-to_end (suc left) p h = elim (Step-progress p) [
  | inl over ↦ (p, stop p, over)
  | inr (q, s) ↦
      let (r, run, over) = Steps-to_end left q (omega (arith, Step-less p q s)) in
      (r, Steps-append p q r (step p p q (stop p) s) run, over)
]

-- How often a name stands in a list.
abbrev pub count : Bytes → List Bytes → ℕ
count n [] = 0
count n (m ∷ ms) = if bytes_eq m n then count n ms + 1 else count n ms

abbrev tally : Bytes → Bytes → ℕ → ℕ
tally n m k = if bytes_eq m n then k + 1 else k

count-foldr : (n : Bytes) (xs : List Bytes) → count n xs ≡ foldr (tally n) 0 xs
count-foldr n [] = refl
count-foldr n (m ∷ ms) = rw (count-foldr n ms) refl

count-Perm : (n : Bytes) (xs ys : List Bytes) → Perm xs ys → count n xs ≡ count n ys
count-Perm n xs ys p =
    count-foldr n xs
    ∙ Perm.foldr-eq ℕ_set (tally n) (λ a b k. ground arith) p 0
    ∙ sym (count-foldr n ys)

count-names_of : (n : Bytes) (ps : List Probed) → count n (names_of ps) ≡ 0 → IsAbsent n ps
count-names_of n [] h = refl
count-names_of n (p ∷ ps) h = ground (arith, count-names_of n ps)

split_at :
    (n : Bytes) (ps : List Probed)
    → count n (names_of ps) ≡ 1
    → (xs : List Probed) × (p : Probed) × (zs : List Probed) × (ps ≡ xs ++ p ∷ zs)
      × (p.name ≡ n)
      × IsAbsent n xs
      × IsAbsent n zs
split_at n [] h = absurd (omega arith)
split_at n (p ∷ ps) h = elim (Bool-cases (bytes_eq p.name n)) [
  | inl e ↦ ([], p, ps, refl, (bytes_eq_iff p.name n).0 e, refl, count-names_of n ps (ground arith))
  | inr e ↦
      let (xs, q, zs, same, named, hx, hz) = split_at n ps (ground arith) in
      (p ∷ xs, q, zs, ap (λ l. p ∷ l) same, named, ground arith, hz)
]

IsOver-finished :
    (urls : List (Bytes × Bytes)) (names : List Bytes) (r : Pool)
    → Steps (begin urls names) r
    → IsOver r
    → Perm (names_of r.finished) (probed_names urls names)
IsOver-finished urls names r run (no_waiting, no_running) =
    subst (λ l. Perm (l ++ names_of r.finished) (probed_names urls names)) no_running
      (subst (λ l. Perm (l ++ (r.running ++ names_of r.finished)) (probed_names urls names))
        no_waiting (Steps-bound urls names r run).1)

-- From every state that the goroutines can reach, `wg.Wait` can be reached: there is a run to a
-- state in which nothing waits or runs, and in which the probes that are done are those of the names
-- with a URL, in some order.
pub Steps-completes :
    (urls : List (Bytes × Bytes)) (names : List Bytes) (p : Pool)
    → Steps (begin urls names) p
    → (r : Pool) × Steps p r × IsOver r × Perm (names_of r.finished) (probed_names urls names)
Steps-completes urls names p run =
    let (r, more, over) = Steps-to_end (steps_left p) p (omega arith) in
    let all = Steps-append (begin urls names) p r run more in
    (r, more, over, IsOver-finished urls names r all over)

-- After a tick with these probes, the metrics of the provider show this probe of it.
abbrev pub Shows : (P : Prometheus) → BridgeRpcCollector P → List Probed → Bytes → Probed → Type 0
Shows P c ps n p =
    (P.value_at (tick P ps c).0.up (n ∷ []) ≡ some (P.float64 (up_of p)))
    × ((status : Bytes)
        → P.total_at (tick P ps c).0.check_tot (n ∷ status ∷ []) ≡ (
            if bytes_eq (status_of p) status
            then P.plus (P.total_at c.check_tot (n ∷ status ∷ [])) (P.float64 (pos 1))
            else P.total_at c.check_tot (n ∷ status ∷ [])))

tick-Shows :
    (P : Prometheus) (c : BridgeRpcCollector P) (xs zs : List Probed) (p : Probed)
    → IsAbsent p.name xs
    → IsAbsent p.name zs
    → Shows P c (xs ++ p ∷ zs) p.name p
tick-Shows P c xs zs p hx hz = (
  (tick_provider P xs zs p c (codes "ok") hx hz).0,
  λ status. (tick_provider P xs zs p c status hx hz).1,
)

-- When the loop of a tick is over, however its goroutines interleaved, a provider that the
-- configuration names once and has a URL for was probed once: one probe of those that finished is
-- its own, and no other. With the metrics updated in the order in which the probes finished, its
-- gauge shows that probe's answer, 1 or 0, and its counter of the answer's status has grown by 1,
-- while its other counters stay.
pub tick-IsOver :
    (P : Prometheus) (c : BridgeRpcCollector P) (urls : List (Bytes × Bytes)) (names : List Bytes)
    (r : Pool)
    → Steps (begin urls names) r
    → IsOver r
    → (n : Bytes) → count n (probed_names urls names) ≡ 1
    → (xs : List Probed) × (p : Probed) × (zs : List Probed) × (r.finished ≡ xs ++ p ∷ zs)
      × (p.name ≡ n)
      × IsAbsent n xs
      × IsAbsent n zs
      × Shows P c r.finished n p
tick-IsOver P c urls names r run over n once =
    let done = count-Perm n _ _ (IsOver-finished urls names r run over) ∙ once in
    let (xs, p, zs, same, named, hx, hz) = split_at n r.finished done in
    let shown =
      tick-Shows P c xs zs p (subst (λ m. IsAbsent m xs) (sym named) hx)
        (subst (λ m. IsAbsent m zs) (sym named) hz) in
    let shown_n = subst (λ m. Shows P c (xs ++ p ∷ zs) m p) named shown in
    (xs, p, zs, same, named, hx, hz, subst (λ ps. Shows P c ps n p) (sym same) shown_n)
