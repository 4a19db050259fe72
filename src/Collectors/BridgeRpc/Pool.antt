-- ===== src/Collectors/BridgeRpc/Pool.antt =====
-- The goroutines of `Tick` of internal/collectors/bridge_rpc.go and the semaphore that bounds them.
use vpub_exporter.Prelude.{
  ℕ, ◌+◌, ◌*◌, ◌<◌, ◌≤◌, List, [], ◌∷◌, ◌++◌, ◌≡◌, refl, sym, ap, arith, length, map, length-append,
  append_assoc, append-nil, inl, inr, ◌⊎◌, none, pos,
}
use mathlib.Core.List.{Perm, perm_middle}
use mathlib.Core.List.Perm
use mathlib.Core.Path.{subst}
use vpub_exporter.Text.{Bytes}
use vpub_exporter.Collectors.BridgeRpc.{Probed, probed_names}

-- parallelProbes
abbrev pub parallel_probes : ℕ
parallel_probes = 3

-- The names that the loop has not reached, those whose goroutine holds the semaphore, and the probes
-- that are done, in the order in which they finished.
pub record Pool : Type 0 where
  pub waiting : List Bytes
  pub running : List Bytes
  pub finished : List Probed

abbrev pub names_of : List Probed → List Bytes
names_of ps = map (λ p. p.name) ps

-- The loop sends to the semaphore, which blocks while it is full, and starts a goroutine; or some
-- goroutine has its answer and leaves the semaphore.
pub data Step : Pool → Pool → Type 0 where
  start :
      (n : Bytes) (ns running : List Bytes) (finished : List Probed)
      → length running < parallel_probes
      → Step
          (record { waiting = n ∷ ns; running = running; finished = finished })
          (record { waiting = ns; running = n ∷ running; finished = finished })
  finish :
      (p : Probed) (waiting before behind : List Bytes) (finished : List Probed)
      → Step
          (record { waiting = waiting; running = before ++ p.name ∷ behind; finished = finished })
          (record { waiting = waiting; running = before ++ behind; finished = finished ++ p ∷ [] })

pub data Steps : Pool → Pool → Type 0 where
  stop : (p : Pool) → Steps p p
  step : (p q r : Pool) → Steps p q → Step q r → Steps p r

-- The start of Tick.
abbrev pub begin : List (Bytes × Bytes) → List Bytes → Pool
begin urls names = record { waiting = probed_names urls names; running = []; finished = [] }

-- All names of a pool.
abbrev pub all_names : Pool → List Bytes
all_names p = p.waiting ++ (p.running ++ names_of p.finished)

names_of-append :
    (ps : List Probed) (p : Probed) → names_of (ps ++ p ∷ []) ≡ names_of ps ++ p.name ∷ []
names_of-append [] p = refl
names_of-append (q ∷ ps) p = ap (◌∷◌ q.name) (names_of-append ps p)

moved_behind :
    (xs ys zs : List Bytes) (n : Bytes) → Perm ((xs ++ n ∷ ys) ++ zs) ((xs ++ ys) ++ (zs ++ n ∷ []))
moved_behind xs ys zs n =
    let rest : List Bytes = (xs ++ ys) ++ zs in
    let last : Perm (n ∷ (rest ++ [])) (rest ++ n ∷ []) = Perm.symm (perm_middle rest []) in
    Perm.trans (Perm.append_right zs (perm_middle xs ys)) (
      subst (λ l. Perm (n ∷ rest) l) (append_assoc (xs ++ ys) zs (n ∷ []))
        (subst (λ l. Perm (n ∷ l) (rest ++ n ∷ [])) (append-nil rest) last))

Step-all_names : (p q : Pool) → Step p q → Perm (all_names q) (all_names p)
Step-all_names _ _ (start n ns running finished h) = perm_middle ns (running ++ names_of finished)
Step-all_names _ _ (finish p waiting before behind finished) = Perm.append_left waiting (
    subst (λ l. Perm ((before ++ behind) ++ l) ((before ++ p.name ∷ behind) ++ names_of finished))
      (sym (names_of-append finished p))
      (Perm.symm (moved_behind before behind (names_of finished) p.name)))

Step-bound :
    (p q : Pool)
    → Step p q
    → length p.running ≤ parallel_probes
    → length q.running ≤ parallel_probes
Step-bound _ _ (start n ns running finished h) b = omega arith
Step-bound _ _ (finish p waiting before behind finished) b =
    omega (arith, length-append before behind, length-append before (p.name ∷ behind))

Steps-all_names :
    (p q : Pool)
    → Steps p q
    → length p.running ≤ parallel_probes
    → (length q.running ≤ parallel_probes) × Perm (all_names q) (all_names p)
Steps-all_names p _ (stop _) b = (b, Perm.refl _)
Steps-all_names p _ (step _ q r run s) b =
    let (bound, same) = Steps-all_names p q run b in
    (Step-bound q r s bound, Perm.trans (Step-all_names q r s) same)

-- However the goroutines interleave, at most three probes run at once, and each name with a URL is
-- at any time in exactly one of the three lists as often as the configuration names it; so when all
-- are done, the finished probes are those of the names, in some order.
pub Steps-bound :
    (urls : List (Bytes × Bytes)) (names : List Bytes) (p : Pool)
    → Steps (begin urls names) p
    → (length p.running ≤ parallel_probes) × Perm (all_names p) (probed_names urls names)
Steps-bound urls names p run =
    let (bound, same) = Steps-all_names (begin urls names) p run (omega arith) in
    (bound, subst (λ l. Perm (all_names p) l) (append-nil (probed_names urls names)) same)

-- How many steps are left.
abbrev pub steps_left : Pool → ℕ
steps_left p = 2 * length p.waiting + length p.running

abbrev pub IsOver : Pool → Type 0
IsOver p = (p.waiting ≡ []) × (p.running ≡ [])

pub Step-less : (p q : Pool) → Step p q → steps_left p ≡ steps_left q + 1
Step-less _ _ (start n ns running finished h) = omega arith
Step-less _ _ (finish p waiting before behind finished) =
    omega (arith, length-append before behind, length-append before (p.name ∷ behind))

abbrev answered : Bytes → Probed
answered n = record { name = n; latency = pos 0; error = none }

pub Step-progress : (p : Pool) → IsOver p ⊎ ((q : Pool) × Step p q)
Step-progress p = next p.waiting p.running p.finished
  where
    next :
        (ws rs : List Bytes) (f : List Probed)
        → (let p : Pool = record { waiting = ws; running = rs; finished = f } in
            IsOver p ⊎ ((q : Pool) × Step p q))
    next [] [] f = inl (refl, refl)
    next (n ∷ ns) [] f = inr (_, start n ns [] f (omega arith))
    next ws (n ∷ rs) f = inr (_, finish (answered n) ws [] rs f)

abbrev pub steps_taken : (p q : Pool) → Steps p q → ℕ
steps_taken p _ (stop _) = 0
steps_taken p _ (step _ q r run s) = steps_taken p q run + 1

Steps-left : (p q : Pool) (run : Steps p q) → steps_taken p q run + steps_left q ≡ steps_left p
Steps-left p _ (stop _) = omega arith
Steps-left p _ (step _ q r run s) = omega (arith, Steps-left p q run, Step-less q r s)

-- However the goroutines interleave, the loop never blocks for good: in every state that can be
-- reached, either all probes are done or a step can be made; and no run has more than two steps for
-- each name with a URL, since the steps taken and those left always add up to that.
pub Steps-IsOver :
    (urls : List (Bytes × Bytes)) (names : List Bytes) (p : Pool) (run : Steps (begin urls names) p)
    → (steps_taken (begin urls names) p run + steps_left p ≡ 2 * length (probed_names urls names))
      × (IsOver p ⊎ ((q : Pool) × Step p q))
Steps-IsOver urls names p run =
    (omega (arith, Steps-left (begin urls names) p run), Step-progress p)
