-- ===== src/Collectors/Binary/LocalValues.antt =====
-- What a tick of the local times shows for each component.
use vpub_exporter.Prelude.{
  Bool, true, false, ◌||◌, Bool-cases, inl, inr, Option, some, List, [], ◌∷◌, ◌≡◌, refl, sym, ◌∙◌,
  ap, arith, if◌then◌else◌, any, map,
}
use mathlib.Core.List.{Perm}
use vpub_exporter.Text.{Bytes, bytes_eq, bytes_eq_iff, bytes_eq_refl, is_empty}
use vpub_exporter.Components.{ComponentName}
use vpub_exporter.Errors.{Result, ok, err, Outcome, success, first_error, io}
use vpub_exporter.Clock.{Time, unix}
use vpub_exporter.Prometheus.{Prometheus}
use vpub_exporter.Collectors.Binary.{
  Targets, BinaryCollector, target, insert_name, components_sorted, update_local, update_locals,
  tick_local,
}
use vpub_exporter.Collectors.Binary.Local.{IsSorted, components_sorted_lem}

-- The first failure of the components in order; one with no path is not asked for.
abbrev pub first_failure : (Bytes → Result Time) → Targets → List ComponentName → Outcome → Outcome
first_failure probe ts [] o = o
first_failure probe ts (n ∷ ns) o = first_failure probe ts ns (
    if is_empty (target ts n)
    then o
    else elim (probe (target ts n)) [ ok _ ↦ o | err e ↦ first_error o io e ])

any-insert_name :
    (k n : ComponentName) (ms : List ComponentName)
    → any (bytes_eq k) (insert_name n ms) ≡ (bytes_eq k n || any (bytes_eq k) ms)
unfolding insert_name
any-insert_name k n [] = refl
any-insert_name k n (m ∷ ms) = ground (arith, any-insert_name k n ms)

target-absent :
    (ts : Targets) (k : ComponentName)
    → any (bytes_eq k) (components_sorted ts) ≡ false
    → target ts k ≡ []
unfolding target components_sorted
target-absent [] k h = refl
target-absent ((n, p) ∷ ts) k h = ground (
  arith,
  any-insert_name k n (components_sorted ts),
  target-absent ts k,
  bytes_eq_iff n k,
  bytes_eq_iff k n,
)

module _ (P : Prometheus) (probe : Bytes → Result Time) (ts : Targets) where
  -- What the gauge of a component shows by what it showed before: the time of its file, or the same
  -- as before if it has no path or its file cannot be asked for.
  abbrev pub shown : ComponentName → Option P.Value → Option P.Value
  shown n old =
      if is_empty (target ts n)
      then old
      else elim (probe (target ts n)) [ ok mt ↦ some (P.float64 (unix mt)) | err e ↦ old ]

  shown-again :
      (n : ComponentName) (b : Bool) (old : Option P.Value)
      → (if b then shown n (shown n old) else shown n old) ≡ shown n old
  shown-again n b old = ground arith

  -- one round of the loop
  round : ComponentName → P.GaugeVec → Outcome → P.GaugeVec × Outcome
  round n g o =
      if is_empty (target ts n) then (g, o) else update_local P n (probe (target ts n)) g o

  update_local-value :
      (n k : ComponentName) (r : Result Time) (g : P.GaugeVec) (o : Outcome)
      → P.value_at (update_local P n r g o).0 (k ∷ []) ≡ (
          if bytes_eq n k
          then elim r [ ok mt ↦ some (P.float64 (unix mt)) | err e ↦ P.value_at g (k ∷ []) ]
          else P.value_at g (k ∷ []))
  unfolding update_local
  update_local-value n k (ok mt) g o =
      P.value_at-set_at g (n ∷ []) (P.float64 (unix mt)) (k ∷ []) ∙ ground arith
  update_local-value n k (err e) g o = ground arith

  round-value :
      (n k : ComponentName) (g : P.GaugeVec) (o : Outcome)
      → P.value_at (round n g o).0 (k ∷ [])
        ≡ (if bytes_eq n k then shown n (P.value_at g (k ∷ [])) else P.value_at g (k ∷ []))
  unfolding round
  round-value n k g o = elim (Bool-cases (is_empty (target ts n))) [
    | inl e ↦ rw e (ground arith)
    | inr e ↦ rw e (update_local-value n k (probe (target ts n)) g o)
  ]

  update_locals-step :
      (n : ComponentName) (ns : List ComponentName) (g : P.GaugeVec) (o : Outcome)
      → update_locals P probe ts (n ∷ ns) g o
        ≡ update_locals P probe ts ns (round n g o).0 (round n g o).1
  unfolding update_locals round
  update_locals-step n ns g o = refl

  update_locals-value :
      (ns : List ComponentName) (k : ComponentName) (g : P.GaugeVec) (o : Outcome)
      → P.value_at (update_locals P probe ts ns g o).0 (k ∷ [])
        ≡ (if any (bytes_eq k) ns then shown k (P.value_at g (k ∷ [])) else P.value_at g (k ∷ []))
  update_locals-value [] k g o = unfold update_locals in refl
  update_locals-value (n ∷ ns) k g o =
      let g' : P.GaugeVec = (round n g o).0 in
      let again = λ (v : Option P.Value). if any (bytes_eq k) ns then shown k v else v in
      rw update_locals-step (
        update_locals-value ns k g' (round n g o).1 ∙ elim (Bool-cases (bytes_eq k n)) [
          | inl e ↦
              let same : k ≡ n = (bytes_eq_iff k n).0 e in
              let turned : bytes_eq n k ≡ true = rw same (bytes_eq_refl n) in
              let now : P.value_at g' (k ∷ []) ≡ shown k (P.value_at g (k ∷ [])) =
                round-value n k g o
                ∙ ap (λ b. if b then shown n (P.value_at g (k ∷ [])) else P.value_at g (k ∷ []))
                    turned
                ∙ ap (λ m. shown m (P.value_at g (k ∷ []))) (sym same) in
              ap again now ∙ rw e (shown-again k (any (bytes_eq k) ns) (P.value_at g (k ∷ [])))
          | inr e ↦
              let now : P.value_at g' (k ∷ []) ≡ P.value_at g (k ∷ []) =
                round-value n k g o ∙ ground (arith, bytes_eq_iff n k, bytes_eq_iff k n) in
              ap again now ∙ rw e refl
        ])

  update_locals-outcome :
      (ns : List ComponentName) (g : P.GaugeVec) (o : Outcome)
      → (update_locals P probe ts ns g o).1 ≡ first_failure probe ts ns o
  update_locals-outcome [] g o = unfold update_locals in refl
  update_locals-outcome (n ∷ ns) g o = rw update_locals-step (
      update_locals-outcome ns (round n g o).0 (round n g o).1
      ∙ ap (first_failure probe ts ns) (unfold round update_local in ground arith))

-- Components whose names are in ascending order, each key of the targets as often as it stands there.
abbrev pub InOrder : Targets → List ComponentName → Type 0
InOrder ts ns = IsSorted ns × Perm ns (map (λ t. t.0) ts)

module _ (P : Prometheus) where
  -- After a tick of the local times the gauge of every component that has a path shows the time of
  -- its file, or what it showed before if os.Stat fails for that path, whatever it does for the
  -- others; a component with no path keeps what it showed. The tick goes through the targets in
  -- ascending order of their names and reports the first failure in that order, with kind "io".
  pub tick_local-shown :
      (probe : Bytes → Result Time) (c : BinaryCollector P) (k : ComponentName)
      → (P.value_at (tick_local P probe c).0.local_mtime (k ∷ [])
          ≡ shown P probe c.targets k (P.value_at c.local_mtime (k ∷ [])))
        × ((tick_local P probe c).1
            ≡ first_failure probe c.targets (components_sorted c.targets) success)
        × InOrder c.targets (components_sorted c.targets)
  unfolding tick_local
  tick_local-shown probe c k =
      let ns = components_sorted c.targets in
      let value = update_locals-value P probe c.targets ns k c.local_mtime success in
      (
        elim (Bool-cases (any (bytes_eq k) ns)) [
          | inl e ↦ value ∙ rw e refl
          | inr e ↦ value ∙ rw (e, target-absent c.targets k e) refl
        ],
        update_locals-outcome P probe c.targets ns c.local_mtime success,
        components_sorted_lem c.targets,
      )
