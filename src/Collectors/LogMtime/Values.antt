-- ===== src/Collectors/LogMtime/Values.antt =====
-- What a tick of the log collector shows for each component.
use vpub_exporter.Prelude.{
  true, false, Bool-cases, inl, inr, Option, some, List, [], ◌∷◌, ◌≡◌, refl, ◌∙◌, ap, arith,
  if◌then◌else◌, any, pos,
}
use vpub_exporter.Text.{Bytes, bytes_eq, bytes_eq_iff, bytes_eq_refl}
use vpub_exporter.Components.{ComponentName, all_components}
use vpub_exporter.Errors.{Result, ok, err, Outcome, success, first_error, io}
use vpub_exporter.Clock.{Time, is_zero, unix}
use vpub_exporter.Logfs.{LogDirStat}
use vpub_exporter.Prometheus.{Prometheus}
use vpub_exporter.Collectors.LogMtime.{LogMtimeCollector, dir_for, update, update_all, tick}

-- No name stands twice.
abbrev pub IsDistinct : List ComponentName → Type 0
IsDistinct [] = Unit
IsDistinct (n ∷ ns) = (any (bytes_eq n) ns ≡ false) × IsDistinct ns

-- The first failure of the components in order.
abbrev pub first_failure :
    (ComponentName → Result (Time × Bytes)) → List ComponentName → Outcome → Outcome
first_failure stat [] o = o
first_failure stat (n ∷ ns) o =
    first_failure stat ns (elim (stat n) [ ok _ ↦ o | err e ↦ first_error o io e ])

module _ (P : Prometheus) where
  -- What the gauge of a component shows by what LatestMtime returns for its directory: on an error
  -- what it showed before, 0 for a directory with no file, else the time.
  abbrev pub shown : Option P.Value → Result (Time × Bytes) → Option P.Value
  shown old (err e) = old
  shown old (ok (mt, name)) = some (P.float64 (if is_zero mt then pos 0 else unix mt))

  update-value :
      (n k : ComponentName) (r : Result (Time × Bytes)) (g : P.GaugeVec) (o : Outcome)
      → P.value_at (update P n r g o).0 (k ∷ [])
        ≡ (if bytes_eq n k then shown (P.value_at g (k ∷ [])) r else P.value_at g (k ∷ []))
  unfolding update
  update-value n k (err e) g o = ground arith
  update-value n k (ok (mt, name)) g o = ground (
    arith,
    P.value_at-set_at g (n ∷ []) (P.float64 (pos 0)) (k ∷ []),
    P.value_at-set_at g (n ∷ []) (P.float64 (unix mt)) (k ∷ []),
  )

  update-outcome :
      (n : ComponentName) (r : Result (Time × Bytes)) (g : P.GaugeVec) (o : Outcome)
      → (update P n r g o).1 ≡ elim r [ ok _ ↦ o | err e ↦ first_error o io e ]
  unfolding update
  update-outcome n r g o = ground arith

  update_all-absent :
      (stat : ComponentName → Result (Time × Bytes)) (ns : List ComponentName) (k : ComponentName)
      (g : P.GaugeVec) (o : Outcome)
      → any (bytes_eq k) ns ≡ false
      → P.value_at (update_all P stat ns g o).0 (k ∷ []) ≡ P.value_at g (k ∷ [])
  unfolding update_all
  update_all-absent stat [] k g o h = refl
  update_all-absent stat (n ∷ ns) k g o h =
      let u = update P n (stat n) g o in
      update_all-absent stat ns k u.0 u.1 (ground arith)
      ∙ update-value n k (stat n) g o
      ∙ ground (arith, bytes_eq_iff n k, bytes_eq_iff k n)

  update_all-present :
      (stat : ComponentName → Result (Time × Bytes)) (ns : List ComponentName) (k : ComponentName)
      (g : P.GaugeVec) (o : Outcome)
      → IsDistinct ns
      → any (bytes_eq k) ns ≡ true
      → P.value_at (update_all P stat ns g o).0 (k ∷ []) ≡ shown (P.value_at g (k ∷ [])) (stat k)
  unfolding update_all
  update_all-present stat [] k g o d h = cc
  update_all-present stat (n ∷ ns) k g o d h =
      let u = update P n (stat n) g o in
      elim (Bool-cases (bytes_eq k n)) [
        | inl e ↦
            let same : k ≡ n = (bytes_eq_iff k n).0 e in
            rw same (
              update_all-absent stat ns n u.0 u.1 d.0
              ∙ update-value n n (stat n) g o
              ∙ rw (bytes_eq_refl n))
        | inr e ↦
            update_all-present stat ns k u.0 u.1 d.1 (ground arith)
            ∙ ap (λ v. shown v (stat k))
                (update-value n k (stat n) g o ∙ ground (arith, bytes_eq_iff n k, bytes_eq_iff k n))
      ]

  update_all-outcome :
      (stat : ComponentName → Result (Time × Bytes)) (ns : List ComponentName) (g : P.GaugeVec)
      (o : Outcome)
      → (update_all P stat ns g o).1 ≡ first_failure stat ns o
  unfolding update_all
  update_all-outcome stat [] g o = refl
  update_all-outcome stat (n ∷ ns) g o =
      let u = update P n (stat n) g o in
      update_all-outcome stat ns u.0 u.1
      ∙ ap (first_failure stat ns) (update-outcome n (stat n) g o)

  -- After a tick the gauge of each of the four components shows what its own directory gave,
  -- whatever the other directories gave, and the tick reports the first failure in the order of the
  -- components.
  pub tick_values :
      (latest_mtime : LogDirStat) (c : LogMtimeCollector P) (k : ComponentName)
      → any (bytes_eq k) all_components ≡ true
      → (P.value_at (tick P latest_mtime c).0.mtime (k ∷ [])
          ≡ shown (P.value_at c.mtime (k ∷ [])) (latest_mtime (dir_for P c k)))
        × ((tick P latest_mtime c).1
            ≡ first_failure (λ n. latest_mtime (dir_for P c n)) all_components success)
  unfolding tick
  tick_values latest_mtime c k h = (
    update_all-present (λ n. latest_mtime (dir_for P c n)) all_components k c.mtime success
        (refl, (refl, (refl, (refl, tt)))) h,
    update_all-outcome (λ n. latest_mtime (dir_for P c n)) all_components c.mtime success,
  )
