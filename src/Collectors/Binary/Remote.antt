-- ===== src/Collectors/Binary/Remote.antt =====
-- Over any HEAD requests the remote gauges of the binary collector.
use vpub_exporter.Prelude.{true, false, Option, some, List, [], ◌∷◌, ◌≡◌, refl, ◌∙◌, ap, arith, pos}
use vpub_exporter.Text.{is_empty}
use vpub_exporter.Components.{component_visor}
use vpub_exporter.Errors.{Result, ok, err}
use vpub_exporter.Clock.{Time, unix}
use vpub_exporter.Prometheus.{Prometheus, Labels}
use vpub_exporter.Collectors.Binary.{BinaryCollector, tick_remote}

abbrev pub visor : Labels
visor = component_visor ∷ []

module _ (P : Prometheus) where
  -- Once a request succeeded, the gauge shows its time.
  abbrev pub IsFresh : BinaryCollector P → Type 0
  IsFresh c = c.has_remote ≡ true → P.value_at c.remote_mtime visor ≡ some c.last_remote

  abbrev pub last_modified : Option P.Value → List (Result Time) → Option P.Value
  last_modified v [] = v
  last_modified v (r ∷ rs) =
      last_modified (elim r [ ok t ↦ some (P.float64 (unix t)) | err e ↦ v ]) rs

  abbrev pub last_ok : Option P.Value → List (Result Time) → Option P.Value
  last_ok v [] = v
  last_ok v (r ∷ rs) = last_ok (some (P.float64 (elim r [ ok t ↦ pos 1 | err e ↦ pos 0 ]))) rs

  abbrev pub tick_all : List (Result Time) → BinaryCollector P → BinaryCollector P
  tick_all [] c = c
  tick_all (r ∷ rs) c = tick_all rs (tick_remote P (λ url. r) c).0

  tick_remote-step :
      (r : Result Time) (c : BinaryCollector P)
      → is_empty c.remote_url ≡ false
      → IsFresh c
      → (P.value_at (tick_remote P (λ url. r) c).0.remote_mtime visor
          ≡ elim r [ ok t ↦ some (P.float64 (unix t)) | err e ↦ P.value_at c.remote_mtime visor ])
        × (P.value_at (tick_remote P (λ url. r) c).0.remote_ok visor
            ≡ some (P.float64 (elim r [ ok t ↦ pos 1 | err e ↦ pos 0 ])))
        × IsFresh (tick_remote P (λ url. r) c).0
        × ((tick_remote P (λ url. r) c).0.remote_url ≡ c.remote_url)
  unfolding tick_remote
  tick_remote-step (ok t) c u f = ground (
    arith,
    P.value_at-set_at c.remote_mtime visor (P.float64 (unix t)) visor,
    P.value_at-set_at c.remote_ok visor (P.float64 (pos 1)) visor,
  )
  tick_remote-step (err e) c u f = ground (
    arith,
    P.value_at-set_at c.remote_mtime visor c.last_remote visor,
    P.value_at-set_at c.remote_ok visor (P.float64 (pos 0)) visor,
  )

  -- With a URL, over any requests the gauge of the remote time shows the last time that a request
  -- gave, a failed one leaves it, and the gauge of the check says whether the last request succeeded.
  pub tick_all-last_modified :
      (rs : List (Result Time)) (c : BinaryCollector P)
      → is_empty c.remote_url ≡ false
      → IsFresh c
      → (P.value_at (tick_all rs c).remote_mtime visor
          ≡ last_modified (P.value_at c.remote_mtime visor) rs)
        × (P.value_at (tick_all rs c).remote_ok visor ≡ last_ok (P.value_at c.remote_ok visor) rs)
  tick_all-last_modified [] c u f = (refl, refl)
  tick_all-last_modified (r ∷ rs) c u f =
      let (shown, checked, fresh, same) = tick_remote-step r c u f in
      let rest =
        tick_all-last_modified rs (tick_remote P (λ url. r) c).0 (ap is_empty same ∙ u) fresh in
      (rest.0 ∙ ap (λ v. last_modified v rs) shown, rest.1 ∙ ap (λ v. last_ok v rs) checked)
