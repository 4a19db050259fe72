-- ===== src/Collectors/BridgeRpc/Providers.antt =====
-- What a tick of the bridge RPC collector does to the metrics of each provider. Goroutines of
-- different providers touch different series.
use vpub_exporter.Prelude.{
  Bool, true, false, ◌&&◌, Option-cases, Bool-cases, inl, inr, none, some, List, [], ◌∷◌, ◌++◌, ◌≡◌,
  refl, ◌∙◌, ap, arith, if◌then◌else◌, any, ℤ, pos,
}
use vpub_exporter.Text.{Bytes, codes, bytes_eq, bytes_eq_refl}
use vpub_exporter.Errors.{Outcome, success, first_error}
use vpub_exporter.Prometheus.{Prometheus}
use vpub_exporter.Collectors.BridgeRpc.{
  BridgeRpcCollector, Probed, classify, finish, finish_all, tick,
}

-- The status that a probe is counted under.
abbrev pub status_of : Probed → Bytes
status_of p = elim p.error [ none ↦ codes "ok" | some e ↦ (classify e).0 ]

abbrev pub up_of : Probed → ℤ
up_of p = elim p.error [ none ↦ pos 1 | some e ↦ pos 0 ]

abbrev pub IsAbsent : Bytes → List Probed → Type 0
IsAbsent name ps = any (λ q. bytes_eq q.name name) ps ≡ false

-- The first failure in the order in which the probes finish.
abbrev pub first_failure : List Probed → Outcome → Outcome
first_failure [] o = o
first_failure (p ∷ ps) o =
    first_failure ps (elim p.error [ none ↦ o | some e ↦ first_error o (classify e).1 e ])

both {ℓ} :
    {A : Type ℓ} (a b : Bool) (x y : A)
    → (if a && (b && true) then x else y) ≡ (if a then (if b then x else y) else y)
both true true x y = refl
both true false x y = refl
both false b x y = refl

module _ (P : Prometheus) where
  finish-up :
      (p : Probed) (c : BridgeRpcCollector P) (o : Outcome) (k : Bytes)
      → P.value_at (finish P p (c, o)).0.up (k ∷ [])
        ≡ (if bytes_eq p.name k then some (P.float64 (up_of p)) else P.value_at c.up (k ∷ []))
  unfolding finish
  finish-up p c o k = ground (
    arith,
    P.value_at-set_at c.up (p.name ∷ []) (P.float64 (pos 1)) (k ∷ []),
    P.value_at-set_at c.up (p.name ∷ []) (P.float64 (pos 0)) (k ∷ []),
  )

  finish-check_tot :
      (p : Probed) (c : BridgeRpcCollector P) (o : Outcome) (k s : Bytes)
      → P.total_at (finish P p (c, o)).0.check_tot (k ∷ s ∷ []) ≡ (
          if bytes_eq p.name k
          then (if bytes_eq (status_of p) s
              then P.plus (P.total_at c.check_tot (k ∷ s ∷ [])) (P.float64 (pos 1))
              else P.total_at c.check_tot (k ∷ s ∷ []))
          else P.total_at c.check_tot (k ∷ s ∷ []))
  unfolding finish
  finish-check_tot p c o k s = elim (Option-cases p.error) [
    | inl e ↦
        rw (e, finish)
          (P.total_at-add_at c.check_tot (p.name ∷ codes "ok" ∷ []) (pos 1) (k ∷ s ∷ [])
              (omega arith)
            ∙ both (bytes_eq p.name k) (bytes_eq (codes "ok") s) _ _)
    | inr (x, e) ↦
        rw (e, finish)
          (P.total_at-add_at c.check_tot (p.name ∷ (classify x).0 ∷ []) (pos 1) (k ∷ s ∷ [])
              (omega arith)
            ∙ both (bytes_eq p.name k) (bytes_eq (classify x).0 s) _ _)
  ]

  finish-outcome :
      (p : Probed) (c : BridgeRpcCollector P) (o : Outcome)
      → (finish P p (c, o)).1 ≡ elim p.error [ none ↦ o | some e ↦ first_error o (classify e).1 e ]
  unfolding finish
  finish-outcome p c o = ground arith

  finish_all-absent :
      (ps : List Probed) (c : BridgeRpcCollector P) (o : Outcome) (k s : Bytes)
      → IsAbsent k ps
      → (P.value_at (finish_all P ps (c, o)).0.up (k ∷ []) ≡ P.value_at c.up (k ∷ []))
        × (P.total_at (finish_all P ps (c, o)).0.check_tot (k ∷ s ∷ [])
            ≡ P.total_at c.check_tot (k ∷ s ∷ []))
  unfolding finish_all
  finish_all-absent [] c o k s h = (refl, refl)
  finish_all-absent (p ∷ ps) c o k s h =
      let (c1, o1) = finish P p (c, o) in
      elim (Bool-cases (bytes_eq p.name k)) [
        | inl e ↦ absurd (ground arith)
        | inr e ↦
            let rest = finish_all-absent ps c1 o1 k s (ground arith) in
            (rest.0 ∙ finish-up p c o k ∙ rw e, rest.1 ∙ finish-check_tot p c o k s ∙ rw e)
      ]

  finish_all-present :
      (xs zs : List Probed) (p : Probed) (c : BridgeRpcCollector P) (o : Outcome) (s : Bytes)
      → IsAbsent p.name xs
      → IsAbsent p.name zs
      → (P.value_at (finish_all P (xs ++ p ∷ zs) (c, o)).0.up (p.name ∷ [])
          ≡ some (P.float64 (up_of p)))
        × (P.total_at (finish_all P (xs ++ p ∷ zs) (c, o)).0.check_tot (p.name ∷ s ∷ []) ≡ (
            if bytes_eq (status_of p) s
            then P.plus (P.total_at c.check_tot (p.name ∷ s ∷ [])) (P.float64 (pos 1))
            else P.total_at c.check_tot (p.name ∷ s ∷ [])))
  unfolding finish_all
  finish_all-present [] zs p c o s hx hz =
      let (c1, o1) = finish P p (c, o) in
      let rest = finish_all-absent zs c1 o1 p.name s hz in
      (
        rest.0 ∙ finish-up p c o p.name ∙ rw (bytes_eq_refl p.name),
        rest.1 ∙ finish-check_tot p c o p.name s ∙ rw (bytes_eq_refl p.name),
      )
  finish_all-present (x ∷ xs) zs p c o s hx hz =
      let (c1, o1) = finish P x (c, o) in
      elim (Bool-cases (bytes_eq x.name p.name)) [
        | inl e ↦ absurd (ground arith)
        | inr e ↦
            let rest = finish_all-present xs zs p c1 o1 s (ground arith) hz in
            let old = finish-check_tot x c o p.name s ∙ rw e in
            (
              rest.0,
              rest.1
                  ∙ ap (λ v. if bytes_eq (status_of p) s then P.plus v (P.float64 (pos 1)) else v)
                      old,
            )
      ]

  finish_all-outcome :
      (ps : List Probed) (c : BridgeRpcCollector P) (o : Outcome)
      → (finish_all P ps (c, o)).1 ≡ first_failure ps o
  unfolding finish_all
  finish_all-outcome [] c o = refl
  finish_all-outcome (p ∷ ps) c o =
      let (c1, o1) = finish P p (c, o) in
      finish_all-outcome ps c1 o1 ∙ ap (first_failure ps) (finish-outcome p c o)

  -- In whatever order the probes of a tick finish, a provider that is probed once gets 1 or 0 for its
  -- own answer, its counter of the answer's status grows by 1, and its other statuses stay. The
  -- tick reports the failure that was first to finish.
  pub tick_provider :
      (xs zs : List Probed) (p : Probed) (c : BridgeRpcCollector P) (s : Bytes)
      → IsAbsent p.name xs
      → IsAbsent p.name zs
      → (P.value_at (tick P (xs ++ p ∷ zs) c).0.up (p.name ∷ []) ≡ some (P.float64 (up_of p)))
        × (P.total_at (tick P (xs ++ p ∷ zs) c).0.check_tot (p.name ∷ s ∷ []) ≡ (
            if bytes_eq (status_of p) s
            then P.plus (P.total_at c.check_tot (p.name ∷ s ∷ [])) (P.float64 (pos 1))
            else P.total_at c.check_tot (p.name ∷ s ∷ [])))
        × ((tick P (xs ++ p ∷ zs) c).1 ≡ first_failure (xs ++ p ∷ zs) success)
  unfolding tick
  tick_provider xs zs p c s hx hz =
      let shown = finish_all-present xs zs p c success s hx hz in
      (shown.0, shown.1, finish_all-outcome (xs ++ p ∷ zs) c success)
