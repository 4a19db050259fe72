-- ===== src/Main/Registration.antt =====
-- What `run` of cmd/vpub-exporter/main.go registers, in the order in which it calls the constructors
-- of internal/collectors.
use vpub_exporter.Prelude.{
  Bool, true, false, not, ◌&&◌, ◌≡◌, refl, sym, ap, ◌∙◌, Option, none, some, List, [], ◌∷◌, ◌++◌,
  map, append_assoc, All, arith,
}
use vpub_exporter.Text.{Bytes, codes, is_empty, has_prefix}
use vpub_exporter.Prometheus.{Opts}
use vpub_exporter.Registry.{Registerer, joined, distinct, distinct-behind, distinct-append}
use vpub_exporter.Config.{Config}
use vpub_exporter.Collectors.Metrics.{
  exporter_opts, service_opts, log_mtime_opts, bridge_rpc_opts, bridge_state_opts, vote_logs_opts,
  outcome_logs_opts, slack_health_opts, outcome_slack_opts, binary_opts, download_logs_opts,
  visor_log_opts,
}
use vpub_exporter.Main.{when, has_bridge_rpc, has_bridge_state, has_slack, has_entries}

-- The lists that are registered, by the conditions of the optional collectors.
abbrev pub blocks : (rpc state slack channel targets visor : Bool) → List (List Opts)
blocks rpc state slack channel targets visor =
    exporter_opts
    ∷ service_opts
    ∷ log_mtime_opts
    ∷ (when rpc (bridge_rpc_opts ∷ [])
        ++ (when state (bridge_state_opts ∷ [])
            ++ (vote_logs_opts
                ∷ outcome_logs_opts
                ∷ (when slack (slack_health_opts ∷ when channel (outcome_slack_opts ∷ []))
                    ++ (when targets (binary_opts ∷ [])
                        ++ when visor (download_logs_opts ∷ visor_log_opts ∷ []))))))

unfoldable pub registrations : Config → List (List Opts)
registrations c =
    blocks (has_bridge_rpc c) (has_bridge_state c) (has_slack c) (not (is_empty c.outcome_channel))
      (has_entries c.binary_targets) (not (is_empty c.visor_log_dir))

-- The names after some registrations.
abbrev pub stack : (Opts → Bytes) → List Bytes → List (List Opts) → List Bytes
stack f xs [] = xs
stack f xs (os ∷ bs) = stack f (map f os ++ xs) bs

stack-append :
    (f : Opts → Bytes) (xs ys : List Bytes) (bs : List (List Opts))
    → stack f (xs ++ ys) bs ≡ stack f xs bs ++ ys
stack-append f xs ys [] = refl
stack-append f xs ys (os ∷ bs) =
    ap (λ l. stack f l bs) (sym (append_assoc (map f os) xs ys))
    ∙ stack-append f (map f os ++ xs) ys bs

distinct-stack :
    (f : Opts → Bytes) (xs : List Bytes) (bs : List (List Opts))
    → distinct (stack f xs bs) ≡ true
    → distinct xs ≡ true
distinct-stack f xs [] h = h
distinct-stack f xs (os ∷ bs) h =
    distinct-behind (map f os) xs (distinct-stack f (map f os ++ xs) bs h)

all_named : List Opts → Bool
all_named [] = true
all_named (o ∷ os) = not (is_empty o.name) && all_named os

blocks_named : List (List Opts) → Bool
unfolding all_named
blocks_named [] = true
blocks_named (os ∷ bs) = all_named os && blocks_named bs

abbrev is_ours : Bytes → Bool
is_ours n = has_prefix n (codes "vpub_")

all_ours : List Bytes → Bool
all_ours [] = true
all_ours (n ∷ ns) = is_ours n && all_ours ns

all_ours-All : (ns : List Bytes) → all_ours ns ≡ true → All (λ n. is_ours n ≡ true) ns
unfolding all_ours
all_ours-All [] h = tt
all_ours-All (n ∷ ns) h = (ground arith, all_ours-All ns (ground arith))

-- Whether the names of some lists are distinct, begin with "vpub_", and have a last part.
passes : List (List Opts) → Bool
unfolding blocks_named all_ours
passes bs = let names = stack joined [] bs in distinct names && (all_ours names && blocks_named bs)

abbrev on_both : (Bool → Bool) → Bool
on_both p = p true && p false

on_both_lem : (p : Bool → Bool) → on_both p ≡ true → (b : Bool) → p b ≡ true
on_both_lem p h true = ground arith
on_both_lem p h false = ground arith

-- All 64 sets of collectors pass.
all_pass :
    on_both (λ a. on_both (λ b.
      on_both (λ c. on_both (λ d. on_both (λ e. on_both (λ f. passes (blocks a b c d e f)))))))
    ≡ true
unfolding passes has_prefix
all_pass = refl

blocks-passes : (a b c d e f : Bool) → passes (blocks a b c d e f) ≡ true
blocks-passes a b c d e f =
    let on_a =
      on_both_lem
        (λ x. on_both (λ b'.
          on_both (λ c'.
            on_both (λ d'. on_both (λ e'. on_both (λ f'. passes (blocks x b' c' d' e' f')))))))
        all_pass a in
    let on_b =
      on_both_lem
        (λ x.
          on_both
            (λ c'. on_both (λ d'. on_both (λ e'. on_both (λ f'. passes (blocks a x c' d' e' f'))))))
        on_a b in
    let on_c =
      on_both_lem
        (λ x. on_both (λ d'. on_both (λ e'. on_both (λ f'. passes (blocks a b x d' e' f'))))) on_b
        c in
    let on_d =
      on_both_lem (λ x. on_both (λ e'. on_both (λ f'. passes (blocks a b c x e' f')))) on_c d in
    let on_e = on_both_lem (λ x. on_both (λ f'. passes (blocks a b c d x f'))) on_d e in
    on_both_lem (λ x. passes (blocks a b c d e x)) on_e f

module _ (R : Registerer) where
  -- The calls of MustRegister one after the other; `none` is a panic.
  unfoldable pub register_all : R.Registry → List (List Opts) → Option R.Registry
  register_all r [] = some r
  register_all r (os ∷ bs) = elim (R.must_register r os) [
    | none ↦ none
    | some r' ↦ register_all r' bs
  ]

  fq_names-joined : (os : List Opts) → all_named os ≡ true → map R.fq_name os ≡ map joined os
  unfolding all_named
  fq_names-joined [] h = refl
  fq_names-joined (o ∷ os) h =
      cc (R.fq_name-joined o (ground arith), fq_names-joined os (ground arith))

  stack-joined :
      (xs : List Bytes) (bs : List (List Opts))
      → blocks_named bs ≡ true
      → stack R.fq_name xs bs ≡ stack joined xs bs
  unfolding blocks_named
  stack-joined xs [] h = refl
  stack-joined xs (os ∷ bs) h =
      stack-joined (map R.fq_name os ++ xs) bs (ground arith)
      ∙ ap (λ l. stack joined (l ++ xs) bs) (fq_names-joined os (ground arith))

  register_all-some :
      (r : R.Registry) (bs : List (List Opts))
      → distinct (stack R.fq_name (R.names r) bs) ≡ true
      → (r' : R.Registry) × (register_all r bs ≡ some r')
        × (R.names r' ≡ stack R.fq_name (R.names r) bs)
  unfolding register_all
  register_all-some r [] h = (r, refl, refl)
  register_all-some r (os ∷ bs) h =
      let (r1, e1, n1) =
        R.must_register-some r os (distinct-stack R.fq_name (map R.fq_name os ++ R.names r) bs h) in
      let (r2, e2, n2) = register_all-some r1 bs (rw n1 h) in
      (r2, rw (e1, register_all) e2, n2 ∙ rw n1)

  -- Whatever the configuration, registering the metrics of its collectors does not panic: in a
  -- registry whose names are distinct and none of which begins with "vpub_", as with the collectors
  -- of the Go runtime and the process, each call of MustRegister succeeds, and the names of the
  -- registry are then those it had and the full names of these metrics.
  pub register_all-registrations :
      (c : Config) (r : R.Registry)
      → distinct (R.names r) ≡ true
      → All (λ n. has_prefix n (codes "vpub_") ≡ false) (R.names r)
      → (r' : R.Registry) × (register_all r (registrations c) ≡ some r')
        × (R.names r' ≡ stack joined [] (registrations c) ++ R.names r)
  register_all-registrations c r d other =
      let bs : List (List Opts) = registrations c in
      let ok : passes bs ≡ true = unfold registrations in blocks-passes _ _ _ _ _ _ in
      let names : List Bytes = stack joined [] bs in
      let same : stack R.fq_name (R.names r) bs ≡ names ++ R.names r =
        unfold passes in
        stack-joined (R.names r) bs (ground arith) ∙ stack-append joined [] (R.names r) bs in
      let fresh : distinct (names ++ R.names r) ≡ true =
        unfold passes in
        distinct-append is_ours names (R.names r) (ground arith) (all_ours-All names (ground arith))
          d other in
      let (r', e, n) = register_all-some r bs (rw same fresh) in (r', e, n ∙ same)
