-- ===== src/Main/Process/Status.antt =====
-- The exit status of the process.
use vpub_exporter.Prelude.{
  Bool, Bool-cases, true, false, ◌&&◌, ◌++◌, sym, Option, none, some, Option-cases, inl, inr, List,
  [], ◌∷◌, ◌≡◌, refl, ap, ◌∙◌, arith, All, ℤ,
}
use vpub_exporter.Text.{Bytes, codes, has_prefix, all_valid}
use vpub_exporter.Errors.{err-ok, Error, Result, ok, err}
use vpub_exporter.Registry.{Registerer, distinct}
use vpub_exporter.Systemd.{UnitConn}
use vpub_exporter.Config.{Config, Flags, Env, validate}
use vpub_exporter.Config.Load.{build, load, checked}
use vpub_exporter.Main.{Ending, run}
use vpub_exporter.Main.Registration.{register_all, register_all-registrations}
use vpub_exporter.Main.Process.{
  Action, register, start, label, effect, run_actions, exited, exit_status, Host, load_from_os,
  accepts_all, perform, main,
}
use vpub_exporter.Main.Process.Order.{
  registered, registered-run_actions, labelled, labelled-run_actions, rpc_labels,
}

-- What Load accepts is what it built from flags that parse.
pub load-built :
    (flags : Result Flags) (getenv : Env) (c : Config)
    → load flags getenv ≡ ok c
    → (f : Flags) × (flags ≡ ok f) × (load (ok f) getenv ≡ ok (build f getenv))
unfolding load checked
load-built (ok f) getenv c h = elim (Option-cases (validate (build f getenv))) [
  | inl e ↦ (f, refl, rw (e, load, checked) refl)
  | inr (x, e) ↦ absurd (err-ok (rw (e, load, checked) at h))
]
load-built (err e) getenv c h = absurd (err-ok h)

both : (a b : Bool) → (a && b) ≡ true → (a ≡ true) × (b ≡ true)
both a b h = ground arith

module _ (R : Registerer) where
  accepts_all-valid : (vs : List Bytes) → accepts_all R vs ≡ all_valid vs
  unfolding accepts_all
  accepts_all-valid [] = refl
  accepts_all-valid (v ∷ vs) = rw (R.accepts_label-valid v, accepts_all-valid vs) refl

  all_valid-append : (vs ws : List Bytes) → all_valid (vs ++ ws) ≡ (all_valid vs && all_valid ws)
  all_valid-append [] ws = refl
  all_valid-append (v ∷ vs) ws = rw (all_valid-append vs ws) (ground arith)

  -- With valid label values what is performed is what is registered.
  pub perform-registered :
      (r : R.Registry) (acts : List Action)
      → all_valid (labelled acts) ≡ true
      → perform R r acts ≡ register_all R r (registered acts)
  unfolding perform register_all
  perform-registered r [] h = refl
  perform-registered r (register os ∷ acts) h = elim (Option-cases (R.must_register r os)) [
    | inl e ↦ rw (e, perform, register_all) refl
    | inr (r', e) ↦ rw (e, perform, register_all) (perform-registered r' acts h)
  ]
  perform-registered r (label vs ∷ acts) h =
      let (now, later) = both (all_valid vs) _ (sym (all_valid-append vs (labelled acts)) ∙ h) in
      rw (accepts_all-valid vs, now) (perform-registered r acts later)
  perform-registered r (start j ∷ acts) h = perform-registered r acts h
  perform-registered r (effect e ∷ acts) h = perform-registered r acts h

  -- A label value that is not valid is a panic.
  pub perform-invalid :
      (r : R.Registry) (acts : List Action)
      → all_valid (labelled acts) ≡ false
      → perform R r acts ≡ none
  unfolding perform
  perform-invalid r [] h = absurd cc
  perform-invalid r (register os ∷ acts) h = elim (Option-cases (R.must_register r os)) [
    | inl e ↦ rw (e, perform) refl
    | inr (r', e) ↦ rw (e, perform) (perform-invalid r' acts h)
  ]
  perform-invalid r (label vs ∷ acts) h = elim (Bool-cases (all_valid vs)) [
    | inr e ↦ rw (accepts_all-valid vs, e) refl
    | inl e ↦
        let later = rw e at (sym (all_valid-append vs (labelled acts)) ∙ h) in
        rw (accepts_all-valid vs, e) (perform-invalid r acts later)
  ]
  perform-invalid r (start j ∷ acts) h = perform-invalid r acts h
  perform-invalid r (effect e ∷ acts) h = perform-invalid r acts h

  -- A registry as at the start of run: distinct names, none of ours.
  abbrev pub IsFresh : R.Registry → Type 0
  IsFresh r =
      (distinct (R.names r) ≡ true) × All (λ n. has_prefix n (codes "vpub_") ≡ false) (R.names r)

  -- No call of MustRegister panics, and none of WithLabelValues with valid names.
  performs :
      (r : R.Registry) (c : Config) (bus : Result UnitConn) (end : Ending)
      → IsFresh r
      → all_valid (rpc_labels c) ≡ true
      → (r' : R.Registry) × (perform R r (run_actions (ok c) bus end) ≡ some r')
  performs r c bus end fresh valid =
      let (r', e, names) = register_all-registrations R c r fresh.0 fresh.1 in
      (
        r',
        perform-registered r (run_actions (ok c) bus end)
              (ap all_valid (labelled-run_actions c bus end) ∙ valid)
            ∙ ap (register_all R r) (registered-run_actions c bus end)
            ∙ e,
      )

  pub main-failed :
      (parse_duration : Bytes → Option ℤ) (r : R.Registry) (h : Host) (e : Error)
      → load_from_os parse_duration h ≡ err e
      → main R parse_duration r h ≡ exited 1
  unfolding main perform run_actions run exit_status
  main-failed parse_duration r h e failed =
      rw (failed, main) (ap (λ l. exited (exit_status (run l h.ending))) failed)

  pub main-run :
      (parse_duration : Bytes → Option ℤ) (r : R.Registry) (h : Host) (c : Config)
      → IsFresh r
      → load_from_os parse_duration h ≡ ok c
      → all_valid (rpc_labels c) ≡ true
      → main R parse_duration r h ≡ exited (exit_status (run (ok c) h.ending))
  unfolding main
  main-run parse_duration r h c fresh loaded valid =
      let (r', e) = performs r c h.bus h.ending fresh valid in
      rw (loaded, main) (rw e (ap (λ l. exited (exit_status (run l h.ending))) loaded))
