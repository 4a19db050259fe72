-- ===== src/Main/Server/Ways.antt =====
-- The ways in which the process can stand, by the signals, the returns of the server and the panics.
use vpub_exporter.Prelude.{
  ℕ, Bool, Bool-cases, true, false, Option, none, some, inl, inr, ◌⊎◌, List, ◌≡◌, refl, ap, ◌∙◌,
  arith, All, ℤ,
}
use vpub_exporter.Text.{Bytes, all_valid}
use vpub_exporter.Errors.{Result-cases, Error, Result, ok, err}
use vpub_exporter.Registry.{Registerer}
use vpub_exporter.Config.{Config, Flags}
use vpub_exporter.Config.Args.{parse_args}
use vpub_exporter.Config.Load.{build}
use vpub_exporter.Config.Valid.{FlagsValid, HasUrls, load_iff}
use vpub_exporter.Main.{server_error, signal, run}
use vpub_exporter.Main.Registration.{register_all, register_all-registrations}
use vpub_exporter.Main.Process.{
  Exit, exited, exit_status, panicked, Host, load_from_os, setup, perform,
}
use vpub_exporter.Main.Process.Order.{registered-setup, labelled-setup, rpc_labels}
use vpub_exporter.Main.Process.Status.{
  IsFresh, perform-registered, perform-invalid, main-failed, main-run, load-built,
}
use vpub_exporter.Main.Server.{ServerEvent, Wait, waiting, crash, over, await, main_until}
use vpub_exporter.Main.Server.Await.{
  IsQuiet, IsStopped, IsCrashed, await-quiet, await-stopped, await-crashed, AwaitCases, await-cases,
}

-- What run needs to start: flags that parse and are valid, and a URL for each provider.
pub record Starts (parse_duration : Bytes → Option ℤ) (h : Host) : Type 0 where
  pub flags : Flags
  pub parses : parse_args parse_duration h.args ≡ ok flags
  pub flags_valid : FlagsValid flags
  pub has_urls :
      HasUrls (build flags h.getenv).bridge_rpc_urls (build flags h.getenv).bridge_rpc_names

-- The names of the providers, which are label values, are UTF-8, for a configuration that is loaded.
abbrev pub names_valid : Result Config → Bool
names_valid (err e) = true
names_valid (ok c) = all_valid (rpc_labels c)

pub one-zero : some (exited 1) ≡ some (exited 0) → ⊥
one-zero e = ground arith

pub exited-panicked : {n : ℕ} → some (exited n) ≡ some panicked → ⊥
exited-panicked e = cc

module _ (R : Registerer) (parse_duration : Bytes → Option ℤ) (r : R.Registry) (h : Host)
    (fresh : IsFresh R r) where
  pub Starts-load : Starts parse_duration h → (c : Config) × (load_from_os parse_duration h ≡ ok c)
  Starts-load s =
      let built = (load_iff s.flags h.getenv).0 (s.flags_valid, s.has_urls) in
      (build s.flags h.getenv, rw s.parses built)

  pub load-Starts : (c : Config) → load_from_os parse_duration h ≡ ok c → Starts parse_duration h
  load-Starts c e =
      let (f, parses, built) = load-built (parse_args parse_duration h.args) h.getenv c e in
      let (valid, urls) = (load_iff f h.getenv).1 built in
      record { flags = f; parses = parses; flags_valid = valid; has_urls = urls }

  setup-performs :
      (c : Config)
      → all_valid (rpc_labels c) ≡ true
      → (r' : R.Registry) × (perform R r (setup c) ≡ some r')
  setup-performs c valid =
      let (r', e, names) = register_all-registrations R c r fresh.0 fresh.1 in
      (
        r',
        perform-registered R r (setup c) (ap all_valid (labelled-setup c) ∙ valid)
            ∙ ap (register_all R r) (registered-setup c)
            ∙ e,
      )

  -- What the process comes to for how its last select stands.
  unfoldable pub at_wait : Config → Wait → Option Exit
  at_wait c w = elim w [
    | waiting ↦ none
    | crash ↦ some panicked
    | over end ↦ some (exited (exit_status (run (ok c) end)))
  ]

  until-failed :
      (e : Error) (shutdown : Result (Unit {0})) (es : List ServerEvent)
      → load_from_os parse_duration h ≡ err e
      → main_until R parse_duration r h shutdown es ≡ some (exited 1)
  unfolding main_until
  until-failed e shutdown es failed =
      rw (failed, main_until) (ap some (main-failed R parse_duration r h e failed))

  pub until-invalid :
      (c : Config) (shutdown : Result (Unit {0})) (es : List ServerEvent)
      → load_from_os parse_duration h ≡ ok c
      → all_valid (rpc_labels c) ≡ false
      → main_until R parse_duration r h shutdown es ≡ some panicked
  unfolding main_until
  until-invalid c shutdown es loaded invalid =
      rw
        (
          loaded,
          perform-invalid R r (setup c) (ap all_valid (labelled-setup c) ∙ invalid),
          main_until,
        )
        refl

  pub until-valid :
      (c : Config) (shutdown : Result (Unit {0})) (es : List ServerEvent) (w : Wait)
      → load_from_os parse_duration h ≡ ok c
      → all_valid (rpc_labels c) ≡ true
      → await shutdown es ≡ w
      → main_until R parse_duration r h shutdown es ≡ at_wait c w
  unfolding main_until at_wait
  until-valid c shutdown es waiting loaded valid at =
      rw (loaded, (setup-performs c valid).1, at, main_until) refl
  until-valid c shutdown es crash loaded valid at =
      rw (loaded, (setup-performs c valid).1, at, main_until) refl
  until-valid c shutdown es (over end) loaded valid at =
      let ended : Host = record h { ending = end } in
      rw (loaded, (setup-performs c valid).1, at, main_until)
        (ap some (main-run R parse_duration r ended c fresh loaded valid))

  pub await-IsStopped :
      (shutdown : Result (Unit {0})) (es : List ServerEvent)
      → IsStopped es
      → await shutdown es ≡ over (signal shutdown)
  await-IsStopped shutdown es w =
      ap (await shutdown) w.splits ∙ await-stopped shutdown w.before w.stop w.behind w.stops w.quiet

  pub await-IsCrashed :
      (shutdown : Result (Unit {0})) (es : List ServerEvent)
      → IsCrashed es
      → await shutdown es ≡ crash
  await-IsCrashed shutdown es w =
      ap (await shutdown) w.splits ∙ await-crashed shutdown w.before w.behind w.quiet

  -- It panics at the names of the providers, or in a goroutine.
  unfoldable pub Panics : List ServerEvent → Type 0
  Panics es =
      Starts parse_duration h
      × ((names_valid (load_from_os parse_duration h) ≡ false)
          ⊎ ((names_valid (load_from_os parse_duration h) ≡ true) × IsCrashed es))

  -- The four ways it can stand.
  unfoldable pub UntilCases : Result (Unit {0}) → List ServerEvent → Type 0
  UntilCases shutdown es =
      (main_until R parse_duration r h shutdown es ≡ some (exited 1))
      ⊎ ((Starts parse_duration h
            × (names_valid (load_from_os parse_duration h) ≡ true)
            × IsStopped es
            × (shutdown ≡ ok tt)
            × (main_until R parse_duration r h shutdown es ≡ some (exited 0)))
          ⊎ ((Starts parse_duration h
                × (names_valid (load_from_os parse_duration h) ≡ true)
                × All IsQuiet es
                × (main_until R parse_duration r h shutdown es ≡ none))
              ⊎ (Panics es × (main_until R parse_duration r h shutdown es ≡ some panicked))))

  until-started :
      (c : Config) (shutdown : Result (Unit {0})) (es : List ServerEvent)
      → load_from_os parse_duration h ≡ ok c
      → all_valid (rpc_labels c) ≡ true
      → UntilCases shutdown es
  unfolding UntilCases AwaitCases at_wait Panics run exit_status
  until-started c shutdown es loaded valid =
      let s = load-Starts c loaded in
      let named = ap names_valid loaded ∙ valid in
      let at =
        λ (w : Wait) (e : await shutdown es ≡ w). until-valid c shutdown es w loaded valid e in
      elim (await-cases shutdown es) [
        | inl q ↦ inr (inr (inl (s, named, q, at waiting (await-quiet shutdown es q))))
        | inr (inl w) ↦
            let stopped = at (over (signal shutdown)) (await-IsStopped shutdown es w) in
            elim (Result-cases shutdown) [
              | inl (u, e) ↦ inr (
                  inl (
                    s,
                    named,
                    w,
                    e,
                    stopped ∙ ap (λ d. some (exited (exit_status (run (ok c) (signal d))))) e,
                  ))
              | inr (x, e) ↦
                  inl (stopped ∙ ap (λ d. some (exited (exit_status (run (ok c) (signal d))))) e)
            ]
        | inr (inr (inl w)) ↦
            inr (inr (inr ((s, inr (named, w)), at crash (await-IsCrashed shutdown es w))))
        | inr (inr (inr (e, f))) ↦ inl (at (over (server_error e)) f)
      ]

  pub until-cases : (shutdown : Result (Unit {0})) (es : List ServerEvent) → UntilCases shutdown es
  unfolding UntilCases Panics
  until-cases shutdown es = elim (Result-cases (load_from_os parse_duration h)) [
    | inr (e, failed) ↦ inl (until-failed e shutdown es failed)
    | inl (c, loaded) ↦ elim (Bool-cases (all_valid (rpc_labels c))) [
      | inl valid ↦ until-started c shutdown es loaded valid
      | inr invalid ↦ inr (
          inr (
            inr (
              (load-Starts c loaded, inl (ap names_valid loaded ∙ invalid)),
              until-invalid c shutdown es loaded invalid,
            )))
    ]
  ]
