-- ===== src/Main/Secrets.antt =====
-- Which part of the configuration the log of cmd/vpub-exporter/main.go and what `run` does depend on.
use vpub_exporter.Prelude.{
  Bool, ◌||◌, any, false, List, [], ◌∷◌, ◌≡◌, refl, arith, ℤ, Bool-cases, inl, inr, ◌⊎◌, Option,
  Option-cases, ap, ◌∙◌,
}
use vpub_exporter.Text.{Bytes, codes, is_empty, bytes_eq, has_prefix}
use vpub_exporter.Errors.{Error, Result, ok, err}
use vpub_exporter.Systemd.{UnitConn}
use vpub_exporter.Config.{Config, Assoc, Env, Flags, lookup, missing_url, first_missing, validate}
use vpub_exporter.Config.Load.{build, checked, load}
use vpub_exporter.Config.Urls.{url_key, build-url}
use vpub_exporter.Main.{
  Ending, server_error, signal, run, has_bridge_rpc, has_slack, has_binary_remote, has_bridge_state,
}
use vpub_exporter.Main.Logs.{main_logs, starting_logs}
use vpub_exporter.Main.Process.{Host, load_from_os, setup, ending_actions, run_actions}
use vpub_exporter.Config.Args.{parse_args}

-- The configuration with other secrets: Slack's token and the URLs of the providers and the binary.
abbrev pub with_secrets : Bytes → Assoc → Bytes → Config → Config
with_secrets token urls url c = record c {
  slack_bot_token = token;
  bridge_rpc_urls = urls;
  binary_url = url;
}

abbrev token_key : Bytes
token_key = codes "VPUB_SLACK_BOT_TOKEN"

abbrev binary_url_key : Bytes
binary_url_key = codes "VPUB_BINARY_URL"

-- The variables that hold secrets.
abbrev pub is_secret : Bytes → Bool
is_secret k = bytes_eq k token_key || bytes_eq k binary_url_key || has_prefix k (codes "VPUB_RPC_")

-- Two environments that differ only in the values of secrets that are set in both.
pub record SameButSecrets (g g' : Env) : Type 0 where
  pub public : (k : Bytes) → is_secret k ≡ false → g' k ≡ g k
  pub set : (k : Bytes) → is_empty (g' k) ≡ is_empty (g k)

build-secret :
    (f : Flags) (g g' : Env)
    → SameButSecrets g g'
    → build f g'
      ≡ with_secrets (g' token_key) (build f g').bridge_rpc_urls (g' binary_url_key) (build f g)
unfolding build has_prefix
build-secret f g g' s =
    rw
      (
        s.public (codes "VPUB_BRIDGE_RPC_NAMES") refl,
        s.public (codes "VPUB_VISOR_LOG_DIR") refl,
        s.public (codes "VPUB_COMPONENT_LOG_DIR") refl,
        s.public (codes "VPUB_BINARY_PATH") refl,
        s.public (codes "VPUB_BINARY_TARGETS") refl,
        s.public (codes "VPUB_BRIDGE_STATE_PATH") refl,
        s.public (codes "VPUB_OUTCOME_CHANNEL") refl,
        s.public (codes "VPUB_VOTE_OK_PATTERNS") refl,
        s.public (codes "VPUB_VOTE_FAIL_PATTERNS") refl,
        s.public (codes "VPUB_PROVIDER_FAIL_PATTERNS") refl,
        s.public (codes "VPUB_DISAGREEMENT_PATTERNS") refl,
        s.public (codes "VPUB_ORACLE_OK_PATTERNS") refl,
        s.public (codes "VPUB_ORACLE_FAIL_PATTERNS") refl,
        s.public (codes "VPUB_LOG_WARN_PATTERNS") refl,
        s.public (codes "VPUB_LOG_CRIT_PATTERNS") refl,
      )
      refl

build-names :
    (f : Flags) (g g' : Env)
    → SameButSecrets g g'
    → (build f g').bridge_rpc_names ≡ (build f g).bridge_rpc_names
build-names f g g' s = ap (λ c. c.bridge_rpc_names) (build-secret f g g' s)

url-set :
    (f : Flags) (g g' : Env) (k : Bytes)
    → SameButSecrets g g'
    → is_empty (lookup (build f g').bridge_rpc_urls k)
      ≡ is_empty (lookup (build f g).bridge_rpc_urls k)
url-set f g g' k s =
    let listed = any (λ n. bytes_eq n k) (build f g).bridge_rpc_names in
    rw (build-url f g' k, build-url f g k, build-names f g g' s)
      (elim (Bool-cases listed) [ inl e ↦ rw e (s.set (url_key k)) | inr e ↦ rw e refl ])

missing_url-same :
    (ns : List Bytes) (us us' : Assoc)
    → ((k : Bytes) → is_empty (lookup us' k) ≡ is_empty (lookup us k))
    → missing_url us' ns ≡ missing_url us ns
unfolding missing_url
missing_url-same [] us us' h = refl
missing_url-same (n ∷ ns) us us' h = rw (h n, missing_url-same ns us us' h) refl

first_missing-same :
    (ns : List Bytes) (us us' : Assoc)
    → ((k : Bytes) → is_empty (lookup us' k) ≡ is_empty (lookup us k))
    → first_missing us' ns ≡ first_missing us ns
unfolding first_missing
first_missing-same [] us us' h = refl
first_missing-same (n ∷ ns) us us' h = rw (h n, first_missing-same ns us us' h) refl

validate-secret :
    (f : Flags) (g g' : Env) → SameButSecrets g g' → validate (build f g') ≡ validate (build f g)
unfolding validate
validate-secret f g g' s =
    let urls = (build f g').bridge_rpc_urls in
    let missing =
      missing_url-same (build f g).bridge_rpc_names (build f g).bridge_rpc_urls urls
        (λ k. url-set f g g' k s) in
    let first =
      first_missing-same (build f g).bridge_rpc_names (build f g).bridge_rpc_urls urls
        (λ k. url-set f g g' k s) in
    ap validate (build-secret f g g' s) ∙ rw (missing, first) refl

-- Load gives the same error for both environments, or the two configurations that it builds.
load-secret :
    (f : Flags) (g g' : Env)
    → SameButSecrets g g'
    → ((e : Error) × (load (ok f) g ≡ err e) × (load (ok f) g' ≡ err e))
      ⊎ ((load (ok f) g ≡ ok (build f g)) × (load (ok f) g' ≡ ok (build f g')))
unfolding load checked
load-secret f g g' s =
    let same = validate-secret f g g' s in
    elim (Option-cases (validate (build f g))) [
      | inl e ↦ inr (rw (e, load, checked) refl, rw (same ∙ e, load, checked) refl)
      | inr (x, e) ↦ inl (x, rw (e, load, checked) refl, rw (same ∙ e, load, checked) refl)
    ]

-- The error of run does not depend on the configuration that was loaded.
run-ok : (c d : Config) (end : Ending) → run (ok d) end ≡ run (ok c) end
unfolding run
run-ok c d (server_error e) = refl
run-ok c d (signal (err e)) = refl
run-ok c d (signal (ok u)) = refl

module _ (show_duration : ℤ → Bytes) (show_error : Error → Bytes) where
  abbrev logs : Result Config → Result UnitConn → Ending → List Bytes
  logs = main_logs show_duration show_error

  config-secret :
      (c : Config) (token url : Bytes) (urls : Assoc) (bus : Result UnitConn) (end : Ending)
      → is_empty token ≡ is_empty c.slack_bot_token
      → is_empty url ≡ is_empty c.binary_url
      → (logs (ok (with_secrets token urls url c)) bus end ≡ logs (ok c) bus end)
        × (run_actions (ok (with_secrets token urls url c)) bus end ≡ run_actions (ok c) bus end)
  unfolding main_logs starting_logs run_actions setup ending_actions has_slack has_bridge_rpc
      has_binary_remote has_bridge_state
  config-secret c token url urls bus end t u = (rw (t, u) refl, ground (arith, t, u))

  -- What shows of two results of Load is the same.
  abbrev LooksAlike : Result UnitConn → Ending → Result Config → Result Config → Type 0
  LooksAlike bus end loaded other =
      (logs other bus end ≡ logs loaded bus end)
      × (run_actions other bus end ≡ run_actions loaded bus end)
      × (run other end ≡ run loaded end)

  build-LooksAlike :
      (f : Flags) (g g' : Env) (bus : Result UnitConn) (end : Ending)
      → SameButSecrets g g'
      → LooksAlike bus end (ok (build f g)) (ok (build f g'))
  build-LooksAlike f g g' bus end s =
      let c = build f g in
      let (lines, acts) =
        config-secret c (g' token_key) (g' binary_url_key) (build f g').bridge_rpc_urls bus end
          (s.set token_key ∙ unfold build in refl) (s.set binary_url_key ∙ unfold build in refl) in
      rw (build-secret f g g' s) (lines, acts, run-ok c _ end)

  flags-secret :
      (flags : Result Flags) (g g' : Env) (bus : Result UnitConn) (end : Ending)
      → SameButSecrets g g'
      → LooksAlike bus end (load flags g) (load flags g')
  flags-secret (err e) g g' bus end s = unfold load in (refl, refl, refl)
  flags-secret (ok f) g g' bus end s = elim (load-secret f g g' s) [
    | inl (e, q, q') ↦ rw (q, q') (refl, refl, refl)
    | inr (q, q') ↦ rw (q, q') (build-LooksAlike f g g' bus end s)
  ]

  -- The lines that the process logs if it does not panic, the actions that it takes, with the names and label names of the
  -- metrics that it registers and the label values that their constructors take from the
  -- configuration, and the error that run returns are the same in any two environments that differ
  -- only in the values of Slack's token, the URLs of the providers and the URL of the binary, where
  -- the same ones are set. What Validate finds wrong has its whole text; an error of the flags has the
  -- constant part of its text, behind which the source puts texts of the arguments only.
  pub run-secret :
      (parse_duration : Bytes → Option ℤ) (h : Host) (g : Env)
      → SameButSecrets h.getenv g
      → (let loaded = load_from_os parse_duration h in
          let other = load_from_os parse_duration (record h { getenv = g }) in
          (main_logs show_duration show_error other h.bus h.ending
            ≡ main_logs show_duration show_error loaded h.bus h.ending)
          × (run_actions other h.bus h.ending ≡ run_actions loaded h.bus h.ending)
          × (run other h.ending ≡ run loaded h.ending))
  run-secret parse_duration h g s =
      flags-secret (parse_args parse_duration h.args) h.getenv g h.bus h.ending s
