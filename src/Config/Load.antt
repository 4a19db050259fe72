-- ===== src/Config/Load.antt =====
-- The default patterns and `Load` of internal/config/config.go, on what fs.Parse gives.
use vpub_exporter.Prelude.{List, [], ◌∷◌, Option, none, some, ℤ}
use vpub_exporter.Config.Args.{parse_args}
use vpub_exporter.Text.{Bytes, codes}
use vpub_exporter.Errors.{Result, ok, err}
use vpub_exporter.Config.{
  Config, Flags, Env, coalesce, split_or_default, env_or, default_visor_log_dir,
  default_component_log_dir, binary_targets, rpc_names, rpc_urls, validate,
}

abbrev pub default_vote_ok_patterns : List Bytes
default_vote_ok_patterns =
    codes "validator_publisher::bridge_voter::runner: scanned .* votes_sent=(\\d+)" ∷ []

abbrev pub default_vote_fail_patterns : List Bytes
default_vote_fail_patterns =
    codes "CRIT\\s+validator_publisher::bridge_voter::runner: critical error vote failed" ∷ []

abbrev pub default_provider_fail_patterns : List Bytes
default_provider_fail_patterns =
    codes
      "WARN\\s+validator_publisher::bridge_voter::runner: RPC failed.*provider=\"([^\"]+)\".*status (\\d{3})"
    ∷ []

abbrev pub default_oracle_vote_ok_patterns : List Bytes
default_oracle_vote_ok_patterns =
    codes "validator_publisher::reference_oracle_publisher: oracle action sent" ∷ []

abbrev pub default_oracle_vote_fail_patterns : List Bytes
default_oracle_vote_fail_patterns =
    codes
      "CRIT\\s+validator_publisher::reference_oracle_publisher.*: critical error failed to publish oracle action"
    ∷ []

abbrev pub default_log_warn_patterns : List Bytes
default_log_warn_patterns = codes "WARN\\s+validator_publisher::outcome_voter" ∷ []

abbrev pub default_log_crit_patterns : List Bytes
default_log_crit_patterns = codes "(CRIT|ERROR)\\s+validator_publisher::outcome_voter" ∷ []

-- The Config that Load builds before Validate.
unfoldable pub build : Flags → Env → Config
build f getenv =
    let names = rpc_names (getenv (codes "VPUB_BRIDGE_RPC_NAMES")) in
    record {
      listen_addr = f.listen_addr;
      scrape_interval = f.scrape_interval;
      shutdown_timeout = f.shutdown_timeout;
      service_name = f.service_name;
      visor_log_dir = env_or getenv (codes "VPUB_VISOR_LOG_DIR") default_visor_log_dir;
      component_log_dir = env_or getenv (codes "VPUB_COMPONENT_LOG_DIR") default_component_log_dir;
      binary_targets =
          binary_targets (getenv (codes "VPUB_BINARY_PATH")) (getenv (codes "VPUB_BINARY_TARGETS"));
      binary_url = getenv (codes "VPUB_BINARY_URL");
      bridge_state_path = getenv (codes "VPUB_BRIDGE_STATE_PATH");
      bridge_rpc_names = names;
      bridge_rpc_urls = rpc_urls getenv names [];
      slack_bot_token = getenv (codes "VPUB_SLACK_BOT_TOKEN");
      outcome_channel = getenv (codes "VPUB_OUTCOME_CHANNEL");
      vote_ok_patterns =
          split_or_default (getenv (codes "VPUB_VOTE_OK_PATTERNS")) default_vote_ok_patterns;
      vote_fail_patterns =
          split_or_default (getenv (codes "VPUB_VOTE_FAIL_PATTERNS")) default_vote_fail_patterns;
      provider_fail_patterns =
          split_or_default
            (coalesce (
              getenv (codes "VPUB_PROVIDER_FAIL_PATTERNS")
              ∷ getenv (codes "VPUB_DISAGREEMENT_PATTERNS")
              ∷ []))
            default_provider_fail_patterns;
      oracle_vote_ok_patterns =
          split_or_default (getenv (codes "VPUB_ORACLE_OK_PATTERNS"))
            default_oracle_vote_ok_patterns;
      oracle_vote_fail_patterns =
          split_or_default (getenv (codes "VPUB_ORACLE_FAIL_PATTERNS"))
            default_oracle_vote_fail_patterns;
      log_warn_patterns =
          split_or_default (getenv (codes "VPUB_LOG_WARN_PATTERNS")) default_log_warn_patterns;
      log_crit_patterns =
          split_or_default (getenv (codes "VPUB_LOG_CRIT_PATTERNS")) default_log_crit_patterns;
    }

-- the end of Load, which runs Validate
unfoldable pub checked : Config → Result Config
checked c = elim (validate c) [ none ↦ ok c | some e ↦ err e ]

-- Load
unfoldable pub load : Result Flags → Env → Result Config
load (err e) getenv = err e
load (ok f) getenv = checked (build f getenv)

-- Load, on the arguments of the process and its environment
abbrev pub load_args : (Bytes → Option ℤ) → List Bytes → Env → Result Config
load_args parse_duration args getenv = load (parse_args parse_duration args) getenv
