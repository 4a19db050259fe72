-- ===== src/Config.antt =====
-- internal/config/config.go behind the parsing of flags. A map is an association list.
pub mod Load
pub mod Targets
pub mod Valid
pub mod Urls
pub mod Args
use vpub_exporter.Prelude.{
  Bool, true, false, not, ◌||◌, Option, none, some, List, [], ◌∷◌, ◌++◌, if◌then◌else◌, any, ℤ, pos,
  leb_ℤ,
}
use vpub_exporter.Text.{
  Bytes, codes, bytes_eq, is_empty, split, split_n2, trim_space, to_upper, replace_all,
}
use vpub_exporter.Errors.{Error, Result, ok, err, failure}
use vpub_exporter.Components.{
  ComponentName, component_visor, component_bridge_voter, component_outcome_voter,
  component_reference_oracle_publish,
}

abbrev pub Assoc : Type 0
Assoc = List (Bytes × Bytes)

-- m[k], "" for a missing key
unfoldable pub lookup : Assoc → Bytes → Bytes
lookup [] k = []
lookup ((j, v) ∷ m) k = if bytes_eq j k then v else lookup m k

-- m[k] = v
unfoldable pub assign : Assoc → Bytes → Bytes → Assoc
assign [] k v = (k, v) ∷ []
assign ((j, w) ∷ m) k v = if bytes_eq j k then (j, v) ∷ m else (j, w) ∷ assign m k v

-- Config; the intervals are in nanoseconds
pub record Config : Type 0 where
  pub listen_addr : Bytes
  pub scrape_interval : ℤ
  pub shutdown_timeout : ℤ
  pub service_name : Bytes
  pub visor_log_dir : Bytes
  pub component_log_dir : Bytes
  pub binary_targets : Assoc
  pub binary_url : Bytes
  pub bridge_state_path : Bytes
  pub bridge_rpc_names : List Bytes
  pub bridge_rpc_urls : Assoc
  pub slack_bot_token : Bytes
  pub outcome_channel : Bytes
  pub vote_ok_patterns : List Bytes
  pub vote_fail_patterns : List Bytes
  pub provider_fail_patterns : List Bytes
  pub oracle_vote_ok_patterns : List Bytes
  pub oracle_vote_fail_patterns : List Bytes
  pub log_warn_patterns : List Bytes
  pub log_crit_patterns : List Bytes

-- The flags: what fs.Parse stores.
pub record Flags : Type 0 where
  pub listen_addr : Bytes
  pub service_name : Bytes
  pub scrape_interval : ℤ
  pub shutdown_timeout : ℤ

abbrev pub Env : Type 0
Env = Bytes → Bytes

-- envKey
unfoldable pub env_key : Bytes → Bytes
env_key name = replace_all (replace_all (to_upper name) b'-' b'_') b'.' b'_'

-- coalesce
unfoldable pub coalesce : List Bytes → Bytes
coalesce [] = []
coalesce (v ∷ vs) = if is_empty v then coalesce vs else v

-- Each part without spaces around it, the empty ones left out.
unfoldable pub trimmed : List Bytes → List Bytes
trimmed [] = []
trimmed (p ∷ ps) =
    let rest = trimmed ps in if is_empty (trim_space p) then rest else trim_space p ∷ rest

or_default : List Bytes → List Bytes → List Bytes
or_default [] def = def
or_default (p ∷ ps) def = p ∷ ps

-- splitOrDefault
unfoldable pub split_or_default : Bytes → List Bytes → List Bytes
unfolding or_default
split_or_default raw def = if is_empty raw then def else or_default (trimmed (split raw b'\n')) def

-- getenv(key) with a default for ""
abbrev pub env_or : Env → Bytes → Bytes → Bytes
env_or getenv key def = if is_empty (getenv key) then def else getenv key

abbrev pub default_visor_log_dir : Bytes
default_visor_log_dir = codes "/home/admin/v-publisher/log/visor"

abbrev pub default_component_log_dir : Bytes
default_component_log_dir = codes "/home/admin/v-publisher/log"

-- defaultBinaryTargets
abbrev pub default_binary_targets : Assoc
default_binary_targets =
    (component_visor, codes "/home/admin/v-publisher/visor")
    ∷ (component_bridge_voter, codes "/home/admin/v-publisher/bridge-voter")
    ∷ (component_outcome_voter, codes "/home/admin/v-publisher/outcome-voter")
    ∷ (
      component_reference_oracle_publish,
      codes "/home/admin/v-publisher/reference-oracle-publisher",
    )
    ∷ []

-- the switch on the name
abbrev pub is_component : ComponentName → Bool
is_component name =
    bytes_eq name component_visor
    || bytes_eq name component_bridge_voter
    || bytes_eq name component_outcome_voter
    || bytes_eq name component_reference_oracle_publish

add_target : List Bytes → Assoc → Assoc
add_target (key ∷ value ∷ []) targets =
    let name = trim_space key in
    let path = trim_space value in
    if is_empty name || is_empty path
    then targets
    else if is_component name
    then assign targets name path
    else targets
add_target _ targets = targets

-- for _, pair := range …
unfoldable pub add_targets : List Bytes → Assoc → Assoc
unfolding add_target
add_targets [] targets = targets
add_targets (pair ∷ pairs) targets = add_targets pairs (
    if is_empty (trim_space pair)
    then targets
    else add_target (split_n2 (trim_space pair) b'=') targets)

-- The binary targets by VPUB_BINARY_PATH and VPUB_BINARY_TARGETS.
unfoldable pub binary_targets : Bytes → Bytes → Assoc
binary_targets path raw =
    let base =
      if is_empty path
      then default_binary_targets
      else assign default_binary_targets component_visor path in
    if is_empty raw then base else add_targets (split raw b',') base

-- the URLs by their names, later names after earlier ones
unfoldable pub rpc_urls : Env → List Bytes → Assoc → Assoc
rpc_urls getenv [] urls = urls
rpc_urls getenv (n ∷ ns) urls =
    rpc_urls getenv ns (assign urls n (getenv (codes "VPUB_RPC_" ++ (env_key n ++ codes "_URL"))))

-- BridgeRPCNames, by VPUB_BRIDGE_RPC_NAMES
unfoldable pub rpc_names : Bytes → List Bytes
rpc_names names = if is_empty names then [] else trimmed (split names b',')

-- the loop of Validate: whether some name has no URL
unfoldable pub missing_url : Assoc → List Bytes → Bool
missing_url urls [] = false
missing_url urls (n ∷ ns) = is_empty (lookup urls n) || missing_url urls ns

-- The first of the providers that has no URL.
unfoldable pub first_missing : Assoc → List Bytes → Bytes
first_missing urls [] = []
first_missing urls (n ∷ ns) =
    let rest = first_missing urls ns in if is_empty (lookup urls n) then n else rest

-- Validate, `none` for nil
unfoldable pub validate : Config → Option Error
validate c =
    if is_empty c.listen_addr
    then some (failure (codes "listen-addr is empty"))
    else if is_empty c.service_name
    then some (failure (codes "service-name is empty"))
    else if leb_ℤ c.scrape_interval (pos 0)
    then some (failure (codes "scrape-interval must be > 0"))
    else if is_empty c.visor_log_dir
    then some (failure (codes "VPUB_VISOR_LOG_DIR (or default) is empty"))
    else if is_empty c.component_log_dir
    then some (failure (codes "VPUB_COMPONENT_LOG_DIR (or default) is empty"))
    else if missing_url c.bridge_rpc_urls c.bridge_rpc_names
    then some (
        failure (
          codes "VPUB_RPC_"
          ++ (env_key (first_missing c.bridge_rpc_urls c.bridge_rpc_names)
              ++ codes "_URL is empty")))
    else none
