-- ===== src/Tests/Loading.antt =====
-- Examples for the configuration and for the wiring of the process.
use vpub_exporter.Prelude.{
  Option, some, List, ◌∷◌, ℤ, true, false, [], ◌≡◌, refl, pos, if◌then◌else◌, arith,
}
use vpub_exporter.Text.{Bytes, codes, bytes_eq, split, trim_space, split_n2, replace_all, to_upper}
use vpub_exporter.Errors.{ok, err, failure}
use vpub_exporter.Components.{component_visor}
use vpub_exporter.Config.{
  Flags, Env, Config, lookup, binary_targets, rpc_names, trimmed, rpc_urls, assign, env_key,
}
use vpub_exporter.Config.Args.{listen_addr, scrape_interval, default_flags, parse_args, set_flag}
use vpub_exporter.Config.Args.Written.{Written, command_line, parse_args-command_line}
use vpub_exporter.Config.Load.{build, load}
use vpub_exporter.Config.Targets.{IsTargets, binary_targets-IsTargets, binary_targets-lookup}
use vpub_exporter.Config.Valid.{IsValid, HasPatterns, FlagsValid, HasUrls, load-IsValid, load_iff}

abbrev flags : Flags
flags = record {
  listen_addr = codes ":9";
  service_name = codes "v";
  scrape_interval = pos 1;
  shutdown_timeout = pos 1;
}

-- One provider with a URL.
abbrev environment : Env
environment key =
    if bytes_eq key (codes "VPUB_BRIDGE_RPC_NAMES")
    then codes "a-b"
    else if bytes_eq key (codes "VPUB_RPC_A_B_URL")
    then codes "http://x"
    else []

abbrev loaded : Config
loaded = build flags environment

has_url : HasUrls loaded.bridge_rpc_urls loaded.bridge_rpc_names
unfolding build lookup rpc_names trimmed split trim_space rpc_urls assign env_key replace_all
    to_upper
has_url = (refl, tt)

flags_valid : FlagsValid flags
flags_valid = (refl, refl, omega arith)

is_loaded : load (ok flags) environment ≡ ok loaded
is_loaded = (load_iff flags environment).0 (flags_valid, has_url)

load-IsValid_example : IsValid loaded × IsTargets loaded.binary_targets × HasPatterns loaded
load-IsValid_example = load-IsValid (ok flags) environment loaded is_loaded

abbrev pairs : Bytes
pairs = codes "visor=/a, other=/x, visor = /b ,bridge-voter="

-- The last pair of the visor wins over VPUB_BINARY_PATH.
binary_targets-lookup_example :
    lookup (binary_targets (codes "/p") pairs) component_visor ≡ codes "/b"
unfolding split trim_space split_n2
binary_targets-lookup_example = binary_targets-lookup (codes "/p") pairs component_visor

binary_targets-IsTargets_example : IsTargets (binary_targets (codes "/p") pairs)
binary_targets-IsTargets_example = binary_targets-IsTargets (codes "/p") pairs

-- Every duration is five nanoseconds.
abbrev five : Bytes → Option ℤ
five v = some (pos 5)

-- As in: --listen-addr=-x=y -scrape-interval 5ns -listen-addr :9
abbrev written : List Written
written =
    record { flag = listen_addr; value = codes "-x=y"; two_dashes = true; joined = true }
    ∷ record { flag = scrape_interval; value = codes "5ns"; two_dashes = false; joined = false }
    ∷ record { flag = listen_addr; value = codes ":9"; two_dashes = false; joined = false }
    ∷ []

parse_args-command_line_example :
    parse_args five (command_line written)
    ≡ ok (record default_flags { listen_addr = codes ":9"; scrape_interval = pos 5 })
unfolding set_flag
parse_args-command_line_example = parse_args-command_line five written

-- A flag that is not declared, and one without its value.
parse_args_run :
    (parse_args five (codes "-x" ∷ []) ≡ err (failure (codes "flag provided but not defined")))
    × (parse_args five (codes "-listen-addr" ∷ []) ≡ err (failure (codes "flag needs an argument")))
    × (parse_args five (codes "x" ∷ codes "-x" ∷ []) ≡ ok default_flags)
unfolding parse_args
parse_args_run = (refl, refl, refl)
