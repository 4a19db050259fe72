-- ===== src/Tests/Endings.antt =====
-- Examples for the end of the process, and for the replies of its server.
use vpub_exporter.Prelude.{if◌then◌else◌, some, List, [], ◌∷◌, ◌≡◌, refl}
use vpub_exporter.Text.{codes, bytes_eq, has_prefix}
use vpub_exporter.Errors.{Result, ok, failure}
use vpub_exporter.Main.Process.{Host, panicked, perform, setup}
use vpub_exporter.Main.Server.{
  ServerEvent, signalled, returned, sigint, other, server_closed, failed, over, await, main_until,
  Reply, HandlerOpts, find_route, serve_http,
}
use vpub_exporter.Main.Server.Ways.{Starts}
use vpub_exporter.Main.{server_error}
use vpub_exporter.Config.{rpc_names, rpc_urls}
use vpub_exporter.Config.Args.{parse_args}
use vpub_exporter.Config.Load.{load, build}
use vpub_exporter.Tests.Starts.{plain, base_names}
use vpub_exporter.Tests.Process.{host, no_duration}

abbrev stopped : Result (Unit {0})
stopped = ok tt

-- A signal of another kind, and then an interrupt.
abbrev events : List ServerEvent
events = signalled (other 1) ∷ signalled sigint ∷ []

-- A host with one provider, whose name is no UTF-8, and with a URL for every name.
abbrev torn : Host
torn = record host {
  getenv = λ key.
      if bytes_eq key (codes "VPUB_BRIDGE_RPC_NAMES")
      then 0xff ∷ []
      else if has_prefix key (codes "VPUB_RPC_")
      then codes "https://node"
      else [];
}

torn_run : main_until plain no_duration base_names torn stopped [] ≡ some panicked
unfolding main_until parse_args load build rpc_names rpc_urls has_prefix perform setup
    vpub_exporter.Config.Load.checked vpub_exporter.Config.validate vpub_exporter.Config.missing_url
    vpub_exporter.Config.trimmed vpub_exporter.Text.split vpub_exporter.Text.trim_space
    vpub_exporter.Config.lookup vpub_exporter.Config.assign vpub_exporter.Main.has_bridge_rpc
    vpub_exporter.Main.Process.accepts_all vpub_exporter.Text.valid_string
torn_run = refl

-- The server's own error ends the wait, its closing does not.
await_run :
    await stopped (returned (some server_closed) ∷ returned (some (failed (failure []))) ∷ [])
    ≡ over (server_error (failure []))
unfolding await
await_run = refl

abbrev promhttp : HandlerOpts → Reply
promhttp o = record { status_code = 200; body = codes "metrics" }

abbrev not_found : Reply
not_found = record { status_code = 404; body = codes "404 page not found" }

health_run :
    serve_http promhttp not_found (codes "/healthz")
    ≡ record { status_code = 200; body = codes "ok" }
unfolding serve_http find_route
health_run = refl

other_run : serve_http promhttp not_found (codes "/healthz/") ≡ not_found
unfolding serve_http find_route
other_run = refl
