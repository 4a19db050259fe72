-- ===== src/Main/Server.antt =====
-- The HTTP server and the signals of cmd/vpub-exporter/main.go: what `run` serves, and how its last
-- select ends.
pub mod Await
pub mod Ways
pub mod Until
pub mod Replies
use vpub_exporter.Prelude.{
  ℕ, Bool, true, false, Option, none, some, List, [], ◌∷◌, if◌then◌else◌, ℤ,
}
use vpub_exporter.Text.{Bytes, codes, bytes_eq}
use vpub_exporter.Errors.{Error, Result, ok, err}
use vpub_exporter.Config.{Config}
use vpub_exporter.Registry.{Registerer}
use vpub_exporter.Clock.{seconds}
use vpub_exporter.Main.{Ending, server_error, signal}
use vpub_exporter.Main.Process.{Exit, panicked, Host, load_from_os, setup, perform, main}

pub data ErrorHandling : Type 0 where
  http_error_on_error continue_on_error panic_on_error : ErrorHandling

-- promhttp.HandlerOpts, the fields that run sets
pub record HandlerOpts : Type 0 where
  pub error_handling : ErrorHandling
  pub max_requests_in_flight : ℕ
  pub timeout : ℤ

pub data Handler : Type 0 where
  metrics : HandlerOpts → Handler
  healthz : Handler

-- What the mux is told, with the pattern of each handler.
abbrev pub routes : List (Bytes × Handler)
routes =
    (
      codes "/metrics",
      metrics (record {
        error_handling = continue_on_error;
        max_requests_in_flight = 8;
        timeout = seconds 3;
      }),
    )
    ∷ (codes "/healthz", healthz)
    ∷ []

pub record Reply : Type 0 where
  pub status_code : ℕ
  pub body : Bytes

-- The handler of a path without dots and double slashes; a pattern with no slash at its end matches
-- itself only.
unfoldable pub find_route : List (Bytes × Handler) → Bytes → Option Handler
find_route [] path = none
find_route ((pattern, h) ∷ rs) path = if bytes_eq pattern path then some h else find_route rs path

-- The reply to a path, with promhttp as a function of its options, and the mux's own for a path with
-- no handler.
unfoldable pub serve_http : (HandlerOpts → Reply) → Reply → Bytes → Reply
serve_http promhttp not_found path = elim (find_route routes path) [
  | none ↦ not_found
  | some (metrics o) ↦ promhttp o
  | some healthz ↦ record { status_code = 200; body = codes "ok" }
]

-- http.Server
pub record Server : Type 0 where
  pub addr : Bytes
  pub read_header_timeout : ℤ
  pub read_timeout : ℤ
  pub write_timeout : ℤ
  pub idle_timeout : ℤ

abbrev pub server : Config → Server
server c = record {
  addr = c.listen_addr;
  read_header_timeout = seconds 5;
  read_timeout = seconds 10;
  write_timeout = seconds 10;
  idle_timeout = seconds 60;
}

pub data Signal : Type 0 where
  sigterm sigint : Signal
  other : ℕ → Signal

-- signalContext: the signals that cancel its context
abbrev pub is_stop : Signal → Bool
is_stop sigterm = true
is_stop sigint = true
is_stop (other n) = false

pub data ServeError : Type 0 where
  server_closed : ServeError
  failed : Error → ServeError

-- What the goroutine of the server sends for what ListenAndServe returned, `none` for nothing.
abbrev pub sent_error : Option ServeError → Option Error
sent_error none = none
sent_error (some server_closed) = none
sent_error (some (failed e)) = some e

-- `crashed` is a panic in a goroutine of a collector, which nothing recovers.
pub data ServerEvent : Type 0 where
  signalled : Signal → ServerEvent
  returned : Option ServeError → ServerEvent
  crashed : ServerEvent

pub data Wait : Type 0 where
  waiting crash : Wait
  over : Ending → Wait

-- The last select, with the result of Shutdown, over what it receives, in the order in which it does:
-- where a signal and an error of the server are ready together, Go picks one at random, and either
-- order is a list of its own.
unfoldable pub await : Result (Unit {0}) → List ServerEvent → Wait
await shutdown [] = waiting
await shutdown (crashed ∷ es) = crash
await shutdown (signalled s ∷ es) =
    let rest = await shutdown es in if is_stop s then over (signal shutdown) else rest
await shutdown (returned x ∷ es) =
    let rest = await shutdown es in
    elim (sent_error x) [ none ↦ rest | some e ↦ over (server_error e) ]

module _ (R : Registerer) where
  -- main up to what happened so far, `none` while it runs
  unfoldable pub main_until :
      (Bytes → Option ℤ) → R.Registry → Host → Result (Unit {0}) → List ServerEvent → Option Exit
  main_until parse_duration r h shutdown events = elim (load_from_os parse_duration h) [
    | err e ↦ some (main R parse_duration r h)
    | ok c ↦ elim (perform R r (setup c)) [
      | none ↦ some panicked
      | some r' ↦ elim (await shutdown events) [
        | waiting ↦ none
        | crash ↦ some panicked
        | over end ↦ some (main R parse_duration r (record h { ending = end }))
      ]
    ]
  ]
