-- ===== src/Main/Server/Replies.antt =====
-- What the server of `run` replies to each path.
use vpub_exporter.Prelude.{false, Bool-cases, inl, inr, ◌≡◌, ◌≢◌, ◌⊎◌, refl, sym, arith}
use vpub_exporter.Text.{Bytes, codes, bytes_eq, bytes_eq_iff}
use vpub_exporter.Clock.{seconds}
use vpub_exporter.Main.Server.{HandlerOpts, continue_on_error, Reply, find_route, serve_http}

other_path : (pattern path : Bytes) → bytes_eq pattern path ≡ false → path ≢ pattern
other_path pattern path e same = ground (arith, (bytes_eq_iff pattern path).1 (sym same))

-- promhttp gets the requests for "/metrics", with at most 8 at a time and 3 seconds for each; a
-- request for "/healthz" gets status 200 and "ok" whatever the metrics are; and no other path has a
-- handler.
serve_http-cases :
    (promhttp : HandlerOpts → Reply) (not_found : Reply) (path : Bytes)
    → ((path ≡ codes "/metrics")
        × (serve_http promhttp not_found path
            ≡ promhttp (record {
              error_handling = continue_on_error;
              max_requests_in_flight = 8;
              timeout = seconds 3;
            })))
      ⊎ ((path ≡ codes "/healthz")
          × (serve_http promhttp not_found path ≡ record { status_code = 200; body = codes "ok" }))
      ⊎ ((path ≢ codes "/metrics")
          × (path ≢ codes "/healthz")
          × (serve_http promhttp not_found path ≡ not_found))
unfolding serve_http find_route
serve_http-cases promhttp not_found path = elim (Bool-cases (bytes_eq (codes "/metrics") path)) [
  | inl e ↦ inl (sym ((bytes_eq_iff (codes "/metrics") path).0 e), rw e refl)
  | inr e ↦ elim (Bool-cases (bytes_eq (codes "/healthz") path)) [
    | inl f ↦ inr (inl (sym ((bytes_eq_iff (codes "/healthz") path).0 f), rw (e, f) refl))
    | inr f ↦ inr (
        inr (
          other_path (codes "/metrics") path e,
          other_path (codes "/healthz") path f,
          rw (e, f) refl,
        ))
  ]
]
