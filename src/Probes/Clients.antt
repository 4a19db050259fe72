-- ===== src/Probes/Clients.antt =====
-- The structs of internal/rpc, internal/binary and internal/slackapi that hold an HTTP client, their
-- constructors, and their methods as implementations of the interfaces RPCProbe, Probe and Slack.
pub mod Zero
use vpub_exporter.Prelude.{ℕ, Bool, Option, none, some, List, [], ◌∷◌, ◌≡◌, ℤ}
use vpub_exporter.Text.{Bytes}
use vpub_exporter.Errors.{Error, Result}
use vpub_exporter.Clock.{Time, seconds}
use vpub_exporter.Collectors.Slack.{History}
use vpub_exporter.Probes.Http.{HttpClient}
use vpub_exporter.Probes.Rpc.{RpcProbe, RpcResp}
use vpub_exporter.Probes.SlackHttp.{HistoryResp}
use vpub_exporter.Probes.BinaryHttp.{local_mtime}
use vpub_exporter.Probes.Requests.{
  slack_base_url, probe_url, auth_test_call, history_24h_call, remote_last_modified_call,
}

-- http.Transport, the fields that are set
pub record Transport : Type 0 where
  pub max_idle_conns : ℕ
  pub max_idle_conns_per_host : ℕ
  pub idle_conn_timeout : ℤ

-- http.Client, `none` for the default transport
pub record Client : Type 0 where
  pub transport : Option Transport
  pub timeout : ℤ

-- What a client does, with a time limit of the call's own context if it has one. This is net/http.
abbrev pub Net : Type 0
Net = Client → Option ℤ → HttpClient

-- HTTPProbe, whose two structs have the same fields; `none` for a nil Client
pub record HttpProbe : Type 0 where
  pub client : Option Client
  pub timeout : ℤ

abbrev pub rpc_client : Client
rpc_client = record {
  transport =
      some (record {
        max_idle_conns = 16;
        max_idle_conns_per_host = 2;
        idle_conn_timeout = seconds 30;
      });
  timeout = seconds 5;
}

-- NewHTTPProbe of internal/rpc
abbrev pub new_rpc_probe : HttpProbe
new_rpc_probe = record { client = some rpc_client; timeout = seconds 5 }

abbrev pub binary_client : Client
binary_client = record {
  transport =
      some (record {
        max_idle_conns = 4;
        max_idle_conns_per_host = 2;
        idle_conn_timeout = seconds 30;
      });
  timeout = seconds 10;
}

-- NewHTTPProbe of internal/binary
abbrev pub new_binary_probe : HttpProbe
new_binary_probe = record { client = some binary_client; timeout = seconds 10 }

-- binary.Probe: what its two methods return
pub record BinaryProbe : Type 0 where
  pub local_mtime : Bytes → Result Time
  pub remote_last_modified : Bytes → Result Time

-- HTTPClient of internal/slackapi
pub record SlackClient : Type 0 where
  pub base_url : Bytes
  pub http : Client

-- NewHTTPClient
abbrev pub new_http_client : SlackClient
new_http_client = record {
  base_url = slack_base_url;
  http = record { transport = none; timeout = seconds 5 };
}

-- slackapi.Slack
pub record Slack : Type 0 where
  pub auth_test : Bytes → Result Bool
  pub history_24h : Bytes → Bytes → History

module _ (net : Net) where
  -- Probe of HTTPProbe with the struct that it leaves: a nil Client is replaced, with all fields, by
  -- what NewHTTPProbe gives.
  unfoldable pub rpc_probe :
      (Bytes → Option RpcResp) → Bytes → HttpProbe → HttpProbe × (ℤ × Option Error)
  rpc_probe decode url p = elim p.client [
    | none ↦ (new_rpc_probe, probe_url decode (net rpc_client none) url)
    | some c ↦ (p, probe_url decode (net c none) url)
  ]

  -- RemoteLastModified of HTTPProbe, likewise; its context has the time limit of the struct.
  unfoldable pub binary_probe : (Bytes → Result Time) → Bytes → HttpProbe → HttpProbe × Result Time
  binary_probe parse_time url p = elim p.client [
    | none ↦ (
      new_binary_probe,
      remote_last_modified_call parse_time (net binary_client (some new_binary_probe.timeout)) url,
    )
    | some c ↦ (p, remote_last_modified_call parse_time (net c (some p.timeout)) url)
  ]

  -- AuthTest and History24h of HTTPClient, at a time
  abbrev pub slack :
      (Bytes → Option Bool)
      → (Bytes → Option HistoryResp)
      → (List (Bytes × Bytes) → Bytes)
      → Time
      → SlackClient
      → Slack
  slack decode_auth decode_history encode now c = record {
    auth_test = λ token. auth_test_call decode_auth (net c.http none) c.base_url token;
    history_24h = λ token channel.
        history_24h_call decode_history encode (net c.http none) c.base_url now token channel;
  }

  -- The two methods of HTTPProbe of internal/binary, for a call each
  abbrev pub binary_methods :
      (Bytes → Result Time) → (Bytes → Result Time) → HttpProbe → BinaryProbe
  binary_methods stat parse_time p = record {
    local_mtime = local_mtime stat;
    remote_last_modified = λ url. (binary_probe parse_time url p).1;
  }
