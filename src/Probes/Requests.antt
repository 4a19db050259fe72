-- ===== src/Probes/Requests.antt =====
-- The requests of internal/rpc, internal/slackapi and internal/binary, and the calls of their methods
-- on an HTTP client.
pub mod Reading
use vpub_exporter.Prelude.{
  Bool, Option, none, some, List, [], ◌∷◌, ◌++◌, if◌then◌else◌, ℤ, pos, ◌-ℤ◌,
}
use vpub_exporter.Text.{Bytes, codes, is_empty}
use vpub_exporter.Errors.{Error, Result, ok, err, failure}
use vpub_exporter.Text.Number.Format.{format_int}
use vpub_exporter.Clock.{Time, unix}
use vpub_exporter.Probes.Http.{Response, Request, HttpClient, answer}
use vpub_exporter.Probes.Rpc.{RpcProbe, RpcResp, probe}
use vpub_exporter.Probes.SlackHttp.{HistoryResp, auth_test, history_24h}
use vpub_exporter.Probes.BinaryHttp.{remote_last_modified}
use vpub_exporter.Collectors.Slack.{History}

abbrev pub block_number_body : Bytes
block_number_body =
    codes "{\"jsonrpc\":\"2.0\",\"id\":1,\"method\":\"eth_blockNumber\",\"params\":[]}"

abbrev pub rpc_request : Bytes → Request
rpc_request url = record {
  method = codes "POST";
  url = url;
  headers =
      (codes "Content-Type", codes "application/json")
      ∷ (codes "Accept", codes "application/json")
      ∷ [];
  body = block_number_body;
}

-- Probe of HTTPProbe: the latency and the error, `none` for nil
unfoldable pub probe_url : (Bytes → Option RpcResp) → HttpClient → RpcProbe
probe_url decode client url =
    let q = rpc_request url in
    elim (client.new_request_error q) [
      | some e ↦ (pos 0, some e)
      | none ↦ (client.elapsed q, probe decode (client.send q))
    ]

abbrev pub slack_base_url : Bytes
slack_base_url = codes "https://slack.com/api"

-- setAuth
abbrev pub authorization : Bytes → Bytes × Bytes
authorization token = (codes "Authorization", codes "Bearer " ++ token)

abbrev pub auth_request : Bytes → Bytes → Request
auth_request base_url token = record {
  method = codes "POST";
  url = base_url ++ codes "/auth.test";
  headers = authorization token ∷ [];
  body = [];
}

-- AuthTest of HTTPClient
unfoldable pub auth_test_call : (Bytes → Option Bool) → HttpClient → Bytes → Bytes → Result Bool
auth_test_call decode client base_url token =
    auth_test decode (answer client (auth_request base_url token)) token

-- The text of time.Now().Add(-24*time.Hour).Unix(), by the time that time.Now gives
unfoldable pub oldest : Time → Bytes
oldest now = format_int (unix (record now { sec = now.sec -ℤ pos 86400 }))

-- The form, by url.Values.Encode, with the text of its field "oldest"
abbrev pub history_request :
    (List (Bytes × Bytes) → Bytes) → Bytes → Bytes → Bytes → Bytes → Request
history_request encode base_url since token channel = record {
  method = codes "POST";
  url = base_url ++ codes "/conversations.history";
  headers =
      authorization token ∷ (codes "Content-Type", codes "application/x-www-form-urlencoded") ∷ [];
  body = encode (
      (codes "channel", channel)
      ∷ (codes "oldest", since)
      ∷ (codes "inclusive", codes "true")
      ∷ (codes "limit", codes "200")
      ∷ []);
}

-- History24h of HTTPClient
unfoldable pub history_24h_call :
    (Bytes → Option HistoryResp)
    → (List (Bytes × Bytes) → Bytes)
    → HttpClient
    → Bytes
    → Time
    → Bytes
    → Bytes
    → History
history_24h_call decode encode client base_url now token channel =
    history_24h decode (answer client (history_request encode base_url (oldest now) token channel))
      token channel

abbrev pub head_request : Bytes → Request
head_request url = record { method = codes "HEAD"; url = url; headers = []; body = [] }

-- RemoteLastModified of HTTPProbe
unfoldable pub remote_last_modified_call : (Bytes → Result Time) → HttpClient → Bytes → Result Time
remote_last_modified_call parse_time client url =
    remote_last_modified parse_time (answer client (head_request url))
