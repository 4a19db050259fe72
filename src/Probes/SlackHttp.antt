-- ===== src/Probes/SlackHttp.antt =====
-- `AuthTest` and `History24h` of internal/slackapi/slackapi_http.go.
pub mod Count
use vpub_exporter.Prelude.{◌*◌, Bool, not, Option, none, some, List, ◌==◌, length, if◌then◌else◌}
use vpub_exporter.Text.{Bytes, codes, is_empty}
use vpub_exporter.Errors.{Error, Result, ok, err, failure}
use vpub_exporter.Probes.Http.{Response, status_ok, read_limited}
use vpub_exporter.Collectors.Slack.{History}

-- historyResp, with a time stamp for each message
pub record HistoryResp : Type 0 where
  pub ok_field : Bool
  pub messages : List Bytes
  pub has_more : Bool

decoded_ok : Option Bool → Result Bool
decoded_ok none = err (failure (codes "slack auth.test decode"))
decoded_ok (some b) = ok b

auth_response : (Bytes → Option Bool) → Result Response → Result Bool
unfolding decoded_ok
auth_response decode (err e) = err e
auth_response decode (ok r) =
    if not (r.status_code == status_ok)
    then err (failure (codes "slack auth.test http"))
    else decoded_ok (decode (read_limited (64 * 1024) r))

-- AuthTest, by what HTTP.Do returns, and the decoder of the field "ok"
unfoldable pub auth_test : (Bytes → Option Bool) → Result Response → Bytes → Result Bool
unfolding auth_response
auth_test decode response token =
    if is_empty token
    then err (failure (codes "slackapi: empty token"))
    else auth_response decode response

no_count : Error → History
no_count e = record { count = 0; error = some e }

decoded_history : Option HistoryResp → History
unfolding no_count
decoded_history none = no_count (failure (codes "slack conversations.history decode"))
decoded_history (some h) =
    if not h.ok_field
    then no_count (failure (codes "slack conversations.history error"))
    else record {
      count = length h.messages;
      error =
          if h.has_more
          then some (failure (codes "slack conversations.history: has_more"))
          else none;
    }

history_response : (Bytes → Option HistoryResp) → Result Response → History
unfolding decoded_history no_count
history_response decode (err e) = no_count e
history_response decode (ok r) =
    if not (r.status_code == status_ok)
    then no_count (failure (codes "slack conversations.history http"))
    else decoded_history (decode (read_limited (512 * 1024) r))

-- History24h
unfoldable pub history_24h :
    (Bytes → Option HistoryResp) → Result Response → Bytes → Bytes → History
unfolding history_response no_count
history_24h decode response token channel =
    if is_empty token
    then no_count (failure (codes "slackapi: empty token"))
    else if is_empty channel
    then no_count (failure (codes "slackapi: empty channelID"))
    else history_response decode response
