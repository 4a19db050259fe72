-- ===== src/Probes/SlackHttp/Count.antt =====
-- When the count of messages of internal/slackapi/slackapi_http.go is complete, and what the outcome
-- collector shows of it.
use vpub_exporter.Prelude.{
  ◌*◌, true, false, inl, inr, Option, none, some, Option-cases, ◌≡◌, ◌↔◌, arith, length,
}
use vpub_exporter.Text.{Bytes, is_empty}
use vpub_exporter.Errors.{ok}
use vpub_exporter.Probes.Http.{Response, read_limited}
use vpub_exporter.Probes.SlackHttp.{HistoryResp, decoded_history, history_response, history_24h}

-- A whole answer: status 200, and a body that decodes to ok=true with no further page.
pub record IsWhole (decode : Bytes → Option HistoryResp) (r : Response) (h : HistoryResp)
    : Type 0 where
  pub status : r.status_code ≡ 200
  pub decodes : decode (read_limited (512 * 1024) r) ≡ some h
  pub is_ok : h.ok_field ≡ true
  pub last_page : h.has_more ≡ false

pub history_24h-count :
    (decode : Bytes → Option HistoryResp) (r : Response) (token channel : Bytes) (h : HistoryResp)
    → is_empty token ≡ false
    → is_empty channel ≡ false
    → IsWhole decode r h
    → (history_24h decode (ok r) token channel).count ≡ length h.messages
unfolding history_24h history_response decoded_history
history_24h-count decode r token channel h t ch w =
    ground (arith, w.status, w.decodes, w.is_ok, w.last_page)

-- With a token and a channel, History24h returns no error exactly for a whole answer, and then the
-- count is that of its messages: a page with more behind it is always an error.
pub history_24h-IsWhole :
    (decode : Bytes → Option HistoryResp) (r : Response) (token channel : Bytes)
    → is_empty token ≡ false
    → is_empty channel ≡ false
    → ((history_24h decode (ok r) token channel).error ≡ none) ↔ (
        (h : HistoryResp) × IsWhole decode r h
        × ((history_24h decode (ok r) token channel).count ≡ length h.messages))
unfolding history_24h history_response decoded_history
history_24h-IsWhole decode r token channel t ch = (
  λ e. elim (Option-cases (decode (read_limited (512 * 1024) r))) [
    | inl d ↦ absurd (ground arith)
    | inr (h, d) ↦ (
      h,
      record { status = ground arith; decodes = d; is_ok = ground arith; last_page = ground arith },
      ground arith,
    )
  ],
  λ (h, w, n). ground (arith, w.status, w.decodes, w.is_ok, w.last_page),
)
