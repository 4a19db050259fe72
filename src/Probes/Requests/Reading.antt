-- ===== src/Probes/Requests/Reading.antt =====
-- Which requests the probes of internal/rpc, internal/slackapi and internal/binary make.
use vpub_exporter.Prelude.{
  Bool, inl, inr, Option, none, some, List, [], ◌∷◌, ◌++◌, ◌≡◌, ◌⊎◌, refl, ap, pos,
}
use vpub_exporter.Text.{Bytes, codes}
use vpub_exporter.Errors.{Result, err}
use vpub_exporter.Clock.{Time}
use vpub_exporter.Probes.Http.{Request, HttpClient, answer}
use vpub_exporter.Probes.Rpc.{RpcResp, probe}
use vpub_exporter.Probes.SlackHttp.{HistoryResp, auth_test, history_24h}
use vpub_exporter.Probes.BinaryHttp.{remote_last_modified}
use vpub_exporter.Probes.Requests.{
  block_number_body, rpc_request, probe_url, slack_base_url, auth_request, auth_test_call, oldest,
  history_request, history_24h_call, head_request, remote_last_modified_call,
}

-- A HEAD without headers; or a POST that asks for the number of the last block and carries no
-- token; or a POST to one of two methods of Slack that read.
abbrev pub IsReading : Request → Type 0
IsReading q =
    ((q.method ≡ codes "HEAD") × (q.headers ≡ []))
    ⊎ ((q.method ≡ codes "POST")
        × (q.body ≡ block_number_body)
        × (q.headers
            ≡ (codes "Content-Type", codes "application/json")
              ∷ (codes "Accept", codes "application/json")
              ∷ []))
    ⊎ ((q.method ≡ codes "POST") × (q.url ≡ slack_base_url ++ codes "/auth.test"))
    ⊎ ((q.method ≡ codes "POST") × (q.url ≡ slack_base_url ++ codes "/conversations.history"))

-- Two clients that do the same on the requests that read, whatever they do on others.
abbrev pub Agree : HttpClient → HttpClient → Type 0
Agree a b =
    (q : Request)
    → IsReading q
    → (a.new_request_error q ≡ b.new_request_error q)
      × (a.send q ≡ b.send q)
      × (a.elapsed q ≡ b.elapsed q)

same_answer : (a b : HttpClient) (q : Request) → Agree a b → IsReading q → answer a q ≡ answer b q
same_answer a b q same r =
    let (made, sent, took) = same q r in λ i. elim (made i) [ some e ↦ err e | none ↦ sent i ]

-- What the probes return depends on nothing that an HTTP client does with any request but the four
-- that read: two clients that do the same on these give the same answers. Of these four only the two
-- to Slack may carry a token.
pub calls-Agree :
    (decode_rpc : Bytes → Option RpcResp) (decode_auth : Bytes → Option Bool)
    (decode_history : Bytes → Option HistoryResp) (encode : List (Bytes × Bytes) → Bytes)
    (parse_time : Bytes → Result Time) (a b : HttpClient) (url token channel : Bytes) (now : Time)
    → Agree a b
    → (probe_url decode_rpc a url ≡ probe_url decode_rpc b url)
      × (auth_test_call decode_auth a slack_base_url token
          ≡ auth_test_call decode_auth b slack_base_url token)
      × (history_24h_call decode_history encode a slack_base_url now token channel
          ≡ history_24h_call decode_history encode b slack_base_url now token channel)
      × (remote_last_modified_call parse_time a url ≡ remote_last_modified_call parse_time b url)
unfolding probe_url auth_test_call history_24h_call remote_last_modified_call
calls-Agree decode_rpc decode_auth decode_history encode parse_time a b url token channel now same =
    let (made, sent, took) = same (rpc_request url) (inr (inl (refl, refl, refl))) in
    (
      (λ i. elim (made i) [
        | some e ↦ (pos 0, some e)
        | none ↦ (took i, probe decode_rpc (sent i))
      ]),
      ap (λ r. auth_test decode_auth r token)
          (same_answer a b (auth_request slack_base_url token) same (inr (inr (inl (refl, refl))))),
      ap (λ r. history_24h decode_history r token channel)
          (same_answer a b (history_request encode slack_base_url (oldest now) token channel) same
            (inr (inr (inr (refl, refl))))),
      ap (remote_last_modified parse_time)
          (same_answer a b (head_request url) same (inl (refl, refl))),
    )
