-- ===== src/Tests/Requests.antt =====
-- Examples for the requests of the probes.
use vpub_exporter.Prelude.{
  ℕ, true, false, Option, none, some, List, [], ◌∷◌, ◌≡◌, refl, pos, if◌then◌else◌, inl, inr, Bool,
  sym, ap, ◌∙◌,
}
use vpub_exporter.Text.{Bytes, codes, bytes_eq}
use vpub_exporter.Errors.{Result, ok, err, failure}
use vpub_exporter.Clock.{Time, zero_time}
use vpub_exporter.Probes.Http.{Response, Request, HttpClient}
use vpub_exporter.Probes.Requests.{
  slack_base_url, probe_url, auth_test_call, history_24h_call, remote_last_modified_call,
}
use vpub_exporter.Probes.Requests.Reading.{IsReading, Agree, calls-Agree}
use vpub_exporter.Probes.Rpc.{RpcResp}
use vpub_exporter.Probes.SlackHttp.{HistoryResp}

abbrev response : ℕ → Bytes → Response
response status body = record {
  status_code = status;
  body = body;
  body_error = none;
  last_modified = [];
}

abbrev decode : Bytes → Option RpcResp
decode b = some (record { error_code = none; result = b })

-- One message, and no further page.
abbrev page : Bytes → Option HistoryResp
page b = some (record { ok_field = true; messages = codes "1.5" ∷ []; has_more = false })

-- Two clients that differ on other requests.
abbrev client : Response → HttpClient
client other = record {
  new_request_error = λ q. none;
  send = λ q. ok (if bytes_eq q.method (codes "PUT") then other else response 200 (codes "0x10"));
  elapsed = λ q. pos 7;
}

abbrev no_form : List (Bytes × Bytes) → Bytes
no_form fields = codes "form"

method_of : (q : Request) → IsReading q → bytes_eq q.method (codes "PUT") ≡ false
method_of q (inl (m, h)) = ap (λ m'. bytes_eq m' (codes "PUT")) m
method_of q (inr (inl (m, h, k))) = ap (λ m'. bytes_eq m' (codes "PUT")) m
method_of q (inr (inr (inl (m, h)))) = ap (λ m'. bytes_eq m' (codes "PUT")) m
method_of q (inr (inr (inr (m, h)))) = ap (λ m'. bytes_eq m' (codes "PUT")) m

clients-Agree : (r s : Response) → Agree (client r) (client s)
clients-Agree r s q h =
    let answer_of : Bool → Result Response =
      (λ b. ok (if b then r else response 200 (codes "0x10"))) in
    let other_of : Bool → Result Response =
      (λ b. ok (if b then s else response 200 (codes "0x10"))) in
    (refl, ap answer_of (method_of q h) ∙ sym (ap other_of (method_of q h)), refl)

abbrev bad_time : Bytes → Result Time
bad_time v = err (failure v)

abbrev is_ok : Bytes → Option Bool
is_ok b = some true

calls-Agree_example :
    (let a = client (response 200 []) in
      let b = client (response 500 []) in
      (probe_url decode a (codes "u") ≡ probe_url decode b (codes "u"))
      × (auth_test_call is_ok a slack_base_url (codes "t")
          ≡ auth_test_call is_ok b slack_base_url (codes "t"))
      × (history_24h_call page no_form a slack_base_url zero_time (codes "t") (codes "C")
          ≡ history_24h_call page no_form b slack_base_url zero_time (codes "t") (codes "C"))
      × (remote_last_modified_call bad_time a (codes "u")
          ≡ remote_last_modified_call bad_time b (codes "u")))
calls-Agree_example =
    calls-Agree decode is_ok page no_form bad_time (client (response 200 []))
      (client (response 500 [])) (codes "u") (codes "t") (codes "C") zero_time
      (clients-Agree (response 200 []) (response 500 []))
