-- ===== src/Collectors/Slack/Window.antt =====
-- The outcome collector over a Slack that keeps messages: `Tick` of outcome_slack.go with
-- `History24h` of internal/slackapi/slackapi_http.go, from the messages to the gauge.
use vpub_exporter.Prelude.{
  ℕ, ◌*◌, ◌-◌, ◌^◌, ◌≤◌, ◌<◌, zero, suc, true, false, Option, none, some, inl, inr, ◌⊎◌, List, [],
  ◌∷◌, ◌++◌, ◌≡◌, refl, sym, ap, ◌∙◌, arith, length, take, map, ltb, leb, Bool-cases, ltb→lt, ◌-ℤ◌,
  ℤ, if◌then◌else◌, pos,
}
use mathlib.Core.Option.{some_inj}
use vpub_exporter.Text.{Bytes, codes, is_empty, atoi}
use vpub_exporter.Text.Number.Format.{format_int, atoi-format_int}
use vpub_exporter.Errors.{Error, Outcome, ok, success, fails, api}
use vpub_exporter.Clock.{Time, unix}
use vpub_exporter.Prometheus.{Prometheus}
use vpub_exporter.Probes.Http.{Response, Request, HttpClient, answer, read_limited}
use vpub_exporter.Probes.Requests.{authorization, oldest, history_request, history_24h_call}
use vpub_exporter.Probes.SlackHttp.{HistoryResp, history_24h}
use vpub_exporter.Collectors.Slack.{OutcomeSlackCollector, tick_outcome}
use vpub_exporter.Collectors.Slack.LastGood.{IsFresh}
use vpub_exporter.Collectors.Slack.Answer.{same_history, tick_outcome-answer}

-- A message of the channel: its time in microseconds since 1970, and the text of its time stamp.
abbrev pub Message : Type 0
Message = ℕ × Bytes

-- The messages of a second and later.
abbrev pub since : ℕ → List Message → List Message
since o [] = []
since o (m ∷ ms) = let rest = since o ms in if leb (o * 1000000) m.0 then m ∷ rest else rest

-- One page of conversations.history with `inclusive`: some of the messages, from its `oldest` on.
abbrev pub page : ℕ → ℕ → List Message → HistoryResp
page o count ms = record {
  ok_field = true;
  messages = map (λ m. m.1) (take count (since o ms));
  has_more = ltb count (length (since o ms));
}

-- The request for a page of a channel, with the texts of its form.
abbrev pub page_request :
    (List (Bytes × Bytes) → Bytes) → Bytes → Bytes → Bytes → Bytes → Bytes → Request
page_request encode base_url token channel o limit = record {
  method = codes "POST";
  url = base_url ++ codes "/conversations.history";
  headers =
      authorization token ∷ (codes "Content-Type", codes "application/x-www-form-urlencoded") ∷ [];
  body = encode (
      (codes "channel", channel)
      ∷ (codes "oldest", o)
      ∷ (codes "inclusive", codes "true")
      ∷ (codes "limit", limit)
      ∷ []);
}

-- An answer to one request, as Slack documents the method: a page of at most as many messages as the
-- limit says, which may be fewer also where more are left, with `has_more` if some are left. The
-- client makes the request and reads the whole body.
pub record Serves (encode : List (Bytes × Bytes) → Bytes) (decode : Bytes → Option HistoryResp)
    (client : HttpClient) (base_url token channel o limit : Bytes) (ms : List Message)
    : Type 0 where
  pub response : Response
  pub count : ℕ
  pub made : client.new_request_error (page_request encode base_url token channel o limit) ≡ none
  pub sent : client.send (page_request encode base_url token channel o limit) ≡ ok response
  pub status : response.status_code ≡ 200
  pub within : (k : ℕ) → atoi limit ≡ some (pos k) → count ≤ k
  pub decodes :
      (n : ℕ)
      → atoi o ≡ some (pos n)
      → decode (read_limited (512 * 1024) response) ≡ some (page n count ms)

length-page :
    (n : ℕ) (ms : List Message) → length ms ≤ n → length (map (λ m. m.1) (take n ms)) ≡ length ms
length-page zero [] h = refl
length-page zero (m ∷ ms) h = absurd (omega arith)
length-page (suc n) [] h = refl
length-page (suc n) (m ∷ ms) h = ap suc (length-page n ms (omega arith))

seconds-day_before :
    (z : ℤ) (k s : ℕ) → z -ℤ pos k ≡ pos s → 86400 ≤ s → (z -ℤ pos 86400) -ℤ pos k ≡ pos (s - 86400)
unfolding ◌-ℤ◌
seconds-day_before z k s e h = ground arith

-- A day earlier, the second is smaller by 86400.
unix-day_before :
    (now : Time) (s : ℕ)
    → unix now ≡ pos s
    → 86400 ≤ s
    → unix (record now { sec = now.sec -ℤ pos 86400 }) ≡ pos (s - 86400)
unfolding unix
unix-day_before now s e h = seconds-day_before now.sec 62135596800 s e h

-- The field "oldest" of the request is read as the second a day before.
atoi-oldest :
    (now : Time) (s : ℕ)
    → unix now ≡ pos s
    → 86400 ≤ s
    → s < 2 ^ 63
    → atoi (oldest now) ≡ some (pos (s - 86400))
unfolding oldest
atoi-oldest now s e h k =
    ap (λ z. atoi (format_int z)) (unix-day_before now s e h)
    ∙ atoi-format_int (s - 86400) (omega arith)

atoi-limit : atoi (codes "200") ≡ some (pos 200)
unfolding atoi
atoi-limit = refl

at_most : (n k : ℕ) → ltb k n ≡ false → n ≤ k
at_most n k h = ground arith

module _ (P : Prometheus) where
  Shown : HistoryResp → OutcomeSlackCollector P → OutcomeSlackCollector P × Outcome → Type 0
  Shown h c after =
      ((h.has_more ≡ false)
        × (P.value after.0.gauge ≡ P.float64 (pos (length h.messages)))
        × (after.1 ≡ success))
      ⊎ ((h.has_more ≡ true)
          × (P.value after.0.gauge ≡ P.value c.gauge)
          × ((e : Error) × (after.1 ≡ fails api e)))

  -- What a tick makes of a page that Slack answers with.
  tick_outcome-page :
      (decode : Bytes → Option HistoryResp) (r : Response) (h : HistoryResp)
      (c : OutcomeSlackCollector P)
      → is_empty c.token ≡ false
      → is_empty c.channel ≡ false
      → IsFresh P c
      → r.status_code ≡ 200
      → decode (read_limited (512 * 1024) r) ≡ some h
      → h.ok_field ≡ true
      → Shown h c (tick_outcome P (history_24h decode (ok r)) c)
  unfolding Shown
  tick_outcome-page decode r h c t ch f s d is_ok = elim (tick_outcome-answer P decode r c t ch f) [
    | inl (h', w, v, o) ↦
        let same : h' ≡ h = some_inj.0 (sym w.decodes ∙ d) in
        inl (
          sym (ap (λ x. x.has_more) same) ∙ w.last_page,
          v ∙ ap (λ x. P.float64 (pos (length x.messages))) same,
          o,
        )
    | inr (n, v, o) ↦ elim (Bool-cases h.has_more) [
      | inl more ↦ inr (more, v, o)
      | inr last ↦
          absurd (n (h, record { status = s; decodes = d; is_ok = is_ok; last_page = last }))
    ]
  ]

  -- From a channel's messages to the gauge. The collector has a token and a channel, its gauge shows
  -- the last count if there is one, and Slack answers the tick's request as it documents, with a page
  -- that need not be full. At a time from January 2, 1970 on, below 2 ^ 63 seconds, the request asks
  -- for the messages from the second a day before on. Either they are at most 200 and all of them are
  -- on the page, and then the gauge shows their number and the tick succeeds; or some are not on the
  -- page, as with more than 200, and then the gauge stays and the tick fails with kind "api". A part
  -- of the count is never shown.
  pub tick_outcome-window :
      (encode : List (Bytes × Bytes) → Bytes) (decode : Bytes → Option HistoryResp)
      (client : HttpClient) (base_url : Bytes) (ms : List Message) (now : Time) (s : ℕ)
      (c : OutcomeSlackCollector P)
      (served : Serves encode decode client base_url c.token c.channel
        (oldest now)
        (codes "200")
        ms)
      → is_empty c.token ≡ false
      → is_empty c.channel ≡ false
      → IsFresh P c
      → unix now ≡ pos s
      → 86400 ≤ s
      → s < 2 ^ 63
      → (let recent = since (s - 86400) ms in
          let after = tick_outcome P (history_24h_call decode encode client base_url now) c in
          ((length recent ≤ served.count)
            × (length recent ≤ 200)
            × (P.value after.0.gauge ≡ P.float64 (pos (length recent)))
            × (after.1 ≡ success))
          ⊎ ((served.count < length recent)
              × (P.value after.0.gauge ≡ P.value c.gauge)
              × ((e : Error) × (after.1 ≡ fails api e))))
  unfolding Shown history_24h_call
  tick_outcome-window encode decode client base_url ms now s c served t ch f e h k =
      let recent = since (s - 86400) ms in
      let r = served.response in
      let answered : answer client (history_request encode base_url (oldest now) c.token c.channel)
          ≡ ok r =
        rw (answer, served.made) served.sent in
      let same : tick_outcome P (history_24h_call decode encode client base_url now) c
          ≡ tick_outcome P (history_24h decode (ok r)) c =
        same_history P (history_24h_call decode encode client base_url now) c
        ∙ ap (λ a. tick_outcome P (λ token channel. history_24h decode a c.token c.channel) c)
            answered
        ∙ sym (same_history P (history_24h decode (ok r)) c) in
      let d = served.decodes (s - 86400) (atoi-oldest now s e h k) in
      let n = served.count in
      rw same
        (elim (tick_outcome-page decode r (page (s - 86400) n ms) c t ch f served.status d refl) [
          | inl (last, v, o) ↦
              let few = at_most (length recent) n last in
              let limited = served.within 200 atoi-limit in
              inl (few, omega arith, v ∙ ap (λ m. P.float64 (pos m)) (length-page n recent few), o)
          | inr (more, v, o) ↦ inr (ltb→lt n (length recent) more, v, o)
        ])
