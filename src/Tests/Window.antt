-- ===== src/Tests/Window.antt =====
-- Examples for the outcome collector over a Slack that keeps two messages.
use vpub_exporter.Prelude.{
  ℕ, zero, suc, ◌*◌, ◌≤◌, ◌<◌, ◌==◌, Bool, true, false, Option, none, some, List, [], ◌∷◌, ◌≡◌, ◌⊎◌,
  refl, ap, arith, length, map, take, ltb, leb, ◌∙◌, pos, if◌then◌else◌, ℤ,
}
use vpub_exporter.Text.{Bytes, codes, atoi}
use vpub_exporter.Text.Number.Format.{format_int}
use vpub_exporter.Errors.{Error, ok, success, fails, api}
use vpub_exporter.Clock.{Time, unix}
use vpub_exporter.Probes.Http.{Response, HttpClient, read_limited}
use vpub_exporter.Probes.Requests.{oldest, history_24h_call}
use vpub_exporter.Probes.SlackHttp.{HistoryResp}
use vpub_exporter.Collectors.Slack.{OutcomeSlackCollector, tick_outcome}
use vpub_exporter.Collectors.Slack.Window.{Message, page, Serves, tick_outcome-window}
use vpub_exporter.Tests.Ideal.{ideal}

-- One message of second 100000, and one of second 200000; each text is one byte.
abbrev first : Message
first = (100000000000, 65 ∷ [])

abbrev second : Message
second = (200000000000, 66 ∷ [])

abbrev stored : List Message
stored = first ∷ second ∷ []

abbrev value : Option ℤ → ℕ
value (some (pos n)) = n
value _ = 0

abbrev number : Bytes → ℕ
number t = value (atoi t)

-- A form with four fields, by the numbers of its second and last.
abbrev form : List (Bytes × Bytes) → Bytes
form (a ∷ b ∷ c ∷ d ∷ []) = number b.1 ∷ number d.1 ∷ []
form _ = []

abbrev first_byte : Bytes → ℕ
first_byte [] = 0
first_byte (c ∷ s) = c

-- A page in a body: 1 for more, else 0, and the first byte of each text.
abbrev body_of : HistoryResp → Bytes
body_of h = (if h.has_more then 1 else 0) ∷ map first_byte h.messages

abbrev read_body : Bytes → Option HistoryResp
read_body [] = none
read_body (c ∷ s) =
    some (record { ok_field = true; messages = map (λ b. b ∷ []) s; has_more = c == 1 })

abbrev reply : Bytes → Response
reply body = record { status_code = 200; body = body; body_error = none; last_modified = [] }

abbrev serve : Bytes → Response
serve (n ∷ k ∷ []) = reply (body_of (page n k stored))
serve _ = reply []

abbrev slack_client : HttpClient
slack_client = record {
  new_request_error = λ q. none;
  send = λ q. ok (serve q.body);
  elapsed = λ q. pos 0;
}

-- A page of some of the messages is read back as it is.
Reads : List Message → ℕ → Type 0
Reads ms k =
    let h : HistoryResp = record {
      ok_field = true;
      messages = map (λ m. m.1) (take k ms);
      has_more = ltb k (length ms);
    } in
    read_body (read_limited (512 * 1024) (reply (body_of h))) ≡ some h

none-Reads : (k : ℕ) → Reads [] k
unfolding Reads
none-Reads zero = refl
none-Reads (suc k) = ground arith

one-Reads : (t c k : ℕ) → Reads ((t, c ∷ []) ∷ []) k
unfolding Reads
one-Reads t c zero = refl
one-Reads t c (suc zero) = refl
one-Reads t c (suc (suc k)) = ground arith

two-Reads : (t c u d k : ℕ) → Reads ((t, c ∷ []) ∷ (u, d ∷ []) ∷ []) k
unfolding Reads
two-Reads t c u d zero = refl
two-Reads t c u d (suc zero) = refl
two-Reads t c u d (suc (suc zero)) = refl
two-Reads t c u d (suc (suc (suc k))) = ground arith

some-Reads :
    (a b : Bool) (k : ℕ)
    → Reads (if a then first ∷ (if b then second ∷ [] else []) else if b then second ∷ [] else []) k
some-Reads true true k = two-Reads _ _ _ _ k
some-Reads true false k = one-Reads _ _ k
some-Reads false true k = one-Reads _ _ k
some-Reads false false k = none-Reads k

page-read :
    (n k : ℕ) → read_body (read_limited (512 * 1024) (serve (n ∷ k ∷ []))) ≡ some (page n k stored)
unfolding Reads
page-read n k = some-Reads (leb (n * 1000000) first.0) (leb (n * 1000000) second.0) k

number_is : (t : Bytes) (n : ℕ) → atoi t ≡ some (pos n) → number t ≡ n
number_is t n e = ap value e

stored-Serves :
    (base_url token channel o limit : Bytes)
    → Serves form read_body slack_client base_url token channel o limit stored
stored-Serves base_url token channel o limit = record {
  response = serve (number o ∷ number limit ∷ []);
  count = number limit;
  made = refl;
  sent = refl;
  status = refl;
  within = λ k e. rw (number_is limit k e) (omega arith);
  decodes = λ n e.
      ap (λ m. read_body (read_limited (512 * 1024) (serve (m ∷ number limit ∷ []))))
        (number_is o n e)
      ∙ page-read n (number limit);
}

abbrev watch : OutcomeSlackCollector ideal
watch = record {
  token = codes "t";
  channel = codes "C";
  gauge = pos 4;
  last_val = pos 4;
  has_val = true;
}

-- Second 250000 after 1970.
abbrev now : Time
now = record { sec = pos 62135846800; nsec = 5 }

oldest_run : oldest now ≡ codes "163600"
unfolding oldest unix format_int
oldest_run = refl

tick_outcome-window_example :
    (let after =
        tick_outcome ideal (history_24h_call read_body form slack_client (codes "u") now) watch in
      ((1 ≤ 200) × (1 ≤ 200) × (after.0.gauge ≡ pos 1) × (after.1 ≡ success))
      ⊎ ((200 < 1) × (after.0.gauge ≡ pos 4) × ((e : Error) × (after.1 ≡ fails api e))))
unfolding unix stored-Serves atoi
tick_outcome-window_example =
    tick_outcome-window ideal form read_body slack_client (codes "u") stored now 250000 watch
      (stored-Serves (codes "u") (codes "t") (codes "C") (oldest now) (codes "200")) refl refl
      (λ h. refl) refl (omega arith) (omega arith)
