-- ===== src/Probes/Rpc/Verdict.antt =====
-- When a probe of an RPC endpoint succeeds, and when it fails for its credentials.
use vpub_exporter.Prelude.{
  ◌*◌, true, false, inl, inr, Option, none, some, Option-cases, ◌≡◌, ◌≢◌, ◌↔◌, ◌⊎◌, refl, arith,
}
use vpub_exporter.Collectors.BridgeRpc.{classify}
use vpub_exporter.Text.{Bytes, codes, is_empty}
use vpub_exporter.Errors.{Error, ok, auth}
use vpub_exporter.Probes.Http.{Response, read_limited, read_error}
use vpub_exporter.Probes.Rpc.{RpcResp, looks_like_auth_body, snippet, probe, judge, judge_ok}

-- The answer of a healthy endpoint: status 200, a body that can be read to its end or its first 64 KiB, that does not ask for
-- credentials, and that decodes to a result with no error.
pub record IsHealthy (decode : Bytes → Option RpcResp) (r : Response) : Type 0 where
  pub answer : RpcResp
  pub status : r.status_code ≡ 200
  pub readable : read_error (64 * 1024) r ≡ none
  pub trusted : looks_like_auth_body (read_limited (64 * 1024) r) ≡ false
  pub decodes : decode (read_limited (64 * 1024) r) ≡ some answer
  pub no_error : answer.error_code ≡ none
  pub has_result : is_empty answer.result ≡ false

judge-none :
    (decode : Bytes → Option RpcResp) (r : Response)
    → r.status_code ≡ 200
    → judge_ok decode r ≡ none
    → IsHealthy decode r
unfolding judge_ok judge
judge-none decode r s h = elim (Option-cases (decode (read_limited (64 * 1024) r))) [
  | inl e ↦ ground arith
  | inr (a, e) ↦ record {
    answer = a;
    status = s;
    readable = ground arith;
    trusted = ground arith;
    decodes = e;
    no_error = ground arith;
    has_result = ground arith;
  }
]

-- A probe that gets a response returns no error exactly for a healthy answer.
pub probe-IsHealthy :
    (decode : Bytes → Option RpcResp) (r : Response)
    → (probe decode (ok r) ≡ none) ↔ IsHealthy decode r
unfolding probe
probe-IsHealthy decode r = (
  λ h. judge-none decode r (ground arith) (ground arith),
  λ s. ground (arith, s.status, s.readable, s.trusted, s.decodes, s.no_error, s.has_result),
)

-- The answers that ask for credentials: status 401, or the message of an expired key in what is read
-- of the body, which for status 200 must be readable.
abbrev pub AsksAuth : Response → Type 0
AsksAuth r =
    (r.status_code ≡ 401)
    ⊎ ((r.status_code ≢ 200) × (looks_like_auth_body (read_limited 2048 r) ≡ true))
    ⊎ ((r.status_code ≡ 200)
        × (read_error (64 * 1024) r ≡ none)
        × (looks_like_auth_body (read_limited (64 * 1024) r) ≡ true))

-- An answer that asks for credentials, with status 401 or with the message of an expired key in the
-- part of the body that is read, always gives the credentials error, which the collector counts under
-- "auth_error".
pub probe-AsksAuth :
    (decode : Bytes → Option RpcResp) (r : Response)
    → AsksAuth r
    → (e : Error) × (probe decode (ok r) ≡ some e) × ((classify e).0 ≡ codes "auth_error")
unfolding probe
probe-AsksAuth decode r (inl s) = (auth (snippet (read_limited 2048 r)), ground arith, refl)
probe-AsksAuth decode r (inr (inl (s, b))) =
    (auth (snippet (read_limited 2048 r)), ground arith, refl)
probe-AsksAuth decode r (inr (inr (s, e, b))) =
    (auth (snippet (read_limited (64 * 1024) r)), ground arith, refl)
