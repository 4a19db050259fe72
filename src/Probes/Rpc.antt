-- ===== src/Probes/Rpc.antt =====
-- `Probe` of internal/rpc/rpc_http.go.
pub mod Verdict
use vpub_exporter.Prelude.{
  ℕ, ◌*◌, ◌++◌, Bool, false, not, Option, none, some, List, [], ◌∷◌, take, length, ltb, ◌==◌,
  if◌then◌else◌, ℤ,
}
use vpub_exporter.Text.{Bytes, codes, contains, trim_space, is_empty}
use vpub_exporter.Errors.{Error, Result, ok, err, auth, failure}
use vpub_exporter.Probes.Http.{Response, status_ok, status_unauthorized, read_limited, read_error}

-- RPCProbe, by its one method: the latency in nanoseconds and the error, `none` for nil
abbrev pub RpcProbe : Type 0
RpcProbe = Bytes → ℤ × Option Error

-- rpcResp: the code of `error`, if it is there, and `result`.
pub record RpcResp : Type 0 where
  pub error_code : Option ℤ
  pub result : Bytes

-- looksLikeAuthBody
unfoldable pub looks_like_auth_body : Bytes → Bool
looks_like_auth_body b =
    if is_empty b then false else contains (take 1024 b) (codes "Must be authenticated")

-- snippet; the bytes at the end are the ellipsis
unfoldable pub snippet : Bytes → Bytes
snippet b =
    let s = trim_space b in if ltb 80 (length s) then take 80 s ++ 0xe2 ∷ 0x80 ∷ 0xa6 ∷ [] else s

judge : Option RpcResp → Option Error
judge none = some (failure (codes "decode rpc body"))
judge (some r) = elim r.error_code [
  | some code ↦ some (failure (codes "rpc error code"))
  | none ↦ if is_empty r.result then some (failure (codes "rpc empty result")) else none
]

judge_ok : (Bytes → Option RpcResp) → Response → Option Error
unfolding judge
judge_ok decode r = elim (read_error (64 * 1024) r) [
  | some e ↦ some e
  | none ↦
      let body = read_limited (64 * 1024) r in
      if looks_like_auth_body body then some (auth (snippet body)) else judge (decode body)
]

-- The error of Probe, `none` for nil, by what Client.Do returns and by json.Unmarshal.
unfoldable pub probe : (Bytes → Option RpcResp) → Result Response → Option Error
unfolding judge_ok
probe decode (err e) = some e
probe decode (ok r) =
    if r.status_code == status_unauthorized
    then some (auth (snippet (read_limited 2048 r)))
    else if not (r.status_code == status_ok)
    then (if looks_like_auth_body (read_limited 2048 r)
        then some (auth (snippet (read_limited 2048 r)))
        else some (failure (codes "rpc http")))
    else judge_ok decode r
