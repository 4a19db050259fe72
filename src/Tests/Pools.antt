-- ===== src/Tests/Pools.antt =====
-- Examples for the goroutines of the bridge RPC collector.
use vpub_exporter.Prelude.{
  ◌+◌, ◌*◌, ◌/◌, ◌≤◌, map, ◌⊎◌, Option, some, none, List, [], ◌∷◌, ◌++◌, ◌≡◌, refl, arith, length,
  pos, All,
}
use vpub_exporter.Text.{Bytes, codes}
use vpub_exporter.Errors.{Error, ok, deadline_exceeded}
use vpub_exporter.Probes.Http.{Response, HttpClient}
use vpub_exporter.Probes.Rpc.{RpcResp, probe}
use vpub_exporter.Probes.Requests.{probe_url}
use vpub_exporter.Collectors.BridgeRpc.Calls.{probe_of, ShowsAnswer, tick-answer}
use vpub_exporter.Collectors.BridgeRpc.{BridgeRpcCollector, Probed, probed_names, url_of, tick}
use vpub_exporter.Collectors.BridgeRpc.Pool.{
  Pool, Step, Steps, start, finish, stop, step, begin, all_names, parallel_probes, steps_taken,
  steps_left, IsOver, Steps-bound, Steps-IsOver,
}
use vpub_exporter.Collectors.BridgeRpc.Complete.{tick-IsOver, Shows}
use vpub_exporter.Collectors.BridgeRpc.Timing.{probe_timeout, free, occupy, wait_all, tick_end}
use vpub_exporter.Collectors.BridgeRpc.Timing.Bound.{tick_end-bound}
use vpub_exporter.Collectors.BridgeRpc.Providers.{IsAbsent}
use vpub_exporter.Tests.Ideal.{ideal, no_counts, no_gauges}

abbrev probed : Bytes → Option Error → Probed
probed name e = record { name = name; latency = pos 5; error = e }

abbrev rpc : BridgeRpcCollector ideal
rpc = record { up = no_gauges; latency = λ k. 0; check_tot = no_counts }

abbrev urls : List (Bytes × Bytes)
urls = (codes "a", codes "http://a") ∷ (codes "b", codes "http://b") ∷ []

abbrev pool : List Bytes → List Bytes → List Probed → Pool
pool ws rs f = record { waiting = ws; running = rs; finished = f }

-- Two probes run, and the first of them finishes first.
abbrev halfway : Pool
halfway = pool [] (codes "b" ∷ []) (probed (codes "a") none ∷ [])

abbrev two : List Bytes
two = codes "a" ∷ codes "b" ∷ []

to_running : Steps (begin urls two) (pool [] (codes "b" ∷ codes "a" ∷ []) [])
unfolding probed_names url_of
to_running =
    let s1 : Steps (begin urls two) (pool (codes "b" ∷ []) (codes "a" ∷ []) []) =
      step _ _ _ (stop _) (start (codes "a") (codes "b" ∷ []) [] [] (omega arith)) in
    step _ _ _ s1 (start (codes "b") [] (codes "a" ∷ []) [] (omega arith))

to_halfway : Steps (begin urls two) halfway
to_halfway = step _ _ _ to_running (finish (probed (codes "a") none) [] (codes "b" ∷ []) [] [])

Steps-bound_example :
    (length halfway.running ≤ parallel_probes)
    × mathlib.Core.List.Perm (all_names halfway) (probed_names urls two)
Steps-bound_example = Steps-bound urls two halfway to_halfway

Steps-IsOver_example :
    (steps_taken (begin urls two) halfway to_halfway + steps_left halfway
      ≡ 2 * length (probed_names urls two))
    × (IsOver halfway ⊎ ((q : Pool) × Step halfway q))
Steps-IsOver_example = Steps-IsOver urls two halfway to_halfway

-- The second probe timed out.
abbrev slow : Probed
slow = probed (codes "b") (some deadline_exceeded)

abbrev ended : Pool
ended = pool [] [] (probed (codes "a") none ∷ slow ∷ [])

to_ended : Steps (begin urls two) ended
to_ended = step _ _ _ to_halfway (finish slow [] [] [] (probed (codes "a") none ∷ []))

tick-IsOver_example :
    (xs : List Probed) × (p : Probed) × (zs : List Probed) × (ended.finished ≡ xs ++ p ∷ zs)
    × (p.name ≡ codes "b")
    × IsAbsent (codes "b") xs
    × IsAbsent (codes "b") zs
    × Shows ideal rpc ended.finished (codes "b") p
unfolding probed_names url_of
tick-IsOver_example = tick-IsOver ideal rpc urls two ended to_ended (refl, refl) (codes "b") refl

-- Every provider answers with a block number.
abbrev answered : Response
answered = record { status_code = 200; body = codes "0x10"; body_error = none; last_modified = [] }

abbrev client : HttpClient
client = record { new_request_error = λ q. none; send = λ q. ok answered; elapsed = λ q. pos 7 }

abbrev decode : Bytes → Option RpcResp
decode b = some (record { error_code = none; result = b })

abbrev asked : Bytes → Probed
asked n = record { name = n; latency = pos 7; error = probe decode (ok answered) }

abbrev all_asked : Pool
all_asked = pool [] [] (asked (codes "a") ∷ asked (codes "b") ∷ [])

to_all_asked : Steps (begin urls two) all_asked
to_all_asked =
    step _ _ _ (step _ _ _ to_running (finish (asked (codes "a")) [] (codes "b" ∷ []) [] []))
      (finish (asked (codes "b")) [] [] [] (asked (codes "a") ∷ []))

asked-probe_of : All (λ p. p ≡ probe_of decode client urls p.name) all_asked.finished
unfolding probe_of probe_url
asked-probe_of = (refl, (refl, tt))

tick-answer_example :
    ShowsAnswer decode client urls ideal rpc
      (tick ideal all_asked.finished rpc).0
      (codes "b")
      answered
unfolding probed_names url_of
tick-answer_example =
    tick-answer decode client urls ideal rpc two all_asked (codes "b") answered to_all_asked
      (refl, refl) asked-probe_of refl (refl, refl)

-- Four providers that all take the whole timeout, of which the fourth waits for a place.
abbrev four : List (Bytes × Bytes)
four =
    (codes "a", codes "http://a")
    ∷ (codes "b", codes "http://b")
    ∷ (codes "c", codes "http://c")
    ∷ (codes "d", codes "http://d")
    ∷ []

abbrev four_names : List Bytes
four_names = map (λ u. u.0) four

tick_end-bound_example :
    tick_end 7 (free 7) (map (λ n. probe_timeout) (probed_names four four_names))
    ≤ 7 + (length four_names + 2) / 3 * probe_timeout
tick_end-bound_example =
    tick_end-bound four four_names (λ n. probe_timeout) 7
      (omega arith, (omega arith, (omega arith, (omega arith, tt))))

-- The bound is reached.
tick_end_run :
    tick_end 7 (free 7) (map (λ n. probe_timeout) (probed_names four four_names)) ≡ 10000000007
unfolding tick_end occupy wait_all probed_names url_of
tick_end_run = refl
