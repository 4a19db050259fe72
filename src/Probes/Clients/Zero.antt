-- ===== src/Probes/Clients/Zero.antt =====
-- The zero values of the two HTTPProbe structs.
use vpub_exporter.Prelude.{Option, none, List, [], ◌∷◌, ◌≡◌, refl, ℤ}
use vpub_exporter.Text.{Bytes}
use vpub_exporter.Errors.{Result}
use vpub_exporter.Clock.{Time}
use vpub_exporter.Probes.Rpc.{RpcResp}
use vpub_exporter.Probes.Clients.{
  Net, HttpProbe, new_rpc_probe, new_binary_probe, rpc_probe, binary_probe,
}

-- The calls for some URLs one after the other: their results, and the struct behind them.
abbrev call_all {ℓ} :
    {A : Type ℓ} → (Bytes → HttpProbe → HttpProbe × A) → List Bytes → HttpProbe → HttpProbe × List A
call_all call [] p = (p, [])
call_all call (u ∷ us) p =
    let (q, a) = call u p in let (r, rest) = call_all call us q in (r, a ∷ rest)

-- A probe with no client, whatever its time limit, works from its first call on as the one of the
-- constructor: the results are the same for any URLs, and so is the struct behind them.
zero_probe :
    (net : Net) (decode : Bytes → Option RpcResp) (parse_time : Bytes → Result Time) (limit : ℤ)
    (u : Bytes) (us : List Bytes)
    → (let zero : HttpProbe = record { client = none; timeout = limit } in
        (call_all (rpc_probe net decode) (u ∷ us) zero
          ≡ call_all (rpc_probe net decode) (u ∷ us) new_rpc_probe)
        × (call_all (binary_probe net parse_time) (u ∷ us) zero
            ≡ call_all (binary_probe net parse_time) (u ∷ us) new_binary_probe))
unfolding rpc_probe binary_probe
zero_probe net decode parse_time limit u us = (refl, refl)
