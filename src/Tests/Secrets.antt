-- ===== src/Tests/Secrets.antt =====
-- Examples for the secrets of the configuration.
use vpub_exporter.Prelude.{ℤ, none, Option, [], ◌≡◌, refl, arith, if◌then◌else◌}
use vpub_exporter.Text.{Bytes, codes, bytes_eq}
use vpub_exporter.Errors.{Error, ok, err, failure}
use vpub_exporter.Config.{Env}
use vpub_exporter.Main.{signal, run}
use vpub_exporter.Main.Process.{Host, load_from_os, run_actions}
use vpub_exporter.Main.Secrets.{is_secret, SameButSecrets, run-secret}
use vpub_exporter.Main.Logs.{main_logs}

-- One provider, and one text for every secret.
abbrev env : Bytes → Env
env secret key =
    if bytes_eq key (codes "VPUB_BRIDGE_RPC_NAMES")
    then codes "p"
    else if is_secret key
    then secret
    else []

abbrev host : Host
host = record {
  args = [];
  getenv = env (codes "xoxb-1");
  bus = err (failure (codes "dbus connect"));
  ending = signal (ok tt);
}

abbrev no_duration : Bytes → Option ℤ
no_duration s = none

abbrev duration : ℤ → Bytes
duration d = codes "15s"

abbrev message : Error → Bytes
message (failure s) = s
message e = []

env-SameButSecrets : SameButSecrets (env (codes "xoxb-1")) (env (codes "https://key@node"))
env-SameButSecrets = record { public = λ k h. rw h refl; set = λ k. ground arith }

abbrev other : Host
other = record host { getenv = env (codes "https://key@node") }

run-secret_example :
    (let loaded = load_from_os no_duration host in
      (main_logs duration message (load_from_os no_duration other) host.bus host.ending
        ≡ main_logs duration message loaded host.bus host.ending)
      × (run_actions (load_from_os no_duration other) host.bus host.ending
          ≡ run_actions loaded host.bus host.ending)
      × (run (load_from_os no_duration other) host.ending ≡ run loaded host.ending))
run-secret_example =
    run-secret duration message no_duration host (env (codes "https://key@node")) env-SameButSecrets
