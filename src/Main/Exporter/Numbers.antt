-- ===== src/Main/Exporter/Numbers.antt =====
-- The goroutines of the collectors by number, and that no two of them count under one name.
use vpub_exporter.Prelude.{
  ℕ, ◌==◌, ==_iff, true, false, Bool-cases, inl, inr, ◌≡◌, refl, sym, ap, ◌∙◌, if◌then◌else◌,
}
use vpub_exporter.Text.{bytes_eq}
use vpub_exporter.Main.Exporter.{
  Part, service, log_mtime, bridge_rpc, bridge_state, slack_health, outcome_slack, binary_local,
  binary_remote, logs, vote_logs, outcome_logs, download_logs, visor_log, collector_name,
}
use vpub_exporter.Main.Exporter.Own.{same_part}

-- The goroutines, numbered.
abbrev pub number_of : Part → ℕ
number_of service = 0
number_of log_mtime = 1
number_of bridge_rpc = 2
number_of bridge_state = 3
number_of slack_health = 4
number_of outcome_slack = 5
number_of binary_local = 6
number_of binary_remote = 7
number_of (logs vote_logs) = 8
number_of (logs outcome_logs) = 9
number_of (logs download_logs) = 10
number_of (logs visor_log) = 11

abbrev part_at : ℕ → Part
part_at n =
    if n == 0
    then service
    else if n == 1
    then log_mtime
    else if n == 2
    then bridge_rpc
    else if n == 3
    then bridge_state
    else if n == 4
    then slack_health
    else if n == 5
    then outcome_slack
    else if n == 6
    then binary_local
    else if n == 7
    then binary_remote
    else if n == 8
    then logs vote_logs
    else if n == 9
    then logs outcome_logs
    else if n == 10
    then logs download_logs
    else logs visor_log

part_at-number_of : (p : Part) → part_at (number_of p) ≡ p
part_at-number_of service = refl
part_at-number_of log_mtime = refl
part_at-number_of bridge_rpc = refl
part_at-number_of bridge_state = refl
part_at-number_of slack_health = refl
part_at-number_of outcome_slack = refl
part_at-number_of binary_local = refl
part_at-number_of binary_remote = refl
part_at-number_of (logs vote_logs) = refl
part_at-number_of (logs outcome_logs) = refl
part_at-number_of (logs download_logs) = refl
part_at-number_of (logs visor_log) = refl

pub number_of-inj : (p q : Part) → (number_of p == number_of q) ≡ true → p ≡ q
number_of-inj p q h =
    sym (part_at-number_of p) ∙ ap part_at ((==_iff _ _).0 h) ∙ part_at-number_of q

true-false : true ≡ false → ⊥
true-false e = cc

-- Two goroutines count under two names.
pub other_name :
    (p q : Part)
    → (number_of p == number_of q) ≡ false
    → bytes_eq (collector_name p) (collector_name q) ≡ false
other_name p q h = elim (Bool-cases (bytes_eq (collector_name p) (collector_name q))) [
  | inr e ↦ e
  | inl e ↦ absurd (true-false (sym ((==_iff _ _).1 (ap number_of (same_part p q e))) ∙ h))
]
