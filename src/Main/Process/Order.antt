-- ===== src/Main/Process/Order.antt =====
-- The order of what the process does: which lists are registered, and which goroutines start.
use vpub_exporter.Prelude.{
  List, [], ◌∷◌, ◌++◌, ◌≡◌, refl, sym, ap, ◌∙◌, arith, append-nil, append_assoc, Bool, Bool-cases,
  inl, inr, true, false, if◌then◌else◌,
}
use vpub_exporter.Errors.{Result, ok}
use vpub_exporter.Prometheus.{Opts}
use vpub_exporter.Config.{Config}
use vpub_exporter.Systemd.{DbusProbe, UnitConn, new_dbus_probe}
use vpub_exporter.Main.{Job, Ending, jobs, has_bridge_rpc, has_bridge_state, when}
use vpub_exporter.Text.{Bytes}
use vpub_exporter.Main.Registration.{registrations}
use vpub_exporter.Main.Process.{
  Action, register, label, start, effect, state_actions, log_actions, late_actions, setup,
  ending_actions, deferred, run_actions, listen,
}

abbrev pub registered : List Action → List (List Opts)
registered [] = []
registered (register os ∷ acts) = os ∷ registered acts
registered (a ∷ acts) = registered acts

abbrev pub started : List Action → List Job
started [] = []
started (start j ∷ acts) = j ∷ started acts
started (a ∷ acts) = started acts

-- The label values that the configuration gives.
abbrev pub labelled : List Action → List Bytes
labelled [] = []
labelled (label vs ∷ acts) = vs ++ labelled acts
labelled (a ∷ acts) = labelled acts

abbrev pub rpc_labels : Config → List Bytes
rpc_labels c = if has_bridge_rpc c then c.bridge_rpc_names else []

labelled-append : (xs ys : List Action) → labelled (xs ++ ys) ≡ labelled xs ++ labelled ys
labelled-append [] ys = refl
labelled-append (register os ∷ xs) ys = labelled-append xs ys
labelled-append (effect e ∷ xs) ys = labelled-append xs ys
labelled-append (start j ∷ xs) ys = labelled-append xs ys
labelled-append (label vs ∷ xs) ys =
    ap (λ l. vs ++ l) (labelled-append xs ys) ∙ sym (append_assoc vs (labelled xs) (labelled ys))

labelled-when :
    (b : Bool) (xs ys : List Action)
    → labelled xs ≡ []
    → labelled ys ≡ []
    → labelled (when b xs ++ ys) ≡ []
labelled-when true xs ys h k = labelled-append xs ys ∙ rw (h, k) refl
labelled-when false xs ys h k = k

labelled-late : (c : Config) → labelled (late_actions c) ≡ []
labelled-late c = ground arith

pub labelled-setup : (c : Config) → labelled (setup c) ≡ rpc_labels c
unfolding setup
labelled-setup c =
    let later = when (has_bridge_state c) (state_actions c) ++ log_actions c in
    let none_is : labelled later ≡ [] =
      labelled-when (has_bridge_state c) (state_actions c) (log_actions c) refl (labelled-late c) in
    elim (Bool-cases (has_bridge_rpc c)) [
      | inl e ↦ rw e (ap (λ l. c.bridge_rpc_names ++ l) none_is ∙ append-nil c.bridge_rpc_names)
      | inr e ↦ rw e none_is
    ]

labelled-closing :
    (c : Config) (bus : Result DbusProbe) (end : Ending)
    → labelled (effect (listen c.listen_addr) ∷ (ending_actions c end ++ deferred bus)) ≡ []
unfolding ending_actions deferred
labelled-closing c bus end = ground arith

pub labelled-run_actions :
    (c : Config) (bus : Result UnitConn) (end : Ending)
    → labelled (run_actions (ok c) bus end) ≡ rpc_labels c
unfolding run_actions
labelled-run_actions c bus end =
    labelled-append (setup c) (
      effect (listen c.listen_addr)
      ∷ (ending_actions c end ++ deferred (new_dbus_probe bus c.service_name)))
    ∙ rw (labelled-setup, labelled-closing) (append-nil (rpc_labels c))

registered-append : (xs ys : List Action) → registered (xs ++ ys) ≡ registered xs ++ registered ys
registered-append [] ys = refl
registered-append (register os ∷ xs) ys = ap (◌∷◌ os) (registered-append xs ys)
registered-append (effect e ∷ xs) ys = registered-append xs ys
registered-append (start j ∷ xs) ys = registered-append xs ys
registered-append (label vs ∷ xs) ys = registered-append xs ys

pub registered-setup : (c : Config) → registered (setup c) ≡ registrations c
unfolding setup registrations
registered-setup c = ground arith

pub started-setup : (c : Config) → started (setup c) ≡ jobs c
unfolding setup jobs
started-setup c = ground arith

registered-closing :
    (c : Config) (bus : Result DbusProbe) (end : Ending)
    → registered (effect (listen c.listen_addr) ∷ (ending_actions c end ++ deferred bus)) ≡ []
unfolding ending_actions deferred
registered-closing c bus end = ground arith

-- The lists that run registers, for a configuration that was loaded.
pub registered-run_actions :
    (c : Config) (bus : Result UnitConn) (end : Ending)
    → registered (run_actions (ok c) bus end) ≡ registrations c
unfolding run_actions
registered-run_actions c bus end =
    registered-append (setup c) (
      effect (listen c.listen_addr)
      ∷ (ending_actions c end ++ deferred (new_dbus_probe bus c.service_name)))
    ∙ rw (registered-setup, registered-closing) (append-nil (registrations c))
