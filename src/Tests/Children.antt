-- ===== src/Tests/Children.antt =====
-- Examples for the children of a process and for the service.
use vpub_exporter.Prelude.{
  ◌+ℤ◌, some, none, List, [], ◌∷◌, ◌≡◌, Bool, inl, inr, refl, map, pos, arith, if◌then◌else◌, All,
  ◌&&◌,
}
use vpub_exporter.Text.{Bytes, codes, bytes_eq, join, atoi}
use vpub_exporter.Text.Number.Decimal.{digit, longer}
use vpub_exporter.Systemd.{Properties, DbusProbe, new_dbus_probe_with_conn, uint32, string}
use vpub_exporter.Collectors.Service.{ServiceCollector, tick}
use vpub_exporter.Collectors.Service.System.{Answers, Shows, world_of, tick-system}
use vpub_exporter.Tests.Ideal.{ideal}
use vpub_exporter.Errors.{Error, success, ok, err, failure}
use vpub_exporter.Procs.{ProcFs, count_children}
use vpub_exporter.Procs.Stat.{
  Process, IsProcess, stat_line, Entry, process, other, entry_of, Lists, count_children-children,
}

-- Process 42, with the name "a) S 9 (", is a child of process 7.
abbrev named : Process
named = record {
  pid = 42;
  pid_text = codes "42";
  comm = codes "a) S 9 (";
  state = b'S';
  ppid = 7;
  ppid_text = codes "7";
  others = codes "42 42 0 -1\n";
}

named-IsProcess : IsProcess named
named-IsProcess = record {
  pid_in = (omega arith, omega arith);
  pid_is = longer 4 2 (codes "4") (digit 4 (omega arith)) (omega arith);
  state_in = (omega arith, omega arith);
  ppid_in = omega arith;
  ppid_is = digit 7 (omega arith);
  others_in = ground arith;
  others_are = refl;
}

-- A file with a number for a name, a directory without one, and a process that has gone.
abbrev entries : List Entry
entries =
    process named
    ∷ other (record { name = codes "12"; is_dir = Bool.false })
    ∷ other (record { name = codes "self"; is_dir = Bool.true })
    ∷ other (record { name = codes "43"; is_dir = Bool.true })
    ∷ []

abbrev proc_fs : ProcFs
proc_fs = record {
  read_dir = λ dir. ok (map entry_of entries);
  read_file = λ path.
      if bytes_eq path (codes "/proc/42/stat")
      then ok (stat_line named)
      else err (failure (codes "no such process"));
}

entries-Lists : All (Lists proc_fs (codes "/proc")) entries
unfolding join atoi
entries-Lists = (
  (named-IsProcess, refl),
  (inl refl, (inr (inl refl), (inr (inr (failure (codes "no such process"), refl)), tt))),
)

count_children-children_example : count_children proc_fs (codes "/proc") (pos 7) ≡ ok 1
count_children-children_example =
    count_children-children proc_fs (codes "/proc") 7 entries (omega arith) refl refl entries-Lists

-- An active unit whose main process is 7, after 3 restarts.
abbrev unit : Properties
unit name = if bytes_eq name (codes "ActiveState") then some (string (codes "active")) else none

abbrev service_of : Properties
service_of name =
    if bytes_eq name (codes "MainPID")
    then some (uint32 7)
    else if bytes_eq name (codes "NRestarts")
    then some (uint32 3)
    else none

abbrev unit_name : Bytes
unit_name = codes "v-publisher.service"

abbrev no_unit : Error
no_unit = failure (codes "no such unit")

abbrev bus : DbusProbe
bus = new_dbus_probe_with_conn unit_name (record {
  get_unit_properties = λ limit name. if bytes_eq name unit_name then ok unit else err no_unit;
  get_unit_type_properties = λ limit name type.
      if bytes_eq name unit_name && bytes_eq type (codes "Service")
      then ok service_of
      else err no_unit;
})

bus-Answers : Answers bus (codes "active") 7 3
bus-Answers = record {
  unit_properties = unit;
  service_properties = service_of;
  unit_is = refl;
  service_is = refl;
  state_is = refl;
  pid_is = refl;
  restarts_are = refl;
}

proc_fs-Shows : Shows proc_fs (codes "/proc") entries
proc_fs-Shows = record { root_is = refl; entries_are = refl; lists = entries-Lists }

abbrev restarted : ServiceCollector ideal
restarted = record {
  up = pos 0;
  child_count = pos 9;
  restart_total = pos 5;
  last_n_restart = pos 1;
}

tick-system_example :
    (let after = tick ideal (world_of bus proc_fs (codes "/proc") (pos 1)) restarted in
      (after.0.up ≡ pos 1)
      × (after.0.child_count ≡ pos 1)
      × (after.0.restart_total ≡ pos 7)
      × (after.1 ≡ success))
unfolding ◌+ℤ◌
tick-system_example =
    tick-system ideal bus proc_fs (codes "/proc") entries (pos 1) restarted (codes "active") 7 3 1
      bus-Answers proc_fs-Shows (omega arith) (omega arith) refl (omega arith)
