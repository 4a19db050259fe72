-- ===== src/Systemd.antt =====
-- internal/systemd: the probe over D-Bus of systemd_dbus.go, the interface of systemd.go, and the
-- stub of systemd_dbus_other.go.
use vpub_exporter.Prelude.{ℕ, ◌^◌, Bool, Option, none, some, ltb, if◌then◌else◌, ℤ, pos, sub_ℕ}
use vpub_exporter.Text.{Bytes, codes, bytes_eq}
use vpub_exporter.Errors.{Error, Result, ok, err, failure, ◌>>=◌}
use vpub_exporter.Clock.{seconds}

-- A property's value by its Go type: the integer types, a string, or any other.
pub data Variant : Type 0 where
  uint32 uint64 : ℕ → Variant
  int32 int64 int : ℤ → Variant
  string : Bytes → Variant
  other : Variant

-- map[string]interface{}, with `none` for a missing key
abbrev pub Properties : Type 0
Properties = Bytes → Option Variant

-- unitConn: what its two calls return, by the time limit of their context, the unit's name and, for
-- the second, the type of the unit. This is the systemd daemon behind go-systemd.
pub record UnitConn : Type 0 where
  pub get_unit_properties : ℤ → Bytes → Result Properties
  pub get_unit_type_properties : ℤ → Bytes → Bytes → Result Properties

pub record DbusProbe : Type 0 where
  pub unit : Bytes
  pub conn : UnitConn
  pub timeout : ℤ

-- unitProps
abbrev pub unit_props : DbusProbe → Result Properties
unit_props p = p.conn.get_unit_properties p.timeout p.unit

-- serviceProps
abbrev pub service_props : DbusProbe → Result Properties
service_props p = p.conn.get_unit_type_properties p.timeout p.unit (codes "Service")

-- int(x) of a uint64
abbrev pub int_of_uint64 : ℕ → ℤ
int_of_uint64 n = if ltb n (2 ^ 63) then pos n else sub_ℕ n (2 ^ 64)

unfoldable pub uint_to_int : Option Variant → Result ℤ
uint_to_int none = err (failure (codes "property missing"))
uint_to_int (some (uint32 n)) = ok (pos n)
uint_to_int (some (uint64 n)) = ok (int_of_uint64 n)
uint_to_int (some (int32 z)) = ok z
uint_to_int (some (int64 z)) = ok z
uint_to_int (some (int z)) = ok z
uint_to_int (some _) = err (failure (codes "unexpected property type"))

active_state : Option Variant → Result Bool
active_state (some (string s)) = ok (bytes_eq s (codes "active"))
active_state _ = err (failure (codes "ActiveState property missing"))

-- ServiceProbe: what its three methods return during one tick.
pub record ServiceProbe : Type 0 where
  pub is_active : Result Bool
  pub main_pid : Result ℤ
  pub n_restarts : Result ℤ

-- DBusProbe by its methods IsActive, MainPID and NRestarts
unfoldable pub dbus_probe : DbusProbe → ServiceProbe
unfolding active_state uint_to_int
dbus_probe p = record {
  is_active = (do m ← unit_props p; active_state (m (codes "ActiveState")));
  main_pid = (do m ← service_props p; uint_to_int (m (codes "MainPID")));
  n_restarts = (do m ← service_props p; uint_to_int (m (codes "NRestarts")));
}

-- newDBusProbeWithConn
abbrev pub new_dbus_probe_with_conn : Bytes → UnitConn → DbusProbe
new_dbus_probe_with_conn unit c = record { unit = unit; conn = c; timeout = seconds 5 }

-- NewDBusProbe, by what the connection to the system bus gives
unfoldable pub new_dbus_probe : Result UnitConn → Bytes → Result DbusProbe
new_dbus_probe (ok c) unit = ok (record { unit = unit; conn = c; timeout = seconds 5 })
new_dbus_probe (err e) unit = err e

abbrev pub err_not_linux : Error
err_not_linux = failure (codes "systemd dbus probe only works on linux")

-- DBusProbe of the other platforms
abbrev pub other_probe : ServiceProbe
other_probe = record {
  is_active = err err_not_linux;
  main_pid = err err_not_linux;
  n_restarts = err err_not_linux;
}
