-- ===== src/Collectors/Binary.antt =====
-- `BinaryCollector` of internal/collectors/binary.go.
pub mod Remote
pub mod Local
pub mod LocalValues
pub mod Answers
use vpub_exporter.Prelude.{
  ℕ, Bool, true, false, Option, none, some, List, [], ◌∷◌, ◌==◌, ltb, if◌then◌else◌, pos, ℤ,
}
use vpub_exporter.Text.{Bytes, bytes_eq, is_empty}
use vpub_exporter.Components.{ComponentName, component_visor}
use vpub_exporter.Errors.{Error, Result, ok, err, Outcome, success, fails, first_error, api, io}
use vpub_exporter.Clock.{Time, unix}
use vpub_exporter.Prometheus.{Prometheus}

-- A map from component names to paths; each name stands once.
abbrev pub Targets : Type 0
Targets = List (ComponentName × Bytes)

pub record BinaryCollector (P : Prometheus) : Type 0 where
  pub targets : Targets
  pub remote_url : Bytes
  pub local_mtime : P.GaugeVec
  pub remote_mtime : P.GaugeVec
  pub remote_ok : P.GaugeVec
  pub last_remote : P.Value
  pub has_remote : Bool

-- string(a) < string(b)
unfoldable pub bytes_lt : Bytes → Bytes → Bool
bytes_lt [] [] = false
bytes_lt [] (b ∷ t) = true
bytes_lt (a ∷ s) [] = false
bytes_lt (a ∷ s) (b ∷ t) = if a == b then bytes_lt s t else ltb a b

-- c.targets[name], "" for a missing name
unfoldable pub target : Targets → ComponentName → Bytes
target [] name = []
target ((k, p) ∷ ts) name = if bytes_eq k name then p else target ts name

unfoldable pub insert_name : ComponentName → List ComponentName → List ComponentName
insert_name n [] = n ∷ []
insert_name n (m ∷ ms) = if bytes_lt n m then n ∷ m ∷ ms else m ∷ insert_name n ms

-- The keys in ascending order. The keys differ, so sort.Slice has one result.
unfoldable pub components_sorted : Targets → List ComponentName
components_sorted [] = []
components_sorted ((k, p) ∷ ts) = insert_name k (components_sorted ts)

module _ (P : Prometheus) where
  -- one component of the loop
  unfoldable pub update_local :
      ComponentName → Result Time → P.GaugeVec → Outcome → P.GaugeVec × Outcome
  update_local name (err e) g o = (g, first_error o io e)
  update_local name (ok mt) g o = (P.set_at g (name ∷ []) (P.float64 (unix mt)), o)

  unfoldable pub update_locals :
      (Bytes → Result Time)
      → Targets
      → List ComponentName
      → P.GaugeVec
      → Outcome
      → P.GaugeVec × Outcome
  update_locals probe ts [] g o = (g, o)
  update_locals probe ts (name ∷ names) g o =
      let path = target ts name in
      let (g', o') = if is_empty path then (g, o) else update_local name (probe path) g o in
      update_locals probe ts names g' o'

  -- TickLocal, with LocalMtime as a function of the path
  unfoldable pub tick_local :
      (Bytes → Result Time) → BinaryCollector P → BinaryCollector P × Outcome
  tick_local probe c =
      let (g, o) =
        update_locals probe c.targets (components_sorted c.targets) c.local_mtime success in
      (record c { local_mtime = g }, o)

  -- the part of TickRemote behind the HEAD request, by what RemoteLastModified returns
  unfoldable pub apply_remote : Result Time → BinaryCollector P → BinaryCollector P × Outcome
  apply_remote (err e) c = (
    record c {
      remote_ok = P.set_at c.remote_ok (component_visor ∷ []) (P.float64 (pos 0));
      remote_mtime =
          if c.has_remote
          then P.set_at c.remote_mtime (component_visor ∷ []) c.last_remote
          else c.remote_mtime;
    },
    fails api e,
  )
  apply_remote (ok t) c = (
    record c {
      remote_ok = P.set_at c.remote_ok (component_visor ∷ []) (P.float64 (pos 1));
      last_remote = P.float64 (unix t);
      has_remote = true;
      remote_mtime = P.set_at c.remote_mtime (component_visor ∷ []) (P.float64 (unix t));
    },
    success,
  )

  -- TickRemote, with RemoteLastModified as a function of the URL
  unfoldable pub tick_remote :
      (Bytes → Result Time) → BinaryCollector P → BinaryCollector P × Outcome
  unfolding apply_remote
  tick_remote probe c =
      if is_empty c.remote_url then (c, success) else apply_remote (probe c.remote_url) c

  -- SeedRemoteForTest
  abbrev pub seed_remote_for_test : ComponentName → BinaryCollector P → BinaryCollector P
  seed_remote_for_test component c = record c {
    remote_mtime = P.set_at c.remote_mtime (component ∷ []) (P.float64 (pos 0));
    remote_ok = P.set_at c.remote_ok (component ∷ []) (P.float64 (pos 1));
  }
