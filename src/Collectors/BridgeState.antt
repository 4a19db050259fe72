-- ===== src/Collectors/BridgeState.antt =====
-- `BridgeStateCollector` of internal/collectors/bridge_state.go.
pub mod Cursors
use vpub_exporter.Prelude.{
  ℕ, ◌*◌, Bool, true, false, ◌||◌, Option, none, some, List, [], ◌∷◌, ltb, ltb_ℤ, if◌then◌else◌, ℤ,
  pos,
}
use vpub_exporter.Text.{Bytes, codes, is_empty}
use vpub_exporter.Errors.{Error, Result, ok, err, failure, Outcome, success, fails, parse, io}
use vpub_exporter.Clock.{Time, unix}
use vpub_exporter.Prometheus.{Prometheus}

pub record BridgeStateCollector (P : Prometheus) : Type 0 where
  pub path : Bytes
  pub last_block : P.Gauge
  pub mtime : P.Gauge
  pub explorer_cursor : P.GaugeVec

-- ExplorerCursors of stateDoc: a map, in the order in which the loop ranges over it.
abbrev pub Cursors : Type 0
Cursors = List (Bytes × ℤ)

pub record StateFile : Type 0 where
  pub mod_time : Time
  pub size : ℕ

-- What the file system and the JSON decoder return. `decode` has the decoder's result on what is
-- read, at most `max_state_file_size` bytes of it.
pub record StateWorld : Type 0 where
  pub stat : Bytes → Result StateFile
  pub open_file : Bytes → Result (Unit {0})
  pub decode : Result Cursors

abbrev pub max_state_file_size : ℕ
max_state_file_size = 16 * 1024 * 1024

-- The variables of the loop: maxCur and first.
pub record Furthest : Type 0 where
  pub max_cur : ℤ
  pub first : Bool

unfoldable pub further : ℤ → Furthest → Furthest
further cur m =
    if m.first || ltb_ℤ m.max_cur cur then record { max_cur = cur; first = false } else m

unfoldable pub furthest : Cursors → Furthest → Furthest
unfolding further
furthest [] m = m
furthest ((name, cur) ∷ cs) m = furthest cs (further cur m)

module _ (P : Prometheus) where
  unfoldable pub set_cursors : Cursors → P.GaugeVec → P.GaugeVec
  set_cursors [] g = g
  set_cursors ((name, cur) ∷ cs) g = set_cursors cs (P.set_at g (name ∷ []) (P.float64 cur))

  unfoldable pub apply_cursors :
      Result Cursors → BridgeStateCollector P → BridgeStateCollector P × Outcome
  apply_cursors (err e) c = (c, fails parse e)
  apply_cursors (ok []) c = (c, fails parse (failure (codes "no explorer_cursors in state file")))
  apply_cursors (ok (x ∷ cs)) c = (
    record c {
      explorer_cursor = set_cursors (x ∷ cs) c.explorer_cursor;
      last_block =
          P.set c.last_block
            (P.float64 (furthest (x ∷ cs) (record { max_cur = pos 0; first = true })).max_cur);
    },
    success,
  )

  read_state : StateWorld → StateFile → BridgeStateCollector P → BridgeStateCollector P × Outcome
  unfolding apply_cursors
  read_state w fi c =
      if ltb max_state_file_size fi.size
      then (c, fails io (failure (codes "state file size")))
      else elim (w.open_file c.path) [ err e ↦ (c, fails io e) | ok _ ↦ apply_cursors w.decode c ]

  stat_state :
      StateWorld → Result StateFile → BridgeStateCollector P → BridgeStateCollector P × Outcome
  unfolding read_state
  stat_state w (err e) c = (c, fails io e)
  stat_state w (ok fi) c =
      read_state w fi (record c { mtime = P.set c.mtime (P.float64 (unix fi.mod_time)) })

  -- Tick
  unfoldable pub tick : StateWorld → BridgeStateCollector P → BridgeStateCollector P × Outcome
  unfolding stat_state
  tick w c = if is_empty c.path then (c, success) else stat_state w (w.stat c.path) c
