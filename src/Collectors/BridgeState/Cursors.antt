-- ===== src/Collectors/BridgeState/Cursors.antt =====
-- What a tick of the bridge state collector shows.
use vpub_exporter.Prelude.{
  ◌≤◌, true, false, some, [], ◌∷◌, ◌≡◌, ◌⊎◌, inl, refl, arith, ℤ, pos, ◌≤ℤ◌, All,
}
use vpub_exporter.Text.{Bytes, is_empty}
use vpub_exporter.Errors.{Error, ok, success}
use vpub_exporter.Clock.{unix}
use vpub_exporter.Prometheus.{Prometheus}
use vpub_exporter.Collectors.BridgeState.{
  BridgeStateCollector, StateWorld, StateFile, Cursors, Furthest, further, furthest,
  max_state_file_size, apply_cursors, read_state, stat_state, tick,
}

-- Some cursor of the list is `m`.
abbrev pub IsSome : ℤ → Cursors → Type 0
IsSome m [] = ⊥
IsSome m ((name, cur) ∷ cs) = (cur ≡ m) ⊎ IsSome m cs

-- `m` is the greatest cursor.
abbrev pub IsMax : ℤ → Cursors → Type 0
IsMax m cs = IsSome m cs × All (λ c. c.1 ≤ℤ m) cs

further_lem :
    (cur : ℤ) (m : Furthest)
    → ((further cur m).first ≡ false)
      × (cur ≤ℤ (further cur m).max_cur)
      × (m.first ≡ false → m.max_cur ≤ℤ (further cur m).max_cur)
      × (((further cur m).max_cur ≡ cur)
          ⊎ ((m.first ≡ false) × ((further cur m).max_cur ≡ m.max_cur)))
unfolding further
further_lem cur m = ground arith

≤ℤ_trans : (a b c : ℤ) → a ≤ℤ b → b ≤ℤ c → a ≤ℤ c
≤ℤ_trans a b c h k = omega arith

furthest-first :
    (cs : Cursors) (m : Furthest)
    → m.first ≡ false
    → (m.max_cur ≤ℤ (furthest cs m).max_cur)
      × (((furthest cs m).max_cur ≡ m.max_cur) ⊎ IsSome (furthest cs m).max_cur cs)
      × All (λ c. c.1 ≤ℤ (furthest cs m).max_cur) cs
unfolding furthest
furthest-first [] m f = (omega arith, inl refl, tt)
furthest-first ((name, cur) ∷ cs) m f =
    let (started, above, over, which) = further_lem cur m in
    let (grown, among, bound) = furthest-first cs (further cur m) started in
    let top : ℤ = (furthest cs (further cur m)).max_cur in
    (
      ≤ℤ_trans m.max_cur (further cur m).max_cur top (over f) grown,
      ground arith,
      (≤ℤ_trans cur (further cur m).max_cur top above grown, bound),
    )

furthest-IsMax :
    (x : Bytes × ℤ) (cs : Cursors)
    → IsMax (furthest (x ∷ cs) (record { max_cur = pos 0; first = true })).max_cur (x ∷ cs)
unfolding furthest further
furthest-IsMax (name, cur) cs =
    let (grown, among, bound) = furthest-first cs (record { max_cur = cur; first = false }) refl in
    (ground arith, (grown, bound))

module _ (P : Prometheus) where
  -- What Tick reads when every step succeeds.
  pub record Succeeds (w : StateWorld) (path : Bytes) (cs : Cursors) : Type 0 where
    pub file : StateFile
    pub stat_is : w.stat path ≡ ok file
    pub fits : file.size ≤ max_state_file_size
    pub opens : w.open_file path ≡ ok tt
    pub decodes : w.decode ≡ ok cs

  -- When the file can be read and has cursors, the tick succeeds, the block gauge shows the greatest
  -- cursor in whatever order the map is ranged over, and the time gauge that of the file.
  pub tick-IsMax :
      (w : StateWorld) (c : BridgeStateCollector P) (x : Bytes × ℤ) (cs : Cursors)
      → is_empty c.path ≡ false
      → (s : Succeeds w c.path (x ∷ cs))
      → (m : ℤ) × IsMax m (x ∷ cs)
        × (P.value (tick P w c).0.last_block ≡ P.float64 m)
        × (P.value (tick P w c).0.mtime ≡ P.float64 (unix s.file.mod_time))
        × ((tick P w c).1 ≡ success)
  unfolding tick stat_state read_state apply_cursors
  tick-IsMax w c x cs ne s =
      let m : ℤ = (furthest (x ∷ cs) (record { max_cur = pos 0; first = true })).max_cur in
      (
        m,
        furthest-IsMax x cs,
        ground (arith, P.value-set c.last_block (P.float64 m)),
        ground (arith, P.value-set c.mtime (P.float64 (unix s.file.mod_time))),
        ground arith,
      )

  -- A tick that fails leaves the block gauge and the cursors as they were.
  pub tick_failure :
      (w : StateWorld) (c : BridgeStateCollector P) (e : Error)
      → (tick P w c).1.error ≡ some e
      → ((tick P w c).0.last_block ≡ c.last_block)
        × ((tick P w c).0.explorer_cursor ≡ c.explorer_cursor)
  unfolding tick stat_state read_state apply_cursors
  tick_failure w c e h = ground arith
