-- ===== src/Collectors/Base/Cached.antt =====
-- The cache of internal/collectors/base.go under any calls of any goroutines.
use vpub_exporter.Prelude.{Option, some, List, [], ◌∷◌, ◌≡◌, refl, ap}
use vpub_exporter.Collectors.Base.{Cache, store, load}

module _ (D : Type 0) where
  pub data CacheCall : Type 0 where
    storing : D → CacheCall
    loading : CacheCall

  -- What the calls of Load return, where the calls take place in this order.
  abbrev pub loads : List CacheCall → Cache D → List (Option D)
  loads [] c = []
  loads (storing v ∷ cs) c = loads cs (store v c)
  loads (loading ∷ cs) c = load c ∷ loads cs c

  -- For each Load the value of the Store before it, or `old` where there is none.
  abbrev pub last_stored : Option D → List CacheCall → List (Option D)
  last_stored old [] = []
  last_stored old (storing v ∷ cs) = last_stored (some v) cs
  last_stored old (loading ∷ cs) = old ∷ last_stored old cs

  -- Each Load returns the value of the last Store before it, else what the cache held at first.
  pub loads-last_stored :
      (cs : List CacheCall) (c : Cache D) → loads cs c ≡ last_stored c.content cs
  unfolding store load
  loads-last_stored [] c = refl
  loads-last_stored (storing v ∷ cs) c = loads-last_stored cs (store v c)
  loads-last_stored (loading ∷ cs) c = ap (◌∷◌ c.content) (loads-last_stored cs c)
