-- ===== src/Config/Targets.antt =====
-- The maps of the configuration: assignment, and the binary targets.
use vpub_exporter.Prelude.{
  true, false, ◌&&◌, ◌||◌, Option, none, some, not, Bool-cases, inl, inr, List, [], ◌∷◌, ◌≡◌, refl,
  ◌∙◌, ap, arith, if◌then◌else◌, All,
}
use vpub_exporter.Text.{Bytes, bytes_eq, bytes_eq_iff, is_empty, split, split_n2, trim_space}
use vpub_exporter.Components.{component_visor}
use vpub_exporter.Config.{
  Assoc, lookup, assign, is_component, default_binary_targets, add_target, add_targets,
  binary_targets,
}

pub lookup-assign :
    (m : Assoc) (k v j : Bytes) → lookup (assign m k v) j ≡ (if bytes_eq k j then v else lookup m j)
unfolding lookup assign
lookup-assign [] k v j = refl
lookup-assign ((i, w) ∷ m) k v j =
    ground (arith, bytes_eq_iff i k, bytes_eq_iff k j, bytes_eq_iff i j, lookup-assign m k v j)

-- Every key is one of the four components, and every path is not empty.
abbrev pub IsTargets : Assoc → Type 0
IsTargets = All (λ t. (is_component t.0 ≡ true) × (is_empty t.1 ≡ false))

assign-IsTargets :
    (m : Assoc) (k v : Bytes)
    → is_component k ≡ true
    → is_empty v ≡ false
    → IsTargets m
    → IsTargets (assign m k v)
unfolding assign
assign-IsTargets [] k v hk hv h = ((hk, hv), tt)
assign-IsTargets ((j, w) ∷ m) k v hk hv h = elim (Bool-cases (bytes_eq j k)) [
  | inl e ↦ rw e ((h.0.0, hv), h.1)
  | inr e ↦ rw e (h.0, assign-IsTargets m k v hk hv h.1)
]

add_target-IsTargets : (kv : List Bytes) (m : Assoc) → IsTargets m → IsTargets (add_target kv m)
unfolding add_target
add_target-IsTargets (key ∷ value ∷ []) m h =
    let name = trim_space key in
    let path = trim_space value in
    elim (Bool-cases (is_empty name || is_empty path)) [
      | inl e ↦ rw e h
      | inr e ↦ elim (Bool-cases (is_component name)) [
        | inl c ↦ rw (e, c) (assign-IsTargets m name path c (ground arith) h)
        | inr c ↦ rw (e, c) h
      ]
    ]
add_target-IsTargets _ m h = h

add_targets-IsTargets :
    (pairs : List Bytes) (m : Assoc) → IsTargets m → IsTargets (add_targets pairs m)
unfolding add_targets
add_targets-IsTargets [] m h = h
add_targets-IsTargets (pair ∷ pairs) m h =
    let kept = add_target-IsTargets (split_n2 (trim_space pair) b'=') m h in
    elim (Bool-cases (is_empty (trim_space pair))) [
      | inl e ↦ rw e (add_targets-IsTargets pairs m h)
      | inr e ↦
          rw e (add_targets-IsTargets pairs (add_target (split_n2 (trim_space pair) b'=') m) kept)
    ]

base-IsTargets :
    (path : Bytes)
    → IsTargets (
        if is_empty path
        then default_binary_targets
        else assign default_binary_targets component_visor path)
base-IsTargets path =
    let defaults : IsTargets default_binary_targets =
      ((refl, refl), ((refl, refl), ((refl, refl), ((refl, refl), tt)))) in
    elim (Bool-cases (is_empty path)) [
      | inl e ↦ rw e defaults
      | inr e ↦ rw e (assign-IsTargets default_binary_targets component_visor path refl e defaults)
    ]

-- Whatever the two variables hold, every binary target is one of the four components and has a path:
-- unknown names and empty parts are dropped.
pub binary_targets-IsTargets : (path raw : Bytes) → IsTargets (binary_targets path raw)
unfolding binary_targets
binary_targets-IsTargets path raw = elim (Bool-cases (is_empty raw)) [
  | inl e ↦ rw e (base-IsTargets path)
  | inr e ↦ rw e (add_targets-IsTargets (split raw b',') _ (base-IsTargets path))
]

-- What a pair of VPUB_BINARY_TARGETS assigns, if it is well formed: a component and a path.
abbrev parts_assign : List Bytes → Option (Bytes × Bytes)
parts_assign (key ∷ value ∷ []) =
    if is_empty (trim_space key) || is_empty (trim_space value)
    then none
    else if is_component (trim_space key)
    then some (trim_space key, trim_space value)
    else none
parts_assign _ = none

abbrev pub pair_assigns : Bytes → Option (Bytes × Bytes)
pair_assigns pair =
    if is_empty (trim_space pair) then none else parts_assign (split_n2 (trim_space pair) b'=')

-- The path of `k` after some pairs.
abbrev pub path_after : Bytes → Bytes → List Bytes → Bytes
path_after k path [] = path
path_after k path (pair ∷ pairs) =
    path_after k
      (elim (pair_assigns pair) [ none ↦ path | some (n, p) ↦ if bytes_eq n k then p else path ])
      pairs

add_target-lookup :
    (kv : List Bytes) (m : Assoc) (k : Bytes)
    → lookup (add_target kv m) k ≡ elim (parts_assign kv) [
      | none ↦ lookup m k
      | some (n, p) ↦ if bytes_eq n k then p else lookup m k
    ]
unfolding add_target
add_target-lookup (key ∷ value ∷ []) m k =
    elim (Bool-cases (is_empty (trim_space key) || is_empty (trim_space value))) [
      | inl e ↦ rw e
      | inr e ↦ elim (Bool-cases (is_component (trim_space key))) [
        | inl c ↦ rw (e, c) (lookup-assign m (trim_space key) (trim_space value) k)
        | inr c ↦ rw (e, c)
      ]
    ]
add_target-lookup _ m k = refl

add_targets-lookup :
    (pairs : List Bytes) (m : Assoc) (k : Bytes)
    → lookup (add_targets pairs m) k ≡ path_after k (lookup m k) pairs
unfolding add_targets
add_targets-lookup [] m k = refl
add_targets-lookup (pair ∷ pairs) m k = elim (Bool-cases (is_empty (trim_space pair))) [
  | inl e ↦ rw e (add_targets-lookup pairs m k)
  | inr e ↦ rw e (
      add_targets-lookup pairs (add_target (split_n2 (trim_space pair) b'=') m) k
      ∙ ap (λ v. path_after k v pairs) (add_target-lookup (split_n2 (trim_space pair) b'=') m k))
]

-- The path of a component is that of the last well-formed pair that names it; with no such pair it
-- is VPUB_BINARY_PATH for the visor if that is set, and else the default.
pub binary_targets-lookup :
    (path raw k : Bytes)
    → lookup (binary_targets path raw) k
      ≡ path_after k
          (if not (is_empty path) && bytes_eq component_visor k
            then path
            else lookup default_binary_targets k)
          (if is_empty raw then [] else split raw b',')
unfolding binary_targets
binary_targets-lookup path raw k = elim (Bool-cases (is_empty path)) [
  | inl e ↦ elim (Bool-cases (is_empty raw)) [
    | inl r ↦ rw (e, r)
    | inr r ↦ rw (e, r) (add_targets-lookup (split raw b',') default_binary_targets k)
  ]
  | inr e ↦
      let set = lookup-assign default_binary_targets component_visor path k in
      elim (Bool-cases (is_empty raw)) [
        | inl r ↦ rw (e, r) set
        | inr r ↦
            rw (e, r)
              (add_targets-lookup (split raw b',')
                  (assign default_binary_targets component_visor path) k
                ∙ ap (λ v. path_after k v (split raw b',')) set)
      ]
]
