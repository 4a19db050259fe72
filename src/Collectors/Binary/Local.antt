-- ===== src/Collectors/Binary/Local.antt =====
-- The order of the components and what a tick of the local times shows.
use vpub_exporter.Prelude.{true, false, Bool-cases, inl, inr, List, [], ◌∷◌, ◌≡◌, refl, arith, map}
use mathlib.Core.List.{Perm}
use mathlib.Core.List.Perm
use vpub_exporter.Text.{Bytes}
use vpub_exporter.Components.{ComponentName}
use vpub_exporter.Collectors.Binary.{Targets, bytes_lt, insert_name, components_sorted}

-- Each name is not after the next.
abbrev pub IsSorted : List ComponentName → Type 0
IsSorted [] = Unit
IsSorted (n ∷ []) = Unit
IsSorted (n ∷ m ∷ ms) = (bytes_lt m n ≡ false) × IsSorted (m ∷ ms)

bytes_lt_asym : (s t : Bytes) → bytes_lt s t ≡ true → bytes_lt t s ≡ false
unfolding bytes_lt
bytes_lt_asym [] [] h = cc
bytes_lt_asym [] (b ∷ t) h = refl
bytes_lt_asym (a ∷ s) [] h = cc
bytes_lt_asym (a ∷ s) (b ∷ t) h = ground (arith, bytes_lt_asym s t)

insert_name-IsSorted :
    (n : ComponentName) (ms : List ComponentName) → IsSorted ms → IsSorted (insert_name n ms)
unfolding insert_name
insert_name-IsSorted n [] h = tt
insert_name-IsSorted n (m ∷ []) h = ground (arith, bytes_lt_asym n m)
insert_name-IsSorted n (m ∷ k ∷ ks) h =
    ground (arith, bytes_lt_asym n m, insert_name-IsSorted n (k ∷ ks) h.1)

insert_name-perm : (n : ComponentName) (ms : List ComponentName) → Perm (insert_name n ms) (n ∷ ms)
unfolding insert_name
insert_name-perm n [] = Perm.refl (n ∷ [])
insert_name-perm n (m ∷ ms) = elim (Bool-cases (bytes_lt n m)) [
  | inl e ↦ rw e (Perm.refl (n ∷ m ∷ ms))
  | inr e ↦ rw e (Perm.trans (Perm.cons m (insert_name-perm n ms)) (Perm.swap n m ms))
]

components_sorted-IsSorted : (ts : Targets) → IsSorted (components_sorted ts)
unfolding components_sorted
components_sorted-IsSorted [] = tt
components_sorted-IsSorted ((k, p) ∷ ts) =
    insert_name-IsSorted k (components_sorted ts) (components_sorted-IsSorted ts)

components_sorted-perm : (ts : Targets) → Perm (components_sorted ts) (map (λ t. t.0) ts)
unfolding components_sorted
components_sorted-perm [] = Perm.refl []
components_sorted-perm ((k, p) ∷ ts) =
    Perm.trans (insert_name-perm k (components_sorted ts)) (Perm.cons k (components_sorted-perm ts))

-- The components are the keys of the targets, each as often, in ascending order.
pub components_sorted_lem :
    (ts : Targets)
    → IsSorted (components_sorted ts) × Perm (components_sorted ts) (map (λ t. t.0) ts)
components_sorted_lem ts = (components_sorted-IsSorted ts, components_sorted-perm ts)
