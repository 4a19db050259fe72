-- ===== src/Registry.antt =====
-- The registry of Prometheus, which is outside this repository, as the constructors and `run` use it.
mod Distinct
unfoldable pub use Distinct.*
use vpub_exporter.Prelude.{
  Bool, true, false, ◌≡◌, ◌++◌, Option, none, some, List, [], ◌∷◌, if◌then◌else◌, map, All,
}
use vpub_exporter.Text.{Bytes, codes, is_empty, valid_string}
use vpub_exporter.Prometheus.{Opts}

-- prometheus.BuildFQName for a name that is not empty: the parts with "_" between them, without the
-- empty ones.
abbrev pub joined : Opts → Bytes
joined o =
    let last : Bytes = if is_empty o.subsystem then o.name else o.subsystem ++ (b'_' ∷ o.name) in
    if is_empty o.namespace then last else o.namespace ++ (b'_' ∷ last)

abbrev pub IsNamed : Opts → Type 0
IsNamed o = is_empty o.name ≡ false

-- Registering fails, and MustRegister then panics (`none`), if a full name is there already. The
-- laws are the documented behaviour: with new and distinct names it succeeds. `names` has the full
-- names of what is registered, which differ.
pub record Registerer : Type 1 where
  pub Registry : Type 0
  pub fq_name : Opts → Bytes
  pub fq_name-joined : (o : Opts) → IsNamed o → fq_name o ≡ joined o
  pub names : Registry → List Bytes
  pub must_register : Registry → List Opts → Option Registry
  -- WithLabelValues panics for a value that it does not accept: one that is not UTF-8.
  pub accepts_label : Bytes → Bool
  pub accepts_label-valid : (v : Bytes) → accepts_label v ≡ valid_string v
  pub must_register-some :
      (r : Registry) (os : List Opts)
      → distinct (map fq_name os ++ names r) ≡ true
      → (r' : Registry) × (must_register r os ≡ some r') × (names r' ≡ map fq_name os ++ names r)
