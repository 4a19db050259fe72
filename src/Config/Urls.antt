-- ===== src/Config/Urls.antt =====
-- The URLs of the RPC providers of internal/config/config.go, by their names.
use vpub_exporter.Prelude.{
  Bool, true, false, Bool-cases, inl, inr, List, [], ◌∷◌, ◌++◌, ◌≡◌, refl, ◌∙◌, any, if◌then◌else◌,
}
use vpub_exporter.Text.{Bytes, codes, bytes_eq, bytes_eq_iff, bytes_eq_refl}
use vpub_exporter.Config.{Flags, Env, Assoc, lookup, assign, env_key, rpc_urls}
use vpub_exporter.Config.Load.{build}
use vpub_exporter.Config.Targets.{lookup-assign}

-- The variable of a provider.
abbrev pub url_key : Bytes → Bytes
url_key name = codes "VPUB_RPC_" ++ (env_key name ++ codes "_URL")

either {ℓ} : {A : Type ℓ} (b : Bool) (x : A) → (if b then x else x) ≡ x
either true x = refl
either false x = refl

rpc_urls-lookup :
    (getenv : Env) (ns : List Bytes) (urls : Assoc) (k : Bytes)
    → lookup (rpc_urls getenv ns urls) k
      ≡ (if any (λ n. bytes_eq n k) ns then getenv (url_key k) else lookup urls k)
unfolding rpc_urls
rpc_urls-lookup getenv [] urls k = refl
rpc_urls-lookup getenv (n ∷ ns) urls k =
    rpc_urls-lookup getenv ns (assign urls n (getenv (url_key n))) k
    ∙ elim (Bool-cases (bytes_eq n k)) [
      | inl e ↦
          let same : n ≡ k = (bytes_eq_iff n k).0 e in
          rw (lookup-assign urls n (getenv (url_key n)) k, same, bytes_eq_refl k)
            (either (any (λ m. bytes_eq m k) ns) (getenv (url_key k)))
      | inr e ↦ rw (lookup-assign urls n (getenv (url_key n)) k, e)
    ]

-- In the configuration that Load builds, each provider has the URL of its own variable, and a name
-- that is no provider has none.
pub build-url :
    (f : Flags) (getenv : Env) (k : Bytes)
    → lookup (build f getenv).bridge_rpc_urls k ≡ (
        if any (λ n. bytes_eq n k) (build f getenv).bridge_rpc_names
        then getenv (url_key k)
        else [])
unfolding build
build-url f getenv k = rpc_urls-lookup getenv _ [] k ∙ (unfold lookup in refl)
