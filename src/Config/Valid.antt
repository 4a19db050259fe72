-- ===== src/Config/Valid.antt =====
-- What a configuration that Load accepts is like.
use vpub_exporter.Prelude.{
  false, ◌⊎◌, ◌↔◌, Bool-cases, inl, inr, none, some, Option-cases, List, [], ◌∷◌, ◌≡◌, ◌≢◌, refl,
  arith, All, pos, ◌<ℤ◌,
}
use vpub_exporter.Text.{Bytes, codes, is_empty, split, trim_space}
use vpub_exporter.Errors.{Error, Result, ok, err}
use vpub_exporter.Config.{
  Config, Flags, Env, Assoc, lookup, missing_url, validate, trimmed, or_default, split_or_default,
  env_or, default_visor_log_dir, default_component_log_dir,
}
use mathlib.Core.Path.{subst}
use vpub_exporter.Config.Targets.{IsTargets, binary_targets-IsTargets}
use vpub_exporter.Config.Load.{
  checked, build, load, default_vote_ok_patterns, default_vote_fail_patterns,
  default_provider_fail_patterns, default_oracle_vote_ok_patterns,
  default_oracle_vote_fail_patterns, default_log_warn_patterns, default_log_crit_patterns,
}

abbrev pub HasUrls : Assoc → List Bytes → Type 0
HasUrls urls = All (λ n. is_empty (lookup urls n) ≡ false)

-- What Validate checks.
pub record IsValid (c : Config) : Type 0 where
  pub listen_addr : is_empty c.listen_addr ≡ false
  pub service_name : is_empty c.service_name ≡ false
  pub scrape_interval : pos 0 <ℤ c.scrape_interval
  pub visor_log_dir : is_empty c.visor_log_dir ≡ false
  pub component_log_dir : is_empty c.component_log_dir ≡ false
  pub urls : HasUrls c.bridge_rpc_urls c.bridge_rpc_names

missing_url-HasUrls :
    (urls : Assoc) (ns : List Bytes) → missing_url urls ns ≡ false → HasUrls urls ns
unfolding missing_url
missing_url-HasUrls urls [] h = tt
missing_url-HasUrls urls (n ∷ ns) h = (ground arith, missing_url-HasUrls urls ns (ground arith))

HasUrls-missing_url :
    (urls : Assoc) (ns : List Bytes) → HasUrls urls ns → missing_url urls ns ≡ false
unfolding missing_url
HasUrls-missing_url urls [] h = refl
HasUrls-missing_url urls (n ∷ ns) h = rw h.0 (HasUrls-missing_url urls ns h.1)

-- Validate returns no error exactly for the configurations with an address, a service, a positive
-- interval, both log directories and a URL for each provider.
pub validate_iff : (c : Config) → (validate c ≡ none → IsValid c) × (IsValid c → validate c ≡ none)
unfolding validate
validate_iff c = (
  λ h. record {
    listen_addr = ground arith;
    service_name = ground arith;
    scrape_interval = ground arith;
    visor_log_dir = ground arith;
    component_log_dir = ground arith;
    urls = missing_url-HasUrls c.bridge_rpc_urls c.bridge_rpc_names (ground arith);
  },
  λ v. ground (arith, HasUrls-missing_url c.bridge_rpc_urls c.bridge_rpc_names v.urls),
)

-- Each pattern has no spaces around it and is not empty, as trimming leaves it.
abbrev pub IsTrimmed : Bytes → Type 0
IsTrimmed p = (raw : Bytes) × (p ≡ trim_space raw) × (is_empty p ≡ false)

trimmed-IsTrimmed : (ps : List Bytes) → All IsTrimmed (trimmed ps)
unfolding trimmed
trimmed-IsTrimmed [] = tt
trimmed-IsTrimmed (p ∷ ps) = elim (Bool-cases (is_empty (trim_space p))) [
  | inl e ↦ rw e (trimmed-IsTrimmed ps)
  | inr e ↦ rw e ((p, refl, e), trimmed-IsTrimmed ps)
]

-- A list of patterns from the environment is the default, if the variable has no pattern, or else
-- is not empty and holds only trimmed patterns that are not empty.
abbrev pub IsPatterns : List Bytes → List Bytes → Type 0
IsPatterns def ps = (ps ≡ def) ⊎ ((ps ≢ []) × All IsTrimmed ps)

split_or_default-IsPatterns :
    (raw : Bytes) (def : List Bytes) → IsPatterns def (split_or_default raw def)
unfolding split_or_default or_default
split_or_default-IsPatterns raw def = elim (Bool-cases (is_empty raw)) [
  | inl e ↦ rw e (inl refl)
  | inr e ↦ rw e (go (trimmed (split raw b'\n')) (trimmed-IsTrimmed (split raw b'\n')))
]
  where
    go : (ps : List Bytes) → All IsTrimmed ps → IsPatterns def (or_default ps def)
    go [] h = inl refl
    go (p ∷ ps) h = inr (λ e. ground arith, h)

-- The flags that Validate accepts.
abbrev pub FlagsValid : Flags → Type 0
FlagsValid f =
    (is_empty f.listen_addr ≡ false)
    × (is_empty f.service_name ≡ false)
    × (pos 0 <ℤ f.scrape_interval)

checked_iff : (c : Config) → (checked c ≡ ok c) ↔ (validate c ≡ none)
unfolding checked
checked_iff c = (λ h. ground arith, λ h. rw (h, checked))

env_or_nonempty :
    (getenv : Env) (key def : Bytes)
    → is_empty def ≡ false
    → is_empty (env_or getenv key def) ≡ false
env_or_nonempty getenv key def h = ground arith

build-IsValid :
    (f : Flags) (getenv : Env)
    → (FlagsValid f × HasUrls (build f getenv).bridge_rpc_urls (build f getenv).bridge_rpc_names)
    → IsValid (build f getenv)
unfolding build
build-IsValid f getenv (flags, urls) = record {
  listen_addr = flags.0;
  service_name = flags.1;
  scrape_interval = flags.2;
  visor_log_dir = env_or_nonempty getenv (codes "VPUB_VISOR_LOG_DIR") default_visor_log_dir refl;
  component_log_dir =
      env_or_nonempty getenv (codes "VPUB_COMPONENT_LOG_DIR") default_component_log_dir refl;
  urls = urls;
}

IsValid-build :
    (f : Flags) (getenv : Env)
    → IsValid (build f getenv)
    → FlagsValid f × HasUrls (build f getenv).bridge_rpc_urls (build f getenv).bridge_rpc_names
unfolding build
IsValid-build f getenv v = ((v.listen_addr, v.service_name, v.scrape_interval), v.urls)

-- No environment makes a log directory empty, so Load accepts what it built exactly when the flags
-- are valid and each provider has a URL.
pub load_iff :
    (f : Flags) (getenv : Env)
    → (FlagsValid f × HasUrls (build f getenv).bridge_rpc_urls (build f getenv).bridge_rpc_names)
      ↔ (load (ok f) getenv ≡ ok (build f getenv))
unfolding load
load_iff f getenv =
    let c : Config = build f getenv in
    (
      λ h. (checked_iff c).1 ((validate_iff c).1 (build-IsValid f getenv h)),
      λ h. IsValid-build f getenv ((validate_iff c).0 ((checked_iff c).0 h)),
    )

-- What holds of the patterns of a configuration.
pub record HasPatterns (c : Config) : Type 0 where
  pub vote_ok : IsPatterns default_vote_ok_patterns c.vote_ok_patterns
  pub vote_fail : IsPatterns default_vote_fail_patterns c.vote_fail_patterns
  pub provider_fail : IsPatterns default_provider_fail_patterns c.provider_fail_patterns
  pub oracle_ok : IsPatterns default_oracle_vote_ok_patterns c.oracle_vote_ok_patterns
  pub oracle_fail : IsPatterns default_oracle_vote_fail_patterns c.oracle_vote_fail_patterns
  pub log_warn : IsPatterns default_log_warn_patterns c.log_warn_patterns
  pub log_crit : IsPatterns default_log_crit_patterns c.log_crit_patterns

build-HasPatterns : (f : Flags) (getenv : Env) → HasPatterns (build f getenv)
unfolding build
build-HasPatterns f getenv = record {
  vote_ok = split_or_default-IsPatterns _ default_vote_ok_patterns;
  vote_fail = split_or_default-IsPatterns _ default_vote_fail_patterns;
  provider_fail = split_or_default-IsPatterns _ default_provider_fail_patterns;
  oracle_ok = split_or_default-IsPatterns _ default_oracle_vote_ok_patterns;
  oracle_fail = split_or_default-IsPatterns _ default_oracle_vote_fail_patterns;
  log_warn = split_or_default-IsPatterns _ default_log_warn_patterns;
  log_crit = split_or_default-IsPatterns _ default_log_crit_patterns;
}

build-IsTargets : (f : Flags) (getenv : Env) → IsTargets (build f getenv).binary_targets
unfolding build
build-IsTargets f getenv = binary_targets-IsTargets _ _

-- A configuration that Load returns passes Validate, has only known binary targets, each with a
-- path, and each of its seven lists of patterns is the default or holds trimmed patterns that are
-- not empty, at least one of them.
pub load-IsValid :
    (f : Result Flags) (getenv : Env) (c : Config)
    → load f getenv ≡ ok c
    → IsValid c × IsTargets c.binary_targets × HasPatterns c
unfolding load
load-IsValid (err e) getenv c h = cc
load-IsValid (ok f) getenv c h = go (Option-cases (validate b))
  where
    b : Config
    b = build f getenv

    go :
        (validate b ≡ none) ⊎ ((e : Error) × (validate b ≡ some e))
        → IsValid c × IsTargets c.binary_targets × HasPatterns c
    go (inl v) =
        let e : b ≡ c = unfold checked in ground arith in
        subst (λ x. IsValid x × IsTargets x.binary_targets × HasPatterns x) e
          ((validate_iff b).0 v, build-IsTargets f getenv, build-HasPatterns f getenv)
    go (inr (x, v)) = unfold checked in ground arith
