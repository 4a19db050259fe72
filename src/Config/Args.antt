-- ===== src/Config/Args.antt =====
-- The flags that `Load` of internal/config/config.go declares, and what fs.Parse of Go's package flag
-- makes of a command line with them.
pub mod Written
use vpub_exporter.Prelude.{
  ℕ, Bool, true, false, ◌||◌, Option, none, some, List, [], ◌∷◌, ◌++◌, ◌≡◌, refl, ap, ◌∙◌, arith,
  ◌==◌, if◌then◌else◌, ℤ, pos,
}
use vpub_exporter.Text.{Bytes, codes, bytes_eq}
use vpub_exporter.Errors.{Result, ok, err, failure, ◌>>=◌}
use vpub_exporter.Config.{Flags}

-- The values before fs.Parse; 30 and 10 seconds.
abbrev pub default_flags : Flags
default_flags = record {
  listen_addr = codes ":8002";
  service_name = codes "validator-publisher.service";
  scrape_interval = pos 30000000000;
  shutdown_timeout = pos 10000000000;
}

-- The four calls of StringVar and DurationVar.
pub data FlagName : Type 0 where
  listen_addr service_name scrape_interval shutdown_timeout : FlagName

abbrev pub name_of : FlagName → Bytes
name_of listen_addr = codes "listen-addr"
name_of service_name = codes "service-name"
name_of scrape_interval = codes "scrape-interval"
name_of shutdown_timeout = codes "shutdown-timeout"

abbrev pub find_flag : Bytes → Option FlagName
find_flag n =
    if bytes_eq n (name_of listen_addr)
    then some listen_addr
    else if bytes_eq n (name_of service_name)
    then some service_name
    else if bytes_eq n (name_of scrape_interval)
    then some scrape_interval
    else if bytes_eq n (name_of shutdown_timeout)
    then some shutdown_timeout
    else none

-- An argument: the end of the flags, a wrong flag, or a name, with a value behind "=" if there is
-- one.
pub data Shape : Type 0 where
  stop bad : Shape
  flag : Bytes → Option Bytes → Shape

-- A name and what stands behind the first "=".
cut : Bytes → Bytes × Option Bytes
cut [] = ([], none)
cut (c ∷ s) = let rest = cut s in if c == b'=' then ([], some s) else (c ∷ rest.0, rest.1)

named : Bytes → Shape
unfolding cut
named [] = bad
named (c ∷ s) = if c == b'-' || c == b'=' then bad else flag (cut (c ∷ s)).0 (cut (c ∷ s)).1

shape : Bytes → Shape
unfolding named
shape (c ∷ d ∷ s) =
    if c == b'-'
    then (if d == b'-' then (elim s [ [] ↦ stop | x ∷ t ↦ named (x ∷ t) ]) else named (d ∷ s))
    else stop
shape _ = stop

-- time.ParseDuration is a parameter.
module _ (parse_duration : Bytes → Option ℤ) where
  -- Set of the flag's value
  unfoldable pub set_flag : FlagName → Bytes → Flags → Result Flags
  set_flag listen_addr v f = ok (record f { listen_addr = v })
  set_flag service_name v f = ok (record f { service_name = v })
  set_flag scrape_interval v f = elim (parse_duration v) [
    | some d ↦ ok (record f { scrape_interval = d })
    | none ↦ err (failure (codes "invalid value"))
  ]
  set_flag shutdown_timeout v f = elim (parse_duration v) [
    | some d ↦ ok (record f { shutdown_timeout = d })
    | none ↦ err (failure (codes "invalid value"))
  ]

  -- The arguments, where a flag whose value is the next argument may stand in front. The error for
  -- -h and -help, which are not declared, is not told apart.
  unfoldable pub parse_from : List Bytes → Option FlagName → Flags → Result Flags
  unfolding shape set_flag
  parse_from [] none f = ok f
  parse_from [] (some n) f = err (failure (codes "flag needs an argument"))
  parse_from (v ∷ rest) (some n) f = do f' ← set_flag n v f; parse_from rest none f'
  parse_from (a ∷ rest) none f = elim (shape a) [
    | stop ↦ ok f
    | bad ↦ err (failure (codes "bad flag syntax"))
    | flag name value ↦ elim (find_flag name) [
      | none ↦ err (failure (codes "flag provided but not defined"))
      | some n ↦ elim value [
        | none ↦ parse_from rest (some n) f
        | some v ↦ (do f' ← set_flag n v f; parse_from rest none f')
      ]
    ]
  ]

  -- fs.Parse(args) behind the four declarations
  unfoldable pub parse_args : List Bytes → Result Flags
  unfolding parse_from
  parse_args args = parse_from args none default_flags
